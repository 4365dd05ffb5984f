-- ===== src/Sync/Tests.antt =====
-- The theorems on src/rbc/sync at concrete systems.
use rubidium_c.Prelude.{ℕ, ◌+◌, ◌-◌, ◌^◌, ◌≡◌, ◌≢◌, refl, false, ltb, ◌==◌, some, none, arith}
use rubidium_c.Prelude.Int.{ℤ, pos, negsuc}
use rubidium_c.Core.Error.{Error, ok, timed_out, not_implemented, not_enough_memory}
use rubidium_c.Time.Point.{time_unix_epoch}
use rubidium_c.Time.Duration.Timespec.{TimeType}
use rubidium_c.Sync.World.{Call, malloc_succeeds, cond_wait, call, World, out_of_fuel}
use rubidium_c.Sync.Impl.Laws.{IsFresh}
use rubidium_c.Sync.Mutex
use rubidium_c.Sync.RecursiveMutex
use rubidium_c.Sync.SharedMutex
use rubidium_c.Sync.Semaphore
use rubidium_c.Sync.CondVar
use rubidium_c.Sync.Barrier
use rubidium_c.Sync.Spinlock
use rubidium_c.Sync.Tls
use rubidium_c.Core.Error.Windows.{WinCode, success}
use rubidium_c.Sync.World.{fault}
use rubidium_c.Sync.Windows.{WinCall}
use rubidium_c.Sync.Windows.Mutex as WinMutex
use rubidium_c.Sync.Windows.RecursiveMutex as WinRecursiveMutex
use rubidium_c.Sync.Windows.SharedMutex as WinSharedMutex
use rubidium_c.Sync.Windows.CondVar as WinCondVar
use rubidium_c.Sync.Windows.Semaphore as WinSemaphore
use rubidium_c.Sync.Windows.Barrier as WinBarrier
use rubidium_c.Sync.Windows.Tls as WinTls
use rubidium_c.Sync.Windows.Destroys.{GivenBack, twice, destroy_twice_lem}
use rubidium_c.Sync.Lifecycle.{Restored, destroyed_twice, lifecycle_lem}
use rubidium_c.Sync.ConditionMutex.{ConditionMutex, Condition, eval, await, await_until}
use rubidium_c.Sync.ConditionMutex.Await.{
  IsSound, no_rounds, round, Succeeds, await-IsSound, await-Succeeds,
}
use rubidium_c.Sync.ConditionMutex.Windows
use rubidium_c.Sync.ConditionMutex.Deadline.{IsOver, meets, wakes, await_until-IsOver}
use rubidium_c.Sync.World.{cond_timedwait}
use rubidium_c.Prelude.{if◌then◌else◌}

abbrev long : TimeType
long = record { to_time_t = λ s. s; time_min = negsuc (2 ^ 63 - 1); time_max = pos (2 ^ 63 - 1) }

-- There is memory, every call succeeds, and each wait ends once another thread has counted up.
abbrev system : Call → ℕ → ℤ × ℕ
system malloc_succeeds s = (pos 1, s)
system (cond_wait a mtx) s = (pos 0, s + 1)
system _ s = (pos 0, s)

-- OK and three codes that the models name.
abbrev value : Error → ℤ
value ok = pos 0
value timed_out = pos 110
value not_enough_memory = pos 12
value not_implemented = negsuc 1
value _ = pos 1

nonzero : value not_enough_memory ≢ pos 0
nonzero same = ground arith

abbrev empty : World ℕ
empty = record { live = λ _. false; next = 0; os = 0 }

empty-IsFresh : IsFresh empty
empty-IsFresh a above = refl

-- A mutex at 0 and a condition variable at 1.
abbrev two : World ℕ
two = record { live = λ a. ltb a 2; next = 2; os = 0 }

lifecycle_lem_example :
    Restored system empty
      (destroyed_twice system (CondVar.destroy system) (CondVar.init system value) empty)
    × Restored system empty
        (destroyed_twice system (Barrier.destroy system) (Barrier.init system value 3) empty)
    × Restored system empty
        (destroyed_twice system (Spinlock.destroy system) (Spinlock.init system value) empty)
    × Restored system empty
        (destroyed_twice system (Tls.destroy system) (Tls.init system value) empty)
    × Restored system empty
        (destroyed_twice system (Mutex.destroy system) (Mutex.init system value none) empty)
    × Restored system empty (
        destroyed_twice system
          (RecursiveMutex.destroy system)
          (Mutex.recursive_init system value none)
          empty)
    × Restored system empty (
        destroyed_twice system
          (SharedMutex.destroy system)
          (SharedMutex.init system value none 3)
          empty)
    × Restored system empty
        (destroyed_twice system (Semaphore.destroy system) (Semaphore.init system value 3) empty)
lifecycle_lem_example = lifecycle_lem system value nonzero 3 empty empty-IsFresh

abbrev pair : ConditionMutex
pair = record { mu = some 0; cv = some 1 }

-- The other threads have counted to two.
abbrev at_two : Condition ℕ
at_two = record { fn = λ s. s == 2 }

await-IsSound_example :
    IsSound at_two (await system pair at_two 5 two)
    × IsSound at_two (await_until system value long pair at_two time_unix_epoch 5 two)
await-IsSound_example =
    await-IsSound system pair at_two value long time_unix_epoch 5 two (λ same. ground arith)

abbrev counted : ℕ → World ℕ
counted n = record { live = λ a. ltb a 2; next = 2; os = n }

await-Succeeds_example : Succeeds at_two (await system pair at_two 5 two)
unfolding CondVar.notify_all CondVar.wait call eval
await-Succeeds_example =
    await-Succeeds system pair at_two 1 5 two two (counted 2) refl
      (round two two (counted 1) (counted 2) 1 refl refl
        (round (counted 1) (counted 1) (counted 2) (counted 2) 0 refl refl (no_rounds (counted 2))))
      refl (omega arith)

await_until_spins_example :
    Windows.await_until (λ _ s. s) value pair at_two time_unix_epoch 1000 two ≡ out_of_fuel
await_until_spins_example =
    Windows.await_until_spins (λ _ s. s) value refl at_two (λ _ _. refl) (some 0) 1 time_unix_epoch
      1000 two refl refl

-- A system of Windows where every call succeeds, and no error was seen.
abbrev win_system : WinCall → ℕ → ℤ × ℕ
win_system c s = (pos 1, s)

abbrev no_error : ℕ → WinCode
no_error s = success

destroy_twice_lem_example :
    GivenBack two 1 (twice (WinSharedMutex.destroy win_system value) 1 two)
    × GivenBack two 1 (twice (WinCondVar.destroy win_system value) 1 two)
    × GivenBack two 1 (twice (WinSemaphore.destroy win_system value no_error) 1 two)
    × GivenBack two 1 (twice (WinTls.destroy win_system value no_error) 1 two)
    × (twice (WinMutex.destroy win_system value) 1 two ≡ fault)
    × (twice (WinRecursiveMutex.destroy win_system value) 1 two ≡ fault)
    × (twice (WinBarrier.destroy win_system value no_error) 1 two ≡ fault)
destroy_twice_lem_example = destroy_twice_lem win_system value no_error 1 two refl

-- The second wait is timed out.
abbrev late : Call → ℕ → ℤ × ℕ
late (cond_timedwait a mtx ts) s = (if s == 1 then pos 110 else pos 0, s + 1)
late _ s = (pos 0, s)

abbrev never : Condition ℕ
never = record { fn = λ s. false }

await_until-IsOver_example :
    IsOver never (pos 110) (await_until late value long pair never time_unix_epoch 5 two)
unfolding CondVar.notify_all CondVar.wait_until call
await_until-IsOver_example =
    await_until-IsOver late pair never value long time_unix_epoch 1 5 two two refl
      (wakes two two (counted 1) (pos 0) 0 refl refl refl
        (meets (counted 1) (counted 1) (counted 2) refl refl))
      (omega arith)
