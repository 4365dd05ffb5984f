-- ===== src/Sync/ConditionMutex/Entered/Tests.antt =====
-- A system in which a thread loses the mutex of src/rbc/sync/condition_mutex.c while it waits.
use rubidium_c.Prelude.{
  ℕ, ◌-◌, ◌^◌, ◌≡◌, refl, Bool, true, false, ltb, ◌==◌, if◌then◌else◌, some, arith, inr,
}
use rubidium_c.Prelude.Int.{ℤ, pos, negsuc}
use rubidium_c.Core.Error.{Error, ok, timed_out, state_not_recoverable}
use rubidium_c.Time.Point.{time_unix_epoch}
use rubidium_c.Time.Duration.Timespec.{TimeType}
use rubidium_c.Sync.World.{Call, mutex_lock, cond_wait, cond_timedwait, World, done, call}
use rubidium_c.Sync.Mutex
use rubidium_c.Sync.CondVar
use rubidium_c.Sync.ConditionMutex.{
  ConditionMutex, Condition, eval, await_loop, await_by, await_until_loop, await_until_by, await,
  await_until, lock, lock_when, lock_when_until,
}
use rubidium_c.Sync.ConditionMutex.Entered.{lock_when-Entered}
use rubidium_c.Sync.ConditionMutex.Entered.Posix.{IsPosix}
use rubidium_c.Sync.ConditionMutex.Entered.Loops.{Entered}

abbrev long : TimeType
long = record { to_time_t = λ s. s; time_min = negsuc (2 ^ 63 - 1); time_max = pos (2 ^ 63 - 1) }

abbrev value : Error → ℤ
value ok = pos 0
value timed_out = pos 110
value state_not_recoverable = pos 131
value _ = pos 1

-- The state is 1 where the thread owns the mutex, and 2 once it was not recoverable after a wait.
abbrev losing : Call → ℕ → ℤ × ℕ
losing (mutex_lock a) s = (pos 0, 1)
losing (cond_wait c a) s = (if s == 1 then pos 131 else pos 1, if s == 1 then 2 else s)
losing (cond_timedwait c a ts) s = (if s == 1 then pos 131 else pos 1, if s == 1 then 2 else s)
losing _ s = (pos 0, s)

abbrev owned : ℕ → ℕ → Bool
owned s a = s == 1

abbrev broken : ℕ → ℕ → Bool
broken s a = s == 2

losing-IsPosix : IsPosix losing owned broken (pos 131) (pos 110)
losing-IsPosix = record {
  locks = λ a s success. refl;
  lock_untimed = λ a s same. ground arith;
  notify_untimed = λ c s same. ground arith;
  notifies = λ c a s own. own;
  waits = λ c a s own. inr (rw (own) (refl, refl));
  expires = λ c a ts s own. inr (rw (own) (refl, refl));
  stays = λ c a s gone. gone;
  denies = λ c a ts s gone. (ground arith, λ same. ground arith);
}

abbrev alone : World ℕ
alone = record { live = λ a. ltb a 2; next = 2; os = 0 }

-- A mutex at 0 and a condition variable at 1.
abbrev pair : ConditionMutex
pair = record { mu = some 0; cv = some 1 }

-- What others have done by the time that the mutex is lost.
abbrev at_two : Condition ℕ
at_two = record { fn = λ s. s == 2 }

-- OK, without the mutex.
unowned_run :
    lock_when_until losing value long pair at_two time_unix_epoch 5 alone
    ≡ done (pos 0) (record alone { os = 2 })
unfolding lock_when_until lock await_until await_until_by await_until_loop eval Mutex.lock
    CondVar.notify_all CondVar.wait_until call
unowned_run = refl

-- `lock_when` reports the error.
lost_run : lock_when losing pair at_two 5 alone ≡ done (pos 131) (record alone { os = 2 })
unfolding lock_when lock await await_by await_loop eval Mutex.lock CondVar.notify_all CondVar.wait
    call
lost_run = refl

lock_when-Entered_example :
    Entered owned broken 0 at_two
      (pos 131)
      (pos 110)
      (pos 0)
      false
      (lock_when losing pair at_two 5 alone)
    × Entered owned broken 0 at_two
        (pos 131)
        (pos 110)
        (pos 0)
        true
        (lock_when_until losing value long pair at_two time_unix_epoch 5 alone)
lock_when-Entered_example =
    lock_when-Entered losing owned broken value 0 (some 1) at_two long time_unix_epoch 5 alone
      losing-IsPosix (λ same. ground arith) (λ same. ground arith) (λ same. ground arith)
