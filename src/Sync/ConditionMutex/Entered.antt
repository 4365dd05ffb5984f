-- ===== src/Sync/ConditionMutex/Entered.antt =====
-- What a thread that enters by `rbc_condition_mutex_lock_when` and its kin of
-- src/rbc/sync/condition_mutex.c has when they return, with POSIX threads.
pub mod Loops
pub mod Posix
mod Tests
use rubidium_c.Prelude.{ℕ, ◌≡◌, ◌≢◌, true, false, inl, inr, Bool, Bool-cases, some}
use rubidium_c.Prelude.Int.{ℤ, pos, ◌==ℤ◌}
use rubidium_c.Core.Error.{Error, timed_out, state_not_recoverable}
use rubidium_c.Time.Duration.Timespec.{TimeType}
use rubidium_c.Time.Point.{Time}
use rubidium_c.Sync.World.{Call, mutex_lock, World, Cmd, check, call}
use rubidium_c.Sync.Impl.{Handle}
use rubidium_c.Sync.Impl.Laws.{failure}
use rubidium_c.Sync.Mutex
use rubidium_c.Sync.ConditionMutex.{Condition, await, await_until, lock, lock_when, lock_when_until}
use rubidium_c.Sync.ConditionMutex.Entered.Loops.{Entered, refused, faults, Enters}
use rubidium_c.Sync.ConditionMutex.Entered.Posix.{IsPosix, await-Enters, await_until-Enters}

locked-Entered :
    {S : Type 0} (os : Call → S → ℤ × S) (owned broken : S → ℕ → Bool)
    (unrecoverable timeout_code : ℤ) (a : ℕ) (condition : Condition S) (passes_over : Bool)
    (rest : Cmd S ℤ) (w : World S)
    → IsPosix os owned broken unrecoverable timeout_code
    → Enters owned broken a condition unrecoverable timeout_code
        (os (mutex_lock a) w.os).0
        passes_over
        rest
    → Entered owned broken a condition unrecoverable timeout_code
        (os (mutex_lock a) w.os).0
        passes_over
        (check (Mutex.lock os (some a)) rest w)
unfolding Mutex.lock call
locked-Entered os owned broken unrecoverable timeout_code a condition passes_over rest w posix
      enters =
    elim (Bool-cases (w.live a)) [
      | inl there ↦ rw (there) (elim (Bool-cases ((os (mutex_lock a) w.os).0 ==ℤ pos 0)) [
        | inl success ↦ rw (success) (
            enters (record w { os = (os (mutex_lock a) w.os).1 })
              (inl (posix.locks a w.os success)))
        | inr bad ↦ rw (bad) (refused _ (failure _ bad) (posix.lock_untimed a w.os))
      ])
      | inr gone ↦ rw (gone) faults
    ]

-- Where the system does with a mutex and a condition variable what POSIX says, and the codes of
-- success, of a timeout and of a mutex that is not recoverable are three: a thread that returns from
-- `lock_when` with OK owns the mutex and finds the condition true, and one that returns with another
-- code owns the mutex, but where the lock has failed or a wait reports that the mutex is not
-- recoverable. `lock_when_until`, which passes over the errors of the wait, returns OK only where the
-- condition holds and the thread owns the mutex or the mutex is not recoverable. A thread that returns
-- from either with TIMED_OUT owns the mutex.
pub lock_when-Entered :
    {S : Type 0} (os : Call → S → ℤ × S) (owned broken : S → ℕ → Bool) (value : Error → ℤ) (a : ℕ)
    (cv : Handle) (condition : Condition S) (time_type : TimeType) (deadline : Time) (fuel : ℕ)
    (w : World S)
    → IsPosix os owned broken (value state_not_recoverable) (value timed_out)
    → value timed_out ≢ pos 0
    → value state_not_recoverable ≢ pos 0
    → value state_not_recoverable ≢ value timed_out
    → Entered owned broken a condition
        (value state_not_recoverable)
        (value timed_out)
        (os (mutex_lock a) w.os).0
        false
        (lock_when os (record { mu = some a; cv = cv }) condition fuel w)
      × Entered owned broken a condition
          (value state_not_recoverable)
          (value timed_out)
          (os (mutex_lock a) w.os).0
          true
          (lock_when_until os value time_type
            (record { mu = some a; cv = cv })
            condition
            deadline
            fuel
            w)
unfolding lock_when lock_when_until lock await await_until
lock_when-Entered os owned broken value a cv condition time_type deadline fuel w posix nonzero
      unrecoverable_nonzero apart =
    (
      locked-Entered os owned broken (value state_not_recoverable) (value timed_out) a condition
          false _ w posix
          (await-Enters os owned broken (value state_not_recoverable) (value timed_out) _ posix a
            condition cv fuel unrecoverable_nonzero),
      locked-Entered os owned broken (value state_not_recoverable) (value timed_out) a condition
          true _ w posix
          (await_until-Enters os owned broken (value state_not_recoverable) (value timed_out) _
            posix a condition time_type deadline apart cv fuel nonzero),
    )
