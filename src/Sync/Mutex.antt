-- ===== src/Sync/Mutex.antt =====
-- src/rbc/sync/mutex.c and recursive_mutex.c with POSIX threads, on Linux. The two differ in the type
-- of the mutex.
use rubidium_c.Prelude.{none, some, if◌then◌else◌}
use rubidium_c.Prelude.Int.{ℤ, pos, ◌==ℤ◌}
use rubidium_c.Core.Error.{Error, not_enough_memory}
use rubidium_c.Time.Timespec.{StdTimespec}
use rubidium_c.Time.Duration.{Duration}
use rubidium_c.Time.Duration.Timespec.{TimeType}
use rubidium_c.Time.Point.{Time, time_to_timespec, time_deadline_from_timeout}
use rubidium_c.Sync.World.{
  Call, MutexType, errorcheck, recursive, Cmd, ◌>>=◌, ◌>>◌, pure, with_impl, call, malloc,
}
use rubidium_c.Sync.Impl.{Handle, sync_destroy}

module _ {S : Type 0} (os : Call → S → ℤ × S) where
  -- RBC_SYNC_CHECK_WITH_CLEANUP(expr)
  unfoldable pub check_with_cleanup : Handle → Cmd S ℤ → Cmd S (ℤ × Handle) → Cmd S (ℤ × Handle)
  check_with_cleanup self expr rest = do
    err ← expr
    if err ==ℤ pos 0 then rest else (call os Call.mutexattr_destroy >> pure (err, self))

  -- From the allocation on.
  unfoldable pub init_allocated : (Error → ℤ) → Cmd S (ℤ × Handle)
  init_allocated value = do
    impl ← malloc os
    elim impl [
      | none ↦ call os Call.mutexattr_destroy >> pure (value not_enough_memory, none)
      | some a ↦ do
        error ← call os (Call.mutex_init a)
        call os Call.mutexattr_destroy
        pure (error, some a)
    ]

  -- `self` is what the pointer is before the call.
  unfoldable pub init_type : MutexType → (Error → ℤ) → Handle → Cmd S (ℤ × Handle)
  init_type type value self = do
    err ← call os Call.mutexattr_init
    if err ==ℤ pos 0
        then check_with_cleanup self (call os (Call.mutexattr_settype type))
            (check_with_cleanup self (call os Call.mutexattr_setrobust) (init_allocated value))
        else pure (err, self)

  unfoldable pub init : (Error → ℤ) → Handle → Cmd S (ℤ × Handle)
  init = init_type errorcheck

  unfoldable pub recursive_init : (Error → ℤ) → Handle → Cmd S (ℤ × Handle)
  recursive_init = init_type recursive

  unfoldable pub destroy : Handle → Cmd S (ℤ × Handle)
  destroy = sync_destroy os Call.mutex_destroy

  unfoldable pub lock : Handle → Cmd S ℤ
  lock self = with_impl self (λ a. call os (Call.mutex_lock a))

  unfoldable pub lock_until : TimeType → Handle → Time → Cmd S ℤ
  lock_until time_type self deadline =
      let ts = time_to_timespec time_type deadline in
      with_impl self (λ a. call os (Call.mutex_timedlock a ts))

  -- The clock is read when the function is called.
  unfoldable pub lock_for : TimeType → (S → StdTimespec) → Handle → Duration → Cmd S ℤ
  lock_for time_type clock self timeout w =
      let deadline = time_deadline_from_timeout (clock w.os) timeout in
      lock_until time_type self deadline w

  unfoldable pub try_lock : Handle → Cmd S ℤ
  try_lock self = with_impl self (λ a. call os (Call.mutex_trylock a))

  unfoldable pub unlock : Handle → Cmd S ℤ
  unlock self = with_impl self (λ a. call os (Call.mutex_unlock a))
