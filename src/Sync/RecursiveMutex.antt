-- ===== src/Sync/RecursiveMutex.antt =====
-- src/rbc/sync/recursive_mutex.c with POSIX threads, on Linux, but for its initialisation, which stands
-- beside that of mutex.c.
use rubidium_c.Prelude.Int.{ℤ}
use rubidium_c.Time.Timespec.{StdTimespec}
use rubidium_c.Time.Duration.{Duration}
use rubidium_c.Time.Duration.Timespec.{TimeType}
use rubidium_c.Time.Point.{Time, time_to_timespec, time_deadline_from_timeout}
use rubidium_c.Sync.World.{Call, Cmd, with_impl, call}
use rubidium_c.Sync.Impl.{Handle, sync_destroy}

module _ {S : Type 0} (os : Call → S → ℤ × S) where
  unfoldable pub destroy : Handle → Cmd S (ℤ × Handle)
  destroy = sync_destroy os Call.mutex_destroy

  unfoldable pub lock : Handle → Cmd S ℤ
  lock self = with_impl self (λ a. call os (Call.mutex_lock a))

  unfoldable pub lock_until : TimeType → Handle → Time → Cmd S ℤ
  lock_until time_type self deadline =
      let ts = time_to_timespec time_type deadline in
      with_impl self (λ a. call os (Call.mutex_timedlock a ts))

  -- The clock is read when the function is called.
  unfoldable pub lock_for : TimeType → (S → StdTimespec) → Handle → Duration → Cmd S ℤ
  lock_for time_type clock self timeout w =
      let deadline = time_deadline_from_timeout (clock w.os) timeout in
      lock_until time_type self deadline w

  unfoldable pub try_lock : Handle → Cmd S ℤ
  try_lock self = with_impl self (λ a. call os (Call.mutex_trylock a))

  unfoldable pub unlock : Handle → Cmd S ℤ
  unlock self = with_impl self (λ a. call os (Call.mutex_unlock a))
