-- ===== src/Sync/CondVar.antt =====
-- src/rbc/sync/cond_var.c with POSIX threads.
pub mod Windows
use rubidium_c.Prelude.{ℕ, Bool, ◌||◌, Option, none, some, if◌then◌else◌}
use rubidium_c.Prelude.Int.{ℤ, pos, ◌==ℤ◌}
use rubidium_c.Core.Error.{Error, not_enough_memory}
use rubidium_c.Time.Timespec.{StdTimespec}
use rubidium_c.Time.Duration.{Duration}
use rubidium_c.Time.Duration.Timespec.{TimeType}
use rubidium_c.Time.Point.{Time, time_to_timespec, time_deadline_from_timeout}
use rubidium_c.Sync.World.{
  Call, MutexType, errorcheck, recursive, World, Run, Cmd, ◌>>=◌, ◌>>◌, pure, check, with_impl,
  call, malloc,
}
use rubidium_c.Sync.Impl.{Handle, sync_init, sync_check_init, sync_destroy}

module _ {S : Type 0} (os : Call → S → ℤ × S) where
  unfoldable pub init : (Error → ℤ) → Cmd S (ℤ × Handle)
  init value = sync_init os value (λ a. sync_check_init os (Call.cond_init a) a)

  unfoldable pub destroy : Handle → Cmd S (ℤ × Handle)
  destroy = sync_destroy os Call.cond_destroy

  unfoldable pub notify : Handle → Cmd S ℤ
  notify self = with_impl self (λ a. call os (Call.cond_signal a))

  unfoldable pub notify_all : Handle → Cmd S ℤ
  notify_all self = with_impl self (λ a. call os (Call.cond_broadcast a))

  -- The mutex must be there too.
  unfoldable pub wait : Handle → Handle → Cmd S ℤ
  wait self mutex = with_impl mutex (λ mtx. with_impl self (λ a. call os (Call.cond_wait a mtx)))

  unfoldable pub wait_until : TimeType → Handle → Handle → Time → Cmd S ℤ
  wait_until time_type self mutex deadline =
      let ts = time_to_timespec time_type deadline in
      with_impl mutex (λ mtx. with_impl self (λ a. call os (Call.cond_timedwait a mtx ts)))

  unfoldable pub wait_for : TimeType → (S → StdTimespec) → Handle → Handle → Duration → Cmd S ℤ
  wait_for time_type clock self mutex timeout w =
      let deadline = time_deadline_from_timeout (clock w.os) timeout in
      wait_until time_type self mutex deadline w
