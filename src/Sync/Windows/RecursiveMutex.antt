-- ===== src/Sync/Windows/RecursiveMutex.antt =====
-- src/rbc/sync/recursive_mutex.c on Windows, from Vista on.
use rubidium_c.Prelude.{some, if◌then◌else◌}
use rubidium_c.Prelude.Int.{ℤ, pos, ◌==ℤ◌}
use rubidium_c.Core.Error.{
  Error, not_implemented, resource_deadlock_would_occur, device_or_resource_busy,
}
use rubidium_c.Time.Duration.{Duration}
use rubidium_c.Time.Point.{Time}
use rubidium_c.Sync.World.{Cmd, ◌>>=◌, ◌>>◌, pure, with_impl}
use rubidium_c.Sync.Impl.{Handle}
use rubidium_c.Sync.Windows.{WinCall, call, sync_init, sync_destroy}

module _ {S : Type 0} (os : WinCall → S → ℤ × S) (value : Error → ℤ) where
  unfoldable pub init : Cmd S (ℤ × Handle)
  init = sync_init os value (λ a. call os (WinCall.initialize_cs a) >> pure (pos 0, some a))

  -- The section is deleted before the pointer is tested.
  unfoldable pub destroy : Handle → Cmd S (ℤ × Handle)
  destroy self = do
    with_impl self (λ a. call os (WinCall.delete_cs a))
    sync_destroy os (λ a. pure (pos 0)) self

  unfoldable pub lock : Handle → Cmd S ℤ
  lock self = do
    raised ← with_impl self (λ a. call os (WinCall.enter_cs a))
    pure (if raised ==ℤ pos 0 then pos 0 else value resource_deadlock_would_occur)

  unfoldable pub lock_for : Handle → Duration → Cmd S ℤ
  lock_for self timeout = pure (value not_implemented)

  unfoldable pub lock_until : Handle → Time → Cmd S ℤ
  lock_until self deadline = pure (value not_implemented)

  unfoldable pub try_lock : Handle → Cmd S ℤ
  try_lock self = do
    entered ← with_impl self (λ a. call os (WinCall.try_enter_cs a))
    pure (if entered ==ℤ pos 0 then value device_or_resource_busy else pos 0)

  unfoldable pub unlock : Handle → Cmd S ℤ
  unlock self = with_impl self (λ a. call os (WinCall.leave_cs a)) >> pure (pos 0)
