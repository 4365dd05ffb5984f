-- ===== src/Sync/Windows/SharedMutex.antt =====
-- src/rbc/sync/shared_mutex.c on Windows.
use rubidium_c.Prelude.{ℕ, some, if◌then◌else◌}
use rubidium_c.Prelude.Int.{ℤ, pos, ◌==ℤ◌}
use rubidium_c.Core.Error.{Error, device_or_resource_busy}
use rubidium_c.Sync.World.{Cmd, ◌>>=◌, ◌>>◌, pure, with_impl}
use rubidium_c.Sync.Impl.{Handle}
use rubidium_c.Sync.Windows.{WinCall, call, sync_init, sync_destroy}

module _ {S : Type 0} (os : WinCall → S → ℤ × S) (value : Error → ℤ) where
  unfoldable pub init : ℕ → Cmd S (ℤ × Handle)
  init kind = sync_init os value (λ a. call os (WinCall.initialize_srw a) >> pure (pos 0, some a))

  unfoldable pub destroy : Handle → Cmd S (ℤ × Handle)
  destroy = sync_destroy os (λ a. pure (pos 0))

  unfoldable pub lock : Handle → Cmd S ℤ
  lock self = with_impl self (λ a. call os (WinCall.acquire_exclusive a)) >> pure (pos 0)

  unfoldable pub try_lock : Handle → Cmd S ℤ
  try_lock self = do
    acquired ← with_impl self (λ a. call os (WinCall.try_acquire_exclusive a))
    pure (if acquired ==ℤ pos 0 then value device_or_resource_busy else pos 0)

  unfoldable pub lock_shared : Handle → Cmd S ℤ
  lock_shared self = with_impl self (λ a. call os (WinCall.acquire_shared a)) >> pure (pos 0)

  unfoldable pub try_lock_shared : Handle → Cmd S ℤ
  try_lock_shared self = do
    acquired ← with_impl self (λ a. call os (WinCall.try_acquire_shared a))
    pure (if acquired ==ℤ pos 0 then value device_or_resource_busy else pos 0)

  unfoldable pub unlock : Handle → Cmd S ℤ
  unlock self = with_impl self (λ a. call os (WinCall.release_exclusive a)) >> pure (pos 0)

  unfoldable pub unlock_shared : Handle → Cmd S ℤ
  unlock_shared self = with_impl self (λ a. call os (WinCall.release_shared a)) >> pure (pos 0)
