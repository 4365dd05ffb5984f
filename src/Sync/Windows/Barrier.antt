-- ===== src/Sync/Windows/Barrier.antt =====
-- src/rbc/sync/barrier.c on Windows.
use rubidium_c.Prelude.{ℕ, some}
use rubidium_c.Prelude.Int.{ℤ, pos}
use rubidium_c.Core.Error.{Error}
use rubidium_c.Core.Error.Windows.{WinCode}
use rubidium_c.Sync.World.{Cmd, ◌>>=◌, ◌>>◌, pure, with_impl}
use rubidium_c.Sync.Impl.{Handle}
use rubidium_c.Sync.Windows.{WinCall, call, sync_init, sync_destroy, check_last_error}

module _ {S : Type 0} (os : WinCall → S → ℤ × S) (value : Error → ℤ) (last : S → WinCode) where
  unfoldable pub init : ℕ → Cmd S (ℤ × Handle)
  init count = sync_init os value λ a. do
    err ← check_last_error os value last (WinCall.initialize_barrier a count)
    pure (err, some a)

  -- The barrier is deleted before the pointer is tested.
  unfoldable pub destroy : Handle → Cmd S (ℤ × Handle)
  destroy self = do
    with_impl self (λ a. call os (WinCall.delete_barrier a))
    sync_destroy os (λ a. pure (pos 0)) self

  unfoldable pub wait : Handle → Cmd S ℤ
  wait self = with_impl self (λ a. call os (WinCall.enter_barrier a)) >> pure (pos 0)
