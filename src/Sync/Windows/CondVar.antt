-- ===== src/Sync/Windows/CondVar.antt =====
-- src/rbc/sync/cond_var.c on Windows: the making, the giving up and the wait without a deadline.
use rubidium_c.Prelude.{some}
use rubidium_c.Prelude.Int.{ℤ, pos}
use rubidium_c.Core.Error.{Error}
use rubidium_c.Core.Error.Windows.{WinCode}
use rubidium_c.Sync.World.{Cmd, ◌>>◌, pure, with_impl}
use rubidium_c.Sync.Impl.{Handle}
use rubidium_c.Sync.Windows.{WinCall, call, sync_init, sync_destroy, check_last_error}

module _ {S : Type 0} (os : WinCall → S → ℤ × S) (value : Error → ℤ) where
  unfoldable pub init : Cmd S (ℤ × Handle)
  init = sync_init os value (λ a. call os (WinCall.initialize_cv a) >> pure (pos 0, some a))

  unfoldable pub destroy : Handle → Cmd S (ℤ × Handle)
  destroy = sync_destroy os (λ a. pure (pos 0))

  -- The mutex must be there too.
  unfoldable pub wait : (S → WinCode) → Handle → Handle → Cmd S ℤ
  wait last self mutex =
      with_impl mutex
        (λ cs. with_impl self (λ a. check_last_error os value last (WinCall.sleep_cv a cs)))
