-- ===== src/Sync/Windows/Tls.antt =====
-- src/rbc/sync/tls.c on Windows. TLS_OUT_OF_INDEXES is a number of the platform.
use rubidium_c.Prelude.{some, if◌then◌else◌}
use rubidium_c.Prelude.Int.{ℤ, pos, ◌==ℤ◌}
use rubidium_c.Core.Error.{Error}
use rubidium_c.Core.Error.Windows.{WinCode}
use rubidium_c.Sync.World.{Cmd, ◌>>=◌, pure, with_impl}
use rubidium_c.Sync.Impl.{Handle}
use rubidium_c.Sync.Windows.{
  WinCall, call, sync_init, sync_destroy, from_last_error, check_last_error,
}

module _ {S : Type 0} (os : WinCall → S → ℤ × S) (value : Error → ℤ) (last : S → WinCode) where
  unfoldable pub init : ℤ → Cmd S (ℤ × Handle)
  init out_of_indexes = sync_init os value λ a. do
    index ← call os (WinCall.tls_alloc a)
    err ← (if index ==ℤ out_of_indexes then from_last_error os value last else pure (pos 0))
    pure (err, some a)

  unfoldable pub destroy : Handle → Cmd S (ℤ × Handle)
  destroy = sync_destroy os (λ a. call os (WinCall.tls_free a))

  unfoldable pub get : Handle → Cmd S (ℤ × ℤ)
  get self = do
    stored ← with_impl self (λ a. call os (WinCall.tls_get_value a))
    err ← (if stored ==ℤ pos 0 then from_last_error os value last else pure (pos 0))
    pure (err, stored)

  unfoldable pub set : Handle → ℤ → Cmd S ℤ
  set self stored =
      with_impl self (λ a. check_last_error os value last (WinCall.tls_set_value a stored))
