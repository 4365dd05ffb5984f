-- ===== src/Sync/Windows/Semaphore.antt =====
-- src/rbc/sync/semaphore.c on Windows. `waits` is WaitForSingleObject, for ever or not at all.
use rubidium_c.Prelude.{ℕ, some, if◌then◌else◌}
use rubidium_c.Prelude.Int.{ℤ, pos, ◌==ℤ◌}
use rubidium_c.Core.Error.{Error, unknown, resource_unavailable_try_again}
use rubidium_c.Core.Error.Windows.{WinCode}
use rubidium_c.Sync.World.{Run, Cmd, ◌>>=◌, pure, with_impl}
use rubidium_c.Sync.Impl.{Handle}
use rubidium_c.Sync.Windows.{
  WinCall, WaitResult, wait_object_0, wait_failed, wait_timeout, wait_other, call, sync_init,
  sync_destroy, from_last_error, check_last_error,
}

module _ {S : Type 0} (os : WinCall → S → ℤ × S) (value : Error → ℤ) (last : S → WinCode) where
  unfoldable pub init : ℕ → Cmd S (ℤ × Handle)
  init count = sync_init os value λ a. do
    handle ← call os (WinCall.create_semaphore a count)
    err ← (if handle ==ℤ pos 0 then from_last_error os value last else pure (pos 0))
    pure (err, some a)

  unfoldable pub destroy : Handle → Cmd S (ℤ × Handle)
  destroy = sync_destroy os (λ a. call os (WinCall.close_handle a))

  unfoldable pub release : Handle → Cmd S ℤ
  release self = with_impl self (λ a. check_last_error os value last (WinCall.release_semaphore a))

  module _ (infinite immediate : ℕ → S → WaitResult × S) where
    abbrev pub waits : (ℕ → S → WaitResult × S) → ℕ → Cmd S WaitResult
    waits wait a w = let (rc, s) = wait a w.os in Run.done rc (record w { os = s })

    unfoldable pub acquire : Handle → Cmd S ℤ
    acquire self = do
      rc ← with_impl self (waits infinite)
      elim rc [
        | wait_object_0 ↦ pure (pos 0)
        | wait_failed ↦ from_last_error os value last
        | wait_timeout ↦ pure (value unknown)
        | wait_other ↦ pure (value unknown)
      ]

    unfoldable pub try_acquire : Handle → Cmd S ℤ
    try_acquire self = do
      rc ← with_impl self (waits immediate)
      elim rc [
        | wait_object_0 ↦ pure (pos 0)
        | wait_failed ↦ from_last_error os value last
        | wait_timeout ↦ pure (value resource_unavailable_try_again)
        | wait_other ↦ pure (value unknown)
      ]
