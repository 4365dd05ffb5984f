-- ===== src/Sync/Windows.antt =====
-- src/rbc/sync on Windows: the calls, and the objects. The system is a parameter:
-- a call gives what it returns, 0 for FALSE and NULL. `last` is GetLastError().
pub mod Mutex
pub mod RecursiveMutex
pub mod SharedMutex
pub mod Semaphore
pub mod Barrier
pub mod Tls
pub mod CondVar
pub mod Spinlock
pub mod Destroys
pub mod Thread
use rubidium_c.Prelude.{ℕ, ◌+◌, true, Option, none, some, if◌then◌else◌}
use rubidium_c.Prelude.Int.{ℤ, pos, ◌==ℤ◌}
use rubidium_c.Core.Error.{Error, not_enough_memory}
use rubidium_c.Core.Error.Windows.{WinCode, from_get_last_error}
use rubidium_c.Sync.World.{World, Run, Cmd, mark, ◌>>=◌, ◌>>◌, pure, free, with_impl}
use rubidium_c.Sync.Impl.{Handle}

pub data WinCall : Type 0 where
  malloc_succeeds : WinCall
  initialize_cs delete_cs enter_cs try_enter_cs leave_cs : ℕ → WinCall
  initialize_srw acquire_exclusive try_acquire_exclusive acquire_shared : ℕ → WinCall
  try_acquire_shared release_exclusive release_shared : ℕ → WinCall
  create_semaphore : ℕ → ℕ → WinCall
  close_handle release_semaphore : ℕ → WinCall
  initialize_barrier : ℕ → ℕ → WinCall
  delete_barrier enter_barrier : ℕ → WinCall
  initialize_cv : ℕ → WinCall
  sleep_cv : ℕ → ℕ → WinCall
  tls_alloc tls_free tls_get_value : ℕ → WinCall
  tls_set_value : ℕ → ℤ → WinCall

-- What WaitForSingleObject returns.
pub data WaitResult : Type 0 where
  wait_object_0 wait_failed wait_timeout wait_other : WaitResult

module _ {S : Type 0} (os : WinCall → S → ℤ × S) where
  unfoldable pub call : WinCall → Cmd S ℤ
  call c w = let (result, s) = os c w.os in Run.done result (record w { os = s })

  -- RBC_SYNC_INIT, and what follows it.
  unfoldable pub sync_init : (Error → ℤ) → (ℕ → Cmd S (ℤ × Handle)) → Cmd S (ℤ × Handle)
  sync_init value rest w =
      let (result, s) = os malloc_succeeds w.os in
      if result ==ℤ pos 0
      then Run.done (value not_enough_memory, none) (record w { os = s })
      else rest w.next (record { live = mark w.live w.next true; next = w.next + 1; os = s })

  -- RBC_SYNC_DESTROY(dtor)
  unfoldable pub sync_destroy : (ℕ → Cmd S ℤ) → Handle → Cmd S (ℤ × Handle)
  sync_destroy dtor none = pure (pos 0, none)
  sync_destroy dtor (some a) = do err ← with_impl (some a) dtor; free (some a); pure (err, none)

  module _ (value : Error → ℤ) (last : S → WinCode) where
    unfoldable pub from_last_error : Cmd S ℤ
    from_last_error w = pure (value (from_get_last_error (last w.os))) w

    -- RBC_SYNC_CHECK_LAST_ERROR(expr)
    unfoldable pub check_last_error : WinCall → Cmd S ℤ
    check_last_error expr = do
      err ← call expr
      if err ==ℤ pos 0 then from_last_error else pure (pos 0)
