-- ===== src/Sync/Semaphore.antt =====
-- src/rbc/sync/semaphore.c with POSIX semaphores.
use rubidium_c.Prelude.{ℕ, none, some, if◌then◌else◌}
use rubidium_c.Prelude.Int.{ℤ, pos, ◌==ℤ◌}
use rubidium_c.Core.Error.{Error}
use rubidium_c.Sync.World.{Call, get_errno, free, Cmd, ◌>>=◌, ◌>>◌, pure, with_impl, call}
use rubidium_c.Sync.Impl.{Handle, sync_init, sync_check_last_error}

module _ {S : Type 0} (os : Call → S → ℤ × S) where
  unfoldable pub init : (Error → ℤ) → ℕ → Cmd S (ℤ × Handle)
  init value count =
      sync_init os value
        λ a. do err ← sync_check_last_error os (Call.sem_init a count); pure (err, some a)

  unfoldable pub destroy : Handle → Cmd S (ℤ × Handle)
  destroy none = pure (pos 0, none)
  destroy (some a) = do
    error ← with_impl (some a) (λ b. call os (Call.sem_destroy b))
    free (some a)
    if error ==ℤ pos 0 then pure (pos 0, none) else (call os get_errno >>= λ err. pure (err, none))

  unfoldable pub acquire : Handle → Cmd S ℤ
  acquire self = with_impl self (λ a. sync_check_last_error os (Call.sem_wait a))

  unfoldable pub try_acquire : Handle → Cmd S ℤ
  try_acquire self = with_impl self (λ a. sync_check_last_error os (Call.sem_trywait a))

  unfoldable pub release : Handle → Cmd S ℤ
  release self = with_impl self (λ a. sync_check_last_error os (Call.sem_post a))
