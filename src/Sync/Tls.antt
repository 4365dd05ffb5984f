-- ===== src/Sync/Tls.antt =====
-- src/rbc/sync/tls.c with POSIX threads. A pointer kept for a thread is a number, 0 for NULL.
use rubidium_c.Prelude.Int.{ℤ, pos}
use rubidium_c.Core.Error.{Error}
use rubidium_c.Sync.World.{Call, Cmd, ◌>>=◌, pure, with_impl, call}
use rubidium_c.Sync.Impl.{Handle, sync_init, sync_check_init, sync_destroy}

module _ {S : Type 0} (os : Call → S → ℤ × S) where
  unfoldable pub init : (Error → ℤ) → Cmd S (ℤ × Handle)
  init value = sync_init os value (λ a. sync_check_init os (Call.key_create a) a)

  unfoldable pub destroy : Handle → Cmd S (ℤ × Handle)
  destroy = sync_destroy os Call.key_delete

  -- The error code, and the value that is stored through the pointer.
  unfoldable pub get : Handle → Cmd S (ℤ × ℤ)
  get self = do value ← with_impl self (λ a. call os (Call.getspecific a)); pure (pos 0, value)

  unfoldable pub set : Handle → ℤ → Cmd S ℤ
  set self value = with_impl self (λ a. call os (Call.setspecific a value))
