-- ===== src/Sync/SharedMutex.antt =====
-- src/rbc/sync/shared_mutex.c with POSIX threads, on Linux.
use rubidium_c.Prelude.{ℕ, none, some, if◌then◌else◌}
use rubidium_c.Prelude.Int.{ℤ, pos, ◌==ℤ◌}
use rubidium_c.Core.Error.{Error, not_enough_memory}
use rubidium_c.Sync.World.{Call, Cmd, ◌>>=◌, ◌>>◌, pure, with_impl, call, malloc}
use rubidium_c.Sync.Impl.{Handle, sync_destroy}

module _ {S : Type 0} (os : Call → S → ℤ × S) where
  -- From the allocation on.
  unfoldable pub init_allocated : (Error → ℤ) → Cmd S (ℤ × Handle)
  init_allocated value = do
    impl ← malloc os
    elim impl [
      | none ↦ call os Call.rwlockattr_destroy >> pure (value not_enough_memory, none)
      | some a ↦ do
        error ← call os (Call.rwlock_init a)
        call os Call.rwlockattr_destroy
        pure (error, some a)
    ]

  -- RBC_SYNC_CHECK_WITH_CLEANUP(expr)
  unfoldable pub check_with_cleanup : Handle → Cmd S ℤ → Cmd S (ℤ × Handle) → Cmd S (ℤ × Handle)
  check_with_cleanup self expr rest = do
    err ← expr
    if err ==ℤ pos 0 then rest else (call os Call.rwlockattr_destroy >> pure (err, self))

  unfoldable pub init : (Error → ℤ) → Handle → ℕ → Cmd S (ℤ × Handle)
  init value self kind = do
    err ← call os Call.rwlockattr_init
    if err ==ℤ pos 0
        then check_with_cleanup self (call os (Call.rwlockattr_setkind kind)) (init_allocated value)
        else pure (err, self)

  unfoldable pub destroy : Handle → Cmd S (ℤ × Handle)
  destroy = sync_destroy os Call.rwlock_destroy

  unfoldable pub lock : Handle → Cmd S ℤ
  lock self = with_impl self (λ a. call os (Call.rwlock_wrlock a))

  unfoldable pub try_lock : Handle → Cmd S ℤ
  try_lock self = with_impl self (λ a. call os (Call.rwlock_trywrlock a))

  unfoldable pub lock_shared : Handle → Cmd S ℤ
  lock_shared self = with_impl self (λ a. call os (Call.rwlock_rdlock a))

  unfoldable pub try_lock_shared : Handle → Cmd S ℤ
  try_lock_shared self = with_impl self (λ a. call os (Call.rwlock_tryrdlock a))

  unfoldable pub unlock : Handle → Cmd S ℤ
  unlock self = with_impl self (λ a. call os (Call.rwlock_unlock a))

  unfoldable pub unlock_shared : Handle → Cmd S ℤ
  unlock_shared self = with_impl self (λ a. call os (Call.rwlock_unlock a))
