-- ===== src/Sync/LockGuard.antt =====
-- The functions of RBC_LOCK_GUARD_IMPL in src/rbc/sync/lock_guard.h, over what locks and unlocks.
use rubidium_c.Prelude.Int.{ℤ}
use rubidium_c.Sync.World.{Cmd, ◌>>=◌, pure}
use rubidium_c.Sync.Impl.{Handle}

pub record LockGuard : Type 0 where
  pub lockable : Handle

module _ {S : Type 0} (lock unlock : Handle → Cmd S ℤ) where
  unfoldable pub init : LockGuard → Cmd S ℤ
  init self = lock self.lockable

  -- The guard is given back with its new object.
  unfoldable pub init_with : LockGuard → Handle → Cmd S (ℤ × LockGuard)
  init_with self lockable = do err ← lock lockable; pure (err, record self { lockable = lockable })

  unfoldable pub destroy : LockGuard → Cmd S ℤ
  destroy self = unlock self.lockable
