-- ===== src/Sync/Windows/Spinlock.antt =====
-- src/rbc/sync/spinlock.c on Windows, where nothing is implemented.
use rubidium_c.Prelude.Int.{ℤ}
use rubidium_c.Core.Error.{Error, not_implemented}
use rubidium_c.Sync.World.{Cmd, pure}
use rubidium_c.Sync.Impl.{Handle}

module _ {S : Type 0} (value : Error → ℤ) where
  pub init : Handle → Cmd S (ℤ × Handle)
  init self = pure (value not_implemented, self)

  pub destroy : Handle → Cmd S (ℤ × Handle)
  destroy self = pure (value not_implemented, self)

  pub lock : Handle → Cmd S ℤ
  lock self = pure (value not_implemented)

  pub try_lock : Handle → Cmd S ℤ
  try_lock self = pure (value not_implemented)

  pub unlock : Handle → Cmd S ℤ
  unlock self = pure (value not_implemented)
