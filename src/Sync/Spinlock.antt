-- ===== src/Sync/Spinlock.antt =====
-- src/rbc/sync/spinlock.c with POSIX threads.
use rubidium_c.Prelude.Int.{ℤ}
use rubidium_c.Core.Error.{Error}
use rubidium_c.Sync.World.{Call, Cmd, with_impl, call}
use rubidium_c.Sync.Impl.{Handle, sync_init, sync_check_init, sync_destroy}

module _ {S : Type 0} (os : Call → S → ℤ × S) where
  unfoldable pub init : (Error → ℤ) → Cmd S (ℤ × Handle)
  init value = sync_init os value (λ a. sync_check_init os (Call.spin_init a) a)

  unfoldable pub destroy : Handle → Cmd S (ℤ × Handle)
  destroy = sync_destroy os Call.spin_destroy

  unfoldable pub lock : Handle → Cmd S ℤ
  lock self = with_impl self (λ a. call os (Call.spin_lock a))

  unfoldable pub try_lock : Handle → Cmd S ℤ
  try_lock self = with_impl self (λ a. call os (Call.spin_trylock a))

  unfoldable pub unlock : Handle → Cmd S ℤ
  unlock self = with_impl self (λ a. call os (Call.spin_unlock a))
