-- ===== src/Sync/Barrier.antt =====
-- src/rbc/sync/barrier.c with POSIX threads.
use rubidium_c.Prelude.{ℕ, ◌||◌, if◌then◌else◌}
use rubidium_c.Prelude.Int.{ℤ, pos, ◌==ℤ◌}
use rubidium_c.Core.Error.{Error}
use rubidium_c.Sync.World.{Call, Cmd, ◌>>=◌, pure, with_impl, call}
use rubidium_c.Sync.Impl.{Handle, sync_init, sync_check_init, sync_destroy}

module _ {S : Type 0} (os : Call → S → ℤ × S) where
  unfoldable pub init : (Error → ℤ) → ℕ → Cmd S (ℤ × Handle)
  init value count = sync_init os value (λ a. sync_check_init os (Call.barrier_init a count) a)

  unfoldable pub destroy : Handle → Cmd S (ℤ × Handle)
  destroy = sync_destroy os Call.barrier_destroy

  -- One of the threads gets PTHREAD_BARRIER_SERIAL_THREAD, a number of the platform.
  unfoldable pub wait : ℤ → Handle → Cmd S ℤ
  wait serial_thread self = do
    error ← with_impl self (λ a. call os (Call.barrier_wait a))
    pure (if (error ==ℤ pos 0) || (error ==ℤ serial_thread) then pos 0 else error)
