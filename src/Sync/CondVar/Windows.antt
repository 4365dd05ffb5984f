-- ===== src/Sync/CondVar/Windows.antt =====
-- The functions of src/rbc/sync/cond_var.c on Windows that its waits with a deadline meet. What
-- WakeConditionVariable and WakeAllConditionVariable do to the system is a parameter.
use rubidium_c.Prelude.{ℕ}
use rubidium_c.Prelude.Int.{ℤ, pos}
use rubidium_c.Core.Error.{Error, not_implemented}
use rubidium_c.Time.Duration.{Duration}
use rubidium_c.Time.Point.{Time}
use rubidium_c.Sync.World.{Run, Cmd, pure, with_impl}
use rubidium_c.Sync.Impl.{Handle}

module _ {S : Type 0} where
  module _ (wake : ℕ → S → S) where
    unfoldable pub notify : Handle → Cmd S ℤ
    notify self = with_impl self (λ a w. Run.done (pos 0) (record w { os = wake a w.os }))

  module _ (wake_all : ℕ → S → S) where
    unfoldable pub notify_all : Handle → Cmd S ℤ
    notify_all self = with_impl self (λ a w. Run.done (pos 0) (record w { os = wake_all a w.os }))

  unfoldable pub wait_for : (Error → ℤ) → Handle → Handle → Duration → Cmd S ℤ
  wait_for value self mutex timeout = pure (value not_implemented)

  unfoldable pub wait_until : (Error → ℤ) → Handle → Handle → Time → Cmd S ℤ
  wait_until value self mutex deadline = pure (value not_implemented)
