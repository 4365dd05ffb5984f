-- ===== src/Sync/ConditionMutex/Windows.antt =====
-- `rbc_condition_mutex_await_until` of src/rbc/sync/condition_mutex.c on Windows.
use rubidium_c.Prelude.{ℕ, zero, suc, ◌≡◌, refl, ◌∙◌, true, false, some}
use rubidium_c.Prelude.Int.{ℤ, ◌==ℤ◌}
use rubidium_c.Core.Error.{Error, timed_out, not_implemented}
use rubidium_c.Time.Point.{Time}
use rubidium_c.Sync.World.{World, out_of_fuel, Cmd}
use rubidium_c.Sync.Impl.{Handle}
use rubidium_c.Sync.CondVar.Windows
use rubidium_c.Sync.ConditionMutex.{
  ConditionMutex, Condition, eval, await_until_loop, await_until_by,
}

module _ {S : Type 0} (wake_all : ℕ → S → S) (value : Error → ℤ) where
  pub await_until : ConditionMutex → Condition S → Time → ℕ → Cmd S ℤ
  await_until self condition deadline =
      await_until_by (Windows.notify_all wake_all self.cv)
        (Windows.wait_until value self.cv self.mu deadline) (value timed_out) condition

  module _ (apart : (value not_implemented ==ℤ value timed_out) ≡ false) (condition : Condition S)
      (kept : (a : ℕ) (s : S) → condition.fn (wake_all a s) ≡ condition.fn s) where
    loop_spins :
        (mu : Handle) (b : ℕ) (deadline : Time) (fuel : ℕ) (w : World S)
        → w.live b ≡ true
        → condition.fn w.os ≡ false
        → await_until_loop
            (Windows.notify_all wake_all (some b))
            (Windows.wait_until value (some b) mu deadline)
            (value timed_out)
            condition
            fuel
            w
          ≡ out_of_fuel
    unfolding await_until_loop Windows.notify_all Windows.wait_until eval
    loop_spins mu b deadline zero w alive unmet = refl
    loop_spins mu b deadline (suc fuel) w alive unmet =
        rw (alive, apart, kept b w.os ∙ unmet)
          (loop_spins mu b deadline fuel (record w { os = wake_all b w.os }) alive
            (kept b w.os ∙ unmet))

    -- On Windows, where waits with a deadline are not implemented, a condition that does not hold, and
    -- that waking the others does not change, makes `await_until` run out of any fuel: it never returns,
    -- not at the deadline either.
    pub await_until_spins :
        (mu : Handle) (b : ℕ) (deadline : Time) (fuel : ℕ) (w : World S)
        → w.live b ≡ true
        → condition.fn w.os ≡ false
        → await_until (record { mu = mu; cv = some b }) condition deadline fuel w ≡ out_of_fuel
    unfolding await_until await_until_by Windows.notify_all eval
    await_until_spins mu b deadline fuel w alive unmet =
        rw (unmet, alive)
          (loop_spins mu b deadline fuel (record w { os = wake_all b w.os }) alive
            (kept b w.os ∙ unmet))
