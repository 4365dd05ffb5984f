-- ===== src/Sync/ConditionMutex/Deadline.antt =====
-- The deadline of `rbc_condition_mutex_await_until` in src/rbc/sync/condition_mutex.c.
use rubidium_c.Prelude.{ℕ, zero, suc, ◌<◌, ◌≡◌, true, false, inl, inr, Bool-cases, arith}
use rubidium_c.Prelude.Int.{ℤ, pos, ◌==ℤ◌, ==ℤ_self}
use rubidium_c.Core.Error.{Error, timed_out}
use rubidium_c.Time.Duration.Timespec.{TimeType}
use rubidium_c.Time.Point.{Time}
use rubidium_c.Sync.World.{Call, World, Run, done, Cmd}
use rubidium_c.Sync.CondVar
use rubidium_c.Sync.ConditionMutex.{
  ConditionMutex, Condition, eval, await_until_loop, await_until_by, await_until,
}

module _ {S : Type 0} (condition : Condition S) where
  -- The condition holds, or the time is over.
  pub data IsOver (timeout_code : ℤ) : Run S ℤ → Type 0 where
    satisfied : (w : World S) → eval condition w ≡ true → IsOver timeout_code (done (pos 0) w)
    expired : (w : World S) → IsOver timeout_code (done timeout_code w)

  module _ (notify_all wait_until : Cmd S ℤ) (timeout_code : ℤ) where
    -- Notifications succeed, and after so many waits that end with any other code one is timed out.
    pub data Expires : World S → ℕ → Type 0 where
      meets :
          (w v u : World S)
          → notify_all w ≡ done (pos 0) v
          → wait_until v ≡ done timeout_code u
          → Expires w zero
      wakes :
          (w v u : World S) (err : ℤ) (n : ℕ)
          → notify_all w ≡ done (pos 0) v
          → wait_until v ≡ done err u
          → (err ==ℤ timeout_code) ≡ false
          → Expires u n
          → Expires w (suc n)

    loop-IsOver :
        (n fuel : ℕ) (w : World S)
        → Expires w n
        → n < fuel
        → IsOver timeout_code (await_until_loop notify_all wait_until timeout_code condition fuel w)
    unfolding await_until_loop
    loop-IsOver n zero w expires enough = absurd (omega arith)
    loop-IsOver zero (suc fuel) w (meets _ v u notified late) enough =
        rw (notified, late, ==ℤ_self timeout_code) (expired u)
    loop-IsOver (suc n) (suc fuel) w (wakes _ v u err _ notified woken early later) enough =
        rw (notified, woken, early)
          (elim (Bool-cases (eval condition u)) [
            | inl true_now ↦ rw (true_now) (satisfied u true_now)
            | inr false_now ↦ rw (false_now) (loop-IsOver n fuel u later (omega arith))
          ])

    by-IsOver :
        (n fuel : ℕ) (w v : World S)
        → notify_all w ≡ done (pos 0) v
        → Expires v n
        → n < fuel
        → IsOver timeout_code (await_until_by notify_all wait_until timeout_code condition fuel w)
    unfolding await_until_by
    by-IsOver n fuel w v notified expires enough = elim (Bool-cases (eval condition w)) [
      | inl true_now ↦ rw (true_now) (satisfied w true_now)
      | inr false_now ↦ rw (false_now, notified) (loop-IsOver n fuel v expires enough)
    ]

-- Where notifications succeed and, after n waits that end otherwise, whatever their codes, a wait is
-- timed out, `await_until` returns within n + 1 waits: OK with the condition true, or TIMED_OUT.
pub await_until-IsOver :
    {S : Type 0} (os : Call → S → ℤ × S) (self : ConditionMutex) (condition : Condition S)
    (value : Error → ℤ) (time_type : TimeType) (deadline : Time) (n fuel : ℕ) (w v : World S)
    → CondVar.notify_all os self.cv w ≡ done (pos 0) v
    → Expires condition
        (CondVar.notify_all os self.cv)
        (CondVar.wait_until os time_type self.cv self.mu deadline)
        (value timed_out)
        v
        n
    → n < fuel
    → IsOver condition
        (value timed_out)
        (await_until os value time_type self condition deadline fuel w)
unfolding await_until
await_until-IsOver os self condition value time_type deadline n fuel w v =
    by-IsOver condition (CondVar.notify_all os self.cv)
      (CondVar.wait_until os time_type self.cv self.mu deadline) (value timed_out) n fuel w v
