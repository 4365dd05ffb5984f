-- ===== src/Sync/ConditionMutex/Await.antt =====
-- What the waiting loops of src/rbc/sync/condition_mutex.c return, and that they return.
use rubidium_c.Prelude.{
  ℕ, zero, suc, ◌<◌, ◌≡◌, ◌≢◌, refl, true, if◌then◌else◌, inl, inr, Bool-cases, arith,
}
use rubidium_c.Prelude.Int.{ℤ, pos, ◌==ℤ◌}
use rubidium_c.Core.Error.{Error, timed_out}
use rubidium_c.Time.Duration.Timespec.{TimeType}
use rubidium_c.Time.Point.{Time}
use rubidium_c.Sync.World.{Call, World, Run, done, fault, out_of_fuel, Cmd, and_then, pure, check}
use rubidium_c.Sync.Impl.Laws.{failure}
use rubidium_c.Sync.CondVar
use rubidium_c.Sync.ConditionMutex.{
  ConditionMutex, Condition, eval, await_loop, await_by, await_until_loop, await_until_by, await,
  await_until,
}

module _ {S : Type 0} (condition : Condition S) where
  -- A result OK stands beside a condition that holds.
  pub data IsSound : Run S ℤ → Type 0 where
    holds : (w : World S) → eval condition w ≡ true → IsSound (done (pos 0) w)
    refused : (w : World S) (err : ℤ) → err ≢ pos 0 → IsSound (done err w)
    faults : IsSound fault
    unfinished : IsSound out_of_fuel

  check-IsSound :
      (run : Run S ℤ) (rest : Cmd S ℤ)
      → ((w : World S) → IsSound (rest w))
      → IsSound (and_then run (λ err. if err ==ℤ pos 0 then rest else pure err))
  check-IsSound (done err w) rest sound = elim (Bool-cases (err ==ℤ pos 0)) [
    | inl success ↦ rw (success) (sound w)
    | inr bad ↦ rw (bad) (refused w err (failure err bad))
  ]
  check-IsSound fault rest sound = faults
  check-IsSound out_of_fuel rest sound = unfinished

  tested-IsSound :
      (rest : Cmd S ℤ) (w : World S)
      → IsSound (rest w)
      → IsSound (if eval condition w then pure (pos 0) w else rest w)
  tested-IsSound rest w sound = elim (Bool-cases (eval condition w)) [
    | inl true_now ↦ rw (true_now) (holds w true_now)
    | inr false_now ↦ rw (false_now) sound
  ]

  await_loop-IsSound :
      (notify_all wait : Cmd S ℤ) (fuel : ℕ) (w : World S)
      → IsSound (await_loop notify_all wait condition fuel w)
  unfolding await_loop
  await_loop-IsSound notify_all wait zero w = unfinished
  await_loop-IsSound notify_all wait (suc fuel) w = check-IsSound (notify_all w) _ (λ v.
      check-IsSound (wait v) _ (λ u.
        tested-IsSound (await_loop notify_all wait condition fuel) u
          (await_loop-IsSound notify_all wait fuel u)))

  pub await_by-IsSound :
      (notify_all wait : Cmd S ℤ) (fuel : ℕ) (w : World S)
      → IsSound (await_by notify_all wait condition fuel w)
  unfolding await_by
  await_by-IsSound notify_all wait fuel w =
      tested-IsSound (check notify_all (await_loop notify_all wait condition fuel)) w
        (check-IsSound (notify_all w) _ (await_loop-IsSound notify_all wait fuel))

  -- The wait of `await_until`: one code is a timeout, and any other leads to the test.
  timed-IsSound :
      (run : Run S ℤ) (timeout_code : ℤ) (rest : Cmd S ℤ)
      → timeout_code ≢ pos 0
      → ((w : World S) → IsSound (rest w))
      → IsSound (
          and_then run (λ error.
            if error ==ℤ timeout_code
            then pure timeout_code
            else (λ w. if eval condition w then pure (pos 0) w else rest w)))
  timed-IsSound (done err w) timeout_code rest nonzero sound =
      elim (Bool-cases (err ==ℤ timeout_code)) [
        | inl expired ↦ rw (expired) (refused w timeout_code nonzero)
        | inr other ↦ rw (other) (tested-IsSound rest w (sound w))
      ]
  timed-IsSound fault timeout_code rest nonzero sound = faults
  timed-IsSound out_of_fuel timeout_code rest nonzero sound = unfinished

  await_until_loop-IsSound :
      (notify_all wait_until : Cmd S ℤ) (timeout_code : ℤ) (fuel : ℕ) (w : World S)
      → timeout_code ≢ pos 0
      → IsSound (await_until_loop notify_all wait_until timeout_code condition fuel w)
  unfolding await_until_loop
  await_until_loop-IsSound notify_all wait_until timeout_code zero w nonzero = unfinished
  await_until_loop-IsSound notify_all wait_until timeout_code (suc fuel) w nonzero =
      check-IsSound (notify_all w) _ (λ v.
        timed-IsSound (wait_until v) timeout_code
          (await_until_loop notify_all wait_until timeout_code condition fuel) nonzero
          (λ u. await_until_loop-IsSound notify_all wait_until timeout_code fuel u nonzero))

  await_until_by-IsSound :
      (notify_all wait_until : Cmd S ℤ) (timeout_code : ℤ) (fuel : ℕ) (w : World S)
      → timeout_code ≢ pos 0
      → IsSound (await_until_by notify_all wait_until timeout_code condition fuel w)
  unfolding await_until_by
  await_until_by-IsSound notify_all wait_until timeout_code fuel w nonzero =
      tested-IsSound
        (check notify_all (await_until_loop notify_all wait_until timeout_code condition fuel)) w
        (check-IsSound (notify_all w) _
          (λ v. await_until_loop-IsSound notify_all wait_until timeout_code fuel v nonzero))

  -- So many rounds of the loop, each with a notification and a wait that succeed.
  pub data Rounds (notify_all wait : Cmd S ℤ) : World S → ℕ → World S → Type 0 where
    no_rounds : (w : World S) → Rounds notify_all wait w zero w
    round :
        (w v u x : World S) (n : ℕ)
        → notify_all w ≡ done (pos 0) v
        → wait v ≡ done (pos 0) u
        → Rounds notify_all wait u n x
        → Rounds notify_all wait w (suc n) x

  -- The run returned OK, and the condition holds.
  pub record Succeeds (run : Run S ℤ) : Type 0 where
    pub final : World S
    pub returned : run ≡ done (pos 0) final
    pub satisfied : eval condition final ≡ true

  await_loop-Succeeds :
      (notify_all wait : Cmd S ℤ) (n fuel : ℕ) (w x : World S)
      → Rounds notify_all wait w (suc n) x
      → eval condition x ≡ true
      → n < fuel
      → Succeeds (await_loop notify_all wait condition fuel w)
  unfolding await_loop
  await_loop-Succeeds notify_all wait n zero w x rounds satisfied enough = absurd (omega arith)
  await_loop-Succeeds notify_all wait zero (suc fuel) w x
        (round _ v u _ _ notified woken (no_rounds _)) satisfied enough =
      rw (notified, woken, satisfied) (record { final = u; returned = refl; satisfied = satisfied })
  await_loop-Succeeds notify_all wait (suc n) (suc fuel) w x
        (round _ v u _ _ notified woken (round _ t s _ _ again slept rest)) satisfied enough =
      rw (notified, woken)
        (elim (Bool-cases (eval condition u)) [
          | inl true_now ↦
              rw (true_now) (record { final = u; returned = refl; satisfied = true_now })
          | inr false_now ↦ rw (false_now) (
              await_loop-Succeeds notify_all wait n fuel u x (round u t s x n again slept rest)
                satisfied (omega arith))
        ])

  await_by-Succeeds :
      (notify_all wait : Cmd S ℤ) (n fuel : ℕ) (w v x : World S)
      → notify_all w ≡ done (pos 0) v
      → Rounds notify_all wait v (suc n) x
      → eval condition x ≡ true
      → n < fuel
      → Succeeds (await_by notify_all wait condition fuel w)
  unfolding await_by
  await_by-Succeeds notify_all wait n fuel w v x notified rounds satisfied enough =
      elim (Bool-cases (eval condition w)) [
        | inl true_now ↦ rw (true_now) (record { final = w; returned = refl; satisfied = true_now })
        | inr false_now ↦
            rw (false_now, notified)
              (await_loop-Succeeds notify_all wait n fuel v x rounds satisfied enough)
      ]

module _ {S : Type 0} (os : Call → S → ℤ × S) (self : ConditionMutex)
    (condition : Condition S) where
  -- `await` and `await_until` return OK only where the condition holds, whatever the system's calls
  -- return and however often a thread is woken for nothing.
  pub await-IsSound :
      (value : Error → ℤ) (time_type : TimeType) (deadline : Time) (fuel : ℕ) (w : World S)
      → value timed_out ≢ pos 0
      → IsSound condition (await os self condition fuel w)
        × IsSound condition (await_until os value time_type self condition deadline fuel w)
  unfolding await await_until
  await-IsSound value time_type deadline fuel w nonzero = (
    await_by-IsSound condition (CondVar.notify_all os self.cv) (CondVar.wait os self.cv self.mu)
        fuel w,
    await_until_by-IsSound condition (CondVar.notify_all os self.cv)
        (CondVar.wait_until os time_type self.cv self.mu deadline) (value timed_out) fuel w nonzero,
  )

  -- Where the first notification succeeds and the condition holds after n + 1 rounds of notifications
  -- and waits that succeed, `await` returns OK within n + 1 waits, and the condition holds then.
  pub await-Succeeds :
      (n fuel : ℕ) (w v x : World S)
      → CondVar.notify_all os self.cv w ≡ done (pos 0) v
      → Rounds condition
          (CondVar.notify_all os self.cv)
          (CondVar.wait os self.cv self.mu)
          v
          (suc n)
          x
      → eval condition x ≡ true
      → n < fuel
      → Succeeds condition (await os self condition fuel w)
  unfolding await
  await-Succeeds n fuel w v x =
      await_by-Succeeds condition (CondVar.notify_all os self.cv) (CondVar.wait os self.cv self.mu)
        n fuel w v x
