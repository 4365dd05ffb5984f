-- ===== src/Sync/ConditionMutex/Entered/Loops.antt =====
-- The loops of src/rbc/sync/condition_mutex.c for a thread that has the mutex, whatever they call.
use rubidium_c.Prelude.{
  ℕ, zero, suc, ◌≡◌, ◌≢◌, ◌⊎◌, sym, ◌∙◌, Bool, true, if◌then◌else◌, inl, inr, Bool-cases,
}
use rubidium_c.Prelude.Int.{ℤ, pos, ◌==ℤ◌, ==ℤ_equal}
use rubidium_c.Sync.World.{World, Run, done, fault, out_of_fuel, Cmd, and_then, pure, check}
use rubidium_c.Sync.Impl.Laws.{failure}
use rubidium_c.Sync.ConditionMutex.{
  Condition, eval, await_loop, await_by, await_until_loop, await_until_by,
}

-- `owned` is whether the calling thread owns a mutex, and `broken` whether the mutex is not recoverable.
module _ {S : Type 0} (owned broken : S → ℕ → Bool) (a : ℕ) (condition : Condition S)
    (unrecoverable timeout_code lock_code : ℤ) (passes_over : Bool) where
  -- How a function that takes the mutex `a`, with `lock_code` from the lock, ends, and its code.
  -- `passes_over` is whether it goes on after an error of the wait.
  --   entered: the condition holds and the thread owns the mutex.
  --   unowned: the condition holds and the mutex is not recoverable.
  --   left: an error, and the thread owns the mutex.
  --   lost: a wait reports that the mutex is not recoverable.
  --   abandoned: an error but a timeout, and the mutex is not recoverable.
  --   refused: the lock fails.
  pub data Entered : Run S ℤ → Type 0 where
    entered :
        (w : World S) → eval condition w ≡ true → owned w.os a ≡ true → Entered (done (pos 0) w)
    unowned :
        (w : World S)
        → passes_over ≡ true
        → eval condition w ≡ true
        → broken w.os a ≡ true
        → Entered (done (pos 0) w)
    left : (w : World S) (err : ℤ) → err ≢ pos 0 → owned w.os a ≡ true → Entered (done err w)
    lost :
        (w : World S) (err : ℤ) → err ≡ unrecoverable → broken w.os a ≡ true → Entered (done err w)
    abandoned :
        (w : World S) (err : ℤ)
        → passes_over ≡ true
        → err ≢ pos 0
        → err ≢ timeout_code
        → broken w.os a ≡ true
        → Entered (done err w)
    refused :
        (w : World S) → lock_code ≢ pos 0 → lock_code ≢ timeout_code → Entered (done lock_code w)
    faults : Entered fault
    unfinished : Entered out_of_fuel

  -- What holds between the calls of a loop.
  abbrev pub Inside : World S → Type 0
  Inside w = (owned w.os a ≡ true) ⊎ ((passes_over ≡ true) × (broken w.os a ≡ true))

  abbrev pub Enters : Cmd S ℤ → Type 0
  Enters m = (w : World S) → Inside w → Entered (m w)

  -- After a notification, after a wait whose errors are looked at, and after one with a deadline.
  abbrev pub Notified : Run S ℤ → Type 0
  Notified (done err w) = Inside w × (err ≢ timeout_code)
  Notified fault = Unit
  Notified out_of_fuel = Unit

  abbrev pub Waited : Run S ℤ → Type 0
  Waited (done err w) = (owned w.os a ≡ true) ⊎ ((err ≡ unrecoverable) × (broken w.os a ≡ true))
  Waited fault = Unit
  Waited out_of_fuel = Unit

  abbrev pub Expired : Run S ℤ → Type 0
  Expired (done err w) = Inside w × (err ≡ timeout_code → owned w.os a ≡ true)
  Expired fault = Unit
  Expired out_of_fuel = Unit

  Notified-Entered :
      (run : Run S ℤ) (rest : Cmd S ℤ)
      → Notified run
      → Enters rest
      → Entered (and_then run (λ err. if err ==ℤ pos 0 then rest else pure err))
  Notified-Entered (done err w) rest (own, untimed) enters = elim (Bool-cases (err ==ℤ pos 0)) [
    | inl success ↦ rw (success) (enters w own)
    | inr bad ↦ rw (bad) (failed own (failure err bad))
  ]
    where
      failed : Inside w → err ≢ pos 0 → Entered (done err w)
      failed (inl have) nonzero = left w err nonzero have
      failed (inr (passes, gone)) nonzero = abandoned w err passes nonzero untimed gone
  Notified-Entered fault rest own enters = faults
  Notified-Entered out_of_fuel rest own enters = unfinished

  tested-Entered :
      (rest : Cmd S ℤ)
      → Enters rest
      → Enters (λ w. if eval condition w then pure (pos 0) w else rest w)
  tested-Entered rest enters w own = elim (Bool-cases (eval condition w)) [
    | inl now ↦ rw (now) (holds own now)
    | inr false_now ↦ rw (false_now) (enters w own)
  ]
    where
      holds : Inside w → eval condition w ≡ true → Entered (done (pos 0) w)
      holds (inl have) now = entered w now have
      holds (inr (passes, gone)) now = unowned w passes now gone

  -- The wait of await, whose errors are returned.
  Waited-Entered :
      (run : Run S ℤ) (rest : Cmd S ℤ)
      → unrecoverable ≢ pos 0
      → Waited run
      → Enters rest
      → Entered (and_then run (λ err. if err ==ℤ pos 0 then rest else pure err))
  Waited-Entered (done err w) rest nonzero waited enters = elim (Bool-cases (err ==ℤ pos 0)) [
    | inl success ↦ rw (success) (enters w (kept success waited))
    | inr bad ↦ rw (bad) (failed waited (failure err bad))
  ]
    where
      kept : (err ==ℤ pos 0) ≡ true → Waited (done err w) → Inside w
      kept success (inl have) = inl have
      kept success (inr (code, gone)) = absurd (nonzero (sym code ∙ ==ℤ_equal err (pos 0) success))

      failed : Waited (done err w) → err ≢ pos 0 → Entered (done err w)
      failed (inl have) err_nonzero = left w err err_nonzero have
      failed (inr (code, gone)) err_nonzero = lost w err code gone
  Waited-Entered fault rest nonzero waited enters = faults
  Waited-Entered out_of_fuel rest nonzero waited enters = unfinished

  -- The wait of await_until, of whose results only that of a timeout is returned.
  Expired-Entered :
      (run : Run S ℤ) (rest : Cmd S ℤ)
      → timeout_code ≢ pos 0
      → Expired run
      → Enters rest
      → Entered (
          and_then run (λ error.
            if error ==ℤ timeout_code
            then pure timeout_code
            else (λ w. if eval condition w then pure (pos 0) w else rest w)))
  Expired-Entered (done err w) rest nonzero (own, timed) enters =
      elim (Bool-cases (err ==ℤ timeout_code)) [
        | inl expired ↦
            rw (expired) (left w timeout_code nonzero (timed (==ℤ_equal err timeout_code expired)))
        | inr other ↦ rw (other) (tested-Entered rest enters w own)
      ]
  Expired-Entered fault rest nonzero expired enters = faults
  Expired-Entered out_of_fuel rest nonzero expired enters = unfinished

  module _ (notify_all wait : Cmd S ℤ)
      (notifies : (w : World S) → Inside w → Notified (notify_all w)) where
    module _ (waits : (w : World S) → Inside w → Waited (wait w))
        (nonzero : unrecoverable ≢ pos 0) where
      loop-Entered : (fuel : ℕ) → Enters (await_loop notify_all wait condition fuel)
      unfolding await_loop
      loop-Entered zero w own = unfinished
      loop-Entered (suc fuel) w own = Notified-Entered (notify_all w) _ (notifies w own) (λ v own_v.
          Waited-Entered (wait v) _ nonzero (waits v own_v)
            (tested-Entered (await_loop notify_all wait condition fuel) (loop-Entered fuel)))

      pub by-Entered : (fuel : ℕ) → Enters (await_by notify_all wait condition fuel)
      unfolding await_by
      by-Entered fuel =
          tested-Entered (check notify_all (await_loop notify_all wait condition fuel))
            (λ w own. Notified-Entered (notify_all w) _ (notifies w own) (loop-Entered fuel))

    module _ (expires : (w : World S) → Inside w → Expired (wait w))
        (nonzero : timeout_code ≢ pos 0) where
      until_loop-Entered :
          (fuel : ℕ) → Enters (await_until_loop notify_all wait timeout_code condition fuel)
      unfolding await_until_loop
      until_loop-Entered zero w own = unfinished
      until_loop-Entered (suc fuel) w own =
          Notified-Entered (notify_all w) _ (notifies w own) (λ v own_v.
            Expired-Entered (wait v) (await_until_loop notify_all wait timeout_code condition fuel)
              nonzero (expires v own_v) (until_loop-Entered fuel))

      pub until_by-Entered :
          (fuel : ℕ) → Enters (await_until_by notify_all wait timeout_code condition fuel)
      unfolding await_until_by
      until_by-Entered fuel =
          tested-Entered
            (check notify_all (await_until_loop notify_all wait timeout_code condition fuel))
            (λ w own. Notified-Entered (notify_all w) _ (notifies w own) (until_loop-Entered fuel))
