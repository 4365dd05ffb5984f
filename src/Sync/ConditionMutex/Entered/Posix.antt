-- ===== src/Sync/ConditionMutex/Entered/Posix.antt =====
-- What the system does with the mutex and the condition variable of
-- src/rbc/sync/condition_mutex.c, and what a thread that has the mutex gets from the waits.
use rubidium_c.Prelude.{
  ℕ, ◌≡◌, ◌≢◌, ◌⊎◌, refl, sym, ◌∙◌, true, false, inl, inr, Bool, Bool-cases, none, some,
}
use rubidium_c.Prelude.Int.{ℤ, pos, ◌==ℤ◌}
use rubidium_c.Time.Timespec.{Timespec}
use rubidium_c.Time.Duration.Timespec.{TimeType}
use rubidium_c.Time.Point.{Time, time_to_timespec}
use rubidium_c.Sync.World.{
  Call, mutex_lock, cond_broadcast, cond_wait, cond_timedwait, World, Run, fault, call, with_impl,
}
use rubidium_c.Sync.Impl.{Handle}
use rubidium_c.Sync.CondVar
use rubidium_c.Sync.ConditionMutex.{Condition, await_by, await_until_by}
use rubidium_c.Sync.ConditionMutex.Entered.Loops.{
  Inside, Enters, Notified, Waited, Expired, by-Entered, until_by-Entered,
}

-- What POSIX says of a robust mutex that checks for errors: `owned` is whether the calling thread owns
-- one, and `broken` whether one is not recoverable. A lock that succeeds gives the mutex. A notification
-- leaves it as it is. A wait gives the mutex back however it ends, unless it reports that the mutex is
-- not recoverable (ENOTRECOVERABLE). Such a mutex stays so, since nobody gives it up meanwhile, and a
-- wait with it, which the thread does not own, fails at once and not by a timeout. Neither a lock
-- without a time limit nor a notification reports a timeout.
pub record IsPosix {S : Type 0} (os : Call → S → ℤ × S) (owned broken : S → ℕ → Bool)
    (unrecoverable timeout_code : ℤ) : Type 0 where
  pub locks :
      (a : ℕ) (s : S)
      → ((os (mutex_lock a) s).0 ==ℤ pos 0) ≡ true
      → owned (os (mutex_lock a) s).1 a ≡ true
  pub lock_untimed : (a : ℕ) (s : S) → (os (mutex_lock a) s).0 ≢ timeout_code
  pub notify_untimed : (c : ℕ) (s : S) → (os (cond_broadcast c) s).0 ≢ timeout_code
  pub notifies : (c a : ℕ) (s : S) → owned s a ≡ true → owned (os (cond_broadcast c) s).1 a ≡ true
  pub waits :
      (c a : ℕ) (s : S)
      → owned s a ≡ true
      → (owned (os (cond_wait c a) s).1 a ≡ true)
        ⊎ (((os (cond_wait c a) s).0 ≡ unrecoverable) × (broken (os (cond_wait c a) s).1 a ≡ true))
  pub expires :
      (c a : ℕ) (ts : Timespec) (s : S)
      → owned s a ≡ true
      → (owned (os (cond_timedwait c a ts) s).1 a ≡ true)
        ⊎ (((os (cond_timedwait c a ts) s).0 ≡ unrecoverable)
            × (broken (os (cond_timedwait c a ts) s).1 a ≡ true))
  pub stays : (c a : ℕ) (s : S) → broken s a ≡ true → broken (os (cond_broadcast c) s).1 a ≡ true
  pub denies :
      (c a : ℕ) (ts : Timespec) (s : S)
      → broken s a ≡ true
      → (broken (os (cond_timedwait c a ts) s).1 a ≡ true)
        × ((os (cond_timedwait c a ts) s).0 ≢ timeout_code)

module _ {S : Type 0} (os : Call → S → ℤ × S) (owned broken : S → ℕ → Bool)
    (unrecoverable timeout_code lock_code : ℤ)
    (posix : IsPosix os owned broken unrecoverable timeout_code) (a : ℕ)
    (condition : Condition S) where
  module _ (passes_over : Bool) where
    notify_all-Notified :
        (cv : Handle) (w : World S)
        → Inside owned broken a condition unrecoverable timeout_code lock_code passes_over w
        → Notified owned broken a condition unrecoverable timeout_code lock_code passes_over
            (CondVar.notify_all os cv w)
    unfolding CondVar.notify_all call
    notify_all-Notified none w own = tt
    notify_all-Notified (some c) w own = elim (Bool-cases (w.live c)) [
      | inl there ↦ rw (there) (kept own, posix.notify_untimed c w.os)
      | inr gone ↦ rw (gone) tt
    ]
      where
        kept :
            Inside owned broken a condition unrecoverable timeout_code lock_code passes_over w
            → (owned (os (cond_broadcast c) w.os).1 a ≡ true)
              ⊎ ((passes_over ≡ true) × (broken (os (cond_broadcast c) w.os).1 a ≡ true))
        kept (inl have) = inl (posix.notifies c a w.os have)
        kept (inr (passes, lost)) = inr (passes, posix.stays c a w.os lost)

  -- A wait on a mutex and a condition variable, either of which may be gone.
  waiting_lem :
      (P : Run S ℤ → Type 0) (cv : Handle) (c : ℕ → Call) (w : World S)
      → P fault
      → ((b : ℕ) → P (call os (c b) w))
      → P (with_impl (some a) (λ mtx. with_impl cv (λ b. call os (c b))) w)
  waiting_lem P none c w gone there = elim (Bool-cases (w.live a)) [
    | inl here ↦ rw (here) gone
    | inr lost ↦ rw (lost) gone
  ]
  waiting_lem P (some b) c w gone there = elim (Bool-cases (w.live a)) [
    | inl here ↦ rw (here) (elim (Bool-cases (w.live b)) [
      | inl found ↦ rw (found) (there b)
      | inr missing ↦ rw (missing) gone
    ])
    | inr lost ↦ rw (lost) gone
  ]

  wait-Waited :
      (cv : Handle) (w : World S)
      → Inside owned broken a condition unrecoverable timeout_code lock_code false w
      → Waited owned broken a condition unrecoverable timeout_code lock_code false
          (CondVar.wait os cv (some a) w)
  unfolding CondVar.wait call
  wait-Waited cv w (inl own) =
      waiting_lem (Waited owned broken a condition unrecoverable timeout_code lock_code false) cv
        (λ b. cond_wait b a) w tt (λ b. posix.waits b a w.os own)
  wait-Waited cv w (inr (passes, lost)) = absurd (cc)

  module _ (time_type : TimeType) (deadline : Time) (apart : unrecoverable ≢ timeout_code) where
    wait_until-Expired :
        (cv : Handle) (w : World S)
        → Inside owned broken a condition unrecoverable timeout_code lock_code true w
        → Expired owned broken a condition unrecoverable timeout_code lock_code true
            (CondVar.wait_until os time_type cv (some a) deadline w)
    unfolding CondVar.wait_until call
    wait_until-Expired cv w own =
        waiting_lem (Expired owned broken a condition unrecoverable timeout_code lock_code true) cv
          (λ b. cond_timedwait b a (time_to_timespec time_type deadline)) w tt (λ b. after b own)
      where
        after :
            (b : ℕ)
            → Inside owned broken a condition unrecoverable timeout_code lock_code true w
            → Expired owned broken a condition unrecoverable timeout_code lock_code true
                (call os (cond_timedwait b a (time_to_timespec time_type deadline)) w)
        after b (inl have) =
            elim (posix.expires b a (time_to_timespec time_type deadline) w.os have) [
              | inl kept ↦ (inl kept, λ e. kept)
              | inr (code, lost) ↦ (inr (refl, lost), λ e. absurd (apart (sym code ∙ e)))
            ]
        after b (inr (passes, lost)) =
            let (still, other) = posix.denies b a (time_to_timespec time_type deadline) w.os lost in
            (inr (refl, still), λ e. absurd (other e))

    pub await_until-Enters :
        (cv : Handle) (fuel : ℕ)
        → timeout_code ≢ pos 0
        → Enters owned broken a condition unrecoverable timeout_code lock_code true (
            await_until_by
              (CondVar.notify_all os cv)
              (CondVar.wait_until os time_type cv (some a) deadline)
              timeout_code
              condition
              fuel)
    await_until-Enters cv fuel nonzero =
        until_by-Entered owned broken a condition unrecoverable timeout_code lock_code true
          (CondVar.notify_all os cv) (CondVar.wait_until os time_type cv (some a) deadline)
          (notify_all-Notified true cv) (wait_until-Expired cv) nonzero fuel

  pub await-Enters :
      (cv : Handle) (fuel : ℕ)
      → unrecoverable ≢ pos 0
      → Enters owned broken a condition unrecoverable timeout_code lock_code false
          (await_by (CondVar.notify_all os cv) (CondVar.wait os cv (some a)) condition fuel)
  await-Enters cv fuel nonzero =
      by-Entered owned broken a condition unrecoverable timeout_code lock_code false
        (CondVar.notify_all os cv) (CondVar.wait os cv (some a)) (notify_all-Notified false cv)
        (wait-Waited cv) nonzero fuel
