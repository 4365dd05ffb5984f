-- ===== src/Time/Point/Deadline.antt =====
-- Deadlines and differences of points in time, src/rbc/time/time.c.
use mathlib.Core.Bool.{false≢true}
use rubidium_c.Prelude.{sym, ◌≡◌, inl, inr, arith, true, false, not, Bool-cases, ap, ◌∙◌}
use rubidium_c.Prelude.Int.{
  ℤ, pos_part, neg_part, +ℤ_parts, -ℤ_parts, ◌-ℤ◌, ◌+ℤ◌, parts_disjoint, eq_of_parts,
}
use rubidium_c.Time.Timespec.{StdTimespec}
use rubidium_c.Time.Duration.{Duration, lt, le, is_neg, add}
use rubidium_c.Time.Duration.Spec.{
  view, total, total_lem, IsValid, IsFinite, Below, saturate, view_finite, view_inf, view_neg_inf,
  add_extended, sub_extended, fin, view_exact,
}
use rubidium_c.Time.Duration.Comparison.{lt-Below_iff}
use rubidium_c.Time.Duration.Refinement.{view-add, view-add_of_finite, view-sub}
use rubidium_c.Time.Point.{
  Time, time_now, time_le, time_sub, time_add_duration, time_deadline_from_timeout,
}

fin_of_saturate : (v w : ℤ) → saturate v ≡ fin w → v ≡ w
unfolding saturate
fin_of_saturate v w e = ground arith

-- What was added to a point in time is its distance to the sum, where that is not an infinity.
pub time_sub-time_add_duration :
    (t : Time) (d : Duration)
    → IsFinite t.rep
    → IsFinite d
    → IsFinite (time_add_duration t d).rep
    → view (time_sub (time_add_duration t d) t) ≡ view d
unfolding time_sub time_add_duration
time_sub-time_add_duration t d ht hd hs =
    (view-sub s t.rep (inl hs) (inl ht)).0
    ∙ rw ((view_finite s hs).1, (view_finite t.rep ht).1)
        (unfold sub_extended in
          sym (
            view_exact d (total s -ℤ total t.rep) hd (
              eq_of_parts _ _ (
                omega (
                  arith,
                  ap pos_part exact,
                  ap neg_part exact,
                  -ℤ_parts (total s) (total t.rep),
                  +ℤ_parts (total t.rep) (total d),
                )))))
  where
    s : Duration
    s = add t.rep d

    exact : total t.rep +ℤ total d ≡ total s
    exact = fin_of_saturate _ _ (sym (view-add_of_finite t.rep d ht hd) ∙ (view_finite s hs).1)

-- A sum is never below its left operand when what is added is not negative.
add-not-Below :
    (l r : Duration)
    → IsValid l
    → IsValid r
    → is_neg r ≡ false
    → ¬ Below (add_extended (view l) (view r)) (view l)
unfolding add_extended is_neg
add-not-Below l r (inl hl) (inl hr) h =
    rw ((view_finite l hl).1, (view_finite r hr).1)
      (unfold saturate in
        ground (
          arith,
          total_lem l,
          total_lem r,
          parts_disjoint (total l),
          parts_disjoint r.secs,
          +ℤ_parts (total l) (total r),
          parts_disjoint (total l +ℤ total r),
          parts_disjoint l.secs,
        ))
add-not-Below l r (inl hl) (inr (inl e)) h = rw (e, (view_finite l hl).1, view_inf) (λ b. b)
add-not-Below l r (inl hl) (inr (inr e)) h = absurd (false≢true (sym (rw e at h)))
add-not-Below l r (inr (inl e)) hr h = rw (e, view_inf) (λ b. b)
add-not-Below l r (inr (inr e)) hr h = rw (e, view_neg_inf) (λ b. b)

add-ge : (l r : Duration) → IsValid l → IsValid r → is_neg r ≡ false → lt (add l r) l ≡ false
add-ge l r hl hr h = elim (Bool-cases (lt (add l r) l)) [
  | inl below ↦
      let sum = view-add l r hl hr in
      absurd (add-not-Below l r hl hr h (rw sum.0 at ((lt-Below_iff (add l r) l sum.1 hl).0 below)))
  | inr fine ↦ fine
]

-- The deadline of a timeout that is not negative does not lie before the moment it is computed,
-- however far away it is.
pub deadline-ge-now :
    (clock : StdTimespec) (timeout : Duration)
    → IsValid (time_now clock).rep
    → IsValid timeout
    → is_neg timeout ≡ false
    → time_le (time_now clock) (time_deadline_from_timeout clock timeout) ≡ true
unfolding time_le time_deadline_from_timeout time_add_duration le
deadline-ge-now clock timeout hc ht h = ap not (add-ge (time_now clock).rep timeout hc ht h)
