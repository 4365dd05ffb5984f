-- ===== src/Time/Duration/Comparison.antt =====
-- The six comparisons of src/rbc/time/duration.c.
use rubidium_c.Prelude.{◌≡◌, ◌↔◌, ◌⊎◌, refl, inl, inr, arith, true, false, not, ◌||◌, ◌<◌, ◌^◌}
use rubidium_c.Prelude.Int.{pos, +ℤ_parts, *ℤ_parts, parts_disjoint, ◌*ℤ◌, eq_of_parts}
use rubidium_c.Time.Duration.{Duration, ticks_per_second, lt, gt, le, ge, eq, ne}
use rubidium_c.Time.Duration.Spec.{view, total, IsValid, Below, view_finite, view_inf, view_neg_inf}

-- `lt` orders well-formed durations as their views are ordered: by exact tick counts, with the
-- negative infinity below all else and the positive one above.
pub lt-Below_iff :
    (l r : Duration) → IsValid l → IsValid r → (lt l r ≡ true) ↔ Below (view l) (view r)
unfolding lt total
lt-Below_iff l r (inl hl) (inl hr) =
    rw ((view_finite l hl).1, (view_finite r hr).1)
      (ground (
        arith,
        +ℤ_parts (l.secs *ℤ ticks_per_second) (pos l.ticks),
        +ℤ_parts (r.secs *ℤ ticks_per_second) (pos r.ticks),
        *ℤ_parts l.secs ticks_per_second,
        *ℤ_parts r.secs ticks_per_second,
        parts_disjoint l.secs,
        parts_disjoint r.secs,
      ))
lt-Below_iff l r (inl hl) (inr (inl e)) =
    rw (e, (view_finite l hl).1, view_inf) (ground (arith, parts_disjoint l.secs))
lt-Below_iff l r (inl hl) (inr (inr e)) =
    rw (e, (view_finite l hl).1, view_neg_inf) (ground (arith, parts_disjoint l.secs))
lt-Below_iff l r (inr (inl e)) (inl hr) =
    rw (e, (view_finite r hr).1, view_inf) (ground (arith, parts_disjoint r.secs))
lt-Below_iff l r (inr (inl e)) (inr (inl f)) = rw (e, f, view_inf) (ground arith)
lt-Below_iff l r (inr (inl e)) (inr (inr f)) = rw (e, f, view_inf) (ground arith)
lt-Below_iff l r (inr (inr e)) (inl hr) =
    rw (e, (view_finite r hr).1, view_neg_inf) (ground (arith, parts_disjoint r.secs))
lt-Below_iff l r (inr (inr e)) (inr (inl f)) = rw (e, f, view_inf, view_neg_inf) (ground arith)
lt-Below_iff l r (inr (inr e)) (inr (inr f)) = rw (e, f, view_neg_inf) (ground arith)

ticks_bounded : (d : Duration) → IsValid d → d.ticks < 2 ^ 32
ticks_bounded d (inl (hd, td)) = omega arith
ticks_bounded d (inr (inl e)) = rw e (omega arith)
ticks_bounded d (inr (inr e)) = rw e (omega arith)

-- The six comparisons agree on every two well-formed durations: exactly one of `lt`, `eq` and `gt`
-- holds, `le` and `ge` are `lt` and `gt` or `eq`, `ne` is the opposite of `eq`, and `eq` holds
-- exactly of equal durations.
pub comparisons_agree :
    (l r : Duration)
    → IsValid l
    → IsValid r
    → ((lt l r ≡ true) × (eq l r ≡ false) × (gt l r ≡ false)
        ⊎ ((lt l r ≡ false) × (eq l r ≡ true) × (gt l r ≡ false)
            ⊎ (lt l r ≡ false) × (eq l r ≡ false) × (gt l r ≡ true)))
      × (le l r ≡ (lt l r || eq l r))
      × (ge l r ≡ (gt l r || eq l r))
      × (ne l r ≡ not (eq l r))
      × ((eq l r ≡ true) ↔ (l ≡ r))
unfolding ge le gt ne lt eq
comparisons_agree l r hl hr = (
  ground (
    arith,
    ticks_bounded l hl,
    ticks_bounded r hr,
    eq_of_parts l.secs r.secs,
    parts_disjoint l.secs,
    parts_disjoint r.secs,
  ),
  ground (
    arith,
    ticks_bounded l hl,
    ticks_bounded r hr,
    eq_of_parts l.secs r.secs,
    parts_disjoint l.secs,
    parts_disjoint r.secs,
  ),
  ground (
    arith,
    ticks_bounded l hl,
    ticks_bounded r hr,
    eq_of_parts l.secs r.secs,
    parts_disjoint l.secs,
    parts_disjoint r.secs,
  ),
  refl,
  (
    ground (
      arith,
      ticks_bounded l hl,
      ticks_bounded r hr,
      eq_of_parts l.secs r.secs,
      parts_disjoint l.secs,
      parts_disjoint r.secs,
    ),
    λ e. rw e (ground arith),
  ),
)

-- On well-formed durations lt is the order of the views (exact tick counts, with the negative infinity
-- below all else and the positive one above), exactly one of lt, eq and gt holds, le and ge are lt and
-- gt or eq, ne is the opposite of eq, and eq holds exactly of equal durations.
pub comparison_lem :
    (l r : Duration)
    → IsValid l
    → IsValid r
    → ((lt l r ≡ true) ↔ Below (view l) (view r))
      × ((lt l r ≡ true) × (eq l r ≡ false) × (gt l r ≡ false)
          ⊎ ((lt l r ≡ false) × (eq l r ≡ true) × (gt l r ≡ false)
              ⊎ (lt l r ≡ false) × (eq l r ≡ false) × (gt l r ≡ true)))
      × (le l r ≡ (lt l r || eq l r))
      × (ge l r ≡ (gt l r || eq l r))
      × (ne l r ≡ not (eq l r))
      × ((eq l r ≡ true) ↔ (l ≡ r))
comparison_lem l r hl hr =
    let (one_of, le_eq, ge_eq, ne_eq, eq_iff) = comparisons_agree l r hl hr in
    (lt-Below_iff l r hl hr, one_of, le_eq, ge_eq, ne_eq, eq_iff)
