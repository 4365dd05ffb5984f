-- ===== src/Time/Duration/Negation.antt =====
-- `rbc_duration_neg` of src/rbc/time/duration.c.
use rubidium_c.Prelude.{◌+◌, ◌-◌, ◌<◌, ◌≡◌, refl, inl, inr, arith, false, Bool-cases, ◌==◌}
use rubidium_c.Prelude.Int.{
  pos, negsuc, pos_part, neg_part, -ℤ_parts, parts_disjoint, ◌-ℤ◌, ◌==ℤ◌, eq_of_parts, int_laws,
}
use rubidium_c.Prelude.Word.{half_64, i64_min}
use rubidium_c.Prelude.Wrap.{wrap_same}
use rubidium_c.Time.Duration.{Duration, ticks_per_second, duration_inf, is_inf, neg}
use rubidium_c.Time.Duration.Spec.{
  view, total, total_lem, view_exact, IsValid, IsFinite, neg_extended, saturate, view_finite,
  view_inf, view_neg_inf,
}

-- The three returns of the code for a finite duration.
neg_least : (d : Duration) → d.ticks ≡ 0 → d.secs ≡ i64_min → neg d ≡ duration_inf
unfolding neg
neg_least d t e = ground (arith, t, e)

neg_whole :
    (d : Duration)
    → IsFinite d
    → d.ticks ≡ 0
    → (d.secs ==ℤ i64_min) ≡ false
    → neg d ≡ record { secs = pos 0 -ℤ d.secs; ticks = 0 }
unfolding neg
neg_whole d h t e = rw (
  t,
  e,
  wrap_same half_64 (pos 0 -ℤ d.secs)
      (ground
        (arith, -ℤ_parts (pos 0) d.secs, parts_disjoint d.secs, parts_disjoint (pos 0 -ℤ d.secs)))
      (omega
        (arith, -ℤ_parts (pos 0) d.secs, parts_disjoint d.secs, parts_disjoint (pos 0 -ℤ d.secs))),
)

neg_fraction :
    (d : Duration)
    → IsFinite d
    → 0 < d.ticks
    → neg d ≡ record { secs = negsuc 0 -ℤ d.secs; ticks = ticks_per_second - d.ticks }
unfolding neg
neg_fraction d h t = rw (view_finite d h).0 (ground arith)

abbrev Negated : Duration → Duration → Type 0
Negated d e = (view e ≡ saturate (pos 0 -ℤ total d)) × IsValid e

Negated-of_parts :
    (d e : Duration)
    → IsFinite e
    → pos_part (total e) + pos_part (total d) ≡ neg_part (total e) + neg_part (total d)
    → Negated d e
Negated-of_parts d e h q =
    (view_exact e (pos 0 -ℤ total d) h (eq_of_parts _ _ (omega int_laws)), inl h)

neg_finite : (d : Duration) → IsFinite d → Negated d (neg d)
neg_finite d h = elim (Bool-cases (d.ticks == 0)) [
  | inr some_ticks ↦
      let t : 0 < d.ticks = ground arith in
      let e : Duration = record { secs = negsuc 0 -ℤ d.secs; ticks = ticks_per_second - d.ticks } in
      rw (neg_fraction d h t) (
        Negated-of_parts d e
          (omega (
            arith,
            -ℤ_parts (negsuc 0) d.secs,
            parts_disjoint d.secs,
            parts_disjoint (negsuc 0 -ℤ d.secs),
          ))
          (omega (arith, total_lem d, total_lem e, -ℤ_parts (negsuc 0) d.secs)))
  | inl whole ↦ elim (Bool-cases (d.secs ==ℤ i64_min)) [
    | inl least ↦
        let s : d.secs ≡ i64_min = eq_of_parts _ _ (ground arith) in
        rw (neg_least d (ground arith) s) (
          rw view_inf (
              unfold saturate in
              ground (
                arith,
                total_lem d,
                -ℤ_parts (pos 0) (total d),
                parts_disjoint (pos 0 -ℤ total d),
              )),
          inr (inl refl),
        )
    | inr other ↦
        let e : Duration = record { secs = pos 0 -ℤ d.secs; ticks = 0 } in
        rw (neg_whole d h (ground arith) other) (
          Negated-of_parts d e
            (ground (
              arith,
              -ℤ_parts (pos 0) d.secs,
              parts_disjoint d.secs,
              parts_disjoint (pos 0 -ℤ d.secs),
            ))
            (ground (arith, total_lem d, total_lem e, -ℤ_parts (pos 0) d.secs)))
  ]
]

-- Negation negates the exact tick count, or swaps the infinities; the one count whose negation no
-- duration holds becomes the positive infinity. The result is well formed.
pub view-neg : (d : Duration) → IsValid d → (view (neg d) ≡ neg_extended (view d)) × IsValid (neg d)
unfolding neg_extended
view-neg d (inl h) = rw (view_finite d h).1 (neg_finite d h)
view-neg d (inr (inl e)) = unfold neg is_inf in rw (e, view_inf) (view_neg_inf, inr (inr refl))
view-neg d (inr (inr e)) = unfold neg is_inf in rw (e, view_neg_inf) (view_inf, inr (inl refl))
