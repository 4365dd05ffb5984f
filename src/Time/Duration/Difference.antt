-- ===== src/Time/Duration/Difference.antt =====
-- The difference of durations: exact where it fits, an infinity elsewhere.
use rubidium_c.Prelude.{
  ℕ, ◌+◌, ◌-◌, ◌*◌, ◌≤◌, ◌<◌, ◌^◌, ◌≡◌, ◌⊎◌, inl, inr, Bool, true, false, arith, if◌then◌else◌, ltb,
  Bool-cases,
}
use rubidium_c.Prelude.Int.{
  ℤ, pos, pos_part, neg_part, ◌-ℤ◌, ◌*ℤ◌, ◌≤ℤ◌, int_laws, parts_disjoint, +ℤ_parts, -ℤ_parts, leb_ℤ,
  *ℤ_parts, ltb_ℤ,
}
use rubidium_c.Prelude.Word.{u32, i64, half_64, IsI64}
use rubidium_c.Prelude.Wrap.{wrap_range, wrap_cases, wrap_step, Wraps}
use rubidium_c.Time.Duration.Overflow.{view_down, view_up, checked-IsValid}
use rubidium_c.Time.Duration.{Duration, ticks_per_second, sub_finite}
use rubidium_c.Time.Duration.Spec.{total, view, IsFinite, IsValid, saturate}

-- The seconds of the difference without and with a borrow, as the code wraps them.
difference_secs : (x y : ℤ) → IsI64 x → IsI64 y → Wraps half_64 (x -ℤ y) (i64 (x -ℤ y))
difference_secs x y hx hy =
    wrap_cases half_64 (x -ℤ y) (omega (int_laws, parts_disjoint (x -ℤ y)))
      (omega (int_laws, parts_disjoint (x -ℤ y)))

difference_secs_borrow :
    (x y : ℤ) → IsI64 x → IsI64 y → Wraps half_64 (x -ℤ y -ℤ pos 1) (i64 (i64 (x -ℤ y) -ℤ pos 1))
difference_secs_borrow x y hx hy =
    wrap_step half_64 (x -ℤ y) (x -ℤ y -ℤ pos 1) (i64 (x -ℤ y) -ℤ pos 1) 0 1 (omega arith)
      (omega arith) (difference_bounds.0) (difference_bounds.1) (omega (int_laws, borrow_disjoint))
      (omega (int_laws, borrow_disjoint)) (omega int_laws) (omega int_laws)
  where
    difference_bounds :
        (pos_part (x -ℤ y) < half_64 + half_64) × (neg_part (x -ℤ y) ≤ half_64 + half_64)
    difference_bounds = omega (int_laws, parts_disjoint (x -ℤ y))

    borrow_disjoint : (pos_part (x -ℤ y -ℤ pos 1) ≡ 0) ⊎ (neg_part (x -ℤ y -ℤ pos 1) ≡ 0)
    borrow_disjoint = parts_disjoint (x -ℤ y -ℤ pos 1)

-- The ticks of the difference, when a second is borrowed and when none is.
difference_ticks :
    (a b : ℕ)
    → a < ticks_per_second
    → b < ticks_per_second
    → let borrow = ltb a b in
      u32 ((if borrow then u32 (a + ticks_per_second) else a) + 2 ^ 32 - b)
      ≡ (if borrow then a + ticks_per_second - b else a - b)
difference_ticks a b ha hb = ground arith

-- Both operands finite, with no borrow and with one.
module _ (l r : Duration) (hl : IsFinite l) (hr : IsFinite r) where
  abbrev borrows : Bool
  borrows = ltb l.ticks r.ticks

  abbrev code_secs : ℤ
  code_secs =
      let difference = i64 (l.secs -ℤ r.secs) in
      if borrows then i64 (difference -ℤ pos 1) else difference

  abbrev true_secs : ℤ
  true_secs = if borrows then l.secs -ℤ r.secs -ℤ pos 1 else l.secs -ℤ r.secs

  abbrev code_ticks : ℕ
  code_ticks =
      u32 ((if borrows then u32 (l.ticks + ticks_per_second) else l.ticks) + 2 ^ 32 - r.ticks)

  secs-Wraps : Wraps half_64 true_secs code_secs
  secs-Wraps = elim (Bool-cases borrows) [
    | inl borrow ↦ rw borrow (difference_secs_borrow l.secs r.secs hl.0 hr.0)
    | inr none ↦ rw none (difference_secs l.secs r.secs hl.0 hr.0)
  ]

  code_ticks-lt : code_ticks < ticks_per_second
  code_ticks-lt = ground arith

  true_secs_parts :
      pos_part true_secs + neg_part l.secs + pos_part r.secs + (if borrows then 1 else 0)
      ≡ neg_part true_secs + pos_part l.secs + neg_part r.secs
  true_secs_parts = elim (Bool-cases borrows) [
    | inl borrow ↦ rw borrow (omega int_laws)
    | inr none ↦ rw none (omega int_laws)
  ]

  total_parts :
      pos_part (total l -ℤ total r) + neg_part true_secs * ticks_per_second
      ≡ neg_part (total l -ℤ total r) + pos_part true_secs * ticks_per_second + code_ticks
  unfolding total
  total_parts = ground (
    arith,
    true_secs_parts,
    difference_ticks l.ticks r.ticks hl.1 hr.1,
    -ℤ_parts (total l) (total r),
    +ℤ_parts (l.secs *ℤ ticks_per_second) (pos l.ticks),
    +ℤ_parts (r.secs *ℤ ticks_per_second) (pos r.ticks),
    *ℤ_parts l.secs ticks_per_second,
    *ℤ_parts r.secs ticks_per_second,
  )

  near_lhs :
      (ltb_ℤ r.secs (pos 0) ≡ true
        → (l.secs ≤ℤ true_secs)
          × (pos_part true_secs + neg_part l.secs ≤ neg_part true_secs + pos_part l.secs + half_64))
      × (ltb_ℤ r.secs (pos 0) ≡ false
          → (true_secs ≤ℤ l.secs)
            × (pos_part l.secs + neg_part true_secs
                ≤ neg_part l.secs + pos_part true_secs + half_64))
  near_lhs = (
    λ h. ground (arith, true_secs_parts, parts_disjoint r.secs),
    λ h. ground (arith, true_secs_parts, parts_disjoint r.secs),
  )

  -- The sign that the code tests when it overflows.
  sign_swap : leb_ℤ (pos 0) r.secs ≡ (if ltb_ℤ r.secs (pos 0) then false else true)
  sign_swap = ground arith

  -- Below its tests for infinity, `sub` gives the exact difference or saturates.
  pub view-sub_finite : view (sub_finite l r) ≡ saturate (total l -ℤ total r)
  unfolding sub_finite
  view-sub_finite = elim (Bool-cases (ltb_ℤ r.secs (pos 0))) [
    | inl neg ↦
        rw (sign_swap, neg)
          (view_up l.secs true_secs code_secs (total l -ℤ total r) code_ticks hl.0 secs-Wraps
            code_ticks-lt total_parts (near_lhs.0 neg).0 (near_lhs.0 neg).1)
    | inr nonneg ↦
        rw (sign_swap, nonneg)
          (view_down l.secs true_secs code_secs (total l -ℤ total r) code_ticks hl.0 secs-Wraps
            code_ticks-lt total_parts (near_lhs.1 nonneg).0 (near_lhs.1 nonneg).1)
  ]

  code_secs-IsI64 : IsI64 code_secs
  code_secs-IsI64 = elim (Bool-cases borrows) [
    | inl borrow ↦ rw borrow (wrap_range half_64 (i64 (l.secs -ℤ r.secs) -ℤ pos 1) (omega arith))
    | inr none ↦ rw none (wrap_range half_64 (l.secs -ℤ r.secs) (omega arith))
  ]

  pub sub_finite-IsValid : IsValid (sub_finite l r)
  unfolding sub_finite
  sub_finite-IsValid =
      checked-IsValid l.secs true_secs code_secs (total l -ℤ total r) code_ticks hl.0 secs-Wraps
        code_ticks-lt total_parts _ _ code_secs-IsI64
