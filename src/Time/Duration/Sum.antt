-- ===== src/Time/Duration/Sum.antt =====
-- The sum of durations: exact where it fits, an infinity elsewhere.
use rubidium_c.Prelude.{
  ℕ, ◌+◌, ◌-◌, ◌*◌, ◌≤◌, ◌<◌, ◌^◌, ◌≡◌, ◌⊎◌, inl, inr, Bool, true, false, arith, if◌then◌else◌, leb,
  Bool-cases,
}
use rubidium_c.Prelude.Int.{
  ℤ, pos, pos_part, neg_part, ◌+ℤ◌, ◌*ℤ◌, ◌≤ℤ◌, int_laws, parts_disjoint, +ℤ_parts, *ℤ_parts, ltb_ℤ,
}
use rubidium_c.Prelude.Word.{u32, i64, half_64, IsI64}
use rubidium_c.Prelude.Wrap.{wrap_range, wrap_cases, wrap_step, Wraps}
use rubidium_c.Time.Duration.Overflow.{view_down, view_up, checked-IsValid}
use rubidium_c.Time.Duration.{Duration, ticks_per_second, add_finite}
use rubidium_c.Time.Duration.Spec.{total, view, IsFinite, IsValid, saturate}

-- The seconds of the sum without and with a carry, as the code wraps them.
sum_secs : (x y : ℤ) → IsI64 x → IsI64 y → Wraps half_64 (x +ℤ y) (i64 (x +ℤ y))
sum_secs x y hx hy =
    wrap_cases half_64 (x +ℤ y) (omega (int_laws, parts_disjoint (x +ℤ y)))
      (omega (int_laws, parts_disjoint (x +ℤ y)))

sum_secs_carry :
    (x y : ℤ) → IsI64 x → IsI64 y → Wraps half_64 (x +ℤ y +ℤ pos 1) (i64 (i64 (x +ℤ y) +ℤ pos 1))
sum_secs_carry x y hx hy =
    wrap_step half_64 (x +ℤ y) (x +ℤ y +ℤ pos 1) (i64 (x +ℤ y) +ℤ pos 1) 1 0 (omega arith)
      (omega arith) (sum_bounds.0) (sum_bounds.1) (omega (int_laws, carry_disjoint))
      (omega (int_laws, carry_disjoint)) (omega int_laws) (omega int_laws)
  where
    sum_bounds : (pos_part (x +ℤ y) < half_64 + half_64) × (neg_part (x +ℤ y) ≤ half_64 + half_64)
    sum_bounds = omega (int_laws, parts_disjoint (x +ℤ y))

    carry_disjoint : (pos_part (x +ℤ y +ℤ pos 1) ≡ 0) ⊎ (neg_part (x +ℤ y +ℤ pos 1) ≡ 0)
    carry_disjoint = parts_disjoint (x +ℤ y +ℤ pos 1)

-- The ticks of the sum, and whether a second is carried.
sum_ticks :
    (a b : ℕ)
    → a < ticks_per_second
    → b < ticks_per_second
    → let carry = leb (u32 (ticks_per_second + 2 ^ 32 - b)) a in
      u32 ((if carry then u32 (a + 2 ^ 32 - ticks_per_second) else a) + b)
      ≡ (if carry then a + b - ticks_per_second else a + b)
sum_ticks a b ha hb = ground arith

-- Both operands finite, with no carry and with one.
module _ (l r : Duration) (hl : IsFinite l) (hr : IsFinite r) where
  abbrev carries : Bool
  carries = leb (u32 (ticks_per_second + 2 ^ 32 - r.ticks)) l.ticks

  abbrev code_secs : ℤ
  code_secs = let sum = i64 (l.secs +ℤ r.secs) in if carries then i64 (sum +ℤ pos 1) else sum

  abbrev true_secs : ℤ
  true_secs = if carries then l.secs +ℤ r.secs +ℤ pos 1 else l.secs +ℤ r.secs

  abbrev code_ticks : ℕ
  code_ticks =
      u32 ((if carries then u32 (l.ticks + 2 ^ 32 - ticks_per_second) else l.ticks) + r.ticks)

  secs-Wraps : Wraps half_64 true_secs code_secs
  secs-Wraps = elim (Bool-cases carries) [
    | inl carry ↦ rw carry (sum_secs_carry l.secs r.secs hl.0 hr.0)
    | inr none ↦ rw none (sum_secs l.secs r.secs hl.0 hr.0)
  ]

  code_ticks-lt : code_ticks < ticks_per_second
  code_ticks-lt = ground arith

  true_secs_parts :
      pos_part true_secs + neg_part l.secs + neg_part r.secs
      ≡ neg_part true_secs + pos_part l.secs + pos_part r.secs + (if carries then 1 else 0)
  true_secs_parts = elim (Bool-cases carries) [
    | inl carry ↦ rw carry (omega int_laws)
    | inr none ↦ rw none (omega int_laws)
  ]

  total_parts :
      pos_part (total l +ℤ total r) + neg_part true_secs * ticks_per_second
      ≡ neg_part (total l +ℤ total r) + pos_part true_secs * ticks_per_second + code_ticks
  unfolding total
  total_parts = ground (
    arith,
    true_secs_parts,
    sum_ticks l.ticks r.ticks hl.1 hr.1,
    +ℤ_parts (total l) (total r),
    +ℤ_parts (l.secs *ℤ ticks_per_second) (pos l.ticks),
    +ℤ_parts (r.secs *ℤ ticks_per_second) (pos r.ticks),
    *ℤ_parts l.secs ticks_per_second,
    *ℤ_parts r.secs ticks_per_second,
  )

  near_lhs :
      (ltb_ℤ r.secs (pos 0) ≡ true
        → (true_secs ≤ℤ l.secs)
          × (pos_part l.secs + neg_part true_secs ≤ neg_part l.secs + pos_part true_secs + half_64))
      × (ltb_ℤ r.secs (pos 0) ≡ false
          → (l.secs ≤ℤ true_secs)
            × (pos_part true_secs + neg_part l.secs
                ≤ neg_part true_secs + pos_part l.secs + half_64))
  near_lhs = (
    λ h. ground (arith, true_secs_parts, parts_disjoint r.secs),
    λ h. ground (arith, true_secs_parts, parts_disjoint r.secs),
  )

  -- Below its tests for infinity, `add` gives the exact sum or saturates.
  pub view-add_finite : view (add_finite l r) ≡ saturate (total l +ℤ total r)
  unfolding add_finite
  view-add_finite = elim (Bool-cases (ltb_ℤ r.secs (pos 0))) [
    | inl neg ↦ rw neg (
        view_down l.secs true_secs code_secs (total l +ℤ total r) code_ticks hl.0 secs-Wraps
          code_ticks-lt total_parts (near_lhs.0 neg).0 (near_lhs.0 neg).1)
    | inr nonneg ↦ rw nonneg (
        view_up l.secs true_secs code_secs (total l +ℤ total r) code_ticks hl.0 secs-Wraps
          code_ticks-lt total_parts (near_lhs.1 nonneg).0 (near_lhs.1 nonneg).1)
  ]

  code_secs-IsI64 : IsI64 code_secs
  code_secs-IsI64 = elim (Bool-cases carries) [
    | inl carry ↦ rw carry (wrap_range half_64 (i64 (l.secs +ℤ r.secs) +ℤ pos 1) (omega arith))
    | inr none ↦ rw none (wrap_range half_64 (l.secs +ℤ r.secs) (omega arith))
  ]

  pub add_finite-IsValid : IsValid (add_finite l r)
  unfolding add_finite
  add_finite-IsValid =
      checked-IsValid l.secs true_secs code_secs (total l +ℤ total r) code_ticks hl.0 secs-Wraps
        code_ticks-lt total_parts _ _ code_secs-IsI64
