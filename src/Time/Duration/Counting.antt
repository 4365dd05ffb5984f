-- ===== src/Time/Duration/Counting.antt =====
-- The conversions of src/rbc/time/duration.c back to whole units.
use native.Mathlib.Nat.{div-div-eq-div-mul, mul_comm}
use rubidium_c.Prelude.{ℕ, not, ◌&&◌, ◌==◌, if◌then◌else◌, ◌+◌, ◌*◌, ◌≤◌, ◌<◌, ◌≡◌, refl, arith}
use rubidium_c.Prelude.Int.{
  ℤ, pos, pos_part, neg_part, parts_disjoint, ◌*ℤ◌, ◌/ℤ◌, ◌+ℤ◌, +ℤ_parts, eq_of_parts, *ℤ_exact,
  /ℤ_exact, ltb_ℤ,
}
use rubidium_c.Prelude.Word.{half_64, i64, IsI64}
use rubidium_c.Prelude.Wrap.{wrap_same, wrap_step, Wraps}
use rubidium_c.Time.Duration.{Duration, ticks_per_second}
use rubidium_c.Time.Duration.Spec.{total, total_lem, IsFinite, view_finite}
use rubidium_c.Time.Duration.Convert.{to_ns, to_us, to_ms, to_s, to_min, to_h}

-- `v` is the greatest number with at most `t` ticks in `v` units of `k` ticks.
abbrev pub IsFloor : ℕ → ℤ → ℤ → Type 0
IsFloor k t v =
    (pos_part v * k + neg_part t ≤ neg_part v * k + pos_part t)
    × (neg_part v * k + pos_part t < pos_part v * k + neg_part t + k)

-- The sum that the code makes is `v`, although the product alone may have wrapped.
wrapped_sum :
    (s v : ℤ) (ratio r : ℕ)
    → IsI64 v
    → r < half_64
    → pos_part s * ratio + r + neg_part v ≡ neg_part s * ratio + pos_part v
    → i64 (i64 (s *ℤ ratio) +ℤ pos r) ≡ v
wrapped_sum s v ratio r hv hr e =
    eq_of_parts _ _ (ground (arith, stored, +ℤ_parts (s *ℤ ratio) (pos r), *ℤ_exact s ratio))
  where
    a : ℤ
    a = s *ℤ ratio

    stored : Wraps half_64 (a +ℤ pos r) (i64 (i64 a +ℤ pos r))
    stored =
        wrap_step half_64 a (a +ℤ pos r) (i64 a +ℤ pos r) r 0 (omega arith) (omega arith)
          (omega (
            arith,
            +ℤ_parts a (pos r),
            +ℤ_parts (i64 a) (pos r),
            *ℤ_exact s ratio,
            parts_disjoint v,
            parts_disjoint a,
            parts_disjoint (a +ℤ pos r),
          ))
          (omega (
            arith,
            +ℤ_parts a (pos r),
            +ℤ_parts (i64 a) (pos r),
            *ℤ_exact s ratio,
            parts_disjoint v,
            parts_disjoint a,
            parts_disjoint (a +ℤ pos r),
          ))
          (omega (
            arith,
            +ℤ_parts a (pos r),
            +ℤ_parts (i64 a) (pos r),
            *ℤ_exact s ratio,
            parts_disjoint v,
            parts_disjoint a,
            parts_disjoint (a +ℤ pos r),
          ))
          (omega (
            arith,
            +ℤ_parts a (pos r),
            +ℤ_parts (i64 a) (pos r),
            *ℤ_exact s ratio,
            parts_disjoint v,
            parts_disjoint a,
            parts_disjoint (a +ℤ pos r),
          ))
          (omega (
            arith,
            +ℤ_parts a (pos r),
            +ℤ_parts (i64 a) (pos r),
            *ℤ_exact s ratio,
            parts_disjoint v,
            parts_disjoint a,
            parts_disjoint (a +ℤ pos r),
          ))
          (omega (
            arith,
            +ℤ_parts a (pos r),
            +ℤ_parts (i64 a) (pos r),
            *ℤ_exact s ratio,
            parts_disjoint v,
            parts_disjoint a,
            parts_disjoint (a +ℤ pos r),
          ))

-- The units below a second, with their ticks and their conversion.
pub data FineUnit : Type 0 where
  ns us ms : FineUnit

abbrev pub ticks_of : FineUnit → ℕ
ticks_of ns = 4
ticks_of us = 4_000
ticks_of ms = 4_000_000

abbrev pub convert : FineUnit → Duration → ℤ
convert ns d = to_ns d
convert us d = to_us d
convert ms d = to_ms d

-- Below a second the units round down: where the count of whole nanoseconds, microseconds or
-- milliseconds of a finite duration fits i64, the conversion to that unit returns it.
pub convert-IsFloor :
    (u : FineUnit) (d : Duration) (v : ℤ)
    → IsFinite d
    → IsI64 v
    → IsFloor (ticks_of u) (total d) v
    → convert u d ≡ v
unfolding to_ns to_us to_ms
convert-IsFloor ns d v h hv f =
    rw (view_finite d h).0 (wrapped_sum d.secs v _ _ hv (omega arith) (ground (arith, total_lem d)))
convert-IsFloor us d v h hv f =
    rw (view_finite d h).0 (wrapped_sum d.secs v _ _ hv (omega arith) (ground (arith, total_lem d)))
convert-IsFloor ms d v h hv f =
    rw (view_finite d h).0 (wrapped_sum d.secs v _ _ hv (omega arith) (ground (arith, total_lem d)))

to_s-eq : (d : Duration) → IsFinite d → to_s d ≡ total d /ℤ ticks_per_second
unfolding to_s
to_s-eq d h =
    rw
      (
        (view_finite d h).0,
        wrap_same half_64 (d.secs +ℤ up)
            (ground (
              arith,
              +ℤ_parts d.secs up,
              parts_disjoint d.secs,
              parts_disjoint (d.secs +ℤ up),
              total_lem d,
              parts_disjoint (total d),
              /ℤ_exact (total d) ticks_per_second,
            ))
            (ground (
              arith,
              +ℤ_parts d.secs up,
              parts_disjoint d.secs,
              parts_disjoint (d.secs +ℤ up),
              total_lem d,
              parts_disjoint (total d),
              /ℤ_exact (total d) ticks_per_second,
            )),
      )
      (eq_of_parts _ _ (
        ground (
          arith,
          +ℤ_parts d.secs up,
          parts_disjoint d.secs,
          parts_disjoint (d.secs +ℤ up),
          total_lem d,
          parts_disjoint (total d),
          /ℤ_exact (total d) ticks_per_second,
        )))
  where
    up : ℤ
    up = if ltb_ℤ d.secs (pos 0) && not (d.ticks == 0) then pos 1 else pos 0

quotient_of_quotient : (a : ℤ) (k : ℕ) → a /ℤ ticks_per_second /ℤ k ≡ a /ℤ (k * ticks_per_second)
quotient_of_quotient a k = eq_of_parts _ _ (
    ground (
      arith,
      /ℤ_exact a ticks_per_second,
      /ℤ_exact (a /ℤ ticks_per_second) k,
      /ℤ_exact a (k * ticks_per_second),
      div-div-eq-div-mul (pos_part a) ticks_per_second k,
      div-div-eq-div-mul (neg_part a) ticks_per_second k,
      mul_comm k ticks_per_second,
    ))

-- From a second on the units round towards zero, as the division of C does.
pub seconds_truncate :
    (d : Duration)
    → IsFinite d
    → (to_s d ≡ total d /ℤ ticks_per_second)
      × (to_min d ≡ total d /ℤ (60 * ticks_per_second))
      × (to_h d ≡ total d /ℤ (3600 * ticks_per_second))
unfolding to_min to_h
seconds_truncate d h =
    rw ((view_finite d h).0, to_s-eq d h)
      (refl, quotient_of_quotient (total d) 60, quotient_of_quotient (total d) 3600)
