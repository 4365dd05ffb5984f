-- ===== src/Time/Duration/Factories.antt =====
-- The factory functions of src/rbc/time/duration.c.
use rubidium_c.Prelude.{
  ℕ, ◌*◌, ◌≤◌, ◌<◌, ◌≡◌, refl, inl, inr, arith, Bool-cases, ◌&&◌, ◌⊎◌, if◌then◌else◌,
}
use rubidium_c.Prelude.Int.{
  ℤ, pos, pos_part, neg_part, parts_disjoint, ◌*ℤ◌, ◌/ℤ◌, eq_of_parts, *ℤ_exact, leb_ℤ, ltb_ℤ,
}
use rubidium_c.Prelude.Word.{half_64, i64, IsI64, i64_max, i64_min}
use rubidium_c.Prelude.Wrap.{wrap_same}
use rubidium_c.Time.Duration.{
  Duration, ticks_per_second, is_inf, is_neg, duration_inf, duration_neg_inf, duration_ns,
  duration_us, duration_ms, duration_s, duration_min, duration_h, seconds_per_minute,
  seconds_per_hour,
}
use rubidium_c.Time.Duration.Spec.{view, total_lem, view_exact, saturate, tick_limit}
use rubidium_c.Time.Duration.Units.{Exact, from_i64-Exact}

view-Exact : (d : Duration) (n : ℤ) (k : ℕ) → Exact k n d → view d ≡ saturate (n *ℤ k)
view-Exact d n k (h, e) = view_exact d (n *ℤ k) h (eq_of_parts _ _ (omega (arith, e, *ℤ_exact n k)))

whole_seconds :
    (n : ℤ) (k : ℕ)
    → IsI64 (n *ℤ k)
    → view (record { secs = i64 (n *ℤ k); ticks = 0 }) ≡ saturate (n *ℤ (k * ticks_per_second))
whole_seconds n k h =
    let d : Duration = record { secs = n *ℤ k; ticks = 0 } in
    rw (wrap_same half_64 (n *ℤ k) h.0 h.1) (
      view_exact d (n *ℤ (k * ticks_per_second)) (h, omega arith)
        (eq_of_parts _ _
          (ground (arith, total_lem d, *ℤ_exact n k, *ℤ_exact n (k * ticks_per_second)))))

-- Where the code gives an infinity, the count is beyond the limit on that side.
infinite_side :
    (n v : ℤ)
    → (0 < pos_part n) × (tick_limit ≤ pos_part v) ⊎ (pos_part n ≡ 0) × (tick_limit < neg_part v)
    → view (if ltb_ℤ (pos 0) n then duration_inf else duration_neg_inf) ≡ saturate v
unfolding view is_inf is_neg saturate
infinite_side n v h = ground (arith, parts_disjoint n, parts_disjoint v)

duration_min-view : (n : ℤ) → view (duration_min n) ≡ saturate (n *ℤ (60 * ticks_per_second))
unfolding duration_min ◌/ℤ◌
duration_min-view n =
    elim (Bool-cases
      (leb_ℤ n (i64_max /ℤ seconds_per_minute) && leb_ℤ (i64_min /ℤ seconds_per_minute) n)) [
        | inl fits ↦ rw fits (whole_seconds n 60 (ground (arith, *ℤ_exact n 60)))
        | inr large ↦ rw large (
            infinite_side n _
              (ground (arith, parts_disjoint n, *ℤ_exact n (60 * ticks_per_second))))
      ]

duration_h-view : (n : ℤ) → view (duration_h n) ≡ saturate (n *ℤ (3600 * ticks_per_second))
unfolding duration_h ◌/ℤ◌
duration_h-view n =
    elim (Bool-cases
      (leb_ℤ n (i64_max /ℤ seconds_per_hour) && leb_ℤ (i64_min /ℤ seconds_per_hour) n)) [
        | inl fits ↦ rw fits (whole_seconds n 3600 (ground (arith, *ℤ_exact n 3600)))
        | inr large ↦ rw large (
            infinite_side n _
              (ground (arith, parts_disjoint n, *ℤ_exact n (3600 * ticks_per_second))))
      ]

-- Each factory function counts its unit exactly: so many ticks to the unit, and the infinity on the
-- value's side where no duration holds that many.
pub factories-view :
    (n : ℤ)
    → IsI64 n
    → (view (duration_ns n) ≡ saturate (n *ℤ 4))
      × (view (duration_us n) ≡ saturate (n *ℤ 4_000))
      × (view (duration_ms n) ≡ saturate (n *ℤ 4_000_000))
      × (view (duration_s n) ≡ saturate (n *ℤ ticks_per_second))
      × (view (duration_min n) ≡ saturate (n *ℤ (60 * ticks_per_second)))
      × (view (duration_h n) ≡ saturate (n *ℤ (3600 * ticks_per_second)))
unfolding duration_ns duration_us duration_ms duration_s
factories-view n h = (
  view-Exact _ n 4 (from_i64-Exact n _ 4 h (omega arith) refl (omega arith)),
  view-Exact _ n 4_000 (from_i64-Exact n _ 4_000 h (omega arith) refl (omega arith)),
  view-Exact _ n 4_000_000 (from_i64-Exact n _ 4_000_000 h (omega arith) refl (omega arith)),
  view-Exact _ n ticks_per_second
      (from_i64-Exact n _ ticks_per_second h (omega arith) refl (omega arith)),
  duration_min-view n,
  duration_h-view n,
)
