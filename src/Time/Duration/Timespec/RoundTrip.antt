-- ===== src/Time/Duration/Timespec/RoundTrip.antt =====
-- What `rbc_duration_to_timespec` and `rbc_duration_from_timespec` of src/rbc/time/duration.c keep.
use rubidium_c.Prelude.{ℕ, ap, ◌∙◌, ◌+◌, ◌*◌, ◌/◌, ◌≤◌, ◌<◌, ◌≡◌, refl, inl, inr, arith, Bool-cases}
use rubidium_c.Prelude.Int.{
  ==ℤ_self, ℤ, pos, pos_part, neg_part, ◌+ℤ◌, ◌*ℤ◌, ◌/ℤ◌, ltb_ℤ, ◌≤ℤ◌, ◌<ℤ◌, +ℤ_parts, *ℤ_exact,
  /ℤ_exact, parts_disjoint, eq_of_parts, wrap,
}
use rubidium_c.Prelude.Word.{half_64, u32_of, i64, IsI64}
use rubidium_c.Prelude.Wrap.{wrap_same}
use rubidium_c.Time.Duration.{
  Duration, ticks_per_second, nanoseconds_per_second, duration_s, duration_ns,
}
use rubidium_c.Time.Duration.Spec.{
  view, total, total_lem, IsFinite, view_finite, view_exact, saturate, add_extended,
}
use rubidium_c.Time.Duration.Units.{Exact, from_i64-Exact}
use rubidium_c.Time.Duration.Refinement.{view-add}
use rubidium_c.Time.Duration.Timespec.{
  TimeType, IsTimeType, tweaked, duration_to_timespec, duration_from_timespec,
}

nanoseconds_to_ticks : (n : ℕ) → n < nanoseconds_per_second → u32_of (i64 (pos n *ℤ 4)) ≡ n * 4
unfolding u32_of wrap ◌*ℤ◌
nanoseconds_to_ticks n h = ground arith

duration_s-Exact : (s : ℤ) → IsI64 s → Exact ticks_per_second s (duration_s s)
unfolding duration_s
duration_s-Exact s h = from_i64-Exact s 1 ticks_per_second h (omega arith) refl (omega arith)

duration_ns-Exact : (s : ℤ) → IsI64 s → Exact 4 s (duration_ns s)
unfolding duration_ns
duration_ns-Exact s h = from_i64-Exact s nanoseconds_per_second 4 h (omega arith) refl (omega arith)

-- Reading a `timespec` counts its seconds and nanoseconds exactly, also where the nanoseconds are a
-- second or more, and saturates as sums do.
pub view-from_timespec :
    (s : ℤ) (n : ℕ)
    → IsI64 s
    → n < half_64
    → view (duration_from_timespec (record { tv_sec = s; tv_nsec = pos n }))
      ≡ saturate (s *ℤ ticks_per_second +ℤ pos (n * 4))
unfolding duration_from_timespec
view-from_timespec s n hs hn = elim (Bool-cases (ltb_ℤ (pos n) (pos nanoseconds_per_second))) [
  | inl short ↦
      let n_short : n < nanoseconds_per_second = ground arith in
      rw (short, nanoseconds_to_ticks n n_short)
        (view_exact _ _ (hs, omega arith) (unfold total in refl))
  | inr long ↦
      let a = duration_s-Exact s hs in
      let b = duration_ns-Exact (pos n) (hn, omega arith) in
      let l = duration_s s in
      let r = duration_ns (pos n) in
      rw (long, (view-add l r (inl a.0) (inl b.0)).0, (view_finite l a.0).1, (view_finite r b.0).1)
        (unfold add_extended in
          ap saturate (
            eq_of_parts _ _ (
              omega (
                arith,
                a.1,
                b.1,
                +ℤ_parts (total l) (total r),
                +ℤ_parts (s *ℤ ticks_per_second) (pos (n * 4)),
                *ℤ_exact s ticks_per_second,
              ))))
]

-- The tweak rounds a negative duration up to whole nanoseconds when its ticks are divided.
tweaked_lem :
    (d : Duration)
    → IsFinite d
    → IsFinite (tweaked d)
      × ((pos_part (tweaked d).secs * nanoseconds_per_second
            + (tweaked d).ticks / 4
            + neg_part (total d) / 4
          ≡ neg_part (tweaked d).secs * nanoseconds_per_second + pos_part (total d) / 4))
      × (d.secs ≤ℤ (tweaked d).secs)
      × (pos_part (tweaked d).secs + neg_part d.secs
          ≤ neg_part (tweaked d).secs + pos_part d.secs + 1)
unfolding tweaked
tweaked_lem d h = ground (
  arith,
  wrap_same half_64 (d.secs +ℤ pos 1),
  +ℤ_parts d.secs (pos 1),
  parts_disjoint d.secs,
  parts_disjoint (d.secs +ℤ pos 1),
  parts_disjoint (total d),
  total_lem d,
)

-- A finite duration whose seconds (rounded up) `time_t` holds survives the way through a `timespec`
-- but for the ticks below a nanosecond, which are cut off towards zero.
pub from_timespec-to_timespec :
    (t : TimeType) (d : Duration)
    → IsTimeType t
    → IsFinite d
    → t.time_min ≤ℤ d.secs
    → d.secs <ℤ t.time_max
    → view (duration_from_timespec (duration_to_timespec t d)) ≡ saturate (total d /ℤ 4 *ℤ 4)
unfolding duration_to_timespec
from_timespec-to_timespec t d ok h lo hi =
    let e = tweaked d in
    let w = tweaked_lem d h in
    let same = ok.keeps e.secs (omega (arith, w)) (omega (arith, w)) in
    rw ((view_finite d h).0, same, ==ℤ_self e.secs)
      (view-from_timespec e.secs (e.ticks / 4) w.0.0 (omega (arith, w))
        ∙ ap saturate (
            eq_of_parts _ _ (
              omega (
                arith,
                w,
                +ℤ_parts (e.secs *ℤ ticks_per_second) (pos (e.ticks / 4 * 4)),
                *ℤ_exact e.secs ticks_per_second,
                *ℤ_exact (total d /ℤ 4) 4,
                /ℤ_exact (total d) 4,
              ))))
