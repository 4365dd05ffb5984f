-- ===== src/Time/Tests.antt =====
-- The time component on concrete inputs: each headline theorem applied once, and runs of the code.
use rubidium_c.Prelude.{◌*◌, ◌≡◌, ◌↔◌, ◌⊎◌, refl, inl, arith, true, false, ◌||◌, not}
use rubidium_c.Prelude.Int.{wrap, parts_disjoint, ◌-ℤ◌, ◌%ℤ◌, pos, negsuc, ◌*ℤ◌, ◌+ℤ◌, ◌/ℤ◌}
use rubidium_c.Prelude.Word.{half_64, u32_of, i64}
use rubidium_c.Prelude.Wrap.{wrap_same, wrap_range}
use rubidium_c.Time.Timespec.{StdTimespec, timespec_get, timespec_from_std_timespec}
use rubidium_c.Time.Duration
use rubidium_c.Time.Duration.{
  Duration, duration_inf, duration_neg_inf, ticks_per_second, duration_ns, duration_us, duration_ms,
  duration_s, duration_min, duration_h,
}
use rubidium_c.Time.Duration.Spec.{
  view, total, Below, saturate, add_extended, sub_extended, neg_extended, IsValid,
}
use rubidium_c.Time.Duration.Refinement.{view-add, view-sub}
use rubidium_c.Time.Duration.Negation.{view-neg}
use rubidium_c.Time.Duration.Comparison.{comparison_lem}
use rubidium_c.Time.Duration.Factories.{factories-view}
use rubidium_c.Time.Duration.Convert.{to_ns}
use rubidium_c.Time.Duration.Counting.{FineUnit, convert, convert-IsFloor}
use rubidium_c.Time.Duration.Timespec.{
  TimeType, IsTimeType, duration_to_timespec, duration_from_timespec,
}
use rubidium_c.Time.Duration.Timespec.RoundTrip.{from_timespec-to_timespec}
use rubidium_c.Time.Point.{time_now, time_le, time_deadline_from_timeout}
use rubidium_c.Time.Point.Deadline.{deadline-ge-now}

abbrev minus_half : Duration
minus_half = record { secs = negsuc 0; ticks = 2_000_000_000 }

abbrev long_time : Duration
long_time = record { secs = pos 9_223_372_036_854_775_807; ticks = 3_999_999_999 }

abbrev time_t_64 : TimeType
time_t_64 = record {
  to_time_t = i64;
  time_min = negsuc 9_223_372_036_854_775_807;
  time_max = pos 9_223_372_036_854_775_807;
}

abbrev noon : StdTimespec
noon = record { tv_sec = pos 1_700_000_000; tv_nsec = pos 5 }

view-add_example :
    (view (Duration.add long_time long_time) ≡ add_extended (view long_time) (view long_time))
    × IsValid (Duration.add long_time long_time)
view-add_example = view-add long_time long_time (inl (omega arith)) (inl (omega arith))

saturates : Duration.add long_time long_time ≡ duration_inf
unfolding Duration.add Duration.add_finite Duration.is_inf ◌+ℤ◌ wrap
saturates = refl

view-sub_example :
    (view (Duration.sub minus_half long_time) ≡ sub_extended (view minus_half) (view long_time))
    × IsValid (Duration.sub minus_half long_time)
view-sub_example = view-sub minus_half long_time (inl (omega arith)) (inl (omega arith))

view-neg_example :
    (view (Duration.neg minus_half) ≡ neg_extended (view minus_half))
    × IsValid (Duration.neg minus_half)
view-neg_example = view-neg minus_half (inl (omega arith))

comparison_lem_example :
    ((Duration.lt minus_half long_time ≡ true) ↔ Below (view minus_half) (view long_time))
    × ((Duration.lt minus_half long_time ≡ true)
          × (Duration.eq minus_half long_time ≡ false)
          × (Duration.gt minus_half long_time ≡ false)
        ⊎ ((Duration.lt minus_half long_time ≡ false)
              × (Duration.eq minus_half long_time ≡ true)
              × (Duration.gt minus_half long_time ≡ false)
            ⊎ (Duration.lt minus_half long_time ≡ false)
              × (Duration.eq minus_half long_time ≡ false)
              × (Duration.gt minus_half long_time ≡ true)))
    × (Duration.le minus_half long_time
        ≡ (Duration.lt minus_half long_time || Duration.eq minus_half long_time))
    × (Duration.ge minus_half long_time
        ≡ (Duration.gt minus_half long_time || Duration.eq minus_half long_time))
    × (Duration.ne minus_half long_time ≡ not (Duration.eq minus_half long_time))
    × ((Duration.eq minus_half long_time ≡ true) ↔ (minus_half ≡ long_time))
comparison_lem_example = comparison_lem minus_half long_time (inl (omega arith)) (inl (omega arith))

factories-view_example :
    (view (duration_ns (negsuc 6)) ≡ saturate (negsuc 6 *ℤ 4))
    × (view (duration_us (negsuc 6)) ≡ saturate (negsuc 6 *ℤ 4_000))
    × (view (duration_ms (negsuc 6)) ≡ saturate (negsuc 6 *ℤ 4_000_000))
    × (view (duration_s (negsuc 6)) ≡ saturate (negsuc 6 *ℤ ticks_per_second))
    × (view (duration_min (negsuc 6)) ≡ saturate (negsuc 6 *ℤ (60 * ticks_per_second)))
    × (view (duration_h (negsuc 6)) ≡ saturate (negsuc 6 *ℤ (3600 * ticks_per_second)))
factories-view_example = factories-view (negsuc 6) (omega arith)

convert-IsFloor_example : convert FineUnit.us minus_half ≡ negsuc 499_999
convert-IsFloor_example =
    convert-IsFloor FineUnit.us minus_half (negsuc 499_999) (omega arith) (omega arith)
      (unfold total ◌+ℤ◌ ◌*ℤ◌ in omega arith)

time_t_64-IsTimeType : IsTimeType time_t_64
time_t_64-IsTimeType = record {
  keeps = λ s lo hi.
      wrap_same half_64 s (omega (arith, parts_disjoint s)) (omega (arith, parts_disjoint s));
  in_range = λ s.
      let r = wrap_range half_64 s (omega arith) in
      (omega (arith, r, parts_disjoint (i64 s)), omega (arith, r, parts_disjoint (i64 s)));
}

from_timespec-to_timespec_example :
    view (duration_from_timespec (duration_to_timespec time_t_64 minus_half))
    ≡ saturate (total minus_half /ℤ 4 *ℤ 4)
from_timespec-to_timespec_example =
    from_timespec-to_timespec time_t_64 minus_half time_t_64-IsTimeType (omega arith) (omega arith)
      (omega arith)

deadline-ge-now_example : time_le (time_now noon) (time_deadline_from_timeout noon long_time) ≡ true
deadline-ge-now_example =
    deadline-ge-now noon long_time
      (unfold time_now timespec_get timespec_from_std_timespec duration_from_timespec u32_of ◌*ℤ◌
          wrap in
        inl (omega arith))
      (inl (omega arith)) (unfold Duration.is_neg in refl)

-- The nanosecond count of the least i64 makes `to_ns` overflow on the way, with a wrapped result.
least_ns_wraps :
    to_ns (duration_ns (negsuc 9_223_372_036_854_775_807)) ≡ negsuc 9_223_372_036_854_775_807
unfolding to_ns duration_ns Duration.is_inf ◌*ℤ◌ ◌+ℤ◌ ◌-ℤ◌ ◌/ℤ◌ ◌%ℤ◌ wrap u32_of
least_ns_wraps = refl
