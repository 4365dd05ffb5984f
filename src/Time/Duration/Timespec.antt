-- ===== src/Time/Duration/Timespec.antt =====
-- `rbc_duration_to_timespec` and `rbc_duration_from_timespec` of src/rbc/time/duration.c.
pub mod RoundTrip
use rubidium_c.Prelude.{
  ℕ, ◌+◌, ◌-◌, ◌*◌, ◌/◌, ◌^◌, ◌≤◌, ◌<◌, ◌≡◌, refl, inl, inr, arith, Bool, true, false, leb, not,
  if◌then◌else◌, Bool-cases,
}
use rubidium_c.Prelude.Int.{ℤ, pos, negsuc, pos_part, neg_part, ◌+ℤ◌, ◌*ℤ◌, ◌==ℤ◌, ltb_ℤ, ◌≤ℤ◌}
use rubidium_c.Prelude.Word.{u32, u32_of, i64, IsI64}
use rubidium_c.Time.Timespec.{Timespec, StdTimespec, timespec_from_std_timespec}
use rubidium_c.Time.Duration.{
  Duration, ticks_per_second, ticks_per_nanosecond, nanoseconds_per_second, is_inf, is_neg,
  duration_s, duration_ns, add,
}

-- What the code uses of `time_t`: the conversion of an i64 to it and its extreme values.
pub record TimeType : Type 0 where
  pub to_time_t : ℤ → ℤ
  pub time_min : ℤ
  pub time_max : ℤ

-- A conversion keeps a value in range, as C promises of every integer type.
pub record IsTimeType (t : TimeType) : Type 0 where
  pub keeps : (s : ℤ) → t.time_min ≤ℤ s → s ≤ℤ t.time_max → t.to_time_t s ≡ s
  pub in_range : (s : ℤ) → (t.time_min ≤ℤ t.to_time_t s) × (t.to_time_t s ≤ℤ t.time_max)

-- The fields after the tweak for negative durations.
pub tweaked : Duration → Duration
tweaked self =
    if ltb_ℤ self.secs (pos 0)
    then (let ticks = u32 (self.ticks + (ticks_per_nanosecond - 1)) in
        if leb ticks_per_second ticks
        then record {
          secs = i64 (self.secs +ℤ pos 1);
          ticks = u32 (ticks + 2 ^ 32 - ticks_per_second);
        }
        else record { secs = self.secs; ticks = ticks })
    else self

-- The values that stand for an infinity or for a count of seconds that `time_t` does not hold.
pub extreme : TimeType → Duration → Timespec
extreme t self =
    if is_neg self
    then record { tv_sec = t.time_min; tv_nsec = pos 0 }
    else record { tv_sec = t.time_max; tv_nsec = pos (nanoseconds_per_second - 1) }

unfoldable pub duration_to_timespec : TimeType → Duration → Timespec
unfolding tweaked extreme
duration_to_timespec t self =
    let d = tweaked self in
    if not (is_inf self)
    then if t.to_time_t d.secs ==ℤ d.secs
      then record { tv_sec = t.to_time_t d.secs; tv_nsec = pos (d.ticks / ticks_per_nanosecond) }
      else extreme t self
    else extreme t self

-- `tv_nsec` is a `long` of 64 bits, so the product wraps there before its conversion to u32.
unfoldable pub duration_from_timespec : Timespec → Duration
duration_from_timespec ts =
    if ltb_ℤ ts.tv_nsec (pos nanoseconds_per_second)
    then record { secs = ts.tv_sec; ticks = u32_of (i64 (ts.tv_nsec *ℤ ticks_per_nanosecond)) }
    else add (duration_s ts.tv_sec) (duration_ns ts.tv_nsec)

unfoldable pub duration_from_std_timespec : StdTimespec → Duration
duration_from_std_timespec ts = duration_from_timespec (timespec_from_std_timespec ts)
