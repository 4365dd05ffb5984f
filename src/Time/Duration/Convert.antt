-- ===== src/Time/Duration/Convert.antt =====
-- The conversions of src/rbc/time/duration.c to whole units; each product and sum of i64 wraps.
use rubidium_c.Prelude.{◌*◌, ◌/◌, not, ◌&&◌, ◌==◌, if◌then◌else◌}
use rubidium_c.Prelude.Int.{ℤ, pos, ◌+ℤ◌, ◌*ℤ◌, ◌/ℤ◌, ltb_ℤ}
use rubidium_c.Prelude.Word.{i64}
use rubidium_c.Time.Duration.{
  Duration, is_inf, ticks_per_nanosecond, nanoseconds_per_second, microseconds_per_second,
  milliseconds_per_second, seconds_per_minute, seconds_per_hour,
}

unfoldable pub to_ns : Duration → ℤ
to_ns self =
    if is_inf self
    then self.secs
    else i64 (i64 (self.secs *ℤ nanoseconds_per_second) +ℤ pos (self.ticks / ticks_per_nanosecond))

unfoldable pub to_us : Duration → ℤ
to_us self =
    if is_inf self
    then self.secs
    else i64 (
        i64 (self.secs *ℤ microseconds_per_second)
        +ℤ pos (self.ticks / (ticks_per_nanosecond * 1000)))

unfoldable pub to_ms : Duration → ℤ
to_ms self =
    if is_inf self
    then self.secs
    else i64 (
        i64 (self.secs *ℤ milliseconds_per_second)
        +ℤ pos (self.ticks / (ticks_per_nanosecond * 1000 * 1000)))

unfoldable pub to_s : Duration → ℤ
to_s self =
    if is_inf self
    then self.secs
    else i64
        (self.secs +ℤ (if ltb_ℤ self.secs (pos 0) && not (self.ticks == 0) then pos 1 else pos 0))

unfoldable pub to_min : Duration → ℤ
to_min self = if is_inf self then self.secs else to_s self /ℤ seconds_per_minute

unfoldable pub to_h : Duration → ℤ
to_h self = if is_inf self then self.secs else to_s self /ℤ seconds_per_hour
