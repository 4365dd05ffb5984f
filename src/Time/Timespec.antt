-- ===== src/Time/Timespec.antt =====
-- src/rbc/time/timespec.h and timespec.c: the structure, its copies to and from the C library's,
-- and the clock. `time_t` and the clock are not code of the repository: the conversions to `time_t`
-- stand in a section over it, and the clock is a parameter.
use rubidium_c.Prelude.{ℕ, ◌+◌, ◌-◌, ◌*◌, ◌/◌, ◌%◌, ◌^◌}
use rubidium_c.Prelude.Int.{ℤ, pos}

pub record Timespec : Type 0 where
  pub tv_sec : ℤ
  pub tv_nsec : ℤ

-- `struct timespec` of the C library has the same two fields.
pub record StdTimespec : Type 0 where
  pub tv_sec : ℤ
  pub tv_nsec : ℤ

unfoldable pub timespec_to_std_timespec : Timespec → StdTimespec
timespec_to_std_timespec self = record { tv_sec = self.tv_sec; tv_nsec = self.tv_nsec }

unfoldable pub timespec_from_std_timespec : StdTimespec → Timespec
timespec_from_std_timespec ts = record { tv_sec = ts.tv_sec; tv_nsec = ts.tv_nsec }

-- `clock` is what `clock_gettime(CLOCK_REALTIME)` stores.
unfoldable pub timespec_get : StdTimespec → Timespec
timespec_get clock = timespec_from_std_timespec clock

-- `resolution` is what `clock_getres(CLOCK_REALTIME)` stores.
unfoldable pub timespec_resolution : StdTimespec → Timespec
timespec_resolution resolution = timespec_from_std_timespec resolution

-- The Windows clock counts ticks of 100 ns since 1601 in a u64.
abbrev pub win_ticks_from_1601_to_unix_epoch : ℕ
win_ticks_from_1601_to_unix_epoch = 116_444_736_000_000_000

abbrev pub win_ticks_per_second : ℕ
win_ticks_per_second = 10_000_000

abbrev pub nanoseconds_per_win_tick : ℕ
nanoseconds_per_win_tick = 100

-- `to_time_t` is the conversion of u64 to `time_t`, `to_long` that to `long`.
unfoldable pub win_timespec_get : (ℕ → ℤ) → (ℕ → ℤ) → ℕ → Timespec
win_timespec_get to_time_t to_long ticks_since_1601 =
    let ticks = (ticks_since_1601 + 2 ^ 64 - win_ticks_from_1601_to_unix_epoch) % 2 ^ 64 in
    let secs = ticks / win_ticks_per_second in
    let nsecs =
      (ticks + 2 ^ 64 - secs * win_ticks_per_second % 2 ^ 64)
      % 2 ^ 64
      * nanoseconds_per_win_tick
      % 2 ^ 64 in
    record { tv_sec = to_time_t secs; tv_nsec = to_long nsecs }

unfoldable pub win_timespec_resolution : Timespec
win_timespec_resolution = record { tv_sec = pos 0; tv_nsec = pos nanoseconds_per_win_tick }
