-- ===== src/Time/Point.antt =====
-- src/rbc/time/time.h and time.c: points in time as durations since the epoch. The clock is what
-- `clock_gettime` stores, a parameter.
pub mod Deadline
use rubidium_c.Prelude.{Bool}
use rubidium_c.Time.Timespec.{Timespec, StdTimespec, timespec_get}
use rubidium_c.Time.Duration
use rubidium_c.Time.Duration.{Duration, duration_zero}
use rubidium_c.Time.Duration.Timespec.{TimeType, duration_to_timespec, duration_from_timespec}

pub record Time : Type 0 where
  pub rep : Duration

abbrev pub time_unix_epoch : Time
time_unix_epoch = record { rep = duration_zero }

unfoldable pub time_now : StdTimespec → Time
time_now clock = let ts = timespec_get clock in record { rep = duration_from_timespec ts }

unfoldable pub time_lt : Time → Time → Bool
time_lt lhs rhs = Duration.lt lhs.rep rhs.rep

unfoldable pub time_le : Time → Time → Bool
time_le lhs rhs = Duration.le lhs.rep rhs.rep

unfoldable pub time_gt : Time → Time → Bool
time_gt lhs rhs = Duration.gt lhs.rep rhs.rep

unfoldable pub time_ge : Time → Time → Bool
time_ge lhs rhs = Duration.ge lhs.rep rhs.rep

unfoldable pub time_eq : Time → Time → Bool
time_eq lhs rhs = Duration.eq lhs.rep rhs.rep

unfoldable pub time_ne : Time → Time → Bool
time_ne lhs rhs = Duration.ne lhs.rep rhs.rep

unfoldable pub time_sub : Time → Time → Duration
time_sub lhs rhs = Duration.sub lhs.rep rhs.rep

unfoldable pub time_add_duration : Time → Duration → Time
time_add_duration self d = record { rep = Duration.add self.rep d }

unfoldable pub time_sub_duration : Time → Duration → Time
time_sub_duration self d = record { rep = Duration.sub self.rep d }

unfoldable pub time_to_timespec : TimeType → Time → Timespec
time_to_timespec time_type t = duration_to_timespec time_type t.rep

unfoldable pub time_from_timespec : Timespec → Time
time_from_timespec ts = record { rep = duration_from_timespec ts }

unfoldable pub time_deadline_from_timeout : StdTimespec → Duration → Time
time_deadline_from_timeout clock timeout = time_add_duration (time_now clock) timeout
