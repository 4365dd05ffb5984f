-- ===== src/Time/Duration.antt =====
-- src/rbc/time/duration.h and duration.c: factory functions, tests, comparisons and arithmetic.
-- A duration is a count of quarter nanoseconds, kept as whole seconds and a rest; a rest of
-- `inf_ticks` marks the two infinities. Each operation on i64 and u32 has its wrap written out.
pub mod Spec
pub mod Overflow
pub mod Sum
pub mod Difference
pub mod Refinement
pub mod Comparison
pub mod Negation
pub mod Convert
pub mod Units
pub mod Factories
pub mod Counting
pub mod Timespec
use rubidium_c.Prelude.{ℕ, ◌+◌, ◌-◌, ◌^◌, Bool, not, ◌&&◌, ltb, leb, ◌==◌, if◌then◌else◌}
use rubidium_c.Prelude.Int.{ℤ, pos, negsuc, ◌+ℤ◌, ◌-ℤ◌, ◌*ℤ◌, ◌/ℤ◌, ◌%ℤ◌, ltb_ℤ, leb_ℤ, ◌==ℤ◌}
use rubidium_c.Prelude.Word.{u32, u32_of, i64, i64_max, i64_min}

pub record Duration : Type 0 where
  pub secs : ℤ
  pub ticks : ℕ

abbrev pub inf_ticks : ℕ
inf_ticks = 2 ^ 32 - 1

abbrev pub ticks_per_second : ℕ
ticks_per_second = 4_000_000_000

abbrev pub ticks_per_nanosecond : ℕ
ticks_per_nanosecond = 4

abbrev pub nanoseconds_per_second : ℕ
nanoseconds_per_second = 1_000_000_000

abbrev pub microseconds_per_second : ℕ
microseconds_per_second = 1_000_000

abbrev pub milliseconds_per_second : ℕ
milliseconds_per_second = 1000

abbrev pub seconds_per_minute : ℕ
seconds_per_minute = 60

abbrev pub seconds_per_hour : ℕ
seconds_per_hour = 3600

abbrev pub duration_zero : Duration
duration_zero = record { secs = pos 0; ticks = 0 }

abbrev pub duration_inf : Duration
duration_inf = record { secs = i64_max; ticks = inf_ticks }

abbrev pub duration_neg_inf : Duration
duration_neg_inf = record { secs = i64_min; ticks = inf_ticks }

pub make_duration : ℤ → ℤ → Duration
make_duration secs ticks = record { secs = secs; ticks = u32_of ticks }

pub make_normalized_duration : ℤ → ℤ → Duration
unfolding make_duration
make_normalized_duration secs ticks =
    if ltb_ℤ ticks (pos 0)
    then make_duration (i64 (secs -ℤ pos 1)) (i64 (ticks +ℤ pos ticks_per_second))
    else make_duration secs ticks

pub from_i64 : ℤ → ℕ → Duration
unfolding make_normalized_duration
from_i64 value ratio =
    let rem = value %ℤ ratio in
    make_normalized_duration (value /ℤ ratio) (i64 (rem *ℤ ticks_per_second) /ℤ ratio)

unfoldable pub duration_ns : ℤ → Duration
unfolding from_i64
duration_ns ns = from_i64 ns nanoseconds_per_second

unfoldable pub duration_us : ℤ → Duration
unfolding from_i64
duration_us us = from_i64 us microseconds_per_second

unfoldable pub duration_ms : ℤ → Duration
unfolding from_i64
duration_ms ms = from_i64 ms milliseconds_per_second

unfoldable pub duration_s : ℤ → Duration
unfolding from_i64
duration_s s = from_i64 s 1

unfoldable pub duration_min : ℤ → Duration
duration_min min =
    if leb_ℤ min (i64_max /ℤ seconds_per_minute) && leb_ℤ (i64_min /ℤ seconds_per_minute) min
    then record { secs = i64 (min *ℤ seconds_per_minute); ticks = 0 }
    else if ltb_ℤ (pos 0) min
    then duration_inf
    else duration_neg_inf

unfoldable pub duration_h : ℤ → Duration
duration_h h =
    if leb_ℤ h (i64_max /ℤ seconds_per_hour) && leb_ℤ (i64_min /ℤ seconds_per_hour) h
    then record { secs = i64 (h *ℤ seconds_per_hour); ticks = 0 }
    else if ltb_ℤ (pos 0) h
    then duration_inf
    else duration_neg_inf

unfoldable pub is_inf : Duration → Bool
is_inf self = self.ticks == inf_ticks

unfoldable pub is_neg : Duration → Bool
is_neg self = ltb_ℤ self.secs (pos 0)

unfoldable pub lt : Duration → Duration → Bool
lt lhs rhs =
    if not (lhs.secs ==ℤ rhs.secs)
    then ltb_ℤ lhs.secs rhs.secs
    else if lhs.secs ==ℤ i64_min
    then ltb (u32 (lhs.ticks + 1)) (u32 (rhs.ticks + 1))
    else ltb lhs.ticks rhs.ticks

unfoldable pub gt : Duration → Duration → Bool
gt lhs rhs = lt rhs lhs

unfoldable pub le : Duration → Duration → Bool
le lhs rhs = not (lt rhs lhs)

unfoldable pub ge : Duration → Duration → Bool
ge lhs rhs = not (lt lhs rhs)

unfoldable pub eq : Duration → Duration → Bool
eq lhs rhs = (lhs.secs ==ℤ rhs.secs) && (lhs.ticks == rhs.ticks)

unfoldable pub ne : Duration → Duration → Bool
ne lhs rhs = not (eq lhs rhs)

-- `~secs` is `-1 - secs`.
unfoldable pub neg : Duration → Duration
neg self =
    if self.ticks == 0
    then if self.secs ==ℤ i64_min
      then duration_inf
      else record { secs = i64 (pos 0 -ℤ self.secs); ticks = 0 }
    else if is_inf self
    then if ltb_ℤ self.secs (pos 0) then duration_inf else duration_neg_inf
    else record {
      secs = negsuc 0 -ℤ self.secs;
      ticks = u32 (ticks_per_second + 2 ^ 32 - self.ticks);
    }

-- The sum of two finite durations: the part of `add` below its tests for infinity.
unfoldable pub add_finite : Duration → Duration → Duration
add_finite lhs rhs =
    let carry = leb (u32 (ticks_per_second + 2 ^ 32 - rhs.ticks)) lhs.ticks in
    let sum = i64 (lhs.secs +ℤ rhs.secs) in
    let secs = if carry then i64 (sum +ℤ pos 1) else sum in
    let rest = if carry then u32 (lhs.ticks + 2 ^ 32 - ticks_per_second) else lhs.ticks in
    let ticks = u32 (rest + rhs.ticks) in
    let neg_rhs = ltb_ℤ rhs.secs (pos 0) in
    if (if neg_rhs then ltb_ℤ lhs.secs secs else ltb_ℤ secs lhs.secs)
    then if neg_rhs then duration_neg_inf else duration_inf
    else record { secs = secs; ticks = ticks }

unfoldable pub add : Duration → Duration → Duration
add lhs rhs = if is_inf lhs then lhs else if is_inf rhs then rhs else add_finite lhs rhs

-- The difference of two finite durations: the part of `sub` below its tests for infinity.
unfoldable pub sub_finite : Duration → Duration → Duration
sub_finite lhs rhs =
    let borrow = ltb lhs.ticks rhs.ticks in
    let difference = i64 (lhs.secs -ℤ rhs.secs) in
    let secs = if borrow then i64 (difference -ℤ pos 1) else difference in
    let rest = if borrow then u32 (lhs.ticks + ticks_per_second) else lhs.ticks in
    let ticks = u32 (rest + 2 ^ 32 - rhs.ticks) in
    if (if ltb_ℤ rhs.secs (pos 0) then ltb_ℤ secs lhs.secs else ltb_ℤ lhs.secs secs)
    then if leb_ℤ (pos 0) rhs.secs then duration_neg_inf else duration_inf
    else record { secs = secs; ticks = ticks }

unfoldable pub sub : Duration → Duration → Duration
sub lhs rhs =
    if is_inf lhs
    then lhs
    else if is_inf rhs
    then if ltb_ℤ (pos 0) rhs.secs then duration_neg_inf else duration_inf
    else sub_finite lhs rhs
