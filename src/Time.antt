-- ===== src/Time.antt =====
-- src/rbc/time: durations, points in time, and their conversions to `timespec`.
pub mod Timespec
pub mod Duration
pub mod Point
mod Tests
