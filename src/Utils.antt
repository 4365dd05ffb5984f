-- ===== src/Utils.antt =====
-- src/rbc/utils, but for the conversions of numbers, which stand in Charconv.
pub mod Swap
