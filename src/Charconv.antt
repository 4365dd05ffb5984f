-- ===== src/Charconv.antt =====
-- src/rbc/utils/charconv.h and charconv.c: numbers from and to decimal text.
pub mod Types
pub mod FromChars
pub mod ToChars
pub mod RoundTrip
pub mod Generic
mod Tests
