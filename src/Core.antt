-- ===== src/Core.antt =====
-- src/rbc/core.
pub mod Assert
pub mod SourceLocation
pub mod Bits
pub mod Error
pub mod Version
mod Tests
