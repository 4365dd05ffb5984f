-- ===== src/Containers.antt =====
-- src/rbc/containers: the macros for vectors and arrays.
pub mod Vector
pub mod Array
mod Tests
