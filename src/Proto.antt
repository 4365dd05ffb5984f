-- ===== src/Proto.antt =====
-- src/rbc/proto: the packet protocol.
pub mod Dcp2
