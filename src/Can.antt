-- ===== src/Can.antt =====
-- src/can_frame.h: the CAN payload as eight bytes, and the little-endian bit fields in it.
pub mod Frame
pub mod Signal
pub mod Layout
mod Tests
