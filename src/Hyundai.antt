-- ===== src/Hyundai.antt =====
-- src/hyundai_can.h and src/hyundai_can.cc: the CAN messages that the controller sends.
pub mod Lkas11
pub mod Torque
pub mod Mdps12
pub mod Clu11
pub mod Frames
mod Tests
