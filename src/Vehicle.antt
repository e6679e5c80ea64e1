-- ===== src/Vehicle.antt =====
-- The vehicle's state from the CAN messages of the car, src/vehicle_can.h and src/vehicle_can.cc.
pub mod Decode
pub mod Estimate
pub mod Dispatch
pub mod Read
pub mod Estimated
pub mod Times
pub mod Heard
pub mod Consistent
pub mod Faults
pub mod Angle
pub mod Speed
mod Tests
