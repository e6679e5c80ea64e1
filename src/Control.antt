-- ===== src/Control.antt =====
-- The controller's decisions: block reasons, input holds, alerts.
pub mod Inputs
pub mod Path
pub mod Block
pub mod Engage
pub mod Steer
pub mod Actuate
pub mod Send
pub mod Holds
pub mod Alerts
pub mod Hud
pub mod Departure
mod Tests
