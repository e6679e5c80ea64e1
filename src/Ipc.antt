-- ===== src/Ipc.antt =====
-- The channels of src/ipc_channels.h and src/ipc_channels.cc in shared memory.
pub mod Messages
pub mod CanQueue
pub mod LatestChannel
pub mod FrameRing
mod Tests
