-- ===== src/Mpsse.antt =====
-- The MPSSE adapter: src/mpsse_buffer.cpp and src/mpsse.cpp.
pub mod Buffer
pub mod Driver
pub mod Ensures
pub mod Appends
pub mod Stream
pub mod Engine
pub mod Decode
pub mod Scan
pub mod Clocks
pub mod Device
pub mod Keeping
pub mod Tracking
pub mod Healthy
pub mod Reading
pub mod Reliable
pub mod Tunable
