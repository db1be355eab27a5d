-- ===== src/ScanEngine.antt =====
-- src/scanengine: adaptive timing, the group of scan work and the scheduler that drives it.
pub mod Congestion
pub mod Rtt
pub mod Timing
pub mod Metrics
pub mod Group
pub mod Scheduler
pub mod Controller
