-- ===== src/PortScan/Scheduler.antt =====
-- include/portscan/port_scheduler.hpp and src/portscan/port_scheduler.cpp: `PortScanScheduler`.
pub mod State
pub mod Attempt
pub mod Pump
pub mod Handlers
pub mod Submit
pub mod Conservation
pub mod Results
pub mod Run
pub mod Attempts
pub mod Allowance
pub mod Retries
pub mod Spending
pub mod Termination
pub mod Submission
pub mod Failure
pub mod Fitting
pub mod Soundness
pub mod Verdicts
pub mod Meaning
mod Tests
