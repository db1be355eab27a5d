-- ===== src/PortScan.antt =====
-- src/portscan: port scanning.
pub mod Types
pub mod Probes
pub mod Ports
pub mod Scheduler
