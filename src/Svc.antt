-- ===== src/Svc.antt =====
-- svc.c: the supervisory controller, which tells the host of interfaces that come and go.
pub mod Interfaces
pub mod Hotplug
pub mod Requests
pub mod Lists
pub mod Routed
pub mod Consistent
pub mod Outcome
pub mod Invariant
mod Tests
