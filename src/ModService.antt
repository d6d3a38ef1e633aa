-- ===== src/ModService.antt =====
-- muc_svc.c: the service on the processor that stands for the SVC of the modules.
pub mod Routes
pub mod Recovery
pub mod Requests
pub mod Connections
pub mod Forwarding
pub mod Untouched
pub mod Answering
pub mod Attach
pub mod Restored
pub mod Backoff
pub mod Messages
pub mod Waiting
pub mod Modules
mod Tests
