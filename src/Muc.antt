-- ===== src/Muc.antt =====
-- The attachment of a module: muc_gpio.c, with the choice of a transport in muc_core.c.
pub mod State
pub mod Detection
pub mod Resets
pub mod Port
pub mod Detects
pub mod Refines
pub mod ResetPorts
pub mod Invariant
pub mod Work
pub mod Settling
pub mod Shorts
pub mod Sequences
mod Tests
