-- ===== src/Nw.antt =====
-- mods_nw.c: the switch between the modules' data links. Routes lead from a CPort of an interface to one of
-- another; filters may take messages of a protocol. Devices are known by numbers in place of addresses.
pub mod Defs
pub mod Entries
pub mod Filters
pub mod Calls
pub mod Forward
pub mod FarEnd
mod Tests
