-- ===== src/Manifest.antt =====
-- manifest.c, with the bundles of bundle.c that it creates: the parsing of an interface's manifest.
-- The manifest lies in a memory `mem` from address 0 on, one byte to an address; the code also reads a few
-- bytes before it knows that they belong to the manifest, so `mem` goes on behind it.
pub mod Defs
pub mod Steps
pub mod Main
pub mod Identify
pub mod Cports
pub mod Bundles
pub mod Parse
pub mod Strings
mod Tests
