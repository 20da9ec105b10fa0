-- ===== src/Tools.antt =====
-- The programs under examples/ that test the daemon from outside: what they count and what they
-- judge. The daemon itself, the clock and the machine are arguments.
pub mod Reading
pub mod Killtest
pub mod Soak
mod Examples
