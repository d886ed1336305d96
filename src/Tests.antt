-- ===== src/Tests.antt =====
-- Runs at concrete inputs.
mod Areas
mod Bits
mod Directory
pub mod Files
pub mod Blocks
mod Buddies
mod Families
mod Numbers
mod Pages
mod Rings
mod Waiting
pub mod Scheduling
