-- ===== src/Spawn.antt =====
-- Snapshots, libdune/fast_spawn.c: page tables that share pages copy-on-write, the fault that
-- separates them, and the flush of the TLB of the core that runs the snapshot.
pub mod Shootdown
pub mod Entry
pub mod Cow
pub mod Fault
pub mod Flush
pub mod Patch
pub mod Run
mod Tests
