-- ===== src/Spawn/Tests.antt =====
-- Runs of libdune/fast_spawn.c at concrete states.
mod Shootdown
mod Runs
mod Faults
mod Tables
mod Buffers
