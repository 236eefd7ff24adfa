-- ===== src/Vmx.antt =====
-- kern/vmx.c: identifiers of virtual processors, and the interrupts posted to them.
pub mod Vpid
pub mod Posted
pub mod Queued
mod Tests
