-- ===== src/Ept.antt =====
-- kern/ept.c: the extended page tables that map guest-physical to host memory, and the address
-- translation of libdune/dune.h.
pub mod Addr
pub mod Entry
pub mod Lookup
pub mod Map
pub mod Notify
mod Tests
