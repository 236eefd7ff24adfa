-- ===== src/Vm.antt =====
-- libdune/vm.c: page tables of four levels, walked, looked up, mapped, cloned and freed.
pub mod Pte
pub mod Machine
pub mod Walk
pub mod Lookup
pub mod Map
pub mod Clone
mod Tests
