-- ===== src/Sandbox.antt =====
-- apps/sandbox/trap.c and exec.c: what the sandboxed program may ask for.
pub mod Check
pub mod Params
pub mod Handler
pub mod Exec
pub mod Loader
pub mod Start
pub mod Tests
