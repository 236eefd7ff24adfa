-- ===== src/Umm/Calls.antt =====
-- Every call of the sandboxed program keeps heap and mappings apart.
pub mod Base
pub mod Heap
pub mod Pages
pub mod Move
