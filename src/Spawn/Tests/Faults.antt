-- ===== src/Spawn/Tests/Faults.antt =====
-- Faults on a page that the program and its snapshot share.
use libdbos.Common.{ℕ, ◌+◌, ◌*◌, true, false, some, bit_or, ◌==◌, if◌then◌else◌}
use libdbos.Vm.Machine.{PageOps, Machine, store}
use libdbos.Spawn.Entry.{pte_lock}
use libdbos.Spawn.Fault.{Spawned}

-- An allocator that hands out page after page; every page has two references.
abbrev paired : PageOps ℕ
paired = record {
  alloc = λ s. some (some (s * 4096), s + 1);
  get = λ s p. some s;
  put = λ s p. some s;
  isfrompool = λ s p. true;
  ref = λ s p. 2;
}

-- The program's entry at 0x4008 and the snapshot's at 0x5008 share the page at 0x9000, whose first
-- word is 42. The snapshot's root is at 0x21000.
abbrev shared : Machine ℕ
shared = record {
  mem = λ a.
      if a == 0x21000
      then 0x22007
      else if a == 0x22000
      then 0x23007
      else if a == 0x23000
      then 0x5007
      else if a == 0x4008
      then 0x9201
      else if a == 0x5008
      then 0x9201
      else if a == 0x9000
      then 42
      else 0;
  pool = 16;
}

abbrev locked : Machine ℕ
locked = store shared 0x4008 (bit_or (shared.mem 0x4008) pte_lock)

abbrev settings : Spawned
settings = record {
  pgroot = 0x1000;
  pgroot_snapshot = some 0x21000;
  snapshot_thread_started = true;
  pipeline = false;
  selective = true;
  message_queued = false;
}
