-- ===== src/Spawn/Tests/Tables.antt =====
-- Copies of entries and of tables for a snapshot, and two faults at once.
use libdbos.Common.{ℕ, ◌+◌, ◌*◌, ◌≡◌, ◌≢◌, refl, true, false, some, ◌==◌, if◌then◌else◌, arith}
use libdbos.Vm.Pte.{pte_addr, pte_present, pte_flags, pte_big}
use libdbos.Vm.Machine.{ok, PageOps, Machine}
use libdbos.Vm.Lookup.Stable.{entry_for, vm_lookup-there}
use libdbos.Spawn.Entry.{Regions, private, region_of}
use libdbos.Spawn.Cow.{pgtable_cow_copy}
use libdbos.Spawn.Cow.Copies.{SharesPage, pgtable_cow_copy-SharesPage}
use libdbos.Spawn.Fault.Race.{
  System, start, done, snapshot_start, snapshot_done, Reach, both_faults-freed,
}

-- An allocator that hands out page after page and counts the references that it is asked for.
abbrev counting : PageOps ℕ
counting = record {
  alloc = λ s. some (some (s * 4096), s + 1);
  get = λ s p. some (s + 1);
  put = λ s p. some s;
  isfrompool = λ s p. true;
  ref = λ s p. 1;
}

-- Two new roots, at 0x11000 and 0x21000, with tables down to 0x4000 and 0x5000; the entry to copy
-- is at 0x8008, for a page at 0x9000 that can be written.
abbrev roots : Machine ℕ
roots = record {
  mem = λ a.
      if a == 0x11000
      then 0x12007
      else if a == 0x12000
      then 0x13007
      else if a == 0x13000
      then 0x4007
      else if a == 0x21000
      then 0x22007
      else if a == 0x22000
      then 0x23007
      else if a == 0x23000
      then 0x5007
      else if a == 0x8008
      then 0x9027
      else 0;
  pool = 16;
}

first_entry : entry_for roots.mem 0x1000 3 0x11000 ≡ some 0x4008
unfolding entry_for pte_present pte_flags pte_addr pte_big
first_entry = refl

second_entry : entry_for roots.mem 0x1000 3 0x21000 ≡ some 0x5008
unfolding entry_for pte_present pte_flags pte_addr pte_big
second_entry = refl

abbrev regions : Regions
regions = record {
  ipi_end = 0xffff_8000_0100_0000;
  pmem_begin = 0x7000_0000;
  pmem_end = 0x7100_0000;
}

is_private : region_of regions 0x1000 ≡ private
unfolding region_of
is_private = refl

pgtable_cow_copy-SharesPage_example :
    (m : Machine ℕ) × (pgtable_cow_copy counting regions 0x11000 0x21000 0x8008 0x1000 0 roots
      ≡ some (ok, m))
    × SharesPage counting 0x9027 0x4008 0x5008 roots m
pgtable_cow_copy-SharesPage_example =
    pgtable_cow_copy-SharesPage counting regions 0x11000 0x21000 0x8008 0x1000 0x4008 0x5008 false
      false roots roots roots is_private
      (vm_lookup-there counting 0x11000 0x1000 true false 0x4008 roots first_entry)
      (vm_lookup-there counting 0x21000 0x1000 true false 0x5008 roots second_entry) refl
      (λ e. omega arith) (λ e. omega arith) (λ e. omega arith) (λ p. (17, 18, refl, refl))

-- The page at 0x9000 has two references, one for each entry.
abbrev both : System
both = record {
  pte = 0x9201;
  spte = 0x9201;
  ref = 2;
  page = 0x10000;
  snapshot_page = 0x11000;
  pc = start;
  snapshot_pc = snapshot_start;
}

other_page : pte_addr 0x11000 ≢ pte_addr 0x9201
unfolding pte_addr
other_page e = omega arith

both_faults-freed_example :
    (t : System) × Reach both t
    × (t.pc ≡ done)
    × (t.snapshot_pc ≡ snapshot_done)
    × (t.ref ≡ 0)
    × (pte_addr t.pte ≡ pte_addr 0x9201)
    × (pte_addr t.spte ≡ pte_addr 0x10000)
both_faults-freed_example = both_faults-freed both refl refl refl refl refl refl other_page
