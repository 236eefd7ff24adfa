-- ===== src/Vm/Tests.antt =====
-- Runs on small page tables.
use libdbos.Common.{
  ap, ◌∙◌, Option, ℕ, ◌+◌, ◌*◌, ◌≡◌, ◌≢◌, refl, inl, true, false, some, arith, ◌==◌, if◌then◌else◌,
}
use libdbos.Vm.Pte.{get_pte_perm, pte_addr, pte_present, pte_big, pte_flags}
use libdbos.Vm.Machine.{ok, store, PageOps, Machine}
use libdbos.Vm.Lookup.{vm_lookup}
use libdbos.Vm.Lookup.Stable.{as_found, entry_for, vm_lookup-entry_for}
use libdbos.Vm.Map.{vm_mprotect}
use libdbos.Vm.Map.Protect.{protected}
use libdbos.Vm.Map.Page.{vm_mprotect-one_page}
use libdbos.Vm.Clone.Fault.{FaultEnds, pgflt_handler-FaultEnds}
use libdbos.Vm.Lookup.{found}

-- An allocator that hands out page after page; page 0x9000 has two references.
abbrev counting : PageOps ℕ
counting = record {
  alloc = λ s. some (some (s * 4096), s + 1);
  get = λ s p. some s;
  put = λ s p. some s;
  isfrompool = λ s p. true;
  ref = λ s p. if p == 0x9000 then 2 else 1;
}

-- A root table at 0x1000, tables of the other levels at 0x2000, 0x3000 and 0x4000, and one page
-- at 0x9000, copy-on-write and not to be executed.
abbrev tables : Machine ℕ
tables = record {
  mem = λ a.
      if a == 0x1000
      then 0x2007
      else if a == 0x2000
      then 0x3007
      else if a == 0x3000
      then 0x4007
      else if a == 0x4008
      then 0x8000_0000_0000_9201
      else 0;
  pool = 16;
}

vm_lookup-entry_for_example :
    vm_lookup counting 0x1000 0x1abc false false tables
    ≡ as_found counting (entry_for tables.mem 0x1abc 3 0x1000) false tables
vm_lookup-entry_for_example = vm_lookup-entry_for counting 0x1000 0x1abc false tables

found_there : entry_for tables.mem 0x1abc 3 0x1000 ≡ some 0x4008
unfolding entry_for pte_present pte_flags pte_addr pte_big
found_there = refl

reached_there : entry_for tables.mem 0x1000 3 0x1000 ≡ some 0x4008
unfolding entry_for pte_present pte_flags pte_addr pte_big
reached_there = refl

page_in_use : tables.mem 0x4008 ≢ 0
page_in_use h = omega arith

vm_mprotect-one_page_example :
    vm_mprotect counting 0x1000 0x1000 0x1000 3 tables
    ≡ some (ok, store tables 0x4008 (protected (get_pte_perm 3) 0x8000_0000_0000_9201))
vm_mprotect-one_page_example =
    vm_mprotect-one_page counting 0x1000 0x1000 0x1000 3 0x4008 tables (inl refl) (omega arith)
      (omega arith) (omega arith) reached_there page_in_use

lookup_there : vm_lookup counting 0x1000 0x1abc false false tables ≡ found 0x4008 false tables
lookup_there =
    vm_lookup-entry_for counting 0x1000 0x1abc false tables
    ∙ ap (λ (o : Option ℕ). as_found counting o false tables) found_there

pgflt_handler-FaultEnds_example :
    FaultEnds counting (λ m a. 0x9000) 0x1000 0x1abc 2 0x4008 0x10000 17 tables
pgflt_handler-FaultEnds_example =
    pgflt_handler-FaultEnds counting (λ m a. 0x9000) 0x1000 0x1abc 2 0x10000 0x4008 17 tables refl
      lookup_there refl refl refl (λ h. (17, refl)) (inl (omega arith))
