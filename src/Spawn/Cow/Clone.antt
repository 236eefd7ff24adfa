-- ===== src/Spawn/Cow/Clone.antt =====
-- The clones for a snapshot that walk the tables of the program, libdune/fast_spawn.c.
pub mod Tables
use libdbos.Common.{
  ℕ, zero, suc, ◌+◌, ◌-◌, ◌*◌, ◌/◌, ◌%◌, ◌^◌, Bool, true, false, ◌&&◌, ◌||◌, Option, none, some,
  leb, ltb, ◌>>=◌, if◌then◌else◌,
}
use libdbos.Vm.Machine.{Outcome, Ret, ok, err, PageOps, Machine, store, clear_page, entry}
use libdbos.Vm.Walk.{create_none, page_walk}
use libdbos.Vm.Walk.Batch.{page_walk_batch}
use libdbos.Vm.Lookup.{Found, found, missing, died, vm_lookup}
use libdbos.Vm.Clone.{va_end, vm_free, end_clone}
use libdbos.Vm.Clone.Fast.{copy_table}
use libdbos.Spawn.Entry.{canonical_virtual_address, Regions}
use libdbos.Spawn.Cow.{loop_entry, pgtable_cow_copy_one}

module _ {S : Type 0} (ops : PageOps S) where
  -- `(void*)canonical_virtual_address(...)` of the ends of a table, and OVERLAPS.
  abbrev pub overlaps : (start1 end1 start2 end2 : ℕ) → Bool
  overlaps start1 end1 start2 end2 =
      (leb start1 start2 && ltb start2 end1) || (leb start2 start1 && ltb start1 end2)

  -- The loops that give single entries of a table to `pgtable_cow_copy_one`; its results are not
  -- read.
  pub copy_entries : Regions → (arg dir va : ℕ) → (n i : ℕ) → Machine S → Option (Machine S)
  copy_entries r arg dir va zero i m = some m
  copy_entries r arg dir va (suc n) i m =
      elim (pgtable_cow_copy_one ops r arg (entry dir i) (va + i * 4096) 0 m) [
        | none ↦ none
        | some (ret, m') ↦ copy_entries r arg dir va n (i + 1) m'
      ]

  -- The rounds of `for (a = start; a < end; a += PAGE_SIZE)`.
  abbrev pub pages_between : (start end : ℕ) → ℕ
  pages_between start end = (end - start + 4095) / 4096

  -- `args->pages_batch_copied += 512`: the high half of the counters' word.
  abbrev pub count_batch : ℕ → Machine S → Machine S
  count_batch arg m =
      let word = m.mem (arg + 8) in
      store m (arg + 8) ((word / 2 ^ 32 + 512) % 2 ^ 32 * 2 ^ 32 + word % 2 ^ 32)

  abbrev pub end_table : Option (Machine S) → Outcome S
  end_table none = none
  end_table (some m) = some (ok, m)

  -- The last branch: the loop over a table, once the lookup is done.
  pub copy_table_to : (arg dir : ℕ) → Found ops → Outcome S
  copy_table_to arg dir (found new_dir created m) =
      some (ok, count_batch arg (copy_table loop_entry new_dir dir 512 0 m))
  copy_table_to arg dir missing = none
  copy_table_to arg dir died = none

  -- `__dune_vm_clone_last_level_page_helper` of fast_spawn.c, with its asserts. The error of the
  -- lookup leaves no table, and the assert on the table ends the program.
  pub clone_last_level_page_helper : Regions → (arg : ℕ) → ℕ → ℕ → Machine S → Outcome S
  clone_last_level_page_helper r arg dir start_va m =
      let start = canonical_virtual_address start_va in
      let end = canonical_virtual_address ((start_va + 4096 * 512) % 2 ^ 64) in
      if overlaps start end 0xffff_ffff_ffff_f000 0xffff_ffff_ffff_ffff
        || overlaps start end 0x1_0000_0000 (0x1_0000_0000 + 2 ^ 21 * 4096)
      then none
      else if overlaps start end (2 ^ 45) (2 ^ 45 + 104 * 4096)
      then end_table (copy_entries r arg dir (2 ^ 45) 104 0 m)
      else if overlaps start end r.pmem_begin r.pmem_end
      then end_table (
          copy_entries r arg dir start
            (pages_between start (if ltb r.pmem_end end then r.pmem_end else end)) 0 m)
      else if overlaps start end 0xffff_8000_0000_0000 r.ipi_end
      then end_table (copy_entries r arg dir start (pages_between start r.ipi_end) 0 m)
      else copy_table_to arg dir (vm_lookup ops arg start true false m)

  -- `dune_vm_my_fast_clone`: `args` is where the struct of the new root and the counters stands,
  -- and the callbacks take its address for the new root.
  pub vm_my_fast_clone : Regions → (args root : ℕ) → Machine S → Option (Option ℕ × Machine S)
  vm_my_fast_clone r args root m = elim (ops.alloc m.pool) [
    | none ↦ none
    | some (none, s) ↦ none
    | some (some new_root, s) ↦
        let m1 = clear_page (record m { pool = s }) new_root in
        let m2 = store (store m1 args new_root) (args + 8) 0 in
        end_clone ops new_root (
          page_walk_batch ops create_none (pgtable_cow_copy_one ops r args)
            (clone_last_level_page_helper r args) 3 root 0 va_end m2)
  ]

  -- `dune_alloc_page_internal` and `memset`: NULL is written to.
  abbrev pub new_page : Machine S → Option (ℕ × Machine S)
  new_page m = elim (ops.alloc m.pool) [
    | none ↦ none
    | some (none, s) ↦ none
    | some (some page, s) ↦ some (page, clear_page (record m { pool = s }) page)
  ]

  -- `if (ret < 0) { dune_vm_free(root1); dune_vm_free(root2); }`
  pub free_after : (root1 root2 : ℕ) → Ret × Machine S → Option (Machine S)
  free_after root1 root2 (ok, m) = some m
  free_after root1 root2 (err e, m) = vm_free ops root1 m >>= vm_free ops root2

  -- `dune_vm_my_clone`: after an error the roots are freed, and returned all the same.
  pub vm_my_clone :
      (cb : (root1 root2 : ℕ) → ℕ → ℕ → ℕ → Machine S → Outcome S)
      → ℕ
      → Machine S
      → Option (ℕ × ℕ × Machine S)
  vm_my_clone cb root m = do
    (root1, m1) ← new_page m
    (root2, m2) ← new_page m1
    walked ← page_walk ops create_none (cb root1 root2) 3 root 0 va_end m2
    m4 ← free_after root1 root2 walked
    some (root1, root2, m4)
