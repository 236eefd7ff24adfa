-- ===== src/Spawn/Cow.antt =====
-- The page tables of a snapshot, libdune/fast_spawn.c: the callbacks that fill them from the
-- tables of the program.
pub mod Clone
pub mod Copies
use libdbos.Common.{
  ℕ, zero, suc, ◌+◌, ◌-◌, ◌*◌, ◌/◌, ◌%◌, ◌^◌, Bool, true, false, not, ◌&&◌, ◌||◌, Option, none,
  some, List, leb, ltb, ◌==◌, ◌>>=◌, if◌then◌else◌,
}
use libdbos.Vm.Pte.{pte_addr, pte_flags, pteflags_to_perm}
use libdbos.Vm.Machine.{
  Outcome, Ret, ok, err, enoent, PageOps, Machine, store, clear_page, and_then, entry,
}
use libdbos.Vm.Walk.{create_none, page_walk}
use libdbos.Vm.Walk.Batch.{page_walk_batch}
use libdbos.Vm.Lookup.{Found, found, missing, died, vm_lookup}
use libdbos.Vm.Map.{vm_map_phys_with_pte_flags}
use libdbos.Vm.Clone.{pgsize, va_end, vm_free, end_clone}
use libdbos.Vm.Clone.Fast.{copy_table, count_page}
use libdbos.Spawn.Entry.{
  is_shareable, cow_entry, cow_entry2, shared_entry, canonical_virtual_address, Regions, pool_page,
  shared, private, region_of,
}

-- The entry that the loop of the last level leaves.
abbrev pub loop_entry : ℕ → ℕ
loop_entry pte = cow_entry (is_shareable pte) pte

module _ {S : Type 0} (ops : PageOps S) where
  -- `if (dune_page_isfrompool(PTE_ADDR(*pte))) dune_page_get(pg);`
  unfoldable pub get_page : (pg pte : ℕ) → Machine S → Outcome S
  get_page pg pte m =
      if ops.isfrompool m.pool (pte_addr (m.mem pte))
      then elim (ops.get m.pool pg) [ none ↦ none | some s ↦ some (ok, record m { pool = s }) ]
      else some (ok, m)

  -- `dune_vm_lookup` with CREATE_NORMAL; its error is returned.
  unfoldable pub with_lookup : Found ops → Machine S → (ℕ → Machine S → Outcome S) → Outcome S
  with_lookup (found pte created m') m rest = rest pte m'
  with_lookup missing m rest = some (err enoent, m)
  with_lookup died m rest = none

  -- `dune_vm_map_phys_with_pte_flags` of the page of an entry into a new table.
  pub map_into : (root va pa flags perm level : ℕ) → Machine S → Outcome S
  map_into root va pa flags perm level m = elim (pgsize level) [
    | none ↦ none
    | some size ↦ vm_map_phys_with_pte_flags ops root va size pa flags perm m
  ]

  -- The first branch for one new table.
  pub map_one : (root va pg pte perm level : ℕ) → Machine S → Outcome S
  map_one root va pg pte perm level m =
      and_then (map_into root va (pte_addr (m.mem pte)) (pte_flags (m.mem pte)) perm level m)
        (get_page pg pte)

  -- The second branch for one new table; `pg` is the page of the entry before.
  pub share_one : (root va pg pte : ℕ) → Machine S → Outcome S
  share_one root va pg pte m =
      with_lookup (vm_lookup ops root va true false m) m
        λ new_pte m'. get_page pg pte (store m' new_pte (shared_entry (m'.mem pte)))

  -- The last branch of `pgtable_cow_copy`, once both entries are found: the two stores.
  pub write_both : (new_pte1 new_pte2 pte : ℕ) → Machine S → Machine S
  write_both new_pte1 new_pte2 pte m =
      let shareable = is_shareable (m.mem pte) in
      let m1 = store m new_pte1 (cow_entry shareable (m.mem pte)) in
      store m1 new_pte2 (cow_entry2 shareable (m1.mem pte))

  -- The two references that end that branch.
  pub get_two : (pg pte : ℕ) → Machine S → Outcome S
  get_two pg pte m =
      if ops.isfrompool m.pool (pte_addr (m.mem pte))
      then elim (ops.get m.pool pg) [
        | none ↦ none
        | some s1 ↦ elim (ops.get s1 pg) [
          | none ↦ none
          | some s2 ↦ some (ok, record m { pool = s2 })
        ]
      ]
      else some (ok, m)

  -- `pgtable_cow_copy`, the callback that fills two tables; an assert wants single pages.
  pub pgtable_cow_copy : Regions → (root1 root2 : ℕ) → ℕ → ℕ → ℕ → Machine S → Outcome S
  pgtable_cow_copy r root1 root2 pte va level m =
      let can_va = canonical_virtual_address va in
      let pg = pte_addr (m.mem pte) in
      elim (region_of r can_va) [
        | pool_page ↦
            let perm = pteflags_to_perm (pte_flags (m.mem pte)) level in
            and_then (map_one root1 can_va pg pte perm level m)
              (map_one root2 can_va pg pte perm level)
        | shared ↦
            if level == 0
            then and_then (share_one root1 can_va pg pte m) (share_one root2 can_va pg pte)
            else none
        | private ↦
            if level == 0
            then with_lookup (vm_lookup ops root1 can_va true false m) m (λ new_pte1 m1.
              with_lookup (vm_lookup ops root2 can_va true false m1) m1
                (λ new_pte2 m2. get_two pg pte (write_both new_pte1 new_pte2 pte m2)))
            else none
      ]

  -- The last branch of `pgtable_cow_copy_one`.
  pub cow_one : (root va pg pte : ℕ) → Machine S → Outcome S
  cow_one root va pg pte m =
      with_lookup (vm_lookup ops root va true false m) m
        λ new_pte m'. get_page pg pte (store m' new_pte (loop_entry (m'.mem pte)))

  -- `pgtable_cow_copy_one`. Its argument is both the new root and the struct of counters.
  pub pgtable_cow_copy_one : Regions → (arg : ℕ) → ℕ → ℕ → ℕ → Machine S → Outcome S
  pgtable_cow_copy_one r arg pte va level m =
      let can_va = canonical_virtual_address va in
      let pg = pte_addr (m.mem pte) in
      let counted = λ (m' : Machine S). some (ok, count_page arg m') in
      elim (region_of r can_va) [
        | pool_page ↦
            let perm = pteflags_to_perm (pte_flags (m.mem pte)) level in
            and_then (map_one arg can_va pg pte perm level m) counted
        | shared ↦ if level == 0 then and_then (share_one arg can_va pg pte m) counted else none
        | private ↦ if level == 0 then and_then (cow_one arg can_va pg pte m) counted else none
      ]

  -- `pgtable_set_cow`
  pub pgtable_set_cow : Regions → ℕ → ℕ → ℕ → Machine S → Outcome S
  pgtable_set_cow r pte va level m = elim (region_of r (canonical_virtual_address va)) [
    | private ↦
        if is_shareable (m.mem pte)
        then some (ok, store m pte (cow_entry true (m.mem pte)))
        else some (ok, m)
    | _ ↦ some (ok, m)
  ]
