-- ===== src/Vm/Lookup.antt =====
-- `dune_vm_lookup_internal`.
pub mod Stable
use libdbos.Common.{ℕ, Bool, true, false, Option, none, some, bit_or, if◌then◌else◌}
use libdbos.Vm.Pte.{pte_addr, pte_present, pte_big, pte_def_flags, pdx}
use libdbos.Vm.Machine.{PageOps, Machine, store, clear_page, entry}

module _ {S : Type 0} (ops : PageOps S) where
  -- What a lookup does: the address of the entry, whether a table was created, and the machine, or
  -- -ENOENT. A NULL page is written to, which ends the program.
  pub data Found : Type 0 where
    found : (pte : ℕ) (created : Bool) (m : Machine S) → Found
    missing : Found
    died : Found

  -- A missing table of an upper level: `alloc_page`, `memset` and the new entry.
  pub create_table : ℕ → Machine S → (ℕ → Machine S → Found) → Found
  create_table pte m next = elim (ops.alloc m.pool) [
    | none ↦ died
    | some (none, s) ↦ died
    | some (some page, s) ↦
        next page (
          store (clear_page (record m { pool = s }) page) pte
            (bit_or (pte_addr page) pte_def_flags))
  ]

  -- From the entry at `pte` of the top level to the table below it.
  pub top_step :
      (create : Bool)
      → (pte : ℕ) → (created : Bool) → Machine S
      → (Bool → ℕ → Machine S → Found)
      → Found
  top_step create pte created m next =
      if pte_present (m.mem pte)
      then next created (pte_addr (m.mem pte)) m
      else if create
      then create_table pte m (next true)
      else missing

  -- The same below, where a present entry may be a large page, which is the answer.
  pub step :
      (create : Bool)
      → (pte : ℕ) → (created : Bool) → Machine S
      → (Bool → ℕ → Machine S → Found)
      → Found
  step create pte created m next =
      if pte_present (m.mem pte)
      then (if pte_big (m.mem pte)
          then found pte created m
          else next created (pte_addr (m.mem pte)) m)
      else if create
      then create_table pte m (next true)
      else missing

  -- `dune_vm_lookup_internal`
  pub vm_lookup : (root va : ℕ) (create created : Bool) → Machine S → Found
  vm_lookup root va create created m =
      top_step create (entry root (pdx 3 va)) created m λ c3 pdpte m3.
        step create (entry pdpte (pdx 2 va)) c3 m3 λ c2 pde m2.
          step create (entry pde (pdx 1 va)) c2 m2 λ c1 pte m1. found (entry pte (pdx 0 va)) c1 m1
