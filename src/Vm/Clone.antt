-- ===== src/Vm/Clone.antt =====
-- Cloning and freeing page tables, and the copy-on-write fault handler of libdune/vm.c.
pub mod Flags
pub mod Fast
pub mod Fault
use libdbos.Common.{
  ℕ, zero, suc, ◌+◌, ◌-◌, ◌*◌, ◌/◌, ◌%◌, ◌^◌, Bool, true, false, not, ◌&&◌, ◌||◌, Option, none,
  some, bit_and, bit_or, ltb, leb, ◌==◌, if◌then◌else◌,
}
use libdbos.Vm.Pte.{pte_addr, pte_flags, pte_big, pte_cow, pte_w, has, perm_big, perm_big_1gb}
use libdbos.Vm.Machine.{
  Outcome, Ret, ok, err, enomem, einval, PageOps, Machine, store, clear_page, and_then,
}
use libdbos.Vm.Walk.{create_none, page_walk}
use libdbos.Vm.Lookup.{Found, found, missing, died, vm_lookup}
use libdbos.Vm.Map.{vm_map_phys_with_pte_flags, free_helper}

-- `pgsize`; it dies at other levels.
abbrev pub pgsize : ℕ → Option ℕ
pgsize zero = some 4096
pgsize (suc zero) = some (4096 * 512)
pgsize (suc (suc zero)) = some (4096 * 512 * 512)
pgsize (suc (suc (suc level))) = none

-- `create_perm` in `__dune_vm_clone_helper`, with its asserts.
pub clone_perm : ℕ → ℕ → Option ℕ
clone_perm zero pte = if pte_big pte then none else some 0
clone_perm (suc zero) pte = if pte_big pte then some perm_big else none
clone_perm (suc (suc zero)) pte = if pte_big pte then some perm_big_1gb else none
clone_perm (suc (suc (suc level))) pte = none

abbrev pub va_end : ℕ
va_end = 2 ^ 64 - 1

abbrev pub fec_p : ℕ
fec_p = 0x1

abbrev pub fec_w : ℕ
fec_w = 0x2

abbrev pub fec_rsv : ℕ
fec_rsv = 0x8

-- `x & ~flag` on 64 bits.
abbrev pub without : ℕ → ℕ → ℕ
without x flag = bit_and x (2 ^ 64 - 1 - flag)

module _ {S : Type 0} (ops : PageOps S) where
  -- The reference that the clone takes on a page of the pool. The entry is read again: the
  -- mapping may have changed memory.
  pub clone_get : ℕ → Machine S → Outcome S
  clone_get pte m =
      let page = pte_addr (m.mem pte) in
      if ops.isfrompool m.pool page
      then elim (ops.get m.pool page) [ none ↦ none | some s ↦ some (ok, record m { pool = s }) ]
      else some (ok, m)

  -- `__dune_vm_clone_helper`
  pub clone_helper : (new_root : ℕ) → ℕ → ℕ → ℕ → Machine S → Outcome S
  clone_helper new_root pte va level m = elim (clone_perm level (m.mem pte)) [
    | none ↦ none
    | some create_perm ↦ elim (pgsize level) [
      | none ↦ none
      | some size ↦
          and_then
            (vm_map_phys_with_pte_flags ops new_root va size (pte_addr (m.mem pte))
              (pte_flags (m.mem pte)) create_perm m)
            (clone_get pte)
    ]
  ]

  -- `dune_vm_free`: the results of the three walks are not read.
  pub vm_free : ℕ → Machine S → Option (Machine S)
  vm_free root m = elim (page_walk ops create_none (free_helper ops) 3 root 0 va_end m) [
    | none ↦ none
    | some (r3, m3) ↦ elim (page_walk ops create_none (free_helper ops) 2 root 0 va_end m3) [
      | none ↦ none
      | some (r2, m2) ↦ elim (page_walk ops create_none (free_helper ops) 1 root 0 va_end m2) [
        | none ↦ none
        | some (r1, m1) ↦ elim (ops.put m1.pool root) [
          | none ↦ none
          | some s ↦ some (record m1 { pool = s })
        ]
      ]
    ]
  ]

  -- What `dune_vm_clone` and `dune_vm_clone_custom` do with the result of their walk.
  pub end_clone : ℕ → Outcome S → Option (Option ℕ × Machine S)
  end_clone new_root none = none
  end_clone new_root (some (ok, m)) = some (some new_root, m)
  end_clone new_root (some (err e, m)) = elim (vm_free new_root m) [
    | none ↦ none
    | some m' ↦ some (none, m')
  ]

  -- `dune_vm_clone_custom`: the new root and the walk with the given callback. A NULL root is
  -- written to, which ends the program; `some none` is NULL.
  pub vm_clone_custom :
      (cb : ℕ → ℕ → ℕ → ℕ → Machine S → Outcome S) → ℕ → Machine S → Option (Option ℕ × Machine S)
  vm_clone_custom cb root m = elim (ops.alloc m.pool) [
    | none ↦ none
    | some (none, s) ↦ none
    | some (some new_root, s) ↦ end_clone new_root (
        page_walk ops create_none (cb new_root) 3 root 0 va_end
          (clear_page (record m { pool = s }) new_root))
  ]

  -- `dune_vm_clone`
  pub vm_clone : ℕ → Machine S → Option (Option ℕ × Machine S)
  vm_clone = vm_clone_custom clone_helper

  -- `memcpy(to, from, PGSIZE)` between physical pages
  abbrev pub copy_page : Machine S → (from to : ℕ) → Machine S
  copy_page m from to = record m {
    mem = λ b. if leb to b && ltb b (to + 4096) then m.mem (b - to + from) else m.mem b;
  }

  -- The copy in `dune_vm_default_pgflt_handler`: a new page, the old one's content, one reference
  -- less on the old one. `source` is where the processor finds the page of the faulting address.
  pub copy_on_write : (source pte perm : ℕ) → Machine S → Option (Machine S)
  copy_on_write source pte perm m = elim (ops.alloc m.pool) [
    | none ↦ none
    | some (none, s) ↦ none
    | some (some page, s) ↦
        let m1 = copy_page (record m { pool = s }) source page in
        let old = pte_addr (m1.mem pte) in
        if ops.isfrompool s old
        then elim (ops.put s old) [
          | none ↦ none
          | some s' ↦ some (store (record m1 { pool = s' }) pte (bit_or (pte_addr page) perm))
        ]
        else some (store m1 pte (bit_or (pte_addr page) perm))
  ]

  -- The handler on the entry at `pte`.
  pub fault_at : (source fec pte : ℕ) → Machine S → Option (Machine S)
  fault_at source fec pte m =
      let old = m.mem pte in
      let perm = bit_or (without (pte_flags old) pte_cow) pte_w in
      let page = pte_addr old in
      if has fec fec_w && has old pte_cow
      then (if ops.isfrompool m.pool page && ops.ref m.pool page == 1
          then some (store m pte (bit_or page perm))
          else copy_on_write source pte perm m)
      else some m

  -- `dune_vm_default_pgflt_handler` with `translate`, the processor's translation of addresses.
  pub pgflt_handler :
      (translate : Machine S → ℕ → ℕ) (pgroot addr fec : ℕ) → Machine S → Option (Machine S)
  pgflt_handler translate pgroot addr fec m =
      if has fec (bit_or fec_p fec_rsv)
      then none
      else elim (vm_lookup ops pgroot addr false false m) [
        | found pte created m' ↦ fault_at (translate m' (addr / 4096 * 4096)) fec pte m'
        | missing ↦ none
        | died ↦ none
      ]
