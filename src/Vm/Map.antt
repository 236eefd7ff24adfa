-- ===== src/Vm/Map.antt =====
-- The callers of the walk in libdune/vm.c: protection, mapping, unmapping. The flushes of the TLB
-- that end some of them do not touch memory.
pub mod Protect
pub mod Page
use libdbos.Common.{
  ℕ, ◌+◌, ◌-◌, ◌*◌, ◌%◌, ◌^◌, Bool, true, false, not, ◌&&◌, Option, none, some, bit_and, bit_or,
  ◌==◌, if◌then◌else◌,
}
use libdbos.Vm.Pte.{
  pte_addr, pte_flags, pte_ps, has, perm_r, perm_w, perm_big, perm_big_1gb, get_pte_perm,
}
use libdbos.Vm.Machine.{Outcome, ok, err, enomem, einval, PageOps, Machine, store}
use libdbos.Vm.Walk.{Create, create_none, create_normal, create_big, create_big_1gb, page_walk}

-- `va + len - 1`
abbrev pub last_byte : ℕ → ℕ → ℕ
last_byte va len = (va + len + 2 ^ 64 - 1) % 2 ^ 64

-- A conversion to `int` and back to 64 bits: it cuts to 32 bits and extends the sign.
abbrev pub through_int : ℕ → ℕ
through_int x = let low = x % 2 ^ 32 in if has low (2 ^ 31) then 2 ^ 64 - 2 ^ 32 + low else low

module _ {S : Type 0} (ops : PageOps S) where
  -- `__dune_vm_mprotect_helper`
  pub mprotect_helper : ℕ → ℕ → ℕ → ℕ → Machine S → Outcome S
  mprotect_helper perm pte va level m =
      let old = m.mem pte in
      some (ok, store m pte (bit_or (bit_or (pte_addr old) (bit_and (pte_flags old) pte_ps)) perm))

  -- `dune_vm_mprotect`
  pub vm_mprotect : (root va len perm : ℕ) → Machine S → Outcome S
  vm_mprotect root va len perm m =
      let run = λ (p : ℕ).
        page_walk ops create_none (mprotect_helper (get_pte_perm p)) 3 root va (last_byte va len)
          m in
      if has perm perm_r then run perm else if has perm perm_w then some (err einval, m) else run 0

  -- `__dune_vm_map_phys_helper`; the count of entries in `data` is not read.
  unfoldable pub map_phys_helper : (perm va_base pa_base : ℕ) → ℕ → ℕ → ℕ → Machine S → Outcome S
  map_phys_helper perm va_base pa_base pte va level m =
      some (ok, store m pte (bit_or (pte_addr ((va + 2 ^ 64 - va_base + pa_base) % 2 ^ 64)) perm))

  -- The choice of `create` in `dune_vm_map_phys`.
  pub create_for : ℕ → Create
  create_for perm =
      if has perm perm_big
      then create_big
      else if has perm perm_big_1gb
      then create_big_1gb
      else create_normal

  -- `dune_vm_map_phys`
  pub vm_map_phys : (root va len pa perm : ℕ) → Machine S → Outcome S
  vm_map_phys root va len pa perm m =
      page_walk ops (create_for perm) (map_phys_helper (get_pte_perm perm) va pa) 3 root va
        (last_byte va len) m

  -- `dune_vm_map_phys_with_pte_flags`
  pub vm_map_phys_with_pte_flags : (root va len pa pte_flags perm : ℕ) → Machine S → Outcome S
  vm_map_phys_with_pte_flags root va len pa pte_flags perm m =
      page_walk ops (create_for perm) (map_phys_helper (through_int pte_flags) va pa) 3 root va
        (last_byte va len) m

  -- `__dune_vm_map_pages_helper`
  pub map_pages_helper : ℕ → ℕ → ℕ → ℕ → Machine S → Outcome S
  map_pages_helper perm pte va level m = elim (ops.alloc m.pool) [
    | none ↦ none
    | some (none, s) ↦ some (err enomem, record m { pool = s })
    | some (some page, s) ↦
        some (ok, store (record m { pool = s }) pte (bit_or (pte_addr page) perm))
  ]

  -- `dune_vm_map_pages`: `!(perm & PERM_R) && (perm & ~(PERM_R))`
  pub vm_map_pages : (root va len perm : ℕ) → Machine S → Outcome S
  vm_map_pages root va len perm m =
      let run =
        page_walk ops create_normal (map_pages_helper (get_pte_perm perm)) 3 root va
          (last_byte va len) m in
      if not (has perm perm_r) && not (perm == 0) then some (err einval, m) else run

  -- `__dune_vm_map_pages_add_flags_helper`: it takes a page, and does not use it.
  pub map_pages_add_flags_helper : ℕ → ℕ → ℕ → ℕ → Machine S → Outcome S
  map_pages_add_flags_helper flags pte va level m = elim (ops.alloc m.pool) [
    | none ↦ none
    | some (none, s) ↦ some (err enomem, record m { pool = s })
    | some (some page, s) ↦ some (ok, store (record m { pool = s }) pte (bit_or (m.mem pte) flags))
  ]

  -- `dune_vm_map_pages_add_flags`
  pub vm_map_pages_add_flags : (root va len perm : ℕ) → Machine S → Outcome S
  vm_map_pages_add_flags root va len perm m =
      page_walk ops create_none (map_pages_add_flags_helper (get_pte_perm perm)) 3 root va
        (last_byte va len) m

  -- `__dune_vm_free_helper`
  pub free_helper : ℕ → ℕ → ℕ → Machine S → Outcome S
  free_helper pte va level m =
      let page = pte_addr (m.mem pte) in
      if ops.isfrompool m.pool page
      then elim (ops.put m.pool page) [
        | none ↦ none
        | some s ↦ some (ok, store (record m { pool = s }) pte 0)
      ]
      else some (ok, store m pte 0)

  -- `dune_vm_unmap`
  pub vm_unmap : (root va len : ℕ) → Machine S → Outcome S
  vm_unmap root va len m = page_walk ops create_none free_helper 3 root va (last_byte va len) m
