-- ===== src/Vm/Lookup/Stable.antt =====
-- Lookups that create nothing, and lookups after lookups.
use libdbos.Common.{
  ℕ, zero, suc, if◌then◌else◌, ◌≡◌, refl, ap, arith, inl, inr, Bool, false, Bool-cases, Option,
  none, some,
}
use libdbos.Vm.Pte.{pte_addr, pte_present, pte_big, pdx}
use libdbos.Vm.Machine.{PageOps, Machine, entry}
use libdbos.Vm.Lookup.{Found, found, missing, top_step, step, vm_lookup}

-- Whether an entry above the table of a level below is a large page.
abbrev pub large : ℕ → ℕ → Bool
large (suc (suc l)) pte = false
large l pte = pte_big pte

-- The entry that the processor's walk of the tables reaches from the table `dir` at `level`: a
-- large page at a level that allows one, or the entry of the last level.
unfoldable pub entry_for : (ℕ → ℕ) → (va : ℕ) → (level dir : ℕ) → Option ℕ
entry_for mem va zero dir = some (entry dir (pdx 0 va))
entry_for mem va (suc level) dir =
    let pte = entry dir (pdx (suc level) va) in
    let below = entry_for mem va level (pte_addr (mem pte)) in
    if pte_present (mem pte) then (if large level (mem pte) then some pte else below) else none

module _ {S : Type 0} (ops : PageOps S) where
  abbrev pub as_found : Option ℕ → Bool → Machine S → Found ops
  as_found none created m = missing
  as_found (some pte) created m = found pte created m

  top_step-stable :
      (pte : ℕ) (created : Bool) (m : Machine S) (next : Bool → ℕ → Machine S → Found ops)
      (below : Option ℕ)
      → next created (pte_addr (m.mem pte)) m ≡ as_found below created m
      → top_step ops false pte created m next
        ≡ as_found (if pte_present (m.mem pte) then below else none) created m
  unfolding top_step
  top_step-stable pte created m next below h = elim (Bool-cases (pte_present (m.mem pte))) [
    | inl there ↦ rw there h
    | inr absent ↦ rw absent refl
  ]

  step-stable :
      (pte : ℕ) (created : Bool) (m : Machine S) (next : Bool → ℕ → Machine S → Found ops)
      (below : Option ℕ)
      → next created (pte_addr (m.mem pte)) m ≡ as_found below created m
      → step ops false pte created m next
        ≡ as_found
            (if pte_present (m.mem pte)
              then (if pte_big (m.mem pte) then some pte else below)
              else none)
            created
            m
  unfolding step
  step-stable pte created m next below h = elim (Bool-cases (pte_present (m.mem pte))) [
    | inl there ↦
        rw there (elim (Bool-cases (pte_big (m.mem pte))) [
          | inl big ↦ rw big refl
          | inr small ↦ rw small h
        ])
    | inr absent ↦ rw absent refl
  ]

  -- dune_vm_lookup without CREATE follows the tables as the processor's walk does: it returns the
  -- entry that the walk reaches, which is a large page of level 2 or 1 or an entry of level 0, or
  -- -ENOENT when a table on the way is not present. Neither memory nor the pool nor the flag
  -- `created` changes, and it always returns.
  pub vm_lookup-entry_for :
      (root va : ℕ) (created : Bool) (m : Machine S)
      → vm_lookup ops root va false created m ≡ as_found (entry_for m.mem va 3 root) created m
  unfolding vm_lookup entry_for
  vm_lookup-entry_for root va created m =
      top_step-stable _ created m _ _
        (step-stable _ created m _ _ (step-stable _ created m _ _ refl))

  top_step-there :
      (create : Bool) (pte p : ℕ) (created : Bool) (m : Machine S)
      (next : Bool → ℕ → Machine S → Found ops) (below : Option ℕ)
      → (below ≡ some p → next created (pte_addr (m.mem pte)) m ≡ found p created m)
      → (if pte_present (m.mem pte) then below else none) ≡ some p
      → top_step ops create pte created m next ≡ found p created m
  unfolding top_step
  top_step-there create pte p created m next below k h =
      elim (Bool-cases (pte_present (m.mem pte))) [
        | inl there ↦ rw there (k (ground arith))
        | inr absent ↦ absurd (ground arith)
      ]

  step-there :
      (create : Bool) (pte p : ℕ) (created : Bool) (m : Machine S)
      (next : Bool → ℕ → Machine S → Found ops) (below : Option ℕ)
      → (below ≡ some p → next created (pte_addr (m.mem pte)) m ≡ found p created m)
      → (if pte_present (m.mem pte)
          then (if pte_big (m.mem pte) then some pte else below)
          else none)
        ≡ some p
      → step ops create pte created m next ≡ found p created m
  unfolding step
  step-there create pte p created m next below k h = elim (Bool-cases (pte_present (m.mem pte))) [
    | inl there ↦ rw there (elim (Bool-cases (pte_big (m.mem pte))) [
      | inl big ↦ rw big (ap (λ (x : ℕ). found x created m) (ground arith))
      | inr small ↦ rw small (k (ground arith))
    ])
    | inr absent ↦ absurd (ground arith)
  ]

  -- Where the processor's walk reaches an entry, a lookup finds it and creates nothing, with or
  -- without CREATE.
  pub vm_lookup-there :
      (root va : ℕ) (create created : Bool) (p : ℕ) (m : Machine S)
      → entry_for m.mem va 3 root ≡ some p
      → vm_lookup ops root va create created m ≡ found p created m
  unfolding vm_lookup entry_for
  vm_lookup-there root va create created p m = top_step-there create _ p created m _ _ (
      step-there create _ p created m _ _ (
        step-there create _ p created m _ _
          (λ e. ap (λ (x : ℕ). found x created m) (ground arith))))
