-- ===== src/Vm/Walk/Batch.antt =====
-- `__dune_vm_page_walk_batch`: the walk that hands a full table of the last level to a second
-- callback as a whole.
use libdbos.Common.{
  ℕ, zero, suc, ◌+◌, ◌-◌, ◌*◌, ◌/◌, ◌%◌, ◌^◌, ◌≡◌, refl, ap, inl, inr, Bool, true, ◌&&◌, ◌||◌, not,
  ◌⊎◌, Bool-cases, arith, ◌==◌, if◌then◌else◌,
}
use mathlib.Core.Path.{fun_ext}
use libdbos.Vm.Pte.{pdx, pdaddr}
use libdbos.Vm.Machine.{Outcome, PageOps, Machine, entry}
use libdbos.Vm.Walk.{
  Create, Callback, SubWalk, is_normal, give, skip, turn, visit, rounds, page_walk,
}

-- `level == 0 && start_idx == 0 && end_idx - start_idx + 1 == 512`
abbrev pub is_full : ℕ → ℕ → Bool
is_full start_va end_va = (pdx 0 start_va == 0) && (pdx 0 end_va + 1 - pdx 0 start_va == 512)

-- `base_va + PDADDR(0, 0)` at level 0
abbrev pub table_base : ℕ → ℕ
table_base start_va = start_va / 2 ^ 21 * 2 ^ 21

-- At the last level no entry leads down.
turn-last : (create : Create) (pte : ℕ) → (turn create 0 pte ≡ give) ⊎ (turn create 0 pte ≡ skip)
unfolding turn
turn-last create pte = elim (Bool-cases (is_normal create || not (pte == 0))) [
  | inl is ↦ rw is (inl refl)
  | inr other ↦ rw other (inr refl)
]

first_of : (va : ℕ) → pdx 0 (table_base va) ≡ 0
first_of va = omega arith

last_of : (va : ℕ) → pdx 0 (table_base va + 0x1f_ffff) ≡ 511
last_of va = omega arith

base_of : (va : ℕ) → table_base va / 2 ^ 21 * 2 ^ 21 ≡ va / 2 ^ 21 * 2 ^ 21
base_of va = omega arith

full_start : (start_va end_va : ℕ) → is_full start_va end_va ≡ true → pdx 0 start_va ≡ 0
full_start start_va end_va full = ground arith

full_end : (start_va end_va : ℕ) → is_full start_va end_va ≡ true → pdx 0 end_va ≡ 511
full_end start_va end_va full = ground arith

module _ {S : Type 0} (ops : PageOps S) where
  -- `page_walk_last_level_page_cb` with its `arg`: the table and the first address.
  abbrev pub TableCallback : Type 0
  TableCallback = ℕ → ℕ → Machine S → Outcome S

  -- `__dune_vm_page_walk_batch`
  pub page_walk_batch :
      Create
      → Callback ops
      → TableCallback
      → (level : ℕ) → (dir start_va end_va : ℕ) → Machine S
      → Outcome S
  page_walk_batch create cb cb2 zero dir start_va end_va =
      if is_full start_va end_va
      then cb2 dir (table_base start_va)
      else page_walk ops create cb 0 dir start_va end_va
  page_walk_batch create cb cb2 (suc level) dir start_va end_va =
      rounds ops
        (visit ops create cb (suc level) (page_walk_batch create cb cb2 level) dir start_va end_va)
        (pdx (suc level) end_va + 1 - pdx (suc level) start_va) (pdx (suc level) start_va)

  -- A round at the last level depends on the range by its base alone.
  visit_base :
      (create : Create) (cb : Callback ops) (sub : SubWalk ops) (dir s e s' e' i : ℕ)
      (m : Machine S)
      → table_base s ≡ table_base s'
      → visit ops create cb 0 sub dir s e i m ≡ visit ops create cb 0 sub dir s' e' i m
  unfolding visit
  visit_base create cb sub dir s e s' e' i m base = elim (turn-last create (m.mem (entry dir i))) [
    | inl h ↦ rw (h, visit) (ap (λ (b : ℕ). cb (entry dir i) ((b + pdaddr 0 i) % 2 ^ 64) 0 m) base)
    | inr h ↦ rw (h, visit) refl
  ]

  -- The walk of a full table depends on the first address alone.
  pub page_walk-table_base :
      (create : Create) (cb : Callback ops) (dir start_va end_va : ℕ) (m : Machine S)
      → is_full start_va end_va ≡ true
      → page_walk ops create cb 0 dir (table_base start_va) (table_base start_va + 0x1f_ffff) m
        ≡ page_walk ops create cb 0 dir start_va end_va m
  unfolding page_walk
  page_walk-table_base create cb dir start_va end_va m full =
      rw
        (
          first_of start_va,
          last_of start_va,
          full_start start_va end_va full,
          full_end start_va end_va full,
        )
        (ap (λ (body : ℕ → Machine S → Outcome S). rounds ops body 512 0 m)
          (fun_ext λ i.
            fun_ext λ n. visit_base create cb _ dir _ _ start_va end_va i n (base_of start_va)))

  module _ (create : Create) (cb : Callback ops) (cb2 : TableCallback)
      (same : (dir start_va end_va : ℕ) (m : Machine S)
        → is_full start_va end_va ≡ true
        → cb2 dir (table_base start_va) m ≡ page_walk ops create cb 0 dir start_va end_va m) where
    by_tables : (level : ℕ) → page_walk_batch create cb cb2 level ≡ page_walk ops create cb level
    unfolding page_walk_batch page_walk
    by_tables zero = fun_ext λ dir. fun_ext λ start_va. fun_ext λ end_va.
        elim (Bool-cases (is_full start_va end_va)) [
          | inl full ↦ rw full (fun_ext λ m. same dir start_va end_va m full)
          | inr other ↦ rw other refl
        ]
    by_tables (suc level) =
        let with_sub : SubWalk ops → SubWalk ops = λ sub dir start_va end_va.
          rounds ops (visit ops create cb (suc level) sub dir start_va end_va)
            (pdx (suc level) end_va + 1 - pdx (suc level) start_va) (pdx (suc level) start_va) in
        ap with_sub (by_tables level)

    -- The batched walk is an optimisation of the plain one: when the second callback does to each
    -- full table of the last level what the first does entry by entry, the two walks do the same
    -- to every machine, from every level and over every range, errors included.
    pub page_walk_batch-page_walk :
        (level dir start_va end_va : ℕ) (m : Machine S)
        → page_walk_batch create cb cb2 level dir start_va end_va m
          ≡ page_walk ops create cb level dir start_va end_va m
    page_walk_batch-page_walk level dir start_va end_va m =
        ap (λ (w : SubWalk ops). w dir start_va end_va m) (by_tables level)
