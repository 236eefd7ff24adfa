-- ===== src/Vm/Walk.antt =====
-- `__dune_vm_page_walk`.
pub mod Rule
pub mod Batch
pub mod Single
use libdbos.Common.{
  ℕ, zero, suc, ◌+◌, ◌-◌, ◌*◌, ◌/◌, ◌%◌, ◌^◌, Bool, true, false, ◌||◌, not, Option, none, some,
  bit_or, ◌==◌, if◌then◌else◌,
}
use libdbos.Vm.Pte.{pte_addr, pte_present, pte_big, pte_def_flags, pdshift, pdx, pdaddr}
use libdbos.Vm.Machine.{
  Outcome, ok, err, enomem, PageOps, Machine, store, clear_page, and_then, entry,
}

-- `CREATE_NONE` and its kin
pub data Create : Type 0 where
  create_none create_normal create_big create_big_1gb : Create

abbrev pub is_normal : Create → Bool
is_normal create_normal = true
is_normal _ = false

abbrev pub is_big : Create → Bool
is_big create_big = true
is_big _ = false

abbrev pub is_big_1gb : Create → Bool
is_big_1gb create_big_1gb = true
is_big_1gb _ = false

abbrev pub is_none : Create → Bool
is_none create_none = true
is_none _ = false

-- What an entry is to the walk at its level: given to the callback, skipped, or a way down.
pub data Turn : Type 0 where
  give skip down : Turn

-- The tests on an entry `pte` of `level`, in the order of the loop's body. At level 0 the loop
-- goes on in both cases.
unfoldable pub turn : Create → ℕ → ℕ → Turn
turn create zero pte = if is_normal create || not (pte == 0) then give else skip
turn create (suc zero) pte = if is_big create || pte_big pte then give else down
turn create (suc (suc zero)) pte = if is_big_1gb create || pte_big pte then give else down
turn create (suc (suc (suc level))) pte = down

module _ {S : Type 0} (ops : PageOps S) where
  -- `page_walk_cb` with its `arg`: the entry's address, the virtual address, the level.
  abbrev pub Callback : Type 0
  Callback = ℕ → ℕ → ℕ → Machine S → Outcome S

  -- A walk of a table over a range, at a lower level.
  abbrev pub SubWalk : Type 0
  SubWalk = ℕ → ℕ → ℕ → Machine S → Outcome S

  -- `alloc_page`, `memset` and the new entry; the rest runs when a page was there.
  pub new_table : ℕ → Machine S → (Machine S → Outcome S) → Outcome S
  new_table pte m rest = elim (ops.alloc m.pool) [
    | none ↦ none
    | some (none, s) ↦ some (err enomem, record m { pool = s })
    | some (some page, s) ↦
        rest (
          store (clear_page (record m { pool = s }) page) pte
            (bit_or (pte_addr page) pte_def_flags))
  ]

  -- The way down from the entry at `pte`: a missing table is skipped or created.
  pub descend : Create → SubWalk → (pte n_start_va n_end_va : ℕ) → Machine S → Outcome S
  descend create sub pte n_start_va n_end_va m =
      if pte_present (m.mem pte)
      then sub (pte_addr (m.mem pte)) n_start_va n_end_va m
      else if is_none create
      then some (ok, m)
      else new_table pte m (λ m'. sub (pte_addr (m'.mem pte)) n_start_va n_end_va m')

  -- One round of the loop.
  pub visit :
      Create
      → Callback
      → (level : ℕ) → SubWalk
      → (dir start_va end_va i : ℕ) → Machine S
      → Outcome S
  visit create cb level sub dir start_va end_va i m =
      let base_va = start_va / 2 ^ pdshift (level + 1) * 2 ^ pdshift (level + 1) in
      let cur_va = (base_va + pdaddr level i) % 2 ^ 64 in
      let pte = entry dir i in
      let n_start_va = if i == pdx level start_va then start_va else cur_va in
      let n_end_va =
        if i == pdx level end_va then end_va else (cur_va + pdaddr level 1 + 2 ^ 64 - 1) % 2 ^ 64 in
      elim (turn create level (m.mem pte)) [
        | give ↦ cb pte cur_va level m
        | skip ↦ some (ok, m)
        | down ↦ descend create sub pte n_start_va n_end_va m
      ]

  -- `for (i = start_idx; i <= end_idx; i++)` with so many rounds left.
  pub rounds : (ℕ → Machine S → Outcome S) → ℕ → ℕ → Machine S → Outcome S
  rounds body zero i m = some (ok, m)
  rounds body (suc n) i m = and_then (body i m) (rounds body n (i + 1))

  -- `__dune_vm_page_walk`; its asserts on the level and on `end_idx` hold for levels up to 3.
  pub page_walk :
      Create → Callback → (level : ℕ) → (dir start_va end_va : ℕ) → Machine S → Outcome S
  page_walk create cb zero dir start_va end_va =
      rounds (visit create cb 0 (λ d s e m. some (ok, m)) dir start_va end_va)
        (pdx 0 end_va + 1 - pdx 0 start_va) (pdx 0 start_va)
  page_walk create cb (suc level) dir start_va end_va =
      rounds (visit create cb (suc level) (page_walk create cb level) dir start_va end_va)
        (pdx (suc level) end_va + 1 - pdx (suc level) start_va) (pdx (suc level) start_va)
