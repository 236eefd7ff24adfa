-- ===== src/Spawn/Fault/Race.antt =====
-- A core of the program and the snapshot's core fault on the same page at once: the accesses of
-- `dbos_fast_spawn_pgflt_handler` to the two entries and to the count of references, one by one.
use libdbos.Common.{ℕ, ◌-◌, ◌≡◌, ◌≢◌, refl, sym, ap, ◌∙◌, Bool, true, not, ◌&&◌, bit_or, arith}
use libdbos.Vm.Pte.{pte_addr, pte_cow, pte_w, has}
use libdbos.Spawn.Entry.{pte_lock}
use libdbos.Spawn.Fault.{new_perm, diverged_perm, copied_perm, touched_perm}
use libdbos.Spawn.Fault.Entries.{new_perm-IsOwned, touched_perm-IsOwned, pte_addr-lock}

-- Where the program's core is, with the values that it has read.
pub data Pc : Type 0 where
  start : Pc
  own_locked : (old : ℕ) → Pc
  read_other : (old seen : ℕ) → Pc
  other_locked : (old locked : ℕ) → Pc
  copy_put : (old locked : ℕ) → Pc
  opening : (old : ℕ) → Pc
  retry : Pc
  done : Pc

-- Where the snapshot's core is.
pub data SnapshotPc : Type 0 where
  snapshot_start : SnapshotPc
  snapshot_locked : (old : ℕ) → SnapshotPc
  snapshot_put : (old : ℕ) → SnapshotPc
  snapshot_done : SnapshotPc

-- The two entries, the references on the page that they share, and the pages that the allocator
-- has given to the two cores for their copies.
pub record System : Type 0 where
  pub pte : ℕ
  pub spte : ℕ
  pub ref : ℕ
  pub page : ℕ
  pub snapshot_page : ℕ
  pub pc : Pc
  pub snapshot_pc : SnapshotPc

-- The tests on the entry, for a write fault.
abbrev pub may_lock : ℕ → Bool
may_lock pte = has pte pte_cow && not (has pte pte_w) && not (has pte pte_lock)

pub data Step (s : System) : System → Type 0 where
  -- The program's core locks its own entry.
  lock_own :
      s.pc ≡ start
      → may_lock s.pte ≡ true
      → Step s (record s { pte = bit_or s.pte pte_lock; pc = own_locked s.pte })
  -- A page with one reference stays as it is, and can be written.
  own_alone : {old : ℕ} → s.pc ≡ own_locked old → s.ref ≡ 1 → Step s (record s { pc = opening old })
  -- It reads the snapshot's entry, and exchanges it.
  look :
      {old : ℕ}
      → s.pc ≡ own_locked old
      → s.ref ≢ 1
      → Step s (record s { pc = read_other old s.spte })
  lock_other :
      {old seen : ℕ}
      → s.pc ≡ read_other old seen
      → s.spte ≡ seen
      → Step s
          (record s { spte = bit_or seen pte_lock; pc = other_locked old (bit_or seen pte_lock) })
  lose_other :
      {old seen : ℕ} → s.pc ≡ read_other old seen → s.spte ≢ seen → Step s (record s { pc = retry })
  -- The pages differ already.
  skip_copy :
      {old locked : ℕ}
      → s.pc ≡ other_locked old locked
      → pte_addr old ≢ pte_addr locked
      → Step s
          (record s { spte = bit_or (pte_addr locked) (diverged_perm locked); pc = opening old })
  -- The copy is put into the snapshot's entry, by the exchange or after it is lost.
  put_copy :
      {old locked : ℕ}
      → s.pc ≡ other_locked old locked
      → pte_addr old ≡ pte_addr locked
      → s.spte ≡ locked
      → Step s (record s {
        spte = bit_or (pte_addr s.page) (copied_perm locked);
        pc = copy_put old locked;
      })
  force_copy :
      {old locked : ℕ}
      → s.pc ≡ other_locked old locked
      → pte_addr old ≡ pte_addr locked
      → s.spte ≢ locked
      → Step s (record s {
        spte = bit_or (pte_addr s.page) (touched_perm s.spte);
        pc = copy_put old locked;
      })
  -- `dune_page_put` of the page that was shared
  give_back :
      {old locked : ℕ}
      → s.pc ≡ copy_put old locked
      → Step s (record s { ref = s.ref - 1; pc = opening old })
  open_own :
      {old : ℕ}
      → s.pc ≡ opening old
      → Step s (record s { pte = bit_or (pte_addr old) (new_perm old); pc = done })
  -- The snapshot's core: it locks its entry, puts its copy there, and gives the page back.
  snapshot_lock :
      s.snapshot_pc ≡ snapshot_start
      → may_lock s.spte ≡ true
      → Step s (record s { spte = bit_or s.spte pte_lock; snapshot_pc = snapshot_locked s.spte })
  snapshot_alone :
      {old : ℕ}
      → s.snapshot_pc ≡ snapshot_locked old
      → s.ref ≡ 1
      → Step s
          (record s { spte = bit_or (pte_addr old) (new_perm old); snapshot_pc = snapshot_done })
  snapshot_copy :
      {old : ℕ}
      → s.snapshot_pc ≡ snapshot_locked old
      → s.ref ≢ 1
      → Step s (record s {
        spte = bit_or (pte_addr s.snapshot_page) (new_perm old);
        snapshot_pc = snapshot_put old;
      })
  snapshot_give_back :
      {old : ℕ}
      → s.snapshot_pc ≡ snapshot_put old
      → Step s (record s { ref = s.ref - 1; snapshot_pc = snapshot_done })

pub data Reach (s : System) : System → Type 0 where
  here : Reach s s
  next : {t u : System} → Reach s t → Step t u → Reach s u

not_sole : (n : ℕ) → n ≡ 2 → n ≢ 1
not_sole n two e = omega arith

-- When a core of the program and the snapshot's core fault on a page that only their two entries
-- share, an order of their accesses ends both faults with no reference left on the page, so that
-- the allocator may give it out again, while the program's entry is for that page; and the
-- snapshot's entry is for the copy of the program's core, which was put over the snapshot's own.
pub both_faults-freed :
    (s : System)
    → s.pc ≡ start
    → s.snapshot_pc ≡ snapshot_start
    → may_lock s.pte ≡ true
    → may_lock s.spte ≡ true
    → pte_addr s.pte ≡ pte_addr s.spte
    → s.ref ≡ 2
    → pte_addr s.snapshot_page ≢ pte_addr s.spte
    → (t : System) × Reach s t
      × (t.pc ≡ done)
      × (t.snapshot_pc ≡ snapshot_done)
      × (t.ref ≡ 0)
      × (pte_addr t.pte ≡ pte_addr s.pte)
      × (pte_addr t.spte ≡ pte_addr s.page)
both_faults-freed s at sat can scan same two fresh =
    let not_one : s.ref ≢ 1 = not_sole s.ref two in
    let locked : ℕ = bit_or (bit_or s.spte pte_lock) pte_lock in
    let at_page : pte_addr s.pte ≡ pte_addr locked =
      same ∙ sym (pte_addr-lock s.spte) ∙ sym (pte_addr-lock (bit_or s.spte pte_lock)) in
    let both_locked = next (next here (snapshot_lock sat scan)) (lock_own at can) in
    let taken = next (next both_locked (look refl not_one)) (lock_other refl refl) in
    let copied = next taken (snapshot_copy refl not_one) in
    let lost : bit_or (pte_addr s.snapshot_page) (new_perm s.spte) ≢ locked = λ e. fresh (
      sym (new_perm-IsOwned s.snapshot_page s.spte).address ∙ ap pte_addr e ∙ sym at_page ∙ same) in
    let over = next copied (force_copy refl at_page lost) in
    let freed = next (next over (give_back refl)) (snapshot_give_back refl) in
    (
      _,
      next freed (open_own refl),
      refl,
      refl,
      ap (λ (n : ℕ). n - 1 - 1) two,
      (new_perm-IsOwned s.pte s.pte).address,
      (touched_perm-IsOwned s.page _).address,
    )
