-- ===== src/Spawn/Fault/Isolation.antt =====
-- After the fault, the program and the snapshot have a page each.
pub mod Claims
use libdbos.Common.{
  ℕ, ◌+◌, ◌-◌, ◌*◌, ◌/◌, ◌≤◌, ◌<◌, ◌≡◌, ◌≢◌, refl, sym, ap, ◌∙◌, ◌⊎◌, inl, inr, Bool, true, false,
  not, ◌&&◌, ◌||◌, Bool-cases, Option, none, some, bit_or, leb, ltb, ◌==◌, ◌>>=◌, ==→eq, eq→==,
  ne→==, le→leb, lt→ltb, lt→leb, le→ltb, if◌then◌else◌, arith,
}
use mathlib.Core.Path.{subst}
use mathlib.Core.Bool.{true≢false}
use libdbos.Vm.Pte.{pte_addr}
use libdbos.Vm.Machine.{PageOps, Machine, store}
use libdbos.Vm.Lookup.{found, vm_lookup}
use libdbos.Vm.Clone.{copy_page}
use libdbos.Vm.Clone.Fault.{Outside, copy_page-Outside}
use libdbos.Spawn.Entry.{pte_lock}
use libdbos.Spawn.Fault.{
  Spawned, Handled, new_perm, diverged_perm, copied_perm, touched_perm, put_page, put_copy,
  copy_into, copy_to_snapshot, separate, with_snapshot, is_cow_fault, is_sole, fault_on,
}
use libdbos.Spawn.Fault.Entries.{
  IsOwned, new_perm-IsOwned, copied_perm-IsOwned, touched_perm-IsOwned, pte_addr-lock,
}

-- The handler does not wait for an answer that cannot come: it does not copy in the pipelined way,
-- or its message is in the ring.
pub data IsAnswered (sp : Spawned) : Type 0 where
  waits_inside : (sp.pipeline && sp.snapshot_thread_started) ≡ false → IsAnswered sp
  by_message : sp.message_queued ≡ true → IsAnswered sp

module _ {S : Type 0} (ops : PageOps S) where
  -- A page of the pool can be given back.
  abbrev pub CanPut : ℕ → S → Type 0
  CanPut page s = ops.isfrompool s page ≡ true → (s' : S) × (ops.put s page ≡ some s')

  -- One reference on the page is given back, where it is a page of the pool.
  abbrev pub GaveBack : ℕ → S → S → Type 0
  GaveBack page s s' =
      ((ops.isfrompool s page ≡ false) × (s' ≡ s))
      ⊎ ((ops.isfrompool s page ≡ true) × (ops.put s page ≡ some s'))

  pub put_page_lem :
      (page : ℕ) (m : Machine S)
      → CanPut page m.pool
      → (s : S) × (put_page ops page m ≡ some (record m { pool = s })) × GaveBack page m.pool s
  unfolding put_page
  put_page_lem page m can = elim (Bool-cases (ops.isfrompool m.pool page)) [
    | inl pooled ↦ let (s, gave) = can pooled in rw (pooled, gave) (s, refl, inr (refl, refl))
    | inr other ↦ rw other (m.pool, refl, inl (refl, refl))
  ]

  -- The entry at `spte` is now for `page`, and nothing else changed.
  record PutEntry (page spte : ℕ) (m m' : Machine S) : Type 0 where
    pub owned : IsOwned page (m'.mem spte)
    pub others : (b : ℕ) → b ≢ spte → m'.mem b ≡ m.mem b
    pub pool : m'.pool ≡ m.pool

  store-PutEntry :
      (page spte e : ℕ) (m : Machine S) → IsOwned page e → PutEntry page spte m (store m spte e)
  store-PutEntry page spte e m own = record {
    owned = rw (eq→== spte spte refl) own;
    others = λ b ne. rw (ne→== b spte ne) refl;
    pool = refl;
  }

  put_copy-PutEntry :
      (touch : ℕ → ℕ) (spte locked page : ℕ) (m : Machine S)
      → PutEntry page spte m ((put_copy ops touch spte locked page m).1)
  unfolding put_copy
  put_copy-PutEntry touch spte locked page m = elim (Bool-cases (touch (m.mem spte) == locked)) [
    | inl kept ↦ rw kept (store-PutEntry page spte _ m (copied_perm-IsOwned page locked))
    | inr lost ↦
        rw lost (store-PutEntry page spte _ m (touched_perm-IsOwned page (touch (m.mem spte))))
  ]

  -- The snapshot has its copy of the page at `source`.
  pub record CopyMade (source page spte old : ℕ) (s : S) (m m' : Machine S) : Type 0 where
    pub owned : IsOwned page (m'.mem spte)
    pub content : (off : ℕ) → off < 4096 → m'.mem (page + off) ≡ m.mem (source + off)
    pub others : (b : ℕ) → b ≢ spte → Outside page b → m'.mem b ≡ m.mem b
    pub gave_back : GaveBack old s m'.pool

  copied-CopyMade :
      (source page spte old : ℕ) (s s' : S) (m m' : Machine S)
      → Outside page spte
      → PutEntry page spte (copy_page ops (record m { pool = s }) source page) m'
      → GaveBack old s s'
      → CopyMade source page spte old s m (record m' { pool = s' })
  copied-CopyMade source page spte old s s' m m' away put gave = record {
    owned = put.owned;
    content = λ off h.
        put.others (page + off) (λ same. elim away [ inl a ↦ omega arith | inr a ↦ omega arith ])
        ∙ rw
            (
              le→leb page (page + off) (omega arith),
              lt→ltb (page + off) (page + 4096) (omega arith),
            )
            (ap m.mem (omega arith));
    others = λ b ne out.
        put.others b ne ∙ copy_page-Outside m.mem (m.mem (b - page + source)) page b out;
    gave_back = gave;
  }

  -- The end of both ways to copy: the old page loses a reference.
  finish :
      (source page spte old : ℕ) (s : S) (m m3 : Machine S) (shot flush : Bool)
      → Outside page spte
      → PutEntry page spte (copy_page ops (record m { pool = s }) source page) m3
      → CanPut old s
      → (h : Handled S) × ((put_page ops old m3 >>= λ m4.
            some (record { machine = m4; shot = shot; need_local_flush = flush }))
          ≡ some h)
        × CopyMade source page spte old s m h.machine
  finish source page spte old s m m3 shot flush away put can =
      let (s', eq, gave) = put_page_lem old m3 (subst (CanPut old) (sym put.pool) can) in
      rw eq (
        _,
        refl,
        copied-CopyMade source page spte old s s' m m3 away put
            (subst (λ (t : S). GaveBack old t s') put.pool gave),
      )

  answered_early :
      {sp : Spawned}
      → IsAnswered sp
      → (sp.pipeline && sp.snapshot_thread_started) ≡ true
      → sp.message_queued ≡ true
  answered_early (waits_inside e) early = absurd (true≢false (sym early ∙ e))
  answered_early (by_message e) early = e

  copy_into_lem :
      (sp : Spawned) (touch : ℕ → ℕ) (source addr spte locked page : ℕ) (s : S) (m : Machine S)
      → addr / 4096 ≢ 0
      → IsAnswered sp
      → Outside page spte
      → CanPut (pte_addr locked) s
      → (h : Handled S) × (copy_into ops sp touch source addr spte locked page
            (record m { pool = s })
          ≡ some h)
        × CopyMade source page spte (pte_addr locked) s m h.machine
  unfolding copy_into
  copy_into_lem sp touch source addr spte locked page s m past answered away can =
      let m2 : Machine S = copy_page ops (record m { pool = s }) source page in
      elim (Bool-cases (sp.pipeline && sp.snapshot_thread_started)) [
        | inl early ↦
            rw (early, answered_early answered early)
              (finish source page spte (pte_addr locked) s m _ true false away
                (store-PutEntry page spte _ m2 (copied_perm-IsOwned page locked)) can)
        | inr late ↦
            rw (late, ne→== (addr / 4096) 0 past)
              (finish source page spte (pte_addr locked) s m _ _ true away
                (put_copy-PutEntry touch spte locked page m2) can)
      ]

  pub copy_to_snapshot_lem :
      (sp : Spawned) (touch : ℕ → ℕ) (source addr spte locked page : ℕ) (s : S) (m : Machine S)
      → ops.alloc m.pool ≡ some (some page, s)
      → addr / 4096 ≢ 0
      → IsAnswered sp
      → Outside page spte
      → CanPut (pte_addr locked) s
      → (h : Handled S) × (copy_to_snapshot ops sp touch source addr spte locked m ≡ some h)
        × CopyMade source page spte (pte_addr locked) s m h.machine
  unfolding copy_to_snapshot
  copy_to_snapshot_lem sp touch source addr spte locked page s m got past answered away can =
      rw (got, copy_to_snapshot)
        (copy_into_lem sp touch source addr spte locked page s m past answered away can)
