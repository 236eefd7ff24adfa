-- ===== src/Vm/Clone/Fault.antt =====
-- The copy-on-write fault.
use libdbos.Common.{
  ◌/◌, ◌*◌, ==→eq, eq→==, ne→==, le→leb, lt→ltb, lt→leb, le→ltb, ℕ, ◌+◌, ◌-◌, ◌≤◌, ◌<◌, ◌≡◌, ◌≢◌,
  refl, sym, ap, ◌∙◌, inl, inr, ◌⊎◌, Bool, true, false, ◌&&◌, Bool-cases, some, arith, bit_and,
  bit_or, not, ltb, leb, ◌==◌, if◌then◌else◌,
}
use libdbos.Common.Bits.{bit_and_assoc, bit_and-or, bit_and-zero, bit_or-eq-zero}
use libdbos.Vm.Pte.{pte_addr, pte_flags, addr_mask, pte_w, pte_cow, has}
use libdbos.Vm.Pte.Laws.{AreFlags, pte_addr-or}
use libdbos.Vm.Machine.{PageOps, Machine, store}
use libdbos.Vm.Clone.{
  copy_page, without, fec_w, fec_p, fec_rsv, copy_on_write, fault_at, pgflt_handler,
}
use libdbos.Vm.Lookup.{found, vm_lookup}

-- The flags after the fault.
abbrev pub cow_flags : ℕ → ℕ
cow_flags old = bit_or (without (pte_flags old) pte_cow) pte_w

cow_flags-AreFlags : (old : ℕ) → AreFlags (cow_flags old)
unfolding pte_flags
cow_flags-AreFlags old = rw (bit_and-or, bit_and_assoc, bit_and_assoc, bit_and-zero) refl

addr_bits : (x f : ℕ) → bit_and addr_mask f ≡ 0 → bit_and (pte_addr x) f ≡ 0
unfolding pte_addr
addr_bits x f h = rw (bit_and_assoc, h, bit_and-zero) refl

and-right : (a b : Bool) → (a && b) ≡ true → b ≡ true
and-right a b h = ground arith

-- The entry of `page` after the fault: writable, not copy-on-write, for that page.
pub record IsPrivate (page entry : ℕ) : Type 0 where
  pub address : pte_addr entry ≡ pte_addr page
  pub writable : has entry pte_w ≡ true
  pub not_cow : has entry pte_cow ≡ false

not_zero : (n : ℕ) → n ≢ 0 → not (n == 0) ≡ true
not_zero n h = ground arith

cow_flags-IsPrivate : (page old : ℕ) → IsPrivate page (bit_or (pte_addr page) (cow_flags old))
unfolding pte_flags
cow_flags-IsPrivate page old = record {
  address = pte_addr-or page (cow_flags old) (cow_flags-AreFlags old);
  writable = not_zero _ (λ zero_bit.
      let (a, b) = bit_or-eq-zero _ _ (sym (bit_and-or _ _ pte_w) ∙ zero_bit) in
      let (c, d) = bit_or-eq-zero _ _ (sym (bit_and-or _ _ pte_w) ∙ b) in
      absurd (omega (arith, d)));
  not_cow =
      rw
        (
          bit_and-or,
          addr_bits page pte_cow refl,
          bit_and-or,
          bit_and_assoc,
          bit_and_assoc,
          bit_and-zero,
        )
        refl;
}

abbrev pub Outside : ℕ → ℕ → Type 0
Outside page b = (b < page) ⊎ (page + 4096 ≤ b)

pub copy_page-Outside :
    (mem : ℕ → ℕ) (x page b : ℕ)
    → Outside page b
    → (if leb page b && ltb b (page + 4096) then x else mem b) ≡ mem b
copy_page-Outside mem x page b (inl low) = rw (lt→leb page b low) refl
copy_page-Outside mem x page b (inr high) =
    rw (le→leb page b (omega arith), le→ltb b (page + 4096) high) refl

module _ {S : Type 0} (ops : PageOps S) where
  -- The old page had one reference and stays, with the entry changed in place.
  pub record InPlace (pte : ℕ) (m m' : Machine S) : Type 0 where
    pub sole : ops.ref m.pool (pte_addr (m.mem pte)) ≡ 1
    pub private : IsPrivate (m.mem pte) (m'.mem pte)
    pub same_words : (b : ℕ) → b ≢ pte → m'.mem b ≡ m.mem b
    pub same_pool : m'.pool ≡ m.pool

  -- The entry is for the new page, which has the content of the page at `source`; the old page
  -- has been given back once, if it is a page of the pool.
  pub record Copied (source page pte : ℕ) (s : S) (m m' : Machine S) : Type 0 where
    pub private : IsPrivate page (m'.mem pte)
    pub content : (off : ℕ) → off < 4096 → m'.mem (page + off) ≡ m.mem (source + off)
    pub others : (b : ℕ) → b ≢ pte → ((b < page) ⊎ (page + 4096 ≤ b)) → m'.mem b ≡ m.mem b
    pub given_back :
        ((ops.isfrompool s (pte_addr (m.mem pte)) ≡ false) × (m'.pool ≡ s))
        ⊎ ((ops.isfrompool s (pte_addr (m.mem pte)) ≡ true)
            × (ops.put s (pte_addr (m.mem pte)) ≡ some m'.pool))

  copied :
      (source page pte : ℕ) (s s' : S) (m : Machine S)
      → Outside page pte
      → ((ops.isfrompool s (pte_addr (m.mem pte)) ≡ false) × (s' ≡ s))
        ⊎ ((ops.isfrompool s (pte_addr (m.mem pte)) ≡ true)
            × (ops.put s (pte_addr (m.mem pte)) ≡ some s'))
      → Copied source page pte s m (
          store
            (record (copy_page ops (record m { pool = s }) source page) { pool = s' })
            pte
            (bit_or (pte_addr page) (cow_flags (m.mem pte))))
  copied source page pte s s' m away given = record {
    private = rw (eq→== pte pte refl) (cow_flags-IsPrivate page (m.mem pte));
    content = λ off h.
        rw
          (
            ne→== (page + off) pte
                (λ same. elim away [ inl a ↦ omega arith | inr a ↦ omega arith ]),
            le→leb page (page + off) (omega arith),
            lt→ltb (page + off) (page + 4096) (omega arith),
          )
          (ap m.mem (omega arith));
    others = λ b ne out. rw (ne→== b pte ne) (copy_page-Outside m.mem _ page b out);
    given_back = given;
  }

  -- What a write fault on a copy-on-write entry ends with.
  abbrev pub FaultEnds :
      (translate : Machine S → ℕ → ℕ) (pgroot addr fec pte page : ℕ) → S → Machine S → Type 0
  FaultEnds translate pgroot addr fec pte page s m =
      (m' : Machine S) × (pgflt_handler ops translate pgroot addr fec m ≡ some m')
      × (InPlace pte m m' ⊎ Copied (translate m (addr / 4096 * 4096)) page pte s m m')

  in_place :
      (pte : ℕ) (m : Machine S)
      → ops.ref m.pool (pte_addr (m.mem pte)) ≡ 1
      → InPlace pte m (store m pte (bit_or (pte_addr (m.mem pte)) (cow_flags (m.mem pte))))
  in_place pte m one = record {
    sole = one;
    private = rw (eq→== pte pte refl) (cow_flags-IsPrivate (m.mem pte) (m.mem pte));
    same_words = λ b ne. rw (ne→== b pte ne) refl;
    same_pool = refl;
  }

  copy_on_write_lem :
      (source page pte : ℕ) (s : S) (m : Machine S)
      → ops.alloc m.pool ≡ some (some page, s)
      → (ops.isfrompool s (pte_addr (m.mem pte)) ≡ true
          → (s' : S) × (ops.put s (pte_addr (m.mem pte)) ≡ some s'))
      → Outside page pte
      → (m' : Machine S) × (copy_on_write ops source pte (cow_flags (m.mem pte)) m ≡ some m')
        × Copied source page pte s m m'
  unfolding copy_on_write
  copy_on_write_lem source page pte s m got put away =
      elim (Bool-cases (ops.isfrompool s (pte_addr (m.mem pte)))) [
        | inr other ↦
            rw (got, copy_on_write)
              (rw (unmoved, other) (_, refl, copied source page pte s s m away (inl (other, refl))))
        | inl pooled ↦
            let (s', gave) = put pooled in
            rw (got, copy_on_write)
              (rw (unmoved, pooled)
                (rw gave (_, refl, copied source page pte s s' m away (inr (pooled, gave)))))
      ]
    where
      unmoved :
          (if leb page pte && ltb pte (page + 4096) then m.mem (pte - page + source) else m.mem pte)
          ≡ m.mem pte
      unmoved = copy_page-Outside m.mem (m.mem (pte - page + source)) page pte away

  -- The part of the handler that follows its lookup.
  fault_at-FaultEnds :
      (source fec page pte : ℕ) (s : S) (m : Machine S)
      → has fec fec_w ≡ true
      → has (m.mem pte) pte_cow ≡ true
      → ops.alloc m.pool ≡ some (some page, s)
      → (ops.isfrompool s (pte_addr (m.mem pte)) ≡ true
          → (s' : S) × (ops.put s (pte_addr (m.mem pte)) ≡ some s'))
      → Outside page pte
      → (m' : Machine S) × (fault_at ops source fec pte m ≡ some m')
        × (InPlace pte m m' ⊎ Copied source page pte s m m')
  unfolding fault_at
  fault_at-FaultEnds source fec page pte s m write cow got put away =
      let old = pte_addr (m.mem pte) in
      elim (Bool-cases (ops.isfrompool m.pool old && ops.ref m.pool old == 1)) [
        | inl sole ↦
            rw (write, cow, sole) (_, refl, inl (in_place pte m (==→eq _ _ (and-right _ _ sole))))
        | inr shared ↦
            let (m', eq, done) = copy_on_write_lem source page pte s m got put away in
            rw (write, cow, shared) (m', eq, inr done)
      ]

  -- The copy-on-write case of dune_vm_default_pgflt_handler: a write fault on an entry with
  -- PTE_COW that dune_vm_lookup finds, whose error code has neither FEC_P nor FEC_RSV, as an assert
  -- wants, when dune_page_alloc has a page and the old page can be given back. The handler returns,
  -- and the entry is writable and no longer copy-on-write, in one of two ways. A page with one
  -- reference stays: the entry keeps its address, all other words and the pool are as before. Or the
  -- page is copied: the entry is for the new page, which has the content of the faulting one, no
  -- other word changes, and the old page loses one reference if it is a page of the pool. (The entry
  -- must not lie in the new page.)
  pub pgflt_handler-FaultEnds :
      (translate : Machine S → ℕ → ℕ) (pgroot addr fec page pte : ℕ) (s : S) (m : Machine S)
      → has fec (bit_or fec_p fec_rsv) ≡ false
      → vm_lookup ops pgroot addr false false m ≡ found pte false m
      → has fec fec_w ≡ true
      → has (m.mem pte) pte_cow ≡ true
      → ops.alloc m.pool ≡ some (some page, s)
      → (ops.isfrompool s (pte_addr (m.mem pte)) ≡ true
          → (s' : S) × (ops.put s (pte_addr (m.mem pte)) ≡ some s'))
      → Outside page pte
      → FaultEnds translate pgroot addr fec pte page s m
  unfolding pgflt_handler
  pgflt_handler-FaultEnds translate pgroot addr fec page pte s m absent there write cow got put
        away =
      rw (absent, there, pgflt_handler)
        (fault_at-FaultEnds (translate m (addr / 4096 * 4096)) fec page pte s m write cow got put
          away)
