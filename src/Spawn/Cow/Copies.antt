-- ===== src/Spawn/Cow/Copies.antt =====
-- What the callbacks write for a page that is copied on write.
use libdbos.Common.{
  ◌≡◌, ◌≢◌, refl, sym, ◌∙◌, inl, inr, ne→==, eq→==, Bool-cases, ℕ, Bool, true, false, some,
}
use mathlib.Core.Bool.{true≢false}
use mathlib.Core.Path.{subst}
use libdbos.Vm.Pte.{pte_addr}
use libdbos.Vm.Machine.{ok, PageOps, Machine}
use libdbos.Vm.Lookup.{found, vm_lookup}
use libdbos.Spawn.Entry.{is_shareable, canonical_virtual_address, Regions, private, region_of}
use libdbos.Spawn.Cow.{with_lookup, get_two, write_both, pgtable_cow_copy}
use libdbos.Spawn.Entry.Laws.{SharedBy, cow_entry-SharedBy}

module _ {S : Type 0} (ops : PageOps S) where
  -- The pool after the two new references on a page, or the pool as it is for another page.
  pub record TookTwo (page : ℕ) (s s' : S) : Type 0 where
    pub pooled :
        ops.isfrompool s page ≡ true
        → (s1 : S) × (ops.get s page ≡ some s1) × (ops.get s1 page ≡ some s')
    pub other : ops.isfrompool s page ≡ false → s' ≡ s

  -- The two new tables share the page of the entry `x`.
  pub record SharesPage (x new1 new2 : ℕ) (m m' : Machine S) : Type 0 where
    pub entries : SharedBy x (m'.mem new1) (m'.mem new2)
    pub rest : (b : ℕ) → b ≢ new1 → b ≢ new2 → m'.mem b ≡ m.mem b
    pub took : TookTwo (pte_addr x) m.pool m'.pool

  -- Both references can be taken.
  abbrev pub CanGet : ℕ → S → Type 0
  CanGet page s =
      ops.isfrompool s page ≡ true
      → (s1 : S) × (s2 : S) × (ops.get s page ≡ some s1) × (ops.get s1 page ≡ some s2)

  write_both-kept :
      (new1 new2 pte : ℕ) (m : Machine S)
      → pte ≢ new1
      → pte ≢ new2
      → (write_both ops new1 new2 pte m).mem pte ≡ m.mem pte
  unfolding write_both
  write_both-kept new1 new2 pte m off1 off2 = rw (ne→== pte new2 off2, ne→== pte new1 off1) refl

  write_both-SharesPage :
      (new1 new2 pte : ℕ) (m : Machine S) (s : S)
      → new1 ≢ new2
      → pte ≢ new1
      → TookTwo (pte_addr (m.mem pte)) m.pool s
      → SharesPage (m.mem pte) new1 new2 m (record (write_both ops new1 new2 pte m) { pool = s })
  unfolding write_both
  write_both-SharesPage new1 new2 pte m s apart off1 took = record {
    entries =
        rw (ne→== pte new1 off1, ne→== new1 new2 apart, eq→== new1 new1 refl, eq→== new2 new2 refl)
          (cow_entry-SharedBy (m.mem pte) (is_shareable (m.mem pte)) refl);
    rest = λ b off1 off2. rw (ne→== b new2 off2, ne→== b new1 off1) refl;
    took = took;
  }

  get_two_lem :
      (pte : ℕ) (m : Machine S)
      → CanGet (pte_addr (m.mem pte)) m.pool
      → (s : S) × (get_two ops (pte_addr (m.mem pte)) pte m ≡ some (ok, record m { pool = s }))
        × TookTwo (pte_addr (m.mem pte)) m.pool s
  unfolding get_two
  get_two_lem pte m can = elim (Bool-cases (ops.isfrompool m.pool (pte_addr (m.mem pte)))) [
    | inl pooled ↦
        let (s1, s2, got1, got2) = can pooled in
        rw (pooled, got1, got2)
          (
            s2,
            refl,
            record {
              pooled = λ h. (s1, got1, got2);
              other = λ h. absurd (true≢false (sym pooled ∙ h));
            },
          )
    | inr other ↦ rw other (
      m.pool,
      refl,
      record { pooled = λ h. absurd (true≢false (sym h ∙ other)); other = λ h. refl },
    )
  ]

  two_entries_lem :
      (new1 new2 pte : ℕ) (m : Machine S)
      → new1 ≢ new2
      → pte ≢ new1
      → pte ≢ new2
      → CanGet (pte_addr (m.mem pte)) m.pool
      → (m' : Machine S) × (get_two ops (pte_addr (m.mem pte)) pte (write_both ops new1 new2 pte m)
          ≡ some (ok, m'))
        × SharesPage (m.mem pte) new1 new2 m m'
  unfolding write_both
  two_entries_lem new1 new2 pte m apart off1 off2 can =
      let w = write_both ops new1 new2 pte m in
      let same : w.mem pte ≡ m.mem pte = write_both-kept new1 new2 pte m off1 off2 in
      let (s, eq, took) =
        get_two_lem pte w (subst (λ (x : ℕ). CanGet (pte_addr x) m.pool) (sym same) can) in
      (
        _,
        subst (λ (x : ℕ). get_two ops (pte_addr x) pte w ≡ some (ok, record w { pool = s })) same
            eq,
        write_both-SharesPage new1 new2 pte m s apart off1
            (subst (λ (x : ℕ). TookTwo (pte_addr x) m.pool s) same took),
      )

  -- What pgtable_cow_copy does for a single page at an address outside the regions that all share,
  -- where dune_vm_lookup finds an entry in each of the two new tables, neither of them the other
  -- nor the original, and the references can be taken: it returns 0; both new entries are for the
  -- page of the original, unlocked; where the original has PTE_W and PTE_P and none of PTE_STACK,
  -- PTE_COW and PTE_NOCOW, both are write-protected and marked PTE_COW, and elsewhere both can be
  -- written as the original can; after the two lookups no other word changes; and a page of the
  -- pool has two references more than after them.
  pub pgtable_cow_copy-SharesPage :
      (r : Regions) (root1 root2 pte va new1 new2 : ℕ) (c1 c2 : Bool) (m m1 m2 : Machine S)
      → region_of r (canonical_virtual_address va) ≡ private
      → vm_lookup ops root1 (canonical_virtual_address va) true false m ≡ found new1 c1 m1
      → vm_lookup ops root2 (canonical_virtual_address va) true false m1 ≡ found new2 c2 m2
      → m2.mem pte ≡ m.mem pte
      → new1 ≢ new2
      → pte ≢ new1
      → pte ≢ new2
      → CanGet (pte_addr (m2.mem pte)) m2.pool
      → (m' : Machine S) × (pgtable_cow_copy ops r root1 root2 pte va 0 m ≡ some (ok, m'))
        × SharesPage (m.mem pte) new1 new2 m2 m'
  unfolding pgtable_cow_copy with_lookup
  pgtable_cow_copy-SharesPage r root1 root2 pte va new1 new2 c1 c2 m m1 m2 reg found1 found2 same
        apart off1 off2 can =
      rw (reg, pgtable_cow_copy)
        (rw (found1, with_lookup)
          (rw (found2, with_lookup, sym same)
            (two_entries_lem new1 new2 pte m2 apart off1 off2 can)))
