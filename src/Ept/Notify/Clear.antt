-- ===== src/Ept/Notify/Clear.antt =====
-- What the notifiers leave behind.
use libdbos.Common.{
  ℕ, ◌≡◌, ◌≢◌, refl, ◌∙◌, inl, inr, Bool, true, false, ◌∷◌, arith, bit_and, ◌==◌, if◌then◌else◌,
  Bool-cases, ne→==, eq→==, ==→eq,
}
use libdbos.Common.Bits.{bit_and_assoc, bit_and_comm, bit_and-zero}
use libdbos.Ept.Addr.{Mm, addr_inval, hva_to_gpa}
use libdbos.Ept.Entry.{epte_a, Errno, Host, Ept, sync_addr, free_ept_page, clear_epte}
use libdbos.Ept.Lookup.{Reply, found, failed}
use libdbos.Ept.Lookup.Stable.{walk, lookup_gpa-walk}
use libdbos.Ept.Notify.{
  bool_and, invalidate_entry, invalidate_flush, accessed_entry, invalidate_page, read_accessed,
  check_page_accessed,
}

flush_and_bit : (x : ℕ) (flush : Bool) → bool_and flush (bit_and x epte_a) ≡ 0
flush_and_bit x true = bit_and_comm 1 (bit_and x epte_a) ∙ bit_and_assoc x epte_a 1 ∙ bit_and-zero x
flush_and_bit x false = bit_and_comm 0 (bit_and x epte_a) ∙ bit_and-zero (bit_and x epte_a)

module _ {H : Type 0} (host : Host H) (mm : Mm) where
  read_accessed-kept :
      (gpa : ℕ) (flush : Bool) (a : ℕ) (s : Ept H)
      → read_accessed host mm gpa flush a s ≡ (bit_and (s.mem a) epte_a, s)
  unfolding read_accessed
  read_accessed-kept gpa flush a s = rw (flush_and_bit (s.mem a) flush) refl

  -- The A bit of the entry that a walk reaches.
  unfoldable pub accessed_at : Reply → Ept H → ℕ
  accessed_at (failed e) s = 0
  accessed_at (found a) s = bit_and (s.mem a) epte_a

  -- ept_check_page_accessed never clears the A bit, `flush` or not: it changes nothing and
  -- requests no flush of the TLB. It returns the A bit of the entry that the walk of the address
  -- reaches, and 0 when the address is out of range or the walk reaches none.
  pub check_page_accessed-kept :
      (addr : ℕ) (flush : Bool) (s : Ept H)
      → check_page_accessed host mm addr flush s ≡ (
        if hva_to_gpa mm addr == addr_inval
            then 0
            else accessed_at (walk s.mem (hva_to_gpa mm addr) 0 3 s.ept_root) s,
        s,
      )
  unfolding check_page_accessed accessed_entry accessed_at
  check_page_accessed-kept addr flush s = elim (Bool-cases (hva_to_gpa mm addr == addr_inval)) [
    | inl out ↦ rw out refl
    | inr valid ↦
        rw (valid, lookup_gpa-walk host (hva_to_gpa mm addr) 0 s)
          (by_reply (walk s.mem (hva_to_gpa mm addr) 0 3 s.ept_root))
  ]
    where
      by_reply :
          (r : Reply)
          → accessed_entry host mm (hva_to_gpa mm addr) flush (r, s) ≡ (accessed_at r s, s)
      by_reply (failed e) = refl
      by_reply (found a) = read_accessed-kept (hva_to_gpa mm addr) flush a s

  -- What ept_invalidate_page does for an address whose walk ends as `r` says.
  pub data Invalidated (addr : ℕ) (r : Reply) (s : Ept H) : ℕ × Ept H → Type 0 where
    out_of_range : hva_to_gpa mm addr ≡ addr_inval → Invalidated addr r s (0, s)
    not_mapped :
        hva_to_gpa mm addr ≢ addr_inval → (e : Errno) → r ≡ failed e → Invalidated addr r s (0, s)
    empty :
        hva_to_gpa mm addr ≢ addr_inval
        → (a : ℕ) → r ≡ found a
        → s.mem a ≡ 0
        → Invalidated addr r s (0, s)
    removed :
        hva_to_gpa mm addr ≢ addr_inval
        → (a : ℕ) (s' : Ept H) → r ≡ found a
        → s.mem a ≢ 0
        → s'.mem a ≡ 0
        → ((b : ℕ) → b ≢ a → s'.mem b ≡ s.mem b)
        → s'.host ≡ free_ept_page host (s.mem a) s.host
        → s'.syncs ≡ sync_addr (hva_to_gpa mm addr) ∷ s.syncs
        → Invalidated addr r s (1, s')

  invalidate_entry_lem :
      (addr : ℕ) (r : Reply) (s : Ept H)
      → hva_to_gpa mm addr ≢ addr_inval
      → Invalidated addr r s (invalidate_entry host mm (hva_to_gpa mm addr) (r, s))
  unfolding invalidate_entry invalidate_flush clear_epte
  invalidate_entry_lem addr (failed e) s valid = not_mapped valid e refl
  invalidate_entry_lem addr (found a) s valid = elim (Bool-cases (s.mem a == 0)) [
    | inl none_there ↦ rw none_there (empty valid a refl (==→eq _ _ none_there))
    | inr there ↦ rw there (
        removed valid a _ refl (λ zero_there. absurd (ground arith)) (rw (eq→== a a refl) refl)
          (λ b ne. rw (ne→== b a ne) refl) refl refl)
  ]

  -- ept_invalidate_page: for an address in the range of the process, an entry that its walk reaches and that is not empty is
  -- set to 0, its page is released once, the address is flushed from the TLB, and the result is
  -- 1. In every other case (address out of range, no entry, an empty entry) nothing changes and
  -- the result is 0.
  pub invalidate_page_lem :
      (addr : ℕ) (s : Ept H)
      → Invalidated addr
          (walk s.mem (hva_to_gpa mm addr) 0 3 s.ept_root)
          s
          (invalidate_page host mm addr s)
  unfolding invalidate_page
  invalidate_page_lem addr s = elim (Bool-cases (hva_to_gpa mm addr == addr_inval)) [
    | inl out ↦ rw out (out_of_range (==→eq _ _ out))
    | inr valid ↦
        rw (valid, lookup_gpa-walk host (hva_to_gpa mm addr) 0 s)
          (invalidate_entry_lem addr (walk s.mem (hva_to_gpa mm addr) 0 3 s.ept_root) s
            (λ e. absurd (ground (arith, e, valid))))
  ]
