-- ===== src/Spawn/Fault/Entries.antt =====
-- The entries that the handler writes.
use libdbos.Common.{
  ℕ, ◌≡◌, refl, inl, inr, true, false, not, Bool-cases, ==→eq, bit_and, bit_or, ◌==◌, arith,
}
use libdbos.Common.Bits.{
  bit_and_assoc, bit_or_assoc, bit_and-or, bit_and-zero, bit_or-zero, zero-bit_or, bit_or-eq-zero,
}
use libdbos.Vm.Pte.{pte_addr, pte_flags, addr_mask, pte_w, pte_cow, has}
use libdbos.Vm.Pte.Laws.{pte_addr-or}
use libdbos.Spawn.Entry.{pte_lock}
use libdbos.Spawn.Fault.{new_perm, diverged_perm, copied_perm, touched_perm}

-- An entry for `page` through which its one owner writes.
pub record IsOwned (page entry : ℕ) : Type 0 where
  pub address : pte_addr entry ≡ pte_addr page
  pub writable : has entry pte_w ≡ true
  pub not_cow : has entry pte_cow ≡ false
  pub unlocked : has entry pte_lock ≡ false

-- Flags that keep some bits of an entry and set others.
abbrev kept_and_set : ℕ → ℕ → ℕ → ℕ
kept_and_set keep set old = bit_or (bit_and old keep) set

record Gives (keep set : ℕ) : Type 0 where
  pub no_address : (bit_and keep addr_mask ≡ 0) × (bit_and set addr_mask ≡ 0)
  pub w : bit_and set pte_w ≡ pte_w
  pub cow : (bit_and keep pte_cow ≡ 0) × (bit_and set pte_cow ≡ 0)
  pub lock : (bit_and keep pte_lock ≡ 0) × (bit_and set pte_lock ≡ 0)

cleared :
    (keep set old m : ℕ)
    → bit_and keep m ≡ 0
    → bit_and set m ≡ 0
    → bit_and (kept_and_set keep set old) m ≡ 0
cleared keep set old m k s = rw (bit_and-or, bit_and_assoc, k, s, bit_and-zero) refl

page_bits :
    (page f m : ℕ) → bit_and addr_mask m ≡ 0 → bit_and (bit_or (pte_addr page) f) m ≡ bit_and f m
unfolding pte_addr
page_bits page f m h = rw (bit_and-or, bit_and_assoc, h, bit_and-zero) (zero-bit_or _)

set-has : (a b : ℕ) → not (b == 0) ≡ true → not (bit_or a b == 0) ≡ true
set-has a b h = elim (Bool-cases (bit_or a b == 0)) [
  | inl none_set ↦
      let (za, zb) = bit_or-eq-zero a b (==→eq _ _ none_set) in absurd (ground (arith, zb))
  | inr some_set ↦ ground arith
]

Gives-IsOwned :
    (keep set page old : ℕ)
    → Gives keep set
    → IsOwned page (bit_or (pte_addr page) (kept_and_set keep set old))
Gives-IsOwned keep set page old g = record {
  address = pte_addr-or page _ (cleared keep set old addr_mask g.no_address.0 g.no_address.1);
  writable =
      rw (page_bits page (kept_and_set keep set old) pte_w refl, bit_and-or, g.w)
        (set-has _ pte_w refl);
  not_cow =
      rw
        (
          page_bits page (kept_and_set keep set old) pte_cow refl,
          cleared keep set old pte_cow g.cow.0 g.cow.1,
        )
        refl;
  unlocked =
      rw
        (
          page_bits page (kept_and_set keep set old) pte_lock refl,
          cleared keep set old pte_lock g.lock.0 g.lock.1,
        )
        refl;
}

new_perm_lem : (old : ℕ) → new_perm old ≡ kept_and_set 0xfff0_0000_0000_05ff 0x66 old
unfolding new_perm pte_flags
new_perm_lem old = rw (bit_and-or, bit_and-or, bit_and_assoc, bit_or_assoc, bit_and_assoc old) refl

copied_perm_lem : (old : ℕ) → copied_perm old ≡ kept_and_set 0xfff0_0000_0000_05ff 0x62 old
unfolding copied_perm diverged_perm pte_flags
copied_perm_lem old =
    rw (bit_and-or, bit_and_assoc, bit_and-or, bit_or_assoc, bit_and_assoc old) refl

touched_perm_lem : (old : ℕ) → touched_perm old ≡ kept_and_set 0xfff0_0000_0000_05ff 0x62 old
unfolding touched_perm pte_flags
touched_perm_lem old =
    rw (bit_and_assoc, bit_and-or, bit_and-or, bit_or_assoc, bit_and_assoc old) refl

gives :
    (set : ℕ)
    → bit_and set addr_mask ≡ 0
    → bit_and set pte_w ≡ pte_w
    → bit_and set pte_cow ≡ 0
    → bit_and set pte_lock ≡ 0
    → Gives 0xfff0_0000_0000_05ff set
gives set a w c l = record { no_address = (refl, a); w = w; cow = (refl, c); lock = (refl, l) }

pub new_perm-IsOwned : (page old : ℕ) → IsOwned page (bit_or (pte_addr page) (new_perm old))
new_perm-IsOwned page old =
    rw new_perm_lem (Gives-IsOwned _ _ page old (gives 0x66 refl refl refl refl))

pub copied_perm-IsOwned : (page old : ℕ) → IsOwned page (bit_or (pte_addr page) (copied_perm old))
copied_perm-IsOwned page old =
    rw copied_perm_lem (Gives-IsOwned _ _ page old (gives 0x62 refl refl refl refl))

pub touched_perm-IsOwned : (page old : ℕ) → IsOwned page (bit_or (pte_addr page) (touched_perm old))
touched_perm-IsOwned page old =
    rw touched_perm_lem (Gives-IsOwned _ _ page old (gives 0x62 refl refl refl refl))

-- The entry of a page that already differs: the lock goes.
pub diverged-unlocked :
    (page old : ℕ) → has (bit_or (pte_addr page) (diverged_perm old)) pte_lock ≡ false
unfolding diverged_perm
diverged-unlocked page old =
    rw (page_bits page (diverged_perm old) pte_lock refl, bit_and_assoc, bit_and-zero) refl

pub diverged-address :
    (page old : ℕ) → pte_addr (bit_or (pte_addr page) (diverged_perm old)) ≡ pte_addr page
unfolding diverged_perm pte_flags
diverged-address page old =
    pte_addr-or page _ (rw (bit_and_assoc, bit_and-or, bit_and_assoc, bit_and-zero) refl)

-- Locking an entry keeps its page.
pub pte_addr-lock : (x : ℕ) → pte_addr (bit_or x pte_lock) ≡ pte_addr x
unfolding pte_addr
pte_addr-lock x = rw bit_and-or (bit_or-zero _)
