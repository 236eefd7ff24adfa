-- ===== src/Spawn/Entry/Laws.antt =====
-- What a snapshot's entries keep, and who may write through them.
use libdbos.Common.{
  ℕ, ◌-◌, ◌^◌, ◌≡◌, refl, sym, ap, ◌∙◌, inl, inr, Bool, true, false, not, Bool-cases, ==→eq,
  bit_and, bit_or, ◌==◌, arith,
}
use libdbos.Common.Bits.{bit_and_assoc, bit_and-or, bit_and-zero, bit_or-zero, bit_or-eq-zero}
use mathlib.Core.Bool.{true≢false}
use libdbos.Vm.Pte.{pte_addr, pte_w, pte_p, pte_stack, pte_cow, addr_mask, has}
use libdbos.Vm.Clone.{without}
use libdbos.Spawn.Entry.{pte_a, pte_lock, is_shareable, cow_entry, cow_entry2, pte_nocow}

abbrev not_w : ℕ
not_w = 2 ^ 64 - 1 - pte_w

-- The entry without write permission and marked, before the lock and the accessed bit go.
abbrev guarded : ℕ → ℕ
guarded pte = bit_or (without pte pte_w) pte_cow

-- What is left of an entry after some flags were dropped, none of them an address bit.
record IsKeep (keep : ℕ) : Type 0 where
  pub address : bit_and keep addr_mask ≡ addr_mask
  pub lock : bit_and keep pte_lock ≡ 0
  pub w : bit_and keep pte_w ≡ pte_w
  pub cow : bit_and keep pte_cow ≡ pte_cow

IsKeep-lock : IsKeep (2 ^ 64 - 1 - pte_lock)
IsKeep-lock = record { address = refl; lock = refl; w = refl; cow = refl }

IsKeep-both : IsKeep (bit_and (2 ^ 64 - 1 - pte_a) (2 ^ 64 - 1 - pte_lock))
IsKeep-both = record { address = refl; lock = refl; w = refl; cow = refl }

-- The bits of a guarded entry under a mask, after `keep`.
guarded-mask :
    (pte keep m : ℕ)
    → bit_and (bit_and (guarded pte) keep) m
      ≡ bit_or (bit_and pte (bit_and not_w (bit_and keep m))) (bit_and pte_cow (bit_and keep m))
guarded-mask pte keep m =
    bit_and_assoc _ _ _
    ∙ bit_and-or _ _ _
    ∙ ap (λ (a : ℕ). bit_or a (bit_and pte_cow (bit_and keep m))) (bit_and_assoc _ _ _)

-- A copy of an entry: the same page, and the lock bit is clear.
pub record SamePage (pte copy : ℕ) : Type 0 where
  pub address : pte_addr copy ≡ pte_addr pte
  pub unlocked : has copy pte_lock ≡ false

-- A copy through which a write faults and is known for a copy on write.
pub record IsGuarded (copy : ℕ) : Type 0 where
  pub not_writable : has copy pte_w ≡ false
  pub marked : has copy pte_cow ≡ true

has-or_right : (a b : ℕ) → not (b == 0) ≡ true → not (bit_or a b == 0) ≡ true
has-or_right a b h = elim (Bool-cases (bit_or a b == 0)) [
  | inl zero_or ↦
      let (za, zb) = bit_or-eq-zero a b (==→eq _ _ zero_or) in absurd (ground (arith, zb))
  | inr other ↦ ground arith
]

guarded-IsGuarded : (pte keep : ℕ) → IsKeep keep → IsGuarded (bit_and (guarded pte) keep)
guarded-IsGuarded pte keep k = record {
  not_writable = rw (guarded-mask pte keep pte_w, k.w, bit_and-zero) refl;
  marked = rw (guarded-mask pte keep pte_cow, k.cow) (has-or_right _ pte_cow refl);
}

guarded-SamePage : (pte keep : ℕ) → IsKeep keep → SamePage pte (bit_and (guarded pte) keep)
unfolding pte_addr
guarded-SamePage pte keep k = record {
  address = rw (guarded-mask pte keep addr_mask, k.address) (bit_or-zero _);
  unlocked = rw (guarded-mask pte keep pte_lock, k.lock, bit_and-zero pte) refl;
}

plain-SamePage : (pte keep : ℕ) → IsKeep keep → SamePage pte (bit_and pte keep)
unfolding pte_addr
plain-SamePage pte keep k = record {
  address = rw (bit_and_assoc pte keep addr_mask, k.address) refl;
  unlocked = rw (bit_and_assoc pte keep pte_lock, k.lock, bit_and-zero) refl;
}

plain-writable : (pte keep : ℕ) → IsKeep keep → has (bit_and pte keep) pte_w ≡ has pte pte_w
plain-writable pte keep k = rw (bit_and_assoc pte keep pte_w, k.w) refl

-- A page that can be written, is present, and is excepted for no reason.
pub record CanShare (pte : ℕ) : Type 0 where
  pub writable : has pte pte_w ≡ true
  pub present : has pte pte_p ≡ true
  pub no_stack : has pte pte_stack ≡ false
  pub no_cow : has pte pte_cow ≡ false
  pub may_cow : has pte pte_nocow ≡ false

-- A page that is shared as it is, and why.
pub data Excepted (pte : ℕ) : Type 0 where
  read_only : has pte pte_w ≡ false → Excepted pte
  absent : has pte pte_p ≡ false → Excepted pte
  is_stack : has pte pte_stack ≡ true → Excepted pte
  is_cow : has pte pte_cow ≡ true → Excepted pte
  is_nocow : has pte pte_nocow ≡ true → Excepted pte

CanShare-is_shareable : (pte : ℕ) → CanShare pte → is_shareable pte ≡ true
CanShare-is_shareable pte c = rw (c.writable, c.present, c.no_stack, c.no_cow, c.may_cow) refl

pub is_shareable-CanShare : (pte : ℕ) → is_shareable pte ≡ true → CanShare pte
is_shareable-CanShare pte h = record {
  writable = ground (arith, h);
  present = ground (arith, h);
  no_stack = ground (arith, h);
  no_cow = ground (arith, h);
  may_cow = ground (arith, h);
}

Excepted-is_shareable : (pte : ℕ) → Excepted pte → is_shareable pte ≡ false
Excepted-is_shareable pte (read_only e) = ground (arith, e)
Excepted-is_shareable pte (absent e) = ground (arith, e)
Excepted-is_shareable pte (is_stack e) = ground (arith, e)
Excepted-is_shareable pte (is_cow e) = ground (arith, e)
Excepted-is_shareable pte (is_nocow e) = ground (arith, e)

-- What both copies of an entry are: where the original can be written and is not excepted, both
-- are write-protected and marked; elsewhere they can be written as it could.
pub record SharedBy (pte copy1 copy2 : ℕ) : Type 0 where
  pub same1 : SamePage pte copy1
  pub same2 : SamePage pte copy2
  pub guarded_both : CanShare pte → IsGuarded copy1 × IsGuarded copy2
  pub kept_both :
      Excepted pte → (has copy1 pte_w ≡ has pte pte_w) × (has copy2 pte_w ≡ has pte pte_w)

two_drops :
    (x a b : ℕ) → without (without x a) b ≡ bit_and x (bit_and (2 ^ 64 - 1 - a) (2 ^ 64 - 1 - b))
two_drops x a b = bit_and_assoc x _ _

pub cow_entry-SharedBy :
    (pte : ℕ) (b : Bool) → is_shareable pte ≡ b → SharedBy pte (cow_entry b pte) (cow_entry2 b pte)
unfolding cow_entry cow_entry2
cow_entry-SharedBy pte true h = rw two_drops (record {
  same1 = guarded-SamePage pte _ IsKeep-lock;
  same2 = guarded-SamePage pte _ IsKeep-both;
  guarded_both = λ t. (guarded-IsGuarded pte _ IsKeep-lock, guarded-IsGuarded pte _ IsKeep-both);
  kept_both = λ f. absurd (true≢false (sym h ∙ Excepted-is_shareable pte f));
})
cow_entry-SharedBy pte false h = rw two_drops (record {
  same1 = plain-SamePage pte _ IsKeep-lock;
  same2 = plain-SamePage pte _ IsKeep-both;
  guarded_both = λ t. absurd (true≢false (sym (CanShare-is_shareable pte t) ∙ h));
  kept_both = λ f. (plain-writable pte _ IsKeep-lock, plain-writable pte _ IsKeep-both);
})
