-- ===== src/Vm/Pte/Laws.antt =====
-- An entry made of an address and flags gives both back.
use libdbos.Common.{ℕ, ◌-◌, ◌*◌, ◌/◌, ◌%◌, ◌^◌, ◌<◌, ◌≡◌, refl, ap, ◌∙◌, bit_and, bit_or, arith}
use libdbos.Common.Bits.{
  bit_and_assoc, bit_and-or, bit_and-zero, bit_or-zero, zero-bit_or, bit_and_low, bit_and_shift,
}
use libdbos.Vm.Pte.{pte_addr, pte_flags, addr_mask, flags_mask}

-- Flags have no bit in the address field.
abbrev pub AreFlags : ℕ → Type 0
AreFlags f = bit_and f addr_mask ≡ 0

pub pte_addr_field : (x : ℕ) → pte_addr x ≡ x / 2 ^ 12 % 2 ^ 40 * 2 ^ 12
unfolding pte_addr
pte_addr_field x =
    bit_and_shift 12 x (2 ^ 40 - 1) ∙ ap (λ (n : ℕ). n * 2 ^ 12) (bit_and_low 40 (x / 2 ^ 12))

-- A page address within 52 bits is its own address field.
pub pte_addr-page : (x : ℕ) → x % 4096 ≡ 0 → x < 2 ^ 52 → pte_addr x ≡ x
pte_addr-page x aligned fits = omega (arith, pte_addr_field x)

pub pte_addr-or : (x f : ℕ) → AreFlags f → pte_addr (bit_or (pte_addr x) f) ≡ pte_addr x
unfolding pte_addr
pte_addr-or x f h = rw (bit_and-or, h, bit_or-zero, bit_and_assoc) refl

pub pte_flags-or : (x f : ℕ) → bit_and f flags_mask ≡ f → pte_flags (bit_or (pte_addr x) f) ≡ f
unfolding pte_addr pte_flags
pte_flags-or x f h = rw (bit_and-or, h, bit_and_assoc, bit_and-zero, zero-bit_or) refl
