-- ===== src/Common/Bits/Laws.antt =====
-- The laws of `&` and `|` at variables.
use Prim.Native.Nat.{ℕ, ◌+◌, ◌/◌, ◌%◌, ◌≤◌, min, max, bit_and, bit_or}
use mathlib.Core.Path.{◌≡◌, refl}
use native.Mathlib.Nat.{le_refl}
use native.Mathlib.Omega.{arith}
use libdbos.Common.Bits.Step.{bit_or_step, bit_and_step, halving}

half-and : (a b : ℕ) → bit_and a b / 2 ≡ bit_and (a / 2) (b / 2)
half-and a b = omega (arith, bit_and_step a b)

half-or : (a b : ℕ) → bit_or a b / 2 ≡ bit_or (a / 2) (b / 2)
half-or a b = omega (arith, bit_or_step a b)

parity-and : (a b : ℕ) → bit_and a b % 2 ≡ min (a % 2) (b % 2)
parity-and a b = omega (arith, bit_and_step a b)

parity-or : (a b : ℕ) → bit_or a b % 2 ≡ max (a % 2) (b % 2)
parity-or a b = omega (arith, bit_or_step a b)

-- A number is its half and its parity.
eq_of_halves : (x y : ℕ) → x / 2 ≡ y / 2 → x % 2 ≡ y % 2 → x ≡ y
eq_of_halves x y h p = omega arith

pub bit_and_assoc : (a b c : ℕ) → bit_and (bit_and a b) c ≡ bit_and a (bit_and b c)
bit_and_assoc a b c =
    halving (λ a b c. bit_and (bit_and a b) c ≡ bit_and a (bit_and b c)) refl
      (λ a b c ih. eq_of_halves _ _ (simp half-and ih) (simp parity-and (omega arith))) (a + b + c)
      a b c (le_refl _)

pub bit_or_assoc : (a b c : ℕ) → bit_or (bit_or a b) c ≡ bit_or a (bit_or b c)
bit_or_assoc a b c =
    halving (λ a b c. bit_or (bit_or a b) c ≡ bit_or a (bit_or b c)) refl
      (λ a b c ih. eq_of_halves _ _ (simp half-or ih) (simp parity-or (omega arith))) (a + b + c) a
      b c (le_refl _)

pub bit_and-or : (a b c : ℕ) → bit_and (bit_or a b) c ≡ bit_or (bit_and a c) (bit_and b c)
bit_and-or a b c =
    halving (λ a b c. bit_and (bit_or a b) c ≡ bit_or (bit_and a c) (bit_and b c)) refl
      (λ a b c ih.
        eq_of_halves _ _ (simp (half-or, half-and) ih) (simp (parity-or, parity-and) (omega arith)))
      (a + b + c) a b c (le_refl _)

pub bit_and_comm : (a b : ℕ) → bit_and a b ≡ bit_and b a
bit_and_comm a b =
    halving (λ a b c. bit_and a b ≡ bit_and b a) refl
      (λ a b c ih.
        eq_of_halves _ _ (rw (half-and a b, half-and b a) ih)
          (omega (arith, parity-and a b, parity-and b a)))
      (a + b + 0) a b 0 (le_refl _)

pub bit_or_comm : (a b : ℕ) → bit_or a b ≡ bit_or b a
bit_or_comm a b =
    halving (λ a b c. bit_or a b ≡ bit_or b a) refl
      (λ a b c ih.
        eq_of_halves _ _ (rw (half-or a b, half-or b a) ih)
          (omega (arith, parity-or a b, parity-or b a)))
      (a + b + 0) a b 0 (le_refl _)

pub bit_and_self : (a : ℕ) → bit_and a a ≡ a
bit_and_self a =
    halving (λ a b c. bit_and a a ≡ a) refl (λ a b c ih. omega (arith, bit_and_step a a, ih))
      (a + 0 + 0) a 0 0 (le_refl _)

pub bit_and-zero : (a : ℕ) → bit_and a 0 ≡ 0
bit_and-zero a =
    halving (λ a b c. bit_and a 0 ≡ 0) refl (λ a b c ih. omega (arith, bit_and_step a 0, ih))
      (a + 0 + 0) a 0 0 (le_refl _)

pub bit_or-zero : (a : ℕ) → bit_or a 0 ≡ a
bit_or-zero a =
    halving (λ a b c. bit_or a 0 ≡ a) refl (λ a b c ih. omega (arith, bit_or_step a 0, ih))
      (a + 0 + 0) a 0 0 (le_refl _)

pub zero-bit_or : (a : ℕ) → bit_or 0 a ≡ a
zero-bit_or a = omega (arith, bit_or_comm 0 a, bit_or-zero a)

-- Cutting a field out twice.
pub bit_and-and_self : (a m : ℕ) → bit_and (bit_and a m) m ≡ bit_and a m
bit_and-and_self a m = rw (bit_and_assoc a m m, bit_and_self m)

pub bit_and-le_right : (a b : ℕ) → bit_and a b ≤ b
bit_and-le_right a b =
    halving (λ a b c. bit_and a b ≤ b) (le_refl _) (λ a b c ih. omega (arith, bit_and_step a b, ih))
      (a + b + 0) a b 0 (le_refl _)

-- Words with no bit in common: `|` adds.
pub bit_or-eq-add : (a b : ℕ) → bit_and a b ≡ 0 → bit_or a b ≡ a + b
bit_or-eq-add a b =
    halving (λ a b c. bit_and a b ≡ 0 → bit_or a b ≡ a + b) (λ h. refl)
      (λ a b c ih h.
        omega (arith, bit_and_step a b, bit_or_step a b, ih (omega (arith, bit_and_step a b))))
      (a + b + 0) a b 0 (le_refl _)

pub bit_or-eq-zero : (a b : ℕ) → bit_or a b ≡ 0 → (a ≡ 0) × (b ≡ 0)
bit_or-eq-zero a b =
    halving (λ a b c. bit_or a b ≡ 0 → (a ≡ 0) × (b ≡ 0)) (λ h. (refl, refl))
      (λ a b c ih h. omega (arith, bit_or_step a b, ih (omega (arith, bit_or_step a b))))
      (a + b + 0) a b 0 (le_refl _)

pub bit_or_self : (a : ℕ) → bit_or a a ≡ a
bit_or_self a =
    halving (λ a b c. bit_or a a ≡ a) refl (λ a b c ih. omega (arith, bit_or_step a a, ih))
      (a + 0 + 0) a 0 0 (le_refl _)

pub bit_or-and_absorb : (a m : ℕ) → bit_or (bit_and a m) a ≡ a
bit_or-and_absorb a m =
    halving (λ a b c. bit_or (bit_and a b) a ≡ a) (zero-bit_or 0)
      (λ a b c ih.
        eq_of_halves _ _ (rw (half-or, half-and) ih)
          (omega (arith, parity-or (bit_and a b) a, parity-and a b)))
      (a + m + 0) a m 0 (le_refl _)
