-- ===== src/Common/Bits/Step.antt =====
-- One equation for the lowest digit of `&` and `|`, and strong induction by halving.
use Prim.Native.Nat.{
  ℕ, zero, suc, ◌+◌, ◌*◌, ◌/◌, ◌%◌, ◌≤◌, min, max, digits, bitwise, bit_and, bit_or,
  bit_and-bitwise, bit_or-bitwise,
}
use mathlib.Core.Path.{◌≡◌, refl, sym, ap, ◌∙◌}
use native.Mathlib.Nat.{le_refl}
use native.Mathlib.Omega.{arith}

-- `op` on the digits, and `rest` on what is left of the second word when the first is used up.
module _ (rest : ℕ → ℕ) (op : ℕ → ℕ → ℕ) where
  -- Any bound on the number of rounds that covers the first word gives the same word.
  rounds-enough :
      (bound rounds word mask : ℕ)
      → rounds ≤ bound
      → word ≤ rounds
      → digits rest op rounds word mask ≡ bitwise rest op word mask
  rounds-enough bound zero zero mask below covers = refl
  rounds-enough bound zero (suc word) mask below covers = absurd (omega arith)
  rounds-enough zero (suc rounds) word mask below covers = absurd (omega arith)
  rounds-enough (suc bound) (suc rounds) zero mask below covers = refl
  rounds-enough (suc bound) (suc rounds) (suc word) mask below covers =
      let high = suc word / 2 in
      let by_rounds = rounds-enough bound rounds high (mask / 2) (omega arith) (omega arith) in
      let by_word = rounds-enough bound word high (mask / 2) (omega arith) (omega arith) in
      ap (λ (d : ℕ). d * 2 + op (suc word % 2) (mask % 2)) (by_rounds ∙ sym by_word)

  -- The lowest digit of a word that is not zero.
  lowest_digit :
      (word mask : ℕ)
      → bitwise rest op (suc word) mask
        ≡ bitwise rest op (suc word / 2) (mask / 2) * 2 + op (suc word % 2) (mask % 2)
  lowest_digit word mask =
      ap (λ (d : ℕ). d * 2 + op (suc word % 2) (mask % 2))
        (rounds-enough word word (suc word / 2) (mask / 2) (le_refl word) (omega arith))

pub bit_or_step :
    (word mask : ℕ)
    → bit_or word mask ≡ bit_or (word / 2) (mask / 2) * 2 + max (word % 2) (mask % 2)
bit_or_step zero mask = omega (arith, bit_or-bitwise 0 mask, bit_or-bitwise (0 / 2) (mask / 2))
bit_or_step (suc word) mask = omega (
  arith,
  bit_or-bitwise (suc word) mask,
  bit_or-bitwise (suc word / 2) (mask / 2),
  lowest_digit (λ m. m) max word mask,
)

pub bit_and_step :
    (word mask : ℕ)
    → bit_and word mask ≡ bit_and (word / 2) (mask / 2) * 2 + min (word % 2) (mask % 2)
bit_and_step zero mask = omega (arith, bit_and-bitwise 0 mask, bit_and-bitwise (0 / 2) (mask / 2))
bit_and_step (suc word) mask = omega (
  arith,
  bit_and-bitwise (suc word) mask,
  bit_and-bitwise (suc word / 2) (mask / 2),
  lowest_digit (λ m. 0) min word mask,
)

-- A law that holds at 0 and passes from halves to wholes holds for all triples: the sum falls.
pub halving {ℓ} :
    (P : ℕ → ℕ → ℕ → Type ℓ)
    → P 0 0 0
    → ((a b c : ℕ) → P (a / 2) (b / 2) (c / 2) → P a b c)
    → (n a b c : ℕ) → a + b + c ≤ n
    → P a b c
halving P base step n zero zero zero h = base
halving P base step zero zero zero (suc c) h = absurd (omega arith)
halving P base step (suc n) zero zero (suc c) h =
    step 0 0 (suc c) (halving P base step n (0 / 2) (0 / 2) (suc c / 2) (omega arith))
halving P base step zero zero (suc b) c h = absurd (omega arith)
halving P base step (suc n) zero (suc b) c h =
    step 0 (suc b) c (halving P base step n (0 / 2) (suc b / 2) (c / 2) (omega arith))
halving P base step zero (suc a) b c h = absurd (omega arith)
halving P base step (suc n) (suc a) b c h =
    step (suc a) b c (halving P base step n (suc a / 2) (b / 2) (c / 2) (omega arith))
