-- ===== src/Common/Bits/Fields.antt =====
-- Masks as arithmetic: what `& m` cuts out of a word.
use Prim.Native.Nat.{ℕ, zero, suc, ◌+◌, ◌-◌, ◌*◌, ◌/◌, ◌%◌, ◌^◌, bit_and}
use mathlib.Core.Path.{◌≡◌}
use native.Mathlib.Nat.{pow-succ', one-le-pow, div-div-eq-div-mul, div-one, mod_def}
use native.Mathlib.Omega.{arith}
use libdbos.Common.Bits.Step.{bit_and_step}
use libdbos.Common.Bits.Laws.{bit_and-zero}

mod_double : (a p : ℕ) → a % (2 * p) ≡ 2 * (a / 2 % p) + a % 2
mod_double a p =
    rw (mod_def a (2 * p), ← div-div-eq-div-mul a 2 p, mod_def (a / 2) p)
      (omega (arith, mod_def (a / 2) p))

-- A mask of `k` low ones is the remainder by `2 ^ k`.
pub bit_and_low : (k a : ℕ) → bit_and a (2 ^ k - 1) ≡ a % 2 ^ k
bit_and_low zero a = omega (arith, bit_and-zero a)
bit_and_low (suc k) a =
    rw
      (
        pow-succ' 2 k,
        mod_double a (2 ^ k),
        ← bit_and_low k (a / 2),
        bit_and_step a (2 * 2 ^ k - 1),
        half,
      )
      (omega (arith, one-le-pow k 2))
  where
    half : (2 * 2 ^ k - 1) / 2 ≡ 2 ^ k - 1
    half = omega (arith, one-le-pow k 2)

bit_and_even : (a m : ℕ) → bit_and a (m * 2) ≡ bit_and (a / 2) m * 2
bit_and_even a m = rw (bit_and_step a (m * 2), half) (omega arith)
  where
    half : m * 2 / 2 ≡ m
    half = omega arith

-- A mask whose lowest `k` bits are clear.
pub bit_and_shift : (k a m : ℕ) → bit_and a (m * 2 ^ k) ≡ bit_and (a / 2 ^ k) m * 2 ^ k
bit_and_shift zero a m = rw (one_mul m, div-one a) (omega arith)
  where
    one_mul : (x : ℕ) → x * 2 ^ 0 ≡ x
    one_mul x = omega arith
bit_and_shift (suc k) a m =
    rw
      (
        pow-succ' 2 k,
        ← div-div-eq-div-mul a 2 (2 ^ k),
        regroup m,
        bit_and_even,
        bit_and_shift k (a / 2) m,
      )
      (omega arith)
  where
    regroup : (x : ℕ) → x * (2 * 2 ^ k) ≡ x * 2 ^ k * 2
    regroup x = omega arith
