-- ===== src/Vm/Clone/Flags.antt =====
-- What the `int` in the middle of a clone does to an entry.
use libdbos.Common.{
  ℕ, ◌+◌, ◌-◌, ◌%◌, ◌^◌, ◌≤◌, ◌<◌, ◌≡◌, refl, sym, ap, ◌∙◌, false, some, arith, bit_and, bit_or,
}
use libdbos.Common.Bits.{bit_and_assoc, bit_and-or, bit_and-zero, bit_and_low, bit_and-le_right}
use libdbos.Vm.Pte.{pte_addr, pte_flags, addr_mask, pte_nx, has}
use libdbos.Vm.Machine.{ok, PageOps, Machine, store}
use libdbos.Vm.Map.{through_int, map_phys_helper}

low_flags : (x : ℕ) → pte_flags x % 2 ^ 32 ≡ x % 4096
unfolding pte_flags
low_flags x = sym (bit_and_low 32 (pte_flags x)) ∙ bit_and_assoc x _ _ ∙ bit_and_low 12 x

sign_bit : (x : ℕ) → bit_and (x % 4096) (2 ^ 31) ≡ 0
sign_bit x =
    ap (λ (n : ℕ). bit_and n (2 ^ 31)) (sym (bit_and_low 12 x))
    ∙ bit_and_assoc x _ _
    ∙ bit_and-zero x

through_int-pte_flags : (x : ℕ) → through_int (pte_flags x) ≡ x % 4096
through_int-pte_flags x = rw (low_flags x, sign_bit x) refl

addr_twice : (x : ℕ) → pte_addr (pte_addr x) ≡ pte_addr x
unfolding pte_addr
addr_twice x = bit_and_assoc x _ _

addr-no_nx : (x : ℕ) → bit_and (pte_addr x) pte_nx ≡ 0
unfolding pte_addr
addr-no_nx x = bit_and_assoc x _ _ ∙ bit_and-zero x

addr_small : (x : ℕ) → pte_addr x ≤ addr_mask
unfolding pte_addr
addr_small x = bit_and-le_right x _

module _ {S : Type 0} (ops : PageOps S) where
  -- What dune_vm_clone writes to the new tables for an entry `x` of a page at `va`: the address
  -- of `x` with the low twelve bits of `x` only, since the flags pass through an `int`. So the
  -- copy of an entry with PTE_NX can be executed; the user flags above bit 52 are lost, too.
  pub clone_entry :
      (x va pte level : ℕ) (m : Machine S)
      → va < 2 ^ 64
      → (map_phys_helper ops (through_int (pte_flags x)) va (pte_addr x) pte va level m
          ≡ some (ok, store m pte (bit_or (pte_addr x) (x % 4096))))
        × (has (bit_or (pte_addr x) (x % 4096)) pte_nx ≡ false)
  unfolding map_phys_helper
  clone_entry x va pte level m h = (
    rw (through_int-pte_flags x, same_address, addr_twice x) refl,
    rw
        (
          bit_and-or,
          sym (bit_and_low 12 x),
          bit_and_assoc x (2 ^ 12 - 1) pte_nx,
          bit_and-zero,
          addr-no_nx,
        )
        refl,
  )
    where
      same_address : (va + 2 ^ 64 - va + pte_addr x) % 2 ^ 64 ≡ pte_addr x
      same_address = omega (arith, addr_small x)
