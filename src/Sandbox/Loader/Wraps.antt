-- ===== src/Sandbox/Loader/Wraps.antt =====
-- The test of a segment's place.
use libdbos.Common.{
  ℕ, ◌+◌, ◌%◌, ◌^◌, ◌≤◌, ◌<◌, ◌≡◌, ◌⊎◌, inl, inr, ◌↔◌, refl, false, ltb, arith, Bool-cases, ltb→lt,
  ltb→le,
}
use mathlib.Core.Bool.{true≢false}
use libdbos.Umm.{app_max_elf_vaddr}
use libdbos.Elf.{Phdr}
use libdbos.Sandbox.Loader.{insecure}

-- Where the end of a segment is: within the program's addresses, or behind the last address, from
-- where the sum starts at 0 again.
abbrev pub EndsLow : (end : ℕ) → Type 0
EndsLow end = (end ≤ app_max_elf_vaddr) ⊎ ((2 ^ 64 ≤ end) × (end ≤ 2 ^ 64 + app_max_elf_vaddr))

-- The test lets a segment with a 64-bit address pass exactly when its size in the file is at most
-- its size in memory, that is at most app_max_elf_vaddr, and its end, the sum of its address, the
-- offset of the loader and its size without a wrap, is at most app_max_elf_vaddr, or lies from the
-- end of the address space to that far behind it.
pub insecure-wraps :
    (off : ℕ) (phdr : Phdr)
    → phdr.p_vaddr < 2 ^ 64
    → off + app_max_elf_vaddr < 2 ^ 64
    → (insecure off phdr ≡ false) ↔ (
        EndsLow (phdr.p_vaddr + off + phdr.p_memsz)
        × ((phdr.p_memsz ≤ app_max_elf_vaddr) × (phdr.p_filesz ≤ phdr.p_memsz)))
unfolding insecure
insecure-wraps off phdr small room =
    elim (Bool-cases (ltb app_max_elf_vaddr ((phdr.p_vaddr + off + phdr.p_memsz) % 2 ^ 64))) [
      | inl high ↦
          rw high (λ h. absurd (true≢false h), λ h. absurd (not_low h.0 (ltb→lt _ _ high) h.1.0))
      | inr low ↦ rw low (elim (Bool-cases (ltb app_max_elf_vaddr phdr.p_memsz)) [
        | inl large ↦
            rw large
              (λ h. absurd (true≢false h), λ h. absurd (omega (arith, h.1.0, ltb→lt _ _ large)))
        | inr fits ↦ rw fits (elim (Bool-cases (ltb phdr.p_memsz phdr.p_filesz)) [
          | inl more ↦
              rw more
                (λ h. absurd (true≢false h), λ h. absurd (omega (arith, h.1.1, ltb→lt _ _ more)))
          | inr sizes ↦ rw sizes (
            λ h. (is_low (ltb→le _ _ low) (ltb→le _ _ fits), (ltb→le _ _ fits, ltb→le _ _ sizes)),
            λ h. refl,
          )
        ])
      ])
    ]
  where
    end : ℕ
    end = phdr.p_vaddr + off + phdr.p_memsz

    not_low : EndsLow end → app_max_elf_vaddr < end % 2 ^ 64 → phdr.p_memsz ≤ app_max_elf_vaddr → ⊥
    not_low (inl below) high fits = omega arith
    not_low (inr behind) high fits = omega (arith, behind.0, behind.1)

    is_low : end % 2 ^ 64 ≤ app_max_elf_vaddr → phdr.p_memsz ≤ app_max_elf_vaddr → EndsLow end
    is_low low fits = elim (Bool-cases (ltb end (2 ^ 64))) [
      | inl no_wrap ↦ inl (omega (arith, ltb→lt _ _ no_wrap))
      | inr wraps ↦ inr (ltb→le _ _ wraps, omega (arith, ltb→le _ _ wraps))
    ]
