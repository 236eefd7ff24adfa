-- ===== src/Umm/Safe.antt =====
-- The test of addresses that the sandbox trusts.
use libdbos.Common.{
  ℕ, ◌+◌, ◌%◌, ◌^◌, ◌≤◌, ◌<◌, ◌≡◌, refl, ◌⊎◌, inl, inr, ◌↔◌, Bool, true, false, ◌&&◌, ◌||◌, ltb,
  leb, arith, lt→ltb, le→leb, leb→le, ltb→lt,
}
use libdbos.Umm.{app_max_elf_vaddr, app_mmap_len, mem_ref_is_safe}

-- A range within the program's image or within its heap and mappings.
abbrev pub InApp : (mmap_base ptr range_end : ℕ) → Type 0
InApp mmap_base ptr range_end =
    (range_end ≤ app_max_elf_vaddr) ⊎ ((mmap_base ≤ ptr) × (range_end < mmap_base + app_mmap_len))

abbrev tests : (mmap_base ptr len : ℕ) → Bool
tests mmap_base ptr len =
    leb len app_max_elf_vaddr && leb (ptr + len) app_max_elf_vaddr
    || leb len app_mmap_len && leb mmap_base ptr && ltb (ptr + len) (mmap_base + app_mmap_len)

or-cases : (a b : Bool) → (a || b) ≡ true → (a ≡ true) ⊎ (b ≡ true)
or-cases true b h = inl refl
or-cases false b h = inr h

and-parts : (a b : Bool) → (a && b) ≡ true → (a ≡ true) × (b ≡ true)
and-parts true b h = (refl, h)
and-parts false b h = absurd (ground arith)

sound : (mmap_base ptr len : ℕ) → tests mmap_base ptr len ≡ true → InApp mmap_base ptr (ptr + len)
sound mmap_base ptr len h =
    let image_bool = leb len app_max_elf_vaddr && leb (ptr + len) app_max_elf_vaddr in
    let lower_bool = leb len app_mmap_len && leb mmap_base ptr in
    let upper_bool = ltb (ptr + len) (mmap_base + app_mmap_len) in
    elim (or-cases image_bool (lower_bool && upper_bool) h) [
      | inl image ↦ inl (
          leb→le _ _
            (and-parts (leb len app_max_elf_vaddr) (leb (ptr + len) app_max_elf_vaddr) image).1)
      | inr mapped ↦
          let (lower, upper) = and-parts lower_bool upper_bool mapped in
          inr (
            leb→le _ _ (and-parts (leb len app_mmap_len) (leb mmap_base ptr) lower).1,
            ltb→lt _ _ upper,
          )
    ]

complete :
    (mmap_base ptr len : ℕ) → InApp mmap_base ptr (ptr + len) → tests mmap_base ptr len ≡ true
complete mmap_base ptr len (inl image) =
    rw (le→leb len app_max_elf_vaddr (omega arith), le→leb (ptr + len) app_max_elf_vaddr image) refl
complete mmap_base ptr len (inr (above, below)) =
    rw
      (
        le→leb len app_mmap_len (omega arith),
        le→leb mmap_base ptr above,
        lt→ltb (ptr + len) (mmap_base + app_mmap_len) below,
      )
      (or_true _)
  where
    or_true : (b : Bool) → (b || true) ≡ true
    or_true true = refl
    or_true false = refl

-- mem_ref_is_safe accepts a range that does not wrap around exactly when it ends within the
-- program's image, or lies within the eight gigabytes from mmap_base on and does not touch their
-- last byte.
pub mem_ref_is_safe_lem :
    (mmap_base ptr len : ℕ)
    → ptr + len < 2 ^ 64
    → mmap_base + app_mmap_len < 2 ^ 64
    → (mem_ref_is_safe mmap_base ptr len ≡ true) ↔ InApp mmap_base ptr (ptr + len)
unfolding mem_ref_is_safe
mem_ref_is_safe_lem mmap_base ptr len h k =
    let no_wrap : (ptr + len) % 2 ^ 64 ≡ ptr + len = omega arith in
    let no_wrap_base : (mmap_base + app_mmap_len) % 2 ^ 64 ≡ mmap_base + app_mmap_len =
      omega arith in
    rw (no_wrap, no_wrap_base) (sound mmap_base ptr len, complete mmap_base ptr len)

-- mem_ref_is_safe accepts ranges that wrap around: every range of at most app_max_elf_vaddr bytes
-- that passes the top of the address space, though its first byte belongs to nobody.
pub mem_ref_is_safe-wraps :
    (mmap_base ptr len : ℕ)
    → ptr < 2 ^ 64
    → len ≤ app_max_elf_vaddr
    → 2 ^ 64 ≤ ptr + len
    → mem_ref_is_safe mmap_base ptr len ≡ true
unfolding mem_ref_is_safe
mem_ref_is_safe-wraps mmap_base ptr len h k wraps =
    rw
      (
        le→leb len app_max_elf_vaddr k,
        le→leb ((ptr + len) % 2 ^ 64) app_max_elf_vaddr (omega arith),
      )
      refl
