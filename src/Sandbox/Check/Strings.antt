-- ===== src/Sandbox/Check/Strings.antt =====
-- What the tests on pointers accept.
use libdbos.Common.{
  ℕ, zero, suc, ◌+◌, ◌-◌, ◌%◌, ◌^◌, ◌≤◌, ◌<◌, ◌≡◌, ◌≢◌, ◌⊎◌, ◌↔◌, refl, ap, ◌∙◌, inl, inr, false,
  ltb, leb, ◌==◌, arith, Bool-cases, ltb→lt, ltb→le, leb→le, leb→lt, ==→eq, eq→==, ne→==,
}
use mathlib.Core.Bool.{true≢false}
use libdbos.Umm.{app_max_elf_vaddr, app_mmap_len}
use libdbos.Sandbox.Check.{Bytes, find_zero, not_found, string_fails}

-- A string of `n` bytes and a zero byte.
pub record IsString (mem : Bytes) (ptr n : ℕ) : Type 0 where
  pub ended : mem (ptr + n) ≡ 0
  pub no_zero : (i : ℕ) → i < n → mem (ptr + i) ≢ 0

-- Without its first byte, and with one more.
tail : (mem : Bytes) (p n : ℕ) → IsString mem p (suc n) → IsString mem (p + 1) n
tail mem p n s = record {
  ended = ap mem (omega arith) ∙ s.ended;
  no_zero = λ i h e. s.no_zero (suc i) (omega arith) (ap mem (omega arith) ∙ e);
}

cons : (mem : Bytes) (p n : ℕ) → mem p ≢ 0 → IsString mem (p + 1) n → IsString mem p (suc n)
cons mem p n h s = record {
  ended = ap mem (omega arith) ∙ s.ended;
  no_zero = λ i small e. elim (Bool-cases (i == 0)) [
    | inl first ↦ h (ap mem (omega (arith, ==→eq i 0 first)) ∙ e)
    | inr later ↦ s.no_zero (i - 1) (ground arith) (ap mem (ground arith) ∙ e)
  ];
}

at_zero : (mem : Bytes) (p : ℕ) → mem p ≡ 0 → IsString mem p 0
at_zero mem p e = record {
  ended = ap mem (omega arith) ∙ e;
  no_zero = λ i small. absurd (omega arith);
}

-- `memchr` finds the end of a string of fewer than `n` bytes, and nothing else.
found :
    (n : ℕ) (mem : Bytes) (p : ℕ)
    → not_found (find_zero n mem p) ≡ false
    → (k : ℕ) × (k < n) × IsString mem p k
unfolding find_zero
found zero mem p h = absurd (true≢false h)
found (suc n) mem p h = elim (Bool-cases (mem p == 0)) [
  | inl at_end ↦ (0, omega arith, at_zero mem p (==→eq _ _ at_end))
  | inr more ↦
      let (k, small, s) = found n mem (p + 1) (rw (more, find_zero) at h) in
      (suc k, omega arith, cons mem p k (λ e. absurd (ground arith)) s)
]

finds :
    (n : ℕ) (mem : Bytes) (p k : ℕ)
    → k < n
    → IsString mem p k
    → not_found (find_zero n mem p) ≡ false
unfolding find_zero
finds zero mem p k h s = absurd (omega arith)
finds (suc n) mem p zero h s =
    let e : mem p ≡ 0 = ap mem (omega arith) ∙ s.ended in rw (eq→== _ _ e, find_zero) refl
finds (suc n) mem p (suc k) h s =
    let other : mem p ≢ 0 = λ e. s.no_zero 0 (omega arith) (ap mem (omega arith) ∙ e) in
    rw (ne→== _ _ other, find_zero) (finds n mem (p + 1) k (omega arith) (tail mem p k s))

-- The byte `n` bytes on is in the program's image, or the range up to it in heap and mappings.
abbrev pub EndsInApp : (mmap_base ptr n : ℕ) → Type 0
EndsInApp mmap_base ptr n =
    (ptr + n < app_max_elf_vaddr) ⊎ ((mmap_base ≤ ptr) × (ptr + n < mmap_base + app_mmap_len))

-- A string that ends within the program's image, or lies within its heap and mappings.
abbrev pub StringInApp : (mmap_base : ℕ) → Bytes → ℕ → Type 0
StringInApp mmap_base mem ptr = (n : ℕ) × IsString mem ptr n × EndsInApp mmap_base ptr n

-- check_string accepts a pointer exactly when there is a string at it, with its zero byte, that
-- ends within the program's image, or lies within the eight gigabytes from mmap_base on.
pub string_fails_lem :
    (mmap_base : ℕ) (mem : Bytes) (ptr : ℕ)
    → app_max_elf_vaddr ≤ mmap_base
    → mmap_base + app_mmap_len < 2 ^ 64
    → (string_fails mmap_base mem ptr ≡ false) ↔ StringInApp mmap_base mem ptr
unfolding string_fails
string_fails_lem mmap_base mem ptr above room =
    let no_wrap : (mmap_base + app_mmap_len) % 2 ^ 64 ≡ mmap_base + app_mmap_len = omega arith in
    rw no_wrap (elim (Bool-cases (ltb ptr app_max_elf_vaddr)) [
      | inl image ↦ rw image (
        λ h.
            let (k, small, s) = found (app_max_elf_vaddr - ptr) mem ptr h in
            (k, s, inl (omega arith)),
        λ t. finds (app_max_elf_vaddr - ptr) mem ptr t.0 (image_end t.0 t.2 (ltb→lt _ _ image)) t.1,
      )
      | inr high ↦ rw high (elim (Bool-cases (leb mmap_base ptr)) [
        | inr between ↦ rw between (
          λ h. absurd (true≢false h),
          λ t. absurd (nowhere t.0 t.2 (ltb→le _ _ high) (leb→lt _ _ between)),
        )
        | inl mapped ↦ rw mapped (elim (Bool-cases (leb (mmap_base + app_mmap_len) ptr)) [
          | inl past ↦
              rw past (λ h. absurd (true≢false h), λ t. absurd (too_high t.0 t.2 (leb→le _ _ past)))
          | inr inside ↦ rw inside (
            λ h.
                let (k, small, s) = found (mmap_base + app_mmap_len - ptr) mem ptr h in
                (k, s, inr (leb→le _ _ mapped, omega arith)),
            λ t.
                finds (mmap_base + app_mmap_len - ptr) mem ptr t.0
                  (map_end t.0 t.2 (ltb→le _ _ high) (leb→lt _ _ inside)) t.1,
          )
        ])
      ])
    ])
  where
    image_end :
        (n : ℕ) → EndsInApp mmap_base ptr n → ptr < app_max_elf_vaddr → n < app_max_elf_vaddr - ptr
    image_end n (inl h) low = omega arith
    image_end n (inr h) low = absurd (omega arith)

    nowhere : (n : ℕ) → EndsInApp mmap_base ptr n → app_max_elf_vaddr ≤ ptr → ptr < mmap_base → ⊥
    nowhere n (inl h) low high = absurd (omega arith)
    nowhere n (inr h) low high = absurd (omega arith)

    too_high : (n : ℕ) → EndsInApp mmap_base ptr n → mmap_base + app_mmap_len ≤ ptr → ⊥
    too_high n (inl h) low = absurd (omega arith)
    too_high n (inr h) low = absurd (omega arith)

    map_end :
        (n : ℕ)
        → EndsInApp mmap_base ptr n
        → app_max_elf_vaddr ≤ ptr
        → ptr < mmap_base + app_mmap_len
        → n < mmap_base + app_mmap_len - ptr
    map_end n (inl h) low high = absurd (omega arith)
    map_end n (inr h) low high = omega arith
