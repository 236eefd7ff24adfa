-- ===== src/Sandbox/Params/Ranges.antt =====
-- What the tests of `syscall_check_params` establish, one by one.
use libdbos.Common.{
  ℕ, zero, suc, ◌+◌, ◌-◌, ◌*◌, ◌%◌, ◌^◌, ◌≤◌, ◌<◌, ◌≡◌, refl, inl, inr, Bool, false, not, ◌&&◌, [],
  ◌∷◌, ltb, ◌==◌, arith, Bool-cases, ltb→lt, ltb→le, ==→eq, lt→leb,
}
use mathlib.Core.Bool.{true≢false}
use libdbos.Umm.{app_max_elf_vaddr, app_mmap_len, mem_ref_is_safe}
use libdbos.Umm.Safe.{InApp, mem_ref_is_safe_lem}
use libdbos.Sandbox.Check.{
  Bytes, load, extent_fails, string_fails, iovec_size, iovec_fails, iovec_loop_fails,
}
use libdbos.Sandbox.Check.Strings.{string_fails_lem}
use libdbos.Sandbox.Params.{
  Abi, Switched, params, die, pass, refused, pointer, and_then, must_pass, end_params,
}
use libdbos.Sandbox.Params.Accesses.{range, text, IsSafe, All, buffers}

module _ (abi : Abi) (mmap_base : ℕ) (mem : Bytes) (above : app_max_elf_vaddr ≤ mmap_base)
    (room : mmap_base + app_mmap_len < 2 ^ 64) where
  pub extent :
      (ptr len : ℕ)
      → extent_fails mmap_base ptr len ≡ false
      → ptr + len < 2 ^ 64
      → InApp mmap_base ptr (ptr + len)
  unfolding extent_fails
  extent ptr len h word = (mem_ref_is_safe_lem mmap_base ptr len word room).0 (ground (arith, h))

  range-IsSafe :
      (ptr len : ℕ)
      → not (ptr == 0) && (not (len == 0) && extent_fails mmap_base ptr len) ≡ false
      → IsSafe mmap_base mem (range ptr len)
  range-IsSafe ptr len h = elim (Bool-cases (ptr == 0)) [
    | inl null ↦ inl (==→eq _ _ null)
    | inr some_ptr ↦ elim (Bool-cases (len == 0)) [
      | inl empty ↦ inr (inl (==→eq _ _ empty))
      | inr some_len ↦ inr (inr (extent ptr len (ground (arith, h, some_ptr, some_len))))
    ]
  ]

  text-IsSafe :
      (str : ℕ)
      → not (str == 0) && string_fails mmap_base mem str ≡ false
      → IsSafe mmap_base mem (text str)
  text-IsSafe str h = elim (Bool-cases (str == 0)) [
    | inl null ↦ inl (==→eq _ _ null)
    | inr some_str ↦
        inr ((string_fails_lem mmap_base mem str above room).0 (ground (arith, h, some_str)))
  ]

  -- What the end of the check has tested.
  pub record Tested (ptr len str : ℕ) (err : Bool) : Type 0 where
    pub for_ptr : IsSafe mmap_base mem (range ptr len)
    pub for_str : IsSafe mmap_base mem (text str)
    pub no_err : err ≡ false

  pub passed :
      (ptr len str : ℕ) (err : Bool)
      → end_params abi mmap_base mem (params ptr len str err) ≡ pass
      → Tested ptr len str err
  unfolding end_params
  passed ptr len str err =
      elim (Bool-cases (not (ptr == 0) && (not (len == 0) && extent_fails mmap_base ptr len))) [
        | inl fails ↦ rw fails (λ h. absurd (not_refused h))
        | inr fits ↦ rw fits (elim (Bool-cases (not (str == 0) && string_fails mmap_base mem str)) [
          | inl fails ↦ rw fails (λ h. absurd (not_refused h))
          | inr string ↦ rw string (elim (Bool-cases err) [
            | inl set ↦ rw set (λ h. absurd (not_refused h))
            | inr clear ↦ λ h. record {
              for_ptr = range-IsSafe ptr len fits;
              for_str = text-IsSafe str string;
              no_err = clear;
            }
          ])
        ])
      ]
    where
      not_refused : {rax : ℕ} → refused rax ≡ pass → ⊥
      not_refused e = cc

  pub dies : end_params abi mmap_base mem die ≡ pass → ⊥
  unfolding end_params
  dies e = cc

  -- One range; the check of another before it; none.
  pub one :
      (ptr len : ℕ)
      → end_params abi mmap_base mem (pointer abi mmap_base mem ptr len) ≡ pass
      → All (IsSafe mmap_base mem) (range ptr len ∷ [])
  one ptr len h = ((passed ptr len 0 false h).for_ptr, tt)

  pub string :
      (str : ℕ)
      → end_params abi mmap_base mem (params 0 0 str false) ≡ pass
      → All (IsSafe mmap_base mem) (text str ∷ [])
  string str h = ((passed 0 0 str false h).for_str, tt)

  pub both :
      (ptr len str : ℕ)
      → end_params abi mmap_base mem (params ptr len str false) ≡ pass
      → All (IsSafe mmap_base mem) (text str ∷ range ptr len ∷ [])
  both ptr len str h =
      ((passed ptr len str false h).for_str, ((passed ptr len str false h).for_ptr, tt))

  pub after :
      (ptr len : ℕ) (next : Switched)
      → end_params abi mmap_base mem (and_then abi mmap_base mem ptr len next) ≡ pass
      → IsSafe mmap_base mem (range ptr len) × (end_params abi mmap_base mem next ≡ pass)
  unfolding end_params
  after ptr len next = elim (Bool-cases (ptr == 0)) [
    | inl null ↦ rw null (λ h. (inl (==→eq _ _ null), h))
    | inr some_ptr ↦ rw some_ptr (elim (Bool-cases (extent_fails mmap_base ptr len)) [
      | inl fails ↦ rw fails (λ h. cc)
      | inr fits ↦ rw fits (λ h. (inr (inr (extent ptr len fits)), h))
    ])
  ]

  pub after_must :
      (ptr len : ℕ) (next : Switched)
      → end_params abi mmap_base mem (must_pass abi mmap_base mem ptr len next) ≡ pass
      → IsSafe mmap_base mem (range ptr len) × (end_params abi mmap_base mem next ≡ pass)
  unfolding end_params
  after_must ptr len next = elim (Bool-cases (extent_fails mmap_base ptr len)) [
    | inl fails ↦ rw fails (λ h. cc)
    | inr fits ↦ rw fits (λ h. (inr (inr (extent ptr len fits)), h))
  ]

  buffers-IsSafe :
      (n iov : ℕ)
      → iovec_loop_fails mmap_base n mem iov ≡ false
      → All (IsSafe mmap_base mem) (buffers n mem iov)
  unfolding buffers iovec_loop_fails
  buffers-IsSafe zero iov h = tt
  buffers-IsSafe (suc n) iov h =
      elim (Bool-cases (extent_fails mmap_base (load 8 mem iov) (load 8 mem (iov + 8)))) [
        | inl fails ↦ absurd (true≢false (rw (fails, iovec_loop_fails) at h))
        | inr fits ↦ (
          inr (inr (extent (load 8 mem iov) (load 8 mem (iov + 8)) fits)),
          buffers-IsSafe n (iov + 16) (rw (fits, iovec_loop_fails) at h),
        )
      ]

  -- A size that passes is at most that of heap and mappings, so the count was not negative.
  counted :
      (iov num : ℕ)
      → num < 2 ^ 32
      → extent_fails mmap_base iov (iovec_size num) ≡ false
      → iovec_size num ≡ num * 16
  unfolding extent_fails mem_ref_is_safe
  counted iov num word h = elim (Bool-cases (ltb num (2 ^ 31))) [
    | inl small ↦ rw small (omega (arith, ltb→lt _ _ small))
    | inr negative ↦
        let size : iovec_size num ≡ (num + (2 ^ 64 - 2 ^ 32)) * 16 % 2 ^ 64 = rw negative refl in
        let large : 2 ^ 33 < iovec_size num = omega (arith, size, ltb→le _ _ negative) in
        absurd (
          true≢false (
            rw
              (
                lt→leb (iovec_size num) app_max_elf_vaddr (omega (arith, large)),
                lt→leb (iovec_size num) app_mmap_len (omega (arith, large)),
              )
              at h))
  ]

  pub iovec-IsSafe :
      (iov num : ℕ)
      → iovec_fails mmap_base mem iov num ≡ false
      → All (IsSafe mmap_base mem) (range iov (num % 2 ^ 32 * 16) ∷ buffers (num % 2 ^ 32) mem iov)
  unfolding iovec_fails
  iovec-IsSafe iov num =
      elim (Bool-cases (extent_fails mmap_base iov (iovec_size (num % 2 ^ 32)))) [
        | inl fails ↦ rw fails (λ h. absurd (true≢false h))
        | inr fits ↦
            let size = counted iov (num % 2 ^ 32) (omega arith) fits in
            rw fits (λ h. (
              inr (inr (extent iov (num % 2 ^ 32 * 16) (rw size at fits))),
              buffers-IsSafe (num % 2 ^ 32) iov h,
            ))
      ]
