-- ===== src/Sandbox/Check.antt =====
-- The tests of apps/sandbox/trap.c on pointers of the program: `check_extent`, `check_string` and
-- `check_iovec`. A test fails with -EFAULT; here it gives whether it fails.
pub mod Strings
use libdbos.Common.{
  ℕ, zero, suc, ◌+◌, ◌-◌, ◌*◌, ◌/◌, ◌%◌, ◌^◌, Bool, true, false, not, ◌||◌, Option, none, some, ltb,
  leb, ◌==◌, if◌then◌else◌,
}
use libdbos.Umm.{app_max_elf_vaddr, app_mmap_len, mem_ref_is_safe}

-- The program's memory, byte by byte.
abbrev pub Bytes : Type 0
Bytes = ℕ → ℕ

-- A number of `n` bytes in memory, its low byte first.
unfoldable pub load : (n : ℕ) → Bytes → ℕ → ℕ
load zero mem p = 0
load (suc n) mem p = mem p + 256 * load n mem (p + 1)

-- `check_extent`
unfoldable pub extent_fails : (mmap_base ptr len : ℕ) → Bool
extent_fails mmap_base ptr len = not (mem_ref_is_safe mmap_base ptr len)

-- `memchr(ptr, 0, n)`
unfoldable pub find_zero : (n : ℕ) → Bytes → ℕ → Option ℕ
find_zero zero mem p = none
find_zero (suc n) mem p = elim (mem p == 0) [ true ↦ some p | false ↦ find_zero n mem (p + 1) ]

-- `memchr` found nothing.
abbrev pub not_found : Option ℕ → Bool
not_found none = true
not_found (some pos) = false

-- `check_string`
unfoldable pub string_fails : (mmap_base : ℕ) → Bytes → ℕ → Bool
string_fails mmap_base mem ptr =
    let map_end = (mmap_base + app_mmap_len) % 2 ^ 64 in
    if ltb ptr app_max_elf_vaddr
    then not_found (find_zero (app_max_elf_vaddr - ptr) mem ptr)
    else if leb mmap_base ptr
    then (if leb map_end ptr then true else not_found (find_zero (map_end - ptr) mem ptr))
    else true

-- The loop of `check_iovec`: `n` structures of a base and a length from `iov` on.
unfoldable pub iovec_loop_fails : (mmap_base n : ℕ) → Bytes → (iov : ℕ) → Bool
iovec_loop_fails mmap_base zero mem iov = false
iovec_loop_fails mmap_base (suc n) mem iov =
    let rest = iovec_loop_fails mmap_base n mem (iov + 16) in
    if extent_fails mmap_base (load 8 mem iov) (load 8 mem (iov + 8)) then true else rest

-- `sizeof(*iov) * num` for an `int` given by its 32 bits: the product has 64 bits.
abbrev pub iovec_size : ℕ → ℕ
iovec_size num = (if ltb num (2 ^ 31) then num else num + (2 ^ 64 - 2 ^ 32)) * 16 % 2 ^ 64

-- `check_iovec`; `num` is converted to an `int`.
unfoldable pub iovec_fails : (mmap_base : ℕ) → Bytes → (iov num : ℕ) → Bool
iovec_fails mmap_base mem iov num =
    if extent_fails mmap_base iov (iovec_size (num % 2 ^ 32))
    then true
    else iovec_loop_fails mmap_base (num % 2 ^ 32) mem iov
