-- ===== src/Vm/Pte.antt =====
-- Page table entries, libdune/mmu-x86.h and the flag tables of libdune/vm.c. A shift and a mask
-- of low bits are written as a quotient and a remainder.
pub mod Laws
pub mod Perms
use libdbos.Common.{
  ℕ, zero, suc, ◌+◌, ◌*◌, ◌/◌, ◌%◌, ◌^◌, Bool, not, ◌||◌, bit_and, bit_or, ◌==◌, if◌then◌else◌,
}

abbrev pub pte_p : ℕ
pte_p = 0x0001

abbrev pub pte_w : ℕ
pte_w = 0x0002

abbrev pub pte_u : ℕ
pte_u = 0x0004

abbrev pub pte_pcd : ℕ
pte_pcd = 0x0010

abbrev pub pte_ps : ℕ
pte_ps = 0x0080

abbrev pub pte_cow : ℕ
pte_cow = 0x0200

abbrev pub pte_stack : ℕ
pte_stack = 0x0400

abbrev pub pte_nx : ℕ
pte_nx = 0x8000_0000_0000_0000

abbrev pub pte_usr1 : ℕ
pte_usr1 = 0x4000_0000_0000_0000

abbrev pub pte_usr2 : ℕ
pte_usr2 = 0x2000_0000_0000_0000

abbrev pub pte_usr3 : ℕ
pte_usr3 = 0x1000_0000_0000_0000

abbrev pub addr_mask : ℕ
addr_mask = 0x000f_ffff_ffff_f000

abbrev pub flags_mask : ℕ
flags_mask = 0xfff0_0000_0000_0fff

-- `PTE_ADDR`
unfoldable pub pte_addr : ℕ → ℕ
pte_addr pte = bit_and pte addr_mask

-- `PTE_FLAGS`
unfoldable pub pte_flags : ℕ → ℕ
pte_flags pte = bit_and pte flags_mask

-- A test `x & flag`.
abbrev pub has : ℕ → ℕ → Bool
has x flag = not (bit_and x flag == 0)

unfoldable pub pte_present : ℕ → Bool
pte_present pte = has (pte_flags pte) pte_p

unfoldable pub pte_big : ℕ → Bool
pte_big pte = has (pte_flags pte) pte_ps

-- `PTE_DEF_FLAGS`
abbrev pub pte_def_flags : ℕ
pte_def_flags = 0x0007

-- `PDSHIFT`
abbrev pub pdshift : ℕ → ℕ
pdshift n = 12 + 9 * n

-- `PDX`
abbrev pub pdx : ℕ → ℕ → ℕ
pdx n la = la / 2 ^ pdshift n % 512

-- `PDADDR`
abbrev pub pdaddr : ℕ → ℕ → ℕ
pdaddr n i = i * 2 ^ pdshift n % 2 ^ 64

abbrev pub perm_r : ℕ
perm_r = 0x0001

abbrev pub perm_w : ℕ
perm_w = 0x0002

abbrev pub perm_x : ℕ
perm_x = 0x0004

abbrev pub perm_u : ℕ
perm_u = 0x0008

abbrev pub perm_uc : ℕ
perm_uc = 0x0010

abbrev pub perm_cow : ℕ
perm_cow = 0x0020

abbrev pub perm_big : ℕ
perm_big = 0x0100

abbrev pub perm_big_1gb : ℕ
perm_big_1gb = 0x0200

abbrev pub perm_usr1 : ℕ
perm_usr1 = 0x1000

abbrev pub perm_usr2 : ℕ
perm_usr2 = 0x2000

abbrev pub perm_usr3 : ℕ
perm_usr3 = 0x4000

abbrev pub perm_usr4 : ℕ
perm_usr4 = 0x8000

-- `if (c) x |= flag;`
unfoldable pub or_if : Bool → ℕ → ℕ → ℕ
or_if c flag x = if c then bit_or x flag else x

-- `get_pte_perm`
unfoldable pub get_pte_perm : ℕ → ℕ
get_pte_perm perm =
    let p1 : ℕ = if has perm perm_r then pte_p else 0 in
    let p2 = or_if (has perm perm_w) pte_w p1 in
    let p3 = or_if (not (has perm perm_x)) pte_nx p2 in
    let p4 = or_if (has perm perm_u) pte_u p3 in
    let p5 = or_if (has perm perm_uc) pte_pcd p4 in
    let p6 = or_if (has perm perm_cow) pte_cow p5 in
    let p7 = or_if (has perm perm_usr1) pte_usr1 p6 in
    let p8 = or_if (has perm perm_usr2) pte_usr2 p7 in
    let p9 = or_if (has perm perm_usr3) pte_usr3 p8 in
    let p10 = or_if (has perm perm_usr4) pte_stack p9 in
    or_if (has perm perm_big || has perm perm_big_1gb) pte_ps p10

-- `pteflags_to_perm`
pub pteflags_to_perm : ℕ → ℕ → ℕ
pteflags_to_perm flags level =
    let p1 = or_if (has flags pte_p) perm_r 0 in
    let p2 = or_if (has flags pte_w) perm_w p1 in
    let p3 = or_if (not (has flags pte_nx)) perm_x p2 in
    let p4 = or_if (has flags pte_u) perm_u p3 in
    let p5 = or_if (has flags pte_pcd) perm_uc p4 in
    let p6 = or_if (has flags pte_cow) perm_cow p5 in
    let p7 = or_if (has flags pte_usr1) perm_usr1 p6 in
    let p8 = or_if (has flags pte_usr2) perm_usr2 p7 in
    let p9 = or_if (has flags pte_usr3) perm_usr3 p8 in
    let p10 = or_if (has flags pte_stack) perm_usr4 p9 in
    let p11 = if level == 1 then or_if (has flags pte_ps) perm_big p10 else p10 in
    if level == 2 then or_if (has flags pte_ps) perm_big_1gb p11 else p11
