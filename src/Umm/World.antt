-- ===== src/Umm/World.antt =====
-- What apps/sandbox/umm.c works with: the constants and the test of sandbox.h, the system calls
-- and page tables as interfaces, and the state.
use libdbos.Common.{
  ℕ, ◌+◌, ◌*◌, ◌/◌, ◌%◌, ◌^◌, Bool, true, false, ◌&&◌, ◌||◌, Option, none, some, ltb, leb,
}
use libdbos.Vm.Pte.{or_if, perm_r, perm_w, perm_x, perm_u}

abbrev pub app_max_elf_vaddr : ℕ
app_max_elf_vaddr = 0x7000_0000

abbrev pub app_mmap_base_off : ℕ
app_mmap_base_off = 0x2_0000_0000

abbrev pub app_mmap_len : ℕ
app_mmap_len = 0x2_0000_0000

abbrev pub app_stack_size : ℕ
app_stack_size = 0x80_0000

-- `PROT_READ`, `PROT_WRITE` and `PROT_EXEC` in a `prot`.
pub record Prot : Type 0 where
  pub read : Bool
  pub write : Bool
  pub exec : Bool

abbrev pub read_write : Prot
read_write = record { read = true; write = true; exec = false }

-- `fd > 0`
abbrev pub is_positive : Option ℕ → Bool
is_positive none = false
is_positive (some n) = ltb 0 n

-- The errors that umm.c returns on its own.
pub record Codes : Type 0 where
  pub einval : ℕ
  pub enomem : ℕ
  pub eacces : ℕ

-- System calls on a world `W`. A mapping call returns an address and `errno`; the others return
-- `errno`, 0 for success. Flags are opaque, with the tests that umm.c makes on them. A descriptor
-- is `none` when it is negative.
pub record Sys (W : Type 0) : Type 0 where
  pub mmap_anon : W → (addr len : ℕ) → Prot → (big : Bool) → ℕ × ℕ × W
  pub mmap_file : W → (addr len : ℕ) → Prot → (flags : ℕ) → Option ℕ → (offset : ℕ) → ℕ × ℕ × W
  pub munmap : W → (addr len : ℕ) → ℕ × W
  pub mprotect : W → (addr len : ℕ) → Prot → ℕ × W
  pub mremap : W → (old_address old_size new_size flags new_address : ℕ) → ℕ × ℕ × W
  pub shm_segsz : W → ℕ → Option ℕ
  pub shmat : W → (shmid addr shmflg : ℕ) → ℕ × ℕ × W
  pub shmdt : W → ℕ → W
  pub is_anonymous : ℕ → Bool
  pub is_rdonly : ℕ → Bool
  pub is_fixed : ℕ → Bool
  pub may_move : ℕ → Bool
  pub move_fixed : ℕ → ℕ

-- The page tables of the process, libdune/vm.c: an error, 0 for success, and the world; `none` is
-- the end of the program.
pub record PageTables (W : Type 0) : Type 0 where
  pub map_phys : W → (va len pa perm : ℕ) → Option (ℕ × W)
  pub unmap : W → (va len : ℕ) → Option W
  pub mprotect : W → (va len perm : ℕ) → Option (ℕ × W)

-- The two lengths of umm.c and the world.
pub record Umm (W : Type 0) : Type 0 where
  pub brk_len : ℕ
  pub mmap_len : ℕ
  pub world : W

-- An `unsigned long` or a pointer: a value, or a negated error.
pub data Result : Type 0 where
  value : ℕ → Result
  fail : ℕ → Result

-- `PGADDR(len + PGSIZE - 1)`
abbrev pub round_page : ℕ → ℕ
round_page len = (len + 4095) % 2 ^ 64 / 4096 * 4096

-- `prot_to_perm`
pub prot_to_perm : Prot → ℕ
prot_to_perm prot = or_if prot.exec perm_x (or_if prot.write perm_w (or_if prot.read perm_r perm_u))

-- `mem_ref_is_safe` of apps/sandbox/sandbox.h
unfoldable pub mem_ref_is_safe : (mmap_base ptr len : ℕ) → Bool
mem_ref_is_safe mmap_base ptr len =
    let range_end = (ptr + len) % 2 ^ 64 in
    leb len app_max_elf_vaddr && leb range_end app_max_elf_vaddr
    || leb len app_mmap_len
      && leb mmap_base ptr
      && ltb range_end ((mmap_base + app_mmap_len) % 2 ^ 64)
