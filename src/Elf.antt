-- ===== src/Elf.antt =====
-- libdune/elf.c: reading the headers of a program's file, and loading its segments.
pub mod Load
pub mod Zeros
pub mod Loads
use libdbos.Common.{
  ℕ, zero, suc, ◌+◌, ◌-◌, ◌*◌, ◌/◌, ◌%◌, ◌^◌, ◌==◌, if◌then◌else◌, Bool, true, false, ◌||◌, Option,
  none, some, List, [], ◌∷◌, ltb, not, ◌>>=◌,
}

-- The address space of a process, for the accesses of the process itself: its bytes, the places it
-- may write, and what else the kernel keeps.
pub record Space (W : Type 0) : Type 0 where
  pub byte : ℕ → ℕ
  pub writable : ℕ → Bool
  pub kept : W

abbrev pub page_size : ℕ
page_size = 4096

-- `PGADDR` and `PGOFF`
abbrev pub page_addr : ℕ → ℕ
page_addr va = va / page_size * page_size

abbrev pub page_off : ℕ → ℕ
page_off va = va % page_size

abbrev pub prot_read : ℕ
prot_read = 1

abbrev pub prot_write : ℕ
prot_write = 2

abbrev pub prot_exec : ℕ
prot_exec = 4

-- `prot & PROT_WRITE`
abbrev pub can_write : ℕ → Bool
can_write prot = prot / prot_write % 2 == 1

-- The system calls, with what `mmap` and `mprotect` return.
pub record Calls (W : Type 0) : Type 0 where
  pub mmap_file : Space W → (addr len prot offset : ℕ) → ℕ × Space W
  pub mmap_anon : Space W → (addr len prot : ℕ) → ℕ × Space W
  pub mprotect : Space W → (addr len prot : ℕ) → ℕ × Space W

-- `Elf64_Phdr`, the fields that are read.
pub record Phdr : Type 0 where
  pub p_type : ℕ
  pub p_flags : ℕ
  pub p_offset : ℕ
  pub p_vaddr : ℕ
  pub p_filesz : ℕ
  pub p_memsz : ℕ

abbrev pub pt_load : ℕ
pt_load = 1

abbrev pub pt_interp : ℕ
pt_interp = 3

abbrev pub einval : ℕ
einval = 22

abbrev pub enomem : ℕ
enomem = 12

-- The protection that the flags of a segment ask for.
unfoldable pub flags_prot : (p_flags : ℕ) → ℕ
flags_prot p_flags =
    (if p_flags % 2 == 1 then prot_exec else 0)
    + (if p_flags / 4 % 2 == 1 then prot_read else 0)
    + (if p_flags / 2 % 2 == 1 then prot_write else 0)

-- Stores of zeros; one to a place that may not be written ends the process.
unfoldable pub memset : {W : Type 0} → (n addr : ℕ) → Space W → Option (Space W)
memset zero addr s = some s
memset (suc n) addr s =
    let rest = memset n (addr + 1) (record s { byte = λ a. if a == addr then 0 else s.byte a }) in
    if s.writable addr then rest else none

module _ {W : Type 0} (calls : Calls W) where
  -- `mod_prot && mprotect(...)`
  abbrev pub change_prot : (mod_prot : Bool) (addr prot : ℕ) → Space W → ℕ × Space W
  change_prot mod_prot addr prot s =
      if mod_prot then calls.mprotect s addr page_size prot else (0, s)

  -- The bytes up to the end of the page.
  unfoldable pub clear_page : (prot start map_start : ℕ) → Space W → Option (ℕ × Space W)
  clear_page prot start map_start s =
      let mod_prot = not (can_write prot) in
      let page = map_start - page_size in
      let (ret, s1) = change_prot mod_prot page (prot + prot_write) s in
      let cleared = memset (map_start - start) start s1 >>= λ s2.
      let (ret2, s3) = change_prot mod_prot page prot s2 in
      some (if ret2 == 0 then (0, s3) else (enomem, s3)) in
      if ret == 0 then cleared else some (enomem, s1)

  -- The pages behind the file's content.
  unfoldable pub map_zeros : (prot map_start zero_len : ℕ) → Space W → ℕ × Space W
  map_zeros prot map_start zero_len s =
      let (ptr, s1) = calls.mmap_anon s map_start zero_len prot in
      if ptr == map_start then (0, s1) else (enomem, s1)

  unfoldable pub clear_rest : (prot start zero_len : ℕ) → Space W → Option (ℕ × Space W)
  clear_rest prot start zero_len s =
      let map_start = page_addr ((start + page_size - 1) % 2 ^ 64) in
      let partial = clear_page prot start map_start s >>= λ r.
      some (if r.0 == 0 then map_zeros prot map_start zero_len r.1 else r) in
      if ltb start map_start then partial else some (map_zeros prot map_start zero_len s)

  -- `dune_elf_load_ph`; none where a store is not allowed.
  unfoldable pub dune_elf_load_ph : Phdr → (off : ℕ) → Space W → Option (ℕ × Space W)
  dune_elf_load_ph phdr off s =
      let prot = flags_prot phdr.p_flags in
      let place = (page_addr phdr.p_vaddr + off) % 2 ^ 64 in
      let (ptr, s1) =
        calls.mmap_file s place ((phdr.p_filesz + page_off phdr.p_vaddr) % 2 ^ 64) prot
          (page_addr phdr.p_offset) in
      if not (phdr.p_type == pt_load)
      then some (einval, s)
      else if ltb phdr.p_memsz phdr.p_filesz
      then some (einval, s)
      else if not (ptr == place)
      then some (enomem, s1)
      else if ltb phdr.p_filesz phdr.p_memsz
      then clear_rest prot ((phdr.p_vaddr + phdr.p_filesz + off) % 2 ^ 64)
          (phdr.p_memsz - phdr.p_filesz) s1
      else some (0, s1)
