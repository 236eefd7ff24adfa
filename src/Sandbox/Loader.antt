-- ===== src/Sandbox/Loader.antt =====
-- apps/sandbox/main.c and libdune/elf.c: the loop over the program headers, and what the sandbox
-- does for each of them.
pub mod Image
pub mod Wraps
pub mod Headers
pub mod Tests
use libdbos.Common.{
  ℕ, zero, suc, ◌+◌, ◌*◌, ◌/◌, ◌%◌, ◌^◌, ◌==◌, if◌then◌else◌, Bool, true, false, ◌||◌, Option, none,
  some, ◌>>=◌, ltb, not,
}
use libdbos.Umm.{app_max_elf_vaddr}
use libdbos.Sandbox.Start.{ElfData}
use libdbos.Elf.{Space, Calls, Phdr, pt_load, pt_interp, einval, enomem, dune_elf_load_ph}

-- `Elf64_Ehdr`, the fields that are read here.
pub record Ehdr : Type 0 where
  pub e_type : ℕ
  pub e_entry : ℕ
  pub e_phoff : ℕ
  pub e_phentsize : ℕ
  pub e_phnum : ℕ

-- The file: what `pread` returns and leaves in the table, and whether there is memory for it.
pub record File : Type 0 where
  pub has_memory : (len : ℕ) → Bool
  pub pread : (len offset : ℕ) → ℕ × (ℕ → Phdr)

-- `dune_vm_map_phys` and `dune_vm_mprotect` on the page tables, where they return.
pub record Tables (W : Type 0) : Type 0 where
  pub map_phys : W → (va len pa perm : ℕ) → ℕ × W
  pub vm_mprotect : W → (va len perm : ℕ) → ℕ × W

abbrev pub et_exec : ℕ
et_exec = 2

abbrev pub et_dyn : ℕ
et_dyn = 3

abbrev pub eio : ℕ
eio = 5

abbrev pub max_phnum : ℕ
max_phnum = 40

abbrev pub phdr_size : ℕ
phdr_size = 56

abbrev pub loader_vaddr_off : ℕ
loader_vaddr_off = 0x6F00_0000

abbrev pub loader_off : (e_type : ℕ) → ℕ
loader_off e_type = if e_type == et_dyn then loader_vaddr_off else 0

-- `elf_open_phs`: the code of an error, or 0 with the table.
unfoldable pub elf_open_phs : File → Ehdr → ℕ × (ℕ → Phdr)
elf_open_phs file hdr =
    let len = hdr.e_phnum * hdr.e_phentsize in
    let (ret, table) = file.pread len hdr.e_phoff in
    if not (hdr.e_phentsize == phdr_size)
    then (einval, table)
    else if ltb max_phnum hdr.e_phnum
    then (einval, table)
    else if not (file.has_memory len)
    then (enomem, table)
    else if not (ret == len)
    then (eio, table)
    else (0, table)

-- The loop of `dune_elf_iter_ph` from header `i` on, while the callback returns 0.
unfoldable pub iter_ph :
    {S : Type 0} → (Phdr → S → Option (ℕ × S)) → (ℕ → Phdr) → (n i : ℕ) → S → Option (ℕ × S)
iter_ph cb table zero i s = some (0, s)
iter_ph cb table (suc n) i s = cb (table i) s >>= λ r.
    let rest = iter_ph cb table n (i + 1) r.1 in if r.0 == 0 then rest else some r

abbrev pub perm_r : ℕ
perm_r = 1

abbrev pub perm_w : ℕ
perm_w = 2

abbrev pub perm_x : ℕ
perm_x = 4

abbrev pub perm_u : ℕ
perm_u = 8

-- The permissions that the flags of a segment ask for.
unfoldable pub segment_perm : (p_flags : ℕ) → ℕ
segment_perm p_flags =
    perm_u
    + (if p_flags % 2 == 1 then perm_x else 0)
    + (if p_flags / 4 % 2 == 1 then perm_r else 0)
    + (if p_flags / 2 % 2 == 1 then perm_w else 0)

-- The test of the segment's place and size, with sums that wrap.
unfoldable pub insecure : (off : ℕ) → Phdr → Bool
insecure off phdr =
    ltb app_max_elf_vaddr ((phdr.p_vaddr + off + phdr.p_memsz) % 2 ^ 64)
    || ltb app_max_elf_vaddr phdr.p_memsz
    || ltb phdr.p_memsz phdr.p_filesz

-- What `load_elf` gives to `main`: the entry and the place of the program headers.
unfoldable pub elf_data : Ehdr → ElfData
elf_data hdr =
    if hdr.e_type == et_dyn
    then record {
      entry = (hdr.e_entry + loader_vaddr_off) % 2 ^ 64;
      phdr = (hdr.e_phoff + loader_vaddr_off) % 2 ^ 64;
      phnum = hdr.e_phnum;
    }
    else record {
      entry = hdr.e_entry;
      phdr = (hdr.e_phoff + 0x40_0000) % 2 ^ 64;
      phnum = hdr.e_phnum;
    }

module _ {W : Type 0} (calls : Calls W) (tables : Tables W) where
  -- The last part of `process_elf_ph`: the permissions.
  unfoldable pub protect_segment : (off : ℕ) → Phdr → Space W → ℕ × Space W
  protect_segment off phdr s =
      let (ret, w) =
        tables.vm_mprotect s.kept ((phdr.p_vaddr + off) % 2 ^ 64) phdr.p_memsz
          (segment_perm phdr.p_flags) in
      (ret, record s { kept = w })

  -- `process_elf_ph`
  unfoldable pub process_elf_ph : (e_type : ℕ) → Phdr → Space W → Option (ℕ × Space W)
  process_elf_ph e_type phdr s =
      let off = loader_off e_type in
      let va = (phdr.p_vaddr + off) % 2 ^ 64 in
      let (ret, w) = tables.map_phys s.kept va phdr.p_memsz va (perm_r + perm_w) in
      let s1 = record s { kept = w } in
      let loaded = dune_elf_load_ph calls phdr off s1 >>= λ r.
      some (if r.0 == 0 then protect_segment off phdr r.1 else r) in
      if phdr.p_type == pt_interp
      then some (einval, s)
      else if not (phdr.p_type == pt_load)
      then some (0, s)
      else if insecure off phdr
      then some (einval, s)
      else if not (ret == 0)
      then some (ret, s1)
      else loaded

  -- `dune_elf_iter_ph` with it.
  unfoldable pub load_segments : File → Ehdr → Space W → Option (ℕ × Space W)
  load_segments file hdr s =
      let (ret, table) = elf_open_phs file hdr in
      let loaded = iter_ph (process_elf_ph hdr.e_type) table hdr.e_phnum 0 s in
      if ret == 0 then loaded else some (ret, s)

  -- `load_elf`, from the header that is read on.
  unfoldable pub load_elf : File → Ehdr → Space W → Option (ℕ × (Option ElfData × Space W))
  load_elf file hdr s =
      let loaded = load_segments file hdr s >>= λ r.
      some (r.0, (if r.0 == 0 then some (elf_data hdr) else none, r.1)) in
      if hdr.e_type == et_exec || hdr.e_type == et_dyn then loaded else some (einval, (none, s))
