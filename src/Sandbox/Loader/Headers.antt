-- ===== src/Sandbox/Loader/Headers.antt =====
-- The program headers in memory, at the place that the program is told (AT_PHDR).
use libdbos.Common.{
  ℕ, ◌+◌, ◌-◌, ◌*◌, ◌%◌, ◌^◌, ◌≤◌, ◌<◌, ◌≡◌, refl, ap, inl, inr, ◌∙◌, ◌==◌, if◌then◌else◌, true,
  ◌||◌, Option, none, some, ◌>>=◌, arith, Bool-cases, ne→==,
}
use libdbos.Elf.{Space, Calls, Phdr, pt_load}
use libdbos.Elf.Load.{Maps, Ends, failed, done}
use libdbos.Elf.Loads.{Fits}
use libdbos.Sandbox.Start.{ElfData}
use libdbos.Sandbox.Loader.{
  Ehdr, File, Tables, et_exec, et_dyn, max_phnum, phdr_size, loader_off, elf_open_phs, elf_data,
  load_elf,
}
use libdbos.Sandbox.Loader.Image.{
  Stopped, Image, Loadable, segment, passed_over, Separate, load_segments-Image,
}

-- The difference of a place in memory and the place in the file that `load_elf` takes.
abbrev pub file_base : (e_type : ℕ) → ℕ
file_base e_type = if e_type == et_dyn then 0x6F00_0000 else 0x40_0000

-- The table of program headers is in the content of the segment `m`, which is loaded where
-- `load_elf` takes it to be.
pub record Covers (hdr : Ehdr) (phdr : Phdr) : Type 0 where
  pub is_load : phdr.p_type ≡ pt_load
  pub from : phdr.p_offset ≤ hdr.e_phoff
  pub to : hdr.e_phoff + hdr.e_phnum * phdr_size ≤ phdr.p_offset + phdr.p_filesz
  pub place : phdr.p_vaddr + loader_off hdr.e_type ≡ phdr.p_offset + file_base hdr.e_type

-- How `load_elf` ends: with an error and nothing for `main`, or with the place of the entry, and the
-- headers of the file at the place of the headers.
pub data Started {W : Type 0} (calls : Calls W) (tables : Tables W) (file : ℕ → ℕ) (hdr : Ehdr)
    : Option (ℕ × (Option ElfData × Space W)) → Type 0 where
  stopped :
      (e : ℕ) (s : Space W)
      → (e ≡ 0 → ⊥)
      → Stopped calls tables e
      → Started calls tables file hdr (some (e, (none, s)))
  started :
      (s : Space W)
      → ((j : ℕ)
          → j < hdr.e_phnum * phdr_size
          → s.byte ((elf_data hdr).phdr + j) ≡ file (hdr.e_phoff + j))
      → Started calls tables file hdr (some (0, (some (elf_data hdr), s)))

module _ {W : Type 0} (calls : Calls W) (tables : Tables W) {file : ℕ → ℕ} {file_len : ℕ}
    (k : Maps calls file file_len) where
  phdr_lem : (hdr : Ehdr) → (elf_data hdr).phdr ≡ (hdr.e_phoff + file_base hdr.e_type) % 2 ^ 64
  unfolding elf_data
  phdr_lem hdr = elim (Bool-cases (hdr.e_type == et_dyn)) [
    | inl dyn ↦ rw dyn refl
    | inr fixed ↦ rw fixed refl
  ]

  in_segment :
      (hdr : Ehdr) (phdr : Phdr) (j : ℕ)
      → Fits file_len (loader_off hdr.e_type) phdr
      → Covers hdr phdr
      → j < hdr.e_phnum * phdr_size
      → (elf_data hdr).phdr + j
        ≡ phdr.p_vaddr + loader_off hdr.e_type + (hdr.e_phoff - phdr.p_offset + j)
  in_segment hdr phdr j f c h =
      ends (loader_off hdr.e_type) (file_base hdr.e_type) f.in_space c.place (phdr_lem hdr)
    where
      ends :
          (off base : ℕ)
          → phdr.p_vaddr + off + phdr.p_memsz + 4096 ≤ 2 ^ 64
          → phdr.p_vaddr + off ≡ phdr.p_offset + base
          → (elf_data hdr).phdr ≡ (hdr.e_phoff + base) % 2 ^ 64
          → (elf_data hdr).phdr + j ≡ phdr.p_vaddr + off + (hdr.e_phoff - phdr.p_offset + j)
      ends off base space place at = omega (arith, space, place, at, c.from, c.to, f.sizes, h)

  headers_there :
      (hdr : Ehdr) (table : ℕ → Phdr) (m : ℕ) (s s' : Space W)
      → m < hdr.e_phnum
      → Covers hdr (table m)
      → Fits file_len (loader_off hdr.e_type) (table m)
      → Image file (loader_off hdr.e_type) table 0 hdr.e_phnum s s'
      → (j : ℕ) → j < hdr.e_phnum * phdr_size
      → s'.byte ((elf_data hdr).phdr + j) ≡ file (hdr.e_phoff + j)
  headers_there hdr table m s s' here c f image j h =
      ap s'.byte (in_segment hdr (table m) j f c h)
      ∙ (image.contents m (omega arith) here c.is_load).bytes (hdr.e_phoff - (table m).p_offset + j)
          (omega (arith, c.from, c.to, h))
      ∙ ap file (omega (arith, c.from))

  segment_of :
      (off : ℕ) (phdr : Phdr)
      → Loadable file_len off phdr
      → phdr.p_type ≡ pt_load
      → Fits file_len off phdr
  segment_of off phdr (segment f low) is_load = f
  segment_of off phdr (passed_over other no_interp) is_load = absurd (other is_load)

  loaded_or_not :
      (hdr : Ehdr) {P : Space W → Type 0} (o : Option (ℕ × Space W))
      → Ends (Stopped calls tables) P o
      → ((s : Space W)
          → P s
          → (j : ℕ) → j < hdr.e_phnum * phdr_size
          → s.byte ((elf_data hdr).phdr + j) ≡ file (hdr.e_phoff + j))
      → Started calls tables file hdr
          (o >>= λ r. some (r.0, (if r.0 == 0 then some (elf_data hdr) else none, r.1)))
  loaded_or_not hdr _ (failed e s bad why) there = rw (ne→== e 0 bad) (stopped e s bad why)
  loaded_or_not hdr _ (done s p) there = started s (there s p)

  -- For an executable or a position-independent file of which the sandbox can read the table of
  -- headers and load all segments, as in `load_segments-Image`, when the content of one segment
  -- covers the table, and that segment is loaded 0x400000 above its place in the file, or, for a
  -- position-independent file, at LOADER_VADDR_OFF above it, `load_elf` makes no store that is not
  -- allowed, and it stops with an error, or it gives the entry and the place of the headers, and all
  -- bytes of the table of headers are in memory at that place.
  pub load_elf-Started :
      (read : File) (hdr : Ehdr) (s : Space W) (m : ℕ)
      → (hdr.e_type == et_exec || hdr.e_type == et_dyn) ≡ true
      → hdr.e_phentsize ≡ phdr_size
      → hdr.e_phnum ≤ max_phnum
      → read.has_memory (hdr.e_phnum * hdr.e_phentsize) ≡ true
      → (read.pread (hdr.e_phnum * hdr.e_phentsize) hdr.e_phoff).0 ≡ hdr.e_phnum * hdr.e_phentsize
      → Separate file_len (loader_off hdr.e_type) (elf_open_phs read hdr).1 0 hdr.e_phnum
      → m < hdr.e_phnum
      → Covers hdr ((elf_open_phs read hdr).1 m)
      → Started calls tables file hdr (load_elf calls tables read hdr s)
  unfolding load_elf
  load_elf-Started read hdr s m is_elf size few memory in_full sep here c = rw is_elf (
      loaded_or_not hdr _
        (load_segments-Image calls tables k read hdr s size few memory in_full sep)
        (λ s' image.
          headers_there hdr (elf_open_phs read hdr).1 m s s' here c
            (segment_of _ _ (sep.each m (omega arith) here) c.is_load) image))
