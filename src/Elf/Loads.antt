-- ===== src/Elf/Loads.antt =====
-- A segment is loaded: the file's bytes, and zeros up to its size in memory.
use libdbos.Common.{
  ℕ, ◌+◌, ◌-◌, ◌%◌, ◌^◌, ◌≤◌, ◌<◌, ◌≡◌, inl, inr, ap, ◌∙◌, ◌==◌, false, ltb, arith, Bool-cases,
  ==→eq, eq→==, le→ltb, ltb→le,
}
use libdbos.Elf.{
  enomem, Space, page_size, page_addr, page_off, can_write, Calls, Phdr, pt_load, flags_prot,
  dune_elf_load_ph,
}
use libdbos.Elf.Load.{
  round_up, Outside, Maps, Refused, file_refused, ==→ne, Ends, failed, done, weaken_lem, Cleared,
}
use libdbos.Elf.Zeros.{zeros_len, clear_rest_lem}

-- A segment whose place in the file and in memory agree within a page, as the format wants it,
-- whose content is in the file, and which ends a page before the end of the addresses.
pub record Fits (file_len off : ℕ) (phdr : Phdr) : Type 0 where
  pub is_load : phdr.p_type ≡ pt_load
  pub sizes : phdr.p_filesz ≤ phdr.p_memsz
  pub aligned : off % page_size ≡ 0
  pub congruent : phdr.p_vaddr % page_size ≡ phdr.p_offset % page_size
  pub in_file : phdr.p_offset + phdr.p_filesz ≤ file_len
  pub in_space : phdr.p_vaddr + off + phdr.p_memsz + page_size ≤ 2 ^ 64

-- The pages that loading a segment may change.
abbrev pub first_place : (off : ℕ) → Phdr → ℕ
first_place off phdr = page_addr phdr.p_vaddr + off

abbrev pub places : (off : ℕ) → Phdr → ℕ
places off phdr =
    round_up (phdr.p_filesz + page_off phdr.p_vaddr) + round_up (phdr.p_memsz - phdr.p_filesz)

-- The content of the segment is in memory, and zeros behind it.
pub record Content {W : Type 0} (file : ℕ → ℕ) (off : ℕ) (phdr : Phdr) (s : Space W) : Type 0 where
  pub bytes :
      (i : ℕ) → i < phdr.p_filesz → s.byte (phdr.p_vaddr + off + i) ≡ file (phdr.p_offset + i)
  pub zeros : (i : ℕ) → phdr.p_filesz ≤ i → i < phdr.p_memsz → s.byte (phdr.p_vaddr + off + i) ≡ 0

-- A segment is loaded, and nothing else has changed but up to the end of the last page.
pub record Loaded {W : Type 0} (file : ℕ → ℕ) (off : ℕ) (phdr : Phdr) (s s' : Space W)
    : Type 0 where
  pub content : Content file off phdr s'
  pub others : (a : ℕ) → Outside (first_place off phdr) (places off phdr) a → s'.byte a ≡ s.byte a

module _ {W : Type 0} (calls : Calls W) {file : ℕ → ℕ} {file_len : ℕ}
    (k : Maps calls file file_len) where
  -- The start of the zeros of a segment, without a wrap.
  abbrev zeros_start : (off : ℕ) → Phdr → ℕ
  zeros_start off phdr = phdr.p_vaddr + phdr.p_filesz + off

  file_end :
      (off : ℕ) (phdr : Phdr)
      → off % page_size ≡ 0
      → first_place off phdr + round_up (phdr.p_filesz + page_off phdr.p_vaddr)
        ≡ round_up (zeros_start off phdr)
  file_end off phdr aligned = omega arith

  -- When zeros are stored in the last page of the file's mapping, there is such a page.
  one_page :
      (off : ℕ) (phdr : Phdr)
      → off % page_size ≡ 0
      → zeros_start off phdr < round_up (zeros_start off phdr)
      → page_size ≤ round_up (phdr.p_filesz + page_off phdr.p_vaddr)
  one_page off phdr aligned some_left = omega arith

  -- What lies outside the segment is outside the file's mapping and outside the zeros.
  apart_from_file :
      (off : ℕ) (phdr : Phdr) (a : ℕ)
      → Outside (first_place off phdr) (places off phdr) a
      → Outside (first_place off phdr) (round_up (phdr.p_filesz + page_off phdr.p_vaddr)) a
  apart_from_file off phdr a (inl below) = inl below
  apart_from_file off phdr a (inr above) = inr (omega arith)

  apart_from_zeros :
      (off : ℕ) (phdr : Phdr) (a : ℕ)
      → off % page_size ≡ 0
      → Outside (first_place off phdr) (places off phdr) a
      → Outside
          (zeros_start off phdr)
          (zeros_len (zeros_start off phdr) (phdr.p_memsz - phdr.p_filesz))
          a
  apart_from_zeros off phdr a aligned (inl below) = inl (omega arith)
  apart_from_zeros off phdr a aligned (inr above) = inr (omega (arith, file_end off phdr aligned))

  -- The file's part of a segment is mapped.
  mapped_content :
      (off : ℕ) (phdr : Phdr) (s : Space W) (prot : ℕ)
      → Fits file_len off phdr
      → (calls.mmap_file s
          (first_place off phdr)
          (phdr.p_filesz + page_off phdr.p_vaddr)
          prot
          (page_addr phdr.p_offset)).0
        ≡ first_place off phdr
      → (i : ℕ) → i < phdr.p_filesz
      → (calls.mmap_file s
            (first_place off phdr)
            (phdr.p_filesz + page_off phdr.p_vaddr)
            prot
            (page_addr phdr.p_offset)).1.byte
          (phdr.p_vaddr + off + i)
        ≡ file (phdr.p_offset + i)
  mapped_content off phdr s prot f there i h =
      ap
        (calls.mmap_file s (first_place off phdr) (phdr.p_filesz + page_off phdr.p_vaddr) prot
          (page_addr phdr.p_offset)).1.byte
        (omega arith)
      ∙ k.file_bytes s (first_place off phdr) (phdr.p_filesz + page_off phdr.p_vaddr) prot
          (page_addr phdr.p_offset) (page_off phdr.p_vaddr + i) there (omega arith)
          (omega (arith, f.congruent, f.in_file))
      ∙ ap file (omega (arith, f.congruent))

  -- `dune_elf_load_ph` never makes a store that is not allowed, and when the kernel grants every
  -- call, it returns 0 with the segment's content in memory, zeros behind it, and no other byte
  -- changed.
  pub dune_elf_load_ph_lem :
      (off : ℕ) (phdr : Phdr) (s : Space W)
      → Fits file_len off phdr
      → Ends (Refused calls) (Loaded file off phdr s) (dune_elf_load_ph calls phdr off s)
  unfolding dune_elf_load_ph
  dune_elf_load_ph_lem off phdr s f =
      rw (no_wrap, no_wrap_len, eq→== _ _ f.is_load, le→ltb _ _ f.sizes, no_wrap_start)
        (elim (Bool-cases ((mapped s).0 == first_place off phdr)) [
          | inr other ↦
              rw other
                (failed enomem _ (λ e. omega arith) (file_refused s _ _ prot _ (==→ne _ _ other)))
          | inl there ↦ rw there (elim (Bool-cases (ltb phdr.p_filesz phdr.p_memsz)) [
            | inr full ↦ rw full (done _ (only_file full (==→eq _ _ there)))
            | inl more ↦ rw more (
                weaken_lem _
                  (clear_rest_lem calls k prot (zeros_start off phdr) (phdr.p_memsz - phdr.p_filesz)
                    (mapped s).1 room (λ some_left i h. page (==→eq _ _ there) some_left i h))
                  (λ s2 c. both (==→eq _ _ there) s2 c))
          ])
        ])
    where
      prot : ℕ
      prot = flags_prot phdr.p_flags

      mapped : Space W → ℕ × Space W
      mapped s =
          calls.mmap_file s (first_place off phdr) (phdr.p_filesz + page_off phdr.p_vaddr) prot
            (page_addr phdr.p_offset)

      no_wrap : (page_addr phdr.p_vaddr + off) % 2 ^ 64 ≡ first_place off phdr
      no_wrap = omega (arith, f.in_space)

      no_wrap_len :
          (phdr.p_filesz + page_off phdr.p_vaddr) % 2 ^ 64 ≡ phdr.p_filesz + page_off phdr.p_vaddr
      no_wrap_len = omega (arith, f.in_space, f.sizes)

      no_wrap_start : (phdr.p_vaddr + phdr.p_filesz + off) % 2 ^ 64 ≡ zeros_start off phdr
      no_wrap_start = omega (arith, f.in_space, f.sizes)

      only_file :
          ltb phdr.p_filesz phdr.p_memsz ≡ false
          → (mapped s).0 ≡ first_place off phdr
          → Loaded file off phdr s (mapped s).1
      only_file full there = record {
        content = record {
          bytes = λ i h. mapped_content off phdr s prot f there i h;
          zeros = λ i low h. absurd (omega (arith, ltb→le _ _ full));
        };
        others = λ a h. k.file_else s _ _ prot _ a there (apart_from_file off phdr a h);
      }

      room : zeros_start off phdr + page_size ≤ 2 ^ 64
      room = omega (arith, f.in_space, f.sizes)

      page :
          (mapped s).0 ≡ first_place off phdr
          → zeros_start off phdr < round_up (zeros_start off phdr)
          → (i : ℕ) → i < page_size
          → (mapped s).1.writable (round_up (zeros_start off phdr) - page_size + i) ≡ can_write prot
      page there some_left i h =
          let filled : page_size ≤ round_up (phdr.p_filesz + page_off phdr.p_vaddr) =
            one_page off phdr f.aligned some_left in
          let end = file_end off phdr f.aligned in
          ap (mapped s).1.writable (omega (arith, filled, end))
          ∙ k.file_writable s (first_place off phdr) (phdr.p_filesz + page_off phdr.p_vaddr) prot
              (page_addr phdr.p_offset)
              (round_up (phdr.p_filesz + page_off phdr.p_vaddr) - page_size + i) there
              (omega (arith, filled))

      both :
          (mapped s).0 ≡ first_place off phdr
          → (s2 : Space W)
          → Cleared
              (zeros_len (zeros_start off phdr) (phdr.p_memsz - phdr.p_filesz))
              (zeros_start off phdr)
              (mapped s).1
              s2
          → Loaded file off phdr s s2
      both there s2 c = record {
        content = record {
          bytes = λ i h.
              c.others (phdr.p_vaddr + off + i) (inl (omega arith))
              ∙ mapped_content off phdr s prot f there i h;
          zeros = λ i low h. ap s2.byte (omega arith) ∙ c.zeros (i - phdr.p_filesz) (omega arith);
        };
        others = λ a h.
            c.others a (apart_from_zeros off phdr a f.aligned h)
            ∙ k.file_else s _ _ prot _ a there (apart_from_file off phdr a h);
      }
