-- ===== src/Sandbox/Loader/Image.antt =====
-- The image of the program: every segment of the file is in memory after the loop.
use libdbos.Common.{
  ℕ, zero, suc, ◌+◌, ◌*◌, ◌%◌, ◌^◌, ◌≤◌, ◌<◌, ◌≡◌, ◌≢◌, inl, inr, refl, ◌∙◌, sym, ◌==◌,
  if◌then◌else◌, true, false, Option, some, ◌>>=◌, arith, Bool-cases, ==→eq, ne→==, eq→==, le→ltb,
}
use mathlib.Core.Path.{subst}
use libdbos.Umm.{app_max_elf_vaddr}
use libdbos.Elf.{Space, Calls, Phdr, pt_load, pt_interp}
use libdbos.Elf.Load.{
  Outside, Maps, Refused, ==→ne, because, Ends, failed, done, weaken_lem, then_lem,
}
use libdbos.Elf.Loads.{Fits, first_place, places, Content, Loaded, dune_elf_load_ph_lem}
use libdbos.Sandbox.Loader.{
  Ehdr, File, Tables, max_phnum, phdr_size, loader_off, elf_open_phs, iter_ph, insecure,
  protect_segment, process_elf_ph, load_segments, segment_perm,
}

-- A header that the sandbox can load: a segment in the program's part of the addresses, or one that
-- is neither a segment nor the name of an interpreter.
pub data Loadable (file_len off : ℕ) (phdr : Phdr) : Type 0 where
  segment :
      Fits file_len off phdr
      → phdr.p_vaddr + off + phdr.p_memsz ≤ app_max_elf_vaddr
      → Loadable file_len off phdr
  passed_over : phdr.p_type ≢ pt_load → phdr.p_type ≢ pt_interp → Loadable file_len off phdr

-- The pages of two segments are apart.
pub data AreApart (off : ℕ) (p q : Phdr) : Type 0 where
  below : first_place off p + places off p ≤ first_place off q → AreApart off p q
  above : first_place off q + places off q ≤ first_place off p → AreApart off p q

-- What one header of the file leaves: the content of its segment, and no other byte changed.
pub record Step {W : Type 0} (file : ℕ → ℕ) (off : ℕ) (phdr : Phdr) (s s' : Space W) : Type 0 where
  pub content : phdr.p_type ≡ pt_load → Content file off phdr s'
  pub others :
      (a : ℕ)
      → ((phdr.p_type ≡ pt_load) → Outside (first_place off phdr) (places off phdr) a)
      → s'.byte a ≡ s.byte a

-- The headers from `i` to before `e` are loaded.
pub record Image {W : Type 0} (file : ℕ → ℕ) (off : ℕ) (table : ℕ → Phdr) (i e : ℕ) (s s' : Space W)
    : Type 0 where
  pub contents :
      (m : ℕ) → i ≤ m → m < e → (table m).p_type ≡ pt_load → Content file off (table m) s'
  pub others :
      (a : ℕ)
      → ((m : ℕ)
          → i ≤ m
          → m < e
          → (table m).p_type ≡ pt_load
          → Outside (first_place off (table m)) (places off (table m)) a)
      → s'.byte a ≡ s.byte a

-- The headers from `i` to before `e` can be loaded, and their segments are apart.
pub record Separate (file_len off : ℕ) (table : ℕ → Phdr) (i e : ℕ) : Type 0 where
  pub each : (m : ℕ) → i ≤ m → m < e → Loadable file_len off (table m)
  pub apart :
      (m l : ℕ)
      → i ≤ m
      → m < l
      → l < e
      → (table m).p_type ≡ pt_load
      → (table l).p_type ≡ pt_load
      → AreApart off (table m) (table l)

-- Why the sandbox stops: a call of the kernel that did not do what it was asked for, or the code of
-- an error that the page tables returned.
pub data Stopped {W : Type 0} (calls : Calls W) (tables : Tables W) (e : ℕ) : Type 0 where
  by_kernel : Refused calls e → Stopped calls tables e
  not_entered :
      (w : W) (va len pa perm : ℕ)
      → (tables.map_phys w va len pa perm).0 ≡ e
      → Stopped calls tables e
  not_protected :
      (w : W) (va len perm : ℕ) → (tables.vm_mprotect w va len perm).0 ≡ e → Stopped calls tables e

module _ {W : Type 0} (calls : Calls W) (tables : Tables W) {file : ℕ → ℕ} {file_len : ℕ}
    (k : Maps calls file file_len) where
  secure_lem :
      (off : ℕ) (phdr : Phdr)
      → Fits file_len off phdr
      → phdr.p_vaddr + off + phdr.p_memsz ≤ app_max_elf_vaddr
      → insecure off phdr ≡ false
  unfolding insecure
  secure_lem off phdr f low =
      rw
        (
          no_wrap,
          le→ltb _ _ low,
          le→ltb _ _ f.sizes,
          le→ltb app_max_elf_vaddr phdr.p_memsz (omega (arith, low)),
        )
        refl
    where
      no_wrap : (phdr.p_vaddr + off + phdr.p_memsz) % 2 ^ 64 ≡ phdr.p_vaddr + off + phdr.p_memsz
      no_wrap = omega (arith, low)

  protect_segment_lem :
      (off : ℕ) (phdr : Phdr) (s s' : Space W)
      → phdr.p_type ≡ pt_load
      → Loaded file off phdr s s'
      → Ends
          (Stopped calls tables)
          (Step file off phdr s)
          (some (protect_segment calls tables off phdr s'))
  unfolding protect_segment
  protect_segment_lem off phdr s s' is_load l = elim (Bool-cases (protected.0 == 0)) [
    | inl kept ↦ kept_all (==→eq _ _ kept)
    | inr bad ↦ failed _ _ (==→ne _ _ bad) (
        not_protected s'.kept ((phdr.p_vaddr + off) % 2 ^ 64) phdr.p_memsz
          (segment_perm phdr.p_flags) refl)
  ]
    where
      protected : ℕ × W
      protected =
          tables.vm_mprotect s'.kept ((phdr.p_vaddr + off) % 2 ^ 64) phdr.p_memsz
            (segment_perm phdr.p_flags)

      kept_all :
          protected.0 ≡ 0
          → Ends
              (Stopped calls tables)
              (Step file off phdr s)
              (some (protect_segment calls tables off phdr s'))
      kept_all e = rw e (
          done _ (record {
            content = λ e. record { bytes = l.content.bytes; zeros = l.content.zeros };
            others = λ a h. l.others a (h is_load);
          }))

  process_elf_ph_lem :
      (e_type : ℕ) (phdr : Phdr) (s : Space W)
      → Loadable file_len (loader_off e_type) phdr
      → Ends
          (Stopped calls tables)
          (Step file (loader_off e_type) phdr s)
          (process_elf_ph calls tables e_type phdr s)
  unfolding process_elf_ph
  process_elf_ph_lem e_type phdr s (passed_over other no_interp) =
      rw (ne→== _ _ no_interp, ne→== _ _ other)
        (done _ (record { content = λ e. absurd (other e); others = λ a h. refl }))
  process_elf_ph_lem e_type phdr s (segment f low) =
      rw (not_interp, eq→== _ _ f.is_load, secure_lem (loader_off e_type) phdr f low)
        (elim (Bool-cases (mapped.0 == 0)) [
          | inr bad ↦
              rw bad (failed _ _ (==→ne _ _ bad) (not_entered s.kept va phdr.p_memsz va 3 refl))
          | inl in_tables ↦ rw in_tables (
              then_lem (protect_segment calls tables (loader_off e_type) phdr) _
                (because _
                  (dune_elf_load_ph_lem calls k (loader_off e_type) phdr
                    (record s { kept = mapped.1 }) f)
                  (λ e why. by_kernel why))
                (λ s2 l.
                  protect_segment_lem (loader_off e_type) phdr s s2 f.is_load
                    (record { content = l.content; others = λ a h. l.others a h })))
        ])
    where
      va : ℕ
      va = (phdr.p_vaddr + loader_off e_type) % 2 ^ 64

      mapped : ℕ × W
      mapped = tables.map_phys s.kept va phdr.p_memsz va 3

      not_interp : (phdr.p_type == pt_interp) ≡ false
      not_interp = ne→== _ _ (λ e. omega (arith, e, f.is_load))

  elf_open_phs_lem :
      (read : File) (hdr : Ehdr)
      → hdr.e_phentsize ≡ phdr_size
      → hdr.e_phnum ≤ max_phnum
      → read.has_memory (hdr.e_phnum * hdr.e_phentsize) ≡ true
      → (read.pread (hdr.e_phnum * hdr.e_phentsize) hdr.e_phoff).0 ≡ hdr.e_phnum * hdr.e_phentsize
      → (elf_open_phs read hdr).0 ≡ 0
  unfolding elf_open_phs
  elf_open_phs_lem read hdr size few memory in_full =
      rw (eq→== _ _ size, le→ltb _ _ few, memory, eq→== _ _ in_full) refl

  unless_failed :
      {R : ℕ → Type 0} {P Q : Space W → Type 0} (next : Space W → Option (ℕ × Space W))
      (o : Option (ℕ × Space W))
      → Ends R P o
      → ((s : Space W) → P s → Ends R Q (next s))
      → Ends R Q (o >>= λ r. if r.0 == 0 then next r.1 else some r)
  unless_failed next _ (failed e s bad why) f = rw (ne→== e 0 bad) (failed e s bad why)
  unless_failed next _ (done s p) f = f s p

  -- A segment's bytes are within its pages, so outside the pages of the other segments.
  stays_out :
      (off : ℕ) (p q : Phdr) (j : ℕ)
      → p.p_filesz ≤ p.p_memsz
      → j < p.p_memsz
      → AreApart off p q
      → Outside (first_place off q) (places off q) (p.p_vaddr + off + j)
  stays_out off p q j sizes h (below b) = inl (omega arith)
  stays_out off p q j sizes h (above b) = inr (omega arith)

  load_sizes :
      (off : ℕ) (p : Phdr) → Loadable file_len off p → p.p_type ≡ pt_load → p.p_filesz ≤ p.p_memsz
  load_sizes off p (segment f low) is_load = f.sizes
  load_sizes off p (passed_over other no_interp) is_load = absurd (other is_load)

  content_stays :
      (off : ℕ) (p : Phdr) (s1 s2 : Space W)
      → ((j : ℕ) → j < p.p_memsz → s2.byte (p.p_vaddr + off + j) ≡ s1.byte (p.p_vaddr + off + j))
      → p.p_filesz ≤ p.p_memsz
      → Content file off p s1
      → Content file off p s2
  content_stays off p s1 s2 same sizes c = record {
    bytes = λ j h. same j (omega arith) ∙ c.bytes j h;
    zeros = λ j low h. same j h ∙ c.zeros j low h;
  }

  step-Image :
      (off : ℕ) (table : ℕ → Phdr) (i e : ℕ) (s s1 s2 : Space W)
      → i < e
      → Separate file_len off table i e
      → Step file off (table i) s s1
      → Image file off table (i + 1) e s1 s2
      → Image file off table i e s s2
  step-Image off table i e s s1 s2 some_left sep step rest = record {
    contents = λ m low h is_load. elim (Bool-cases (m == i)) [
      | inl head ↦
          subst (λ l. (table l).p_type ≡ pt_load → Content file off (table l) s2)
            (sym (==→eq _ _ head)) first is_load
      | inr later ↦ rest.contents m (omega (arith, low, ==→ne _ _ later)) h is_load
    ];
    others = λ a h.
        rest.others a (λ m low l is_load. h m (omega arith) l is_load)
        ∙ step.others a (h i (omega arith) some_left);
  }
    where
      first : (table i).p_type ≡ pt_load → Content file off (table i) s2
      first is_load =
          let sizes = load_sizes off (table i) (sep.each i (omega arith) some_left) is_load in
          content_stays off (table i) s1 s2
            (λ j h. rest.others _ (λ m low l other_load.
              stays_out off (table i) (table m) j sizes h
                (sep.apart i m (omega arith) (omega arith) l is_load other_load)))
            sizes (step.content is_load)

  iter_ph_lem :
      (e_type : ℕ) (table : ℕ → Phdr) (n i : ℕ) (s : Space W)
      → Separate file_len (loader_off e_type) table i (i + n)
      → Ends
          (Stopped calls tables)
          (Image file (loader_off e_type) table i (i + n) s)
          (iter_ph (process_elf_ph calls tables e_type) table n i s)
  unfolding iter_ph
  iter_ph_lem e_type table zero i s sep =
      done s (record { contents = λ m low h is_load. absurd (omega arith); others = λ a h. refl })
  iter_ph_lem e_type table (suc n) i s sep =
      unless_failed (iter_ph (process_elf_ph calls tables e_type) table n (i + 1)) _
        (process_elf_ph_lem e_type (table i) s (sep.each i (omega arith) (omega arith)))
        (λ s1 step. weaken_lem _ (iter_ph_lem e_type table n (i + 1) s1 tail) (λ s2 rest.
          step-Image (loader_off e_type) table i (i + suc n) s s1 s2 (omega arith) sep step
            (record {
              contents = λ m low h is_load. rest.contents m low (omega arith) is_load;
              others = λ a h. rest.others a (λ m low l. h m low (omega arith));
            })))
    where
      tail : Separate file_len (loader_off e_type) table (i + 1) (i + 1 + n)
      tail = record {
        each = λ m low h. sep.each m (omega arith) (omega arith);
        apart = λ m l low h end. sep.apart m l (omega arith) h (omega arith);
      }

  -- With a table of at most 40 headers of 56 bytes each that `pread` reads in full, where every
  -- header is loadable (a segment within the program's addresses, whose place agrees within a page
  -- with its place in the file, or no segment and no interpreter) and the pages of the segments are
  -- apart, the sandbox makes no store that is not allowed, and either it stops with an error of the
  -- kernel or of the page tables, or it returns 0: then every segment has its content of the file
  -- in memory and zeros behind it, those that were loaded first too, and a byte outside the pages of
  -- all segments is as before.
  pub load_segments-Image :
      (read : File) (hdr : Ehdr) (s : Space W)
      → hdr.e_phentsize ≡ phdr_size
      → hdr.e_phnum ≤ max_phnum
      → read.has_memory (hdr.e_phnum * hdr.e_phentsize) ≡ true
      → (read.pread (hdr.e_phnum * hdr.e_phentsize) hdr.e_phoff).0 ≡ hdr.e_phnum * hdr.e_phentsize
      → Separate file_len (loader_off hdr.e_type) (elf_open_phs read hdr).1 0 hdr.e_phnum
      → Ends
          (Stopped calls tables)
          (Image file (loader_off hdr.e_type) (elf_open_phs read hdr).1 0 hdr.e_phnum s)
          (load_segments calls tables read hdr s)
  unfolding load_segments
  load_segments-Image read hdr s size few memory in_full sep = rw opens (
      subst
        (λ e.
          Separate file_len off table 0 e
          → Ends (Stopped calls tables) (Image file off table 0 e s)
              (iter_ph (process_elf_ph calls tables hdr.e_type) table hdr.e_phnum 0 s))
        (omega arith) (λ z. iter_ph_lem hdr.e_type table hdr.e_phnum 0 s z) sep)
    where
      off : ℕ
      off = loader_off hdr.e_type

      table : ℕ → Phdr
      table = (elf_open_phs read hdr).1

      opens : (elf_open_phs read hdr).0 ≡ 0
      opens = elf_open_phs_lem read hdr size few memory in_full
