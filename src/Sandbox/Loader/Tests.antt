-- ===== src/Sandbox/Loader/Tests.antt =====
-- A program with two segments and a note, and a kernel that grants every call.
use libdbos.Common.{
  ℕ, zero, suc, ◌+◌, ◌-◌, ◌%◌, ◌≤◌, ◌<◌, ◌≡◌, inl, inr, ◌↔◌, refl, ap, Bool, true, false, ◌&&◌, ltb,
  leb, ◌==◌, if◌then◌else◌, arith, le→leb, lt→leb, lt→ltb, le→ltb,
}
use libdbos.Elf.{Space, can_write, Calls, Phdr, pt_load}
use libdbos.Elf.Load.{round_up, Outside, Maps, Ends}
use libdbos.Sandbox.Loader.{Ehdr, File, Tables, insecure, load_segments, load_elf, elf_open_phs}
use libdbos.Sandbox.Loader.Image.{
  Stopped, Loadable, segment, passed_over, AreApart, below, Image, Separate, load_segments-Image,
}
use libdbos.Sandbox.Loader.Headers.{Covers, Started, load_elf-Started}
use libdbos.Sandbox.Loader.Wraps.{EndsLow, insecure-wraps}

abbrev within : (addr len a : ℕ) → Bool
within addr len a = leb addr a && ltb a (addr + len)

within-inside : (addr len i : ℕ) → i < len → within addr len (addr + i) ≡ true
within-inside addr len i h =
    rw (le→leb addr (addr + i) (omega arith), lt→ltb (addr + i) (addr + len) (omega arith)) refl

within_not : (addr len a : ℕ) → Outside addr len a → within addr len a ≡ false
within_not addr len a (inl low) = rw (lt→leb addr a low) refl
within_not addr len a (inr high) = rw (le→leb addr a (omega arith), le→ltb a (addr + len) high) refl

-- The bytes of the file, and its kernel.
abbrev text_byte : ℕ → ℕ
text_byte p = p % 251 + 1

abbrev granting : Calls ℕ
granting = record {
  mmap_file = λ s addr len prot offset. (
    addr,
    record {
      byte =
          λ a. if within addr (round_up len) a then text_byte (offset + (a - addr)) else s.byte a;
      writable = λ a. if within addr (round_up len) a then can_write prot else s.writable a;
      kept = s.kept + 1;
    },
  );
  mmap_anon = λ s addr len prot. (
    addr,
    record {
      byte = λ a. if within addr (round_up len) a then 0 else s.byte a;
      writable = λ a. if within addr (round_up len) a then can_write prot else s.writable a;
      kept = s.kept + 1;
    },
  );
  mprotect = λ s addr len prot. (
    0,
    record s {
      writable = λ a. if within addr (round_up len) a then can_write prot else s.writable a;
    },
  );
}

granting-Maps : Maps granting text_byte 0x2000
granting-Maps = record {
  file_bytes = λ s addr len prot offset i e h in_file.
      rw (within-inside addr (round_up len) i (omega arith))
        (ap (λ n. text_byte (offset + n)) (omega arith));
  file_writable = λ s addr len prot offset i e h. rw (within-inside addr (round_up len) i h) refl;
  file_else = λ s addr len prot offset a e h. rw (within_not addr (round_up len) a h) refl;
  anon_bytes = λ s addr len prot i e h. rw (within-inside addr (round_up len) i h) refl;
  anon_else = λ s addr len prot a e h. rw (within_not addr (round_up len) a h) refl;
  protect_bytes = λ s addr len prot a. refl;
  protect_writable = λ s addr len prot i e h. rw (within-inside addr (round_up len) i h) refl;
}

abbrev tables : Tables ℕ
tables = record {
  map_phys = λ w va len pa perm. (0, w + 1);
  vm_mprotect = λ w va len perm. (0, w + 1);
}

abbrev text_segment : Phdr
text_segment = record {
  p_type = 1;
  p_flags = 5;
  p_offset = 0;
  p_vaddr = 0x40_0000;
  p_filesz = 0x800;
  p_memsz = 0x800;
}

abbrev data_segment : Phdr
data_segment = record {
  p_type = 1;
  p_flags = 6;
  p_offset = 0x800;
  p_vaddr = 0x40_2800;
  p_filesz = 0x100;
  p_memsz = 0x400;
}

abbrev note : Phdr
note = record { p_type = 4; p_flags = 4; p_offset = 0; p_vaddr = 0; p_filesz = 0; p_memsz = 0 }

abbrev headers : ℕ → Phdr
headers m = if m == 0 then text_segment else if m == 1 then data_segment else note

abbrev static : Ehdr
static = record { e_type = 2; e_entry = 0x40_0010; e_phoff = 64; e_phentsize = 56; e_phnum = 3 }

abbrev file : File
file = record { has_memory = λ len. true; pread = λ len offset. (len, headers) }

abbrev fresh : Space ℕ
fresh = record { byte = λ a. 7; writable = λ a. false; kept = 0 }

headers-Separate : Separate 0x2000 0 headers 0 3
headers-Separate = record { each = λ m low h. each m h; apart = λ m l low h last. apart m l h last }
  where
    each : (m : ℕ) → m < 3 → Loadable 0x2000 0 (headers m)
    each zero h =
        segment
          (record {
            is_load = refl;
            sizes = omega arith;
            aligned = refl;
            congruent = refl;
            in_file = omega arith;
            in_space = omega arith;
          })
          (omega arith)
    each (suc zero) h =
        segment
          (record {
            is_load = refl;
            sizes = omega arith;
            aligned = refl;
            congruent = refl;
            in_file = omega arith;
            in_space = omega arith;
          })
          (omega arith)
    each (suc (suc zero)) h = passed_over (λ e. omega arith) (λ e. omega arith)
    each (suc (suc (suc m))) h = absurd (omega arith)

    apart :
        (m l : ℕ)
        → m < l
        → l < 3
        → (headers m).p_type ≡ pt_load
        → (headers l).p_type ≡ pt_load
        → AreApart 0 (headers m) (headers l)
    apart zero zero h last p q = absurd (omega arith)
    apart zero (suc zero) h last p q = below (omega arith)
    apart zero (suc (suc zero)) h last p q = absurd (omega (arith, q))
    apart zero (suc (suc (suc l))) h last p q = absurd (omega arith)
    apart (suc m) zero h last p q = absurd (omega arith)
    apart (suc m) (suc zero) h last p q = absurd (omega arith)
    apart (suc m) (suc (suc zero)) h last p q = absurd (omega (arith, q))
    apart (suc m) (suc (suc (suc l))) h last p q = absurd (omega arith)

load_segments-Image_example :
    Ends
      (Stopped granting tables)
      (Image text_byte 0 headers 0 3 fresh)
      (load_segments granting tables file static fresh)
unfolding elf_open_phs
load_segments-Image_example =
    load_segments-Image granting tables granting-Maps file static fresh refl (omega arith) refl refl
      headers-Separate

static-Covers : Covers static text_segment
static-Covers = record { is_load = refl; from = omega arith; to = omega arith; place = refl }

load_elf-Started_example :
    Started granting tables text_byte static (load_elf granting tables file static fresh)
unfolding elf_open_phs
load_elf-Started_example =
    load_elf-Started granting tables granting-Maps file static fresh 0 refl refl (omega arith) refl
      refl headers-Separate (omega arith) static-Covers

-- A segment whose page is the last one of the address space, at an address of the kernel.
abbrev high_segment : Phdr
high_segment = record text_segment { p_vaddr = 0xFFFF_FFFF_FFFF_F000; p_memsz = 0x1000 }

insecure-wraps_example :
    (insecure 0 high_segment ≡ false)
    ↔ (EndsLow (0xFFFF_FFFF_FFFF_F000 + 0 + 0x1000) × ((0x1000 ≤ 0x7000_0000) × (0x800 ≤ 0x1000)))
insecure-wraps_example = insecure-wraps 0 high_segment (omega arith) (omega arith)
