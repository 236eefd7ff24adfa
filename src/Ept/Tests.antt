-- ===== src/Ept/Tests.antt =====
-- Runs on small extended page tables.
use libdbos.Common.{
  ◌-◌, ◌/◌, ℕ, ◌+◌, ◌≤◌, ◌≡◌, refl, true, false, none, some, [], arith, ◌==◌, if◌then◌else◌,
}
use libdbos.Ept.Addr.{Mm, hva_to_gpa, gpa_to_hva, get_layout, va_to_pa}
use libdbos.Ept.Addr.Windows.{IsLaidOut}
use libdbos.Ept.Addr.RoundTrip.{gpa_to_hva-hva_to_gpa, va_to_pa-hva_to_gpa}
use libdbos.Ept.Entry.{Host, Ept}
use libdbos.Ept.Lookup.{lookup_gpa}
use libdbos.Ept.Lookup.Stable.{walk, lookup_gpa-walk}
use libdbos.Ept.Notify.{
  Loop, invalidate_page, invalidate_range_start, range_flush, range_loop, range_fuel,
}
use libdbos.Ept.Notify.Clear.{Invalidated, invalidate_page_lem}
use libdbos.Ept.Notify.Range.{invalidate_range_start-returns}

-- A process below the middle of the address space, with 39 bits of physical addresses.
abbrev process : Mm
process = record { mmap_base = 0x7fff_f7ff_f000; start_stack = 0x7fff_fffd_e000; phys_bits = 39 }

process-IsLaidOut : IsLaidOut process
process-IsLaidOut = record {
  end_low = omega arith;
  end_high = omega arith;
  map_room = omega arith;
  stack_room = omega arith;
}

-- A host that counts releases.
abbrev counting : Host ℕ
counting = record {
  get_free_page = λ h. none;
  free_page = λ h p. h;
  put_page = λ h p. h + 1;
  get_page = λ h p. h;
  set_page_dirty = λ h p. h;
  set_page_dirty_lock = λ h p. h;
}

-- Tables at 0x1000 to 0x4000 with an entry for the address 0x5000.
abbrev tables : Ept ℕ
tables = record {
  mem = λ a.
      if a == 0x1000
      then 0x2007
      else if a == 0x2000
      then 0x3007
      else if a == 0x3000
      then 0x4007
      else if a == 0x4028
      then 0x9137
      else 0;
  host = 0;
  ept_root = 0x1000;
  ept_ad_enabled = true;
  pgtbl_pages_created = 0;
  host_huge_pages_connected = 0;
  host_4k_pages_connected = 0;
  syncs = [];
}

gpa_to_hva-hva_to_gpa_example :
    gpa_to_hva process (hva_to_gpa process 0x7fff_f7dd_0123) ≡ 0x7fff_f7dd_0123
unfolding hva_to_gpa
gpa_to_hva-hva_to_gpa_example =
    gpa_to_hva-hva_to_gpa process 0x7fff_f7dd_0123 process-IsLaidOut (omega arith)
      (λ same. absurd (omega (arith, same))) refl

va_to_pa-hva_to_gpa_example :
    va_to_pa (get_layout process) 0x7fff_fffd_d008 ≡ hva_to_gpa process 0x7fff_fffd_d008
unfolding hva_to_gpa
va_to_pa-hva_to_gpa_example =
    va_to_pa-hva_to_gpa process 0x7fff_fffd_d008 process-IsLaidOut (omega arith)
      (λ same. absurd (omega (arith, same))) refl refl

lookup_gpa-walk_example :
    lookup_gpa counting 0x5000 0 false tables ≡ (walk tables.mem 0x5000 0 3 0x1000, tables)
lookup_gpa-walk_example = lookup_gpa-walk counting 0x5000 0 tables

invalidate_page_lem_example :
    Invalidated counting process 0x5000
      (walk tables.mem (hva_to_gpa process 0x5000) 0 3 0x1000)
      tables
      (invalidate_page counting process 0x5000 tables)
invalidate_page_lem_example = invalidate_page_lem counting process 0x5000 tables

invalidate_range_start-returns_example :
    (l : Loop counting process) × (s' : Ept ℕ) × (range_loop counting process
        (range_fuel 0x5000 0x9000)
        0x9000
        (record { pos = 0x5000; sync_needed = false; gpa = 0; count = 0 })
        tables
      ≡ some (l, s'))
    × (invalidate_range_start counting process 0x5000 0x9000 tables
        ≡ some (range_flush counting process l s'))
    × (0x9000 ≤ l.pos)
    × (l.count ≤ (0x9000 - 0x5000 + 4095) / 4096)
invalidate_range_start-returns_example =
    invalidate_range_start-returns counting process 0x5000 0x9000 tables (omega arith)
