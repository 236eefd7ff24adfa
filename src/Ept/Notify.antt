-- ===== src/Ept/Notify.antt =====
-- The notifiers of kern/ept.c: pages that the host takes back, and the A bits it asks for.
pub mod Clear
pub mod Range
use libdbos.Common.{
  ℕ, zero, suc, ◌+◌, ◌-◌, ◌*◌, ◌/◌, ◌%◌, ◌^◌, Bool, true, false, not, ◌&&◌, ◌||◌, Option, none,
  some, List, [], ◌∷◌, bit_and, bit_or, ltb, leb, ◌==◌, if◌then◌else◌,
}
use libdbos.Ept.Addr.{Mm, addr_inval, hva_to_gpa, add64}
use libdbos.Ept.Entry.{epte_a, epte_big, Host, Ept, Sync, sync_addr, sync_all, store, clear_epte}
use libdbos.Ept.Lookup.{Reply, found, failed, lookup_gpa, lookup}

abbrev pub huge_page_size : ℕ
huge_page_size = 2097152

-- `flush & x` for a `bool`, which is 0 or 1 as an `int`.
abbrev pub bool_and : Bool → ℕ → ℕ
bool_and flush x = bit_and (if flush then 1 else 0) x

-- Rounds that are enough for a range: one for each page, and one more.
abbrev pub range_fuel : ℕ → ℕ → ℕ
range_fuel start range_end = (range_end - start) / 4096 + 1

module _ {H : Type 0} (host : Host H) (mm : Mm) where
  abbrev pub flush_with : Sync → Ept H → Ept H
  flush_with f s = record s { syncs = f ∷ s.syncs }

  -- `ept_invalidate_page` after its lookup and after its removal.
  unfoldable pub invalidate_flush : (gpa : ℕ) → Bool × Ept H → ℕ × Ept H
  invalidate_flush gpa (true, s) = (1, flush_with (sync_addr gpa) s)
  invalidate_flush gpa (false, s) = (0, s)

  unfoldable pub invalidate_entry : (gpa : ℕ) → Reply × Ept H → ℕ × Ept H
  invalidate_entry gpa (failed e, s) = (0, s)
  invalidate_entry gpa (found a, s) = invalidate_flush gpa (clear_epte host a s)

  -- `ept_invalidate_page`: 1 for an entry that was removed.
  unfoldable pub invalidate_page : ℕ → Ept H → ℕ × Ept H
  invalidate_page addr s =
      if hva_to_gpa mm addr == addr_inval
      then (0, s)
      else invalidate_entry (hva_to_gpa mm addr) (lookup_gpa host (hva_to_gpa mm addr) 0 false s)

  -- `!ret`
  unfoldable pub is_found : Reply × Ept H → ℕ × Ept H
  is_found (failed e, s) = (0, s)
  is_found (found a, s) = (1, s)

  -- `ept_check_page_mapped`
  unfoldable pub check_page_mapped : ℕ → Ept H → ℕ × Ept H
  check_page_mapped addr s =
      if hva_to_gpa mm addr == addr_inval
      then (0, s)
      else is_found (lookup_gpa host (hva_to_gpa mm addr) 0 false s)

  -- The end of `ept_check_page_accessed` for the entry at `a`.
  unfoldable pub read_accessed : (gpa : ℕ) → Bool → ℕ → Ept H → ℕ × Ept H
  read_accessed gpa flush a s =
      let accessed = bit_and (s.mem a) epte_a in
      let cleared = store s a (bit_and (s.mem a) (2 ^ 64 - 1 - epte_a)) in
      if bool_and flush accessed == 0
      then (accessed, s)
      else (accessed, flush_with (sync_addr gpa) cleared)

  unfoldable pub accessed_entry : (gpa : ℕ) → Bool → Reply × Ept H → ℕ × Ept H
  accessed_entry gpa flush (failed e, s) = (0, s)
  accessed_entry gpa flush (found a, s) = read_accessed gpa flush a s

  -- `ept_check_page_accessed`
  unfoldable pub check_page_accessed : ℕ → Bool → Ept H → ℕ × Ept H
  check_page_accessed addr flush s =
      if hva_to_gpa mm addr == addr_inval
      then (0, s)
      else accessed_entry (hva_to_gpa mm addr) flush
          (lookup_gpa host (hva_to_gpa mm addr) 0 false s)

  -- The locals of the loop of `ept_mmu_notifier_invalidate_range_start`.
  pub record Loop : Type 0 where
    pub pos : ℕ
    pub sync_needed : Bool
    pub gpa : ℕ
    pub count : ℕ

  -- One round of the loop, after its lookup.
  unfoldable pub range_entry : Loop → Reply × Ept H → Loop × Ept H
  range_entry l (failed e, s) = (record l { pos = add64 l.pos 4096; count = l.count + 1 }, s)
  range_entry l (found a, s) =
      let (removed, s') = clear_epte host a s in
      (
        record {
          pos = add64 l.pos (if epte_big (s.mem a) then huge_page_size else 4096);
          sync_needed = not (s.mem a == 0);
          gpa = hva_to_gpa mm l.pos;
          count = l.count + 1;
        },
        s',
      )

  unfoldable pub range_round : Loop → Ept H → Loop × Ept H
  range_round l s = range_entry l (lookup host mm l.pos 0 false s)

  -- `while (pos < end)`, on fuel; `none` is no fuel left.
  unfoldable pub range_loop : ℕ → (range_end : ℕ) → Loop → Ept H → Option (Loop × Ept H)
  range_loop zero range_end l s = if ltb l.pos range_end then none else some (l, s)
  range_loop (suc fuel) range_end l s =
      let (l', s') = range_round l s in
      let rest = range_loop fuel range_end l' s' in
      if ltb l.pos range_end then rest else some (l, s)

  -- The flush at the end.
  unfoldable pub range_flush : Loop → Ept H → Ept H
  range_flush l s =
      if l.sync_needed
      then if l.count == 1
        then (if l.gpa == 0 then s else flush_with (sync_addr l.gpa) s)
        else flush_with sync_all s
      else s

  unfoldable pub range_finish : Option (Loop × Ept H) → Option (Ept H)
  range_finish none = none
  range_finish (some (l, s')) = some (range_flush l s')

  -- `ept_mmu_notifier_invalidate_range_start`
  unfoldable pub invalidate_range_start : (start range_end : ℕ) → Ept H → Option (Ept H)
  invalidate_range_start start range_end s = range_finish (
      range_loop (range_fuel start range_end) range_end
        (record { pos = start; sync_needed = false; gpa = 0; count = 0 }) s)

  -- `for (; start < end; start += PAGE_SIZE) ret |= f(...)` with so many rounds.
  pub or_pages : (ℕ → Ept H → ℕ × Ept H) → ℕ → (start ret : ℕ) → Ept H → ℕ × Ept H
  or_pages f zero start ret s = (ret, s)
  or_pages f (suc n) start ret s =
      let (r, s') = f start s in or_pages f n (start + 4096) (bit_or ret r) s'

  -- `ept_mmu_notifier_clear_flush_young`, with as many rounds as there are pages in the range.
  pub clear_flush_young : (start range_end : ℕ) → Ept H → ℕ × Ept H
  clear_flush_young start range_end s =
      let pages = (range_end - start + 4095) / 4096 in
      if s.ept_ad_enabled
      then or_pages (λ p. check_page_accessed p true) pages start 0 s
      else or_pages invalidate_page pages start 0 s

  -- `ept_mmu_notifier_test_young`
  pub test_young : ℕ → Ept H → ℕ × Ept H
  test_young address s =
      if s.ept_ad_enabled then check_page_accessed address false s else check_page_mapped address s
