-- ===== src/Ept/Notify/Range.antt =====
-- The loop of `ept_mmu_notifier_invalidate_range_start`.
use libdbos.Common.{
  ℕ, zero, suc, ◌+◌, ◌-◌, ◌*◌, ◌/◌, ◌^◌, ◌≤◌, ◌<◌, ◌≡◌, ◌≢◌, refl, ap, inl, inr, true, false, some,
  arith, ltb, Bool-cases, ltb→lt, ltb→le, lt→ltb, le→ltb, ne→==, eq→==,
}
use libdbos.Ept.Addr.{Mm, hva_to_gpa, add64}
use libdbos.Ept.Entry.{epte_big, Host, Ept, clear_epte, store, on_host, free_ept_page}
use libdbos.Ept.Lookup.{Reply, found, failed, lookup}
use libdbos.Ept.Notify.{
  huge_page_size, Loop, range_entry, range_round, range_loop, range_flush, range_fuel, range_finish,
  invalidate_range_start,
}

module _ {H : Type 0} (host : Host H) (mm : Mm) where
  -- A round goes on by at least a page and by at most a huge page.
  abbrev Moves : ℕ → ℕ → Type 0
  Moves pos pos' = (pos + 4096 ≤ pos') × (pos' ≤ pos + huge_page_size)

  range_entry-Moves :
      (l : Loop host mm) (r : Reply) (s : Ept H)
      → l.pos + huge_page_size < 2 ^ 64
      → let (l', s') = range_entry host mm l (r, s) in Moves l.pos l'.pos
  unfolding range_entry
  range_entry-Moves l (failed e) s h = (omega arith, omega arith)
  range_entry-Moves l (found a) s h = elim (Bool-cases (epte_big (s.mem a))) [
    | inl big ↦ rw big (omega arith, omega arith)
    | inr small ↦ rw small (omega arith, omega arith)
  ]

  range_round-Moves :
      (l : Loop host mm) (s : Ept H)
      → l.pos + huge_page_size < 2 ^ 64
      → let (l', s') = range_round host mm l s in Moves l.pos l'.pos
  unfolding range_round
  range_round-Moves l s h =
      let (r, s1) = lookup host mm l.pos 0 false s in range_entry-Moves l r s1 h

  range_entry-count :
      (l : Loop host mm) (r : Reply) (s : Ept H)
      → (range_entry host mm l (r, s)).0.count ≡ l.count + 1
  unfolding range_entry
  range_entry-count l (failed e) s = refl
  range_entry-count l (found a) s = refl

  range_round-count :
      (l : Loop host mm) (s : Ept H) → (range_round host mm l s).0.count ≡ l.count + 1
  unfolding range_round
  range_round-count l s = let (r, s1) = lookup host mm l.pos 0 false s in range_entry-count l r s1

  range_loop_lem :
      (fuel range_end : ℕ) (l : Loop host mm) (s : Ept H)
      → range_end + huge_page_size < 2 ^ 64
      → range_end ≤ l.pos + fuel * 4096
      → (l' : Loop host mm) × (s' : Ept H) × (range_loop host mm fuel range_end l s ≡ some (l', s'))
        × (range_end ≤ l'.pos)
        × (l'.count ≤ l.count + (range_end - l.pos + 4095) / 4096)
  unfolding range_loop
  range_loop_lem zero range_end l s h k =
      rw (le→ltb l.pos range_end (omega arith)) (l, s, refl, omega arith, omega arith)
  range_loop_lem (suc fuel) range_end l s h k = elim (Bool-cases (ltb l.pos range_end)) [
    | inr over ↦ rw over (l, s, refl, ltb→le _ _ over, omega arith)
    | inl more ↦
        let (on, bound) = range_round-Moves l s (omega (arith, ltb→lt l.pos range_end more)) in
        let next = range_round host mm l s in
        let (l1, s1) = next in
        let (l2, s2, eq, past, few) =
          range_loop_lem fuel range_end l1 s1 h (omega (arith, k, on)) in
        let once : l1.count ≡ l.count + 1 = range_round-count l s in
        rw more (l2, s2, eq, past, omega (arith, few, once, on, ltb→lt l.pos range_end more))
  ]

  -- ept_mmu_notifier_invalidate_range_start always returns, for a range that ends at least two
  -- megabytes below the top of the address space: its loop, from the start of the range on and with
  -- the rounds that the model gives it, ends past the end of the range, it has counted at most one
  -- round for each page or part of a page of the range, and the function flushes as the values that
  -- the loop leaves say.
  pub invalidate_range_start-returns :
      (start range_end : ℕ) (s : Ept H)
      → range_end + huge_page_size < 2 ^ 64
      → (l : Loop host mm) × (s' : Ept H) × (range_loop host mm
            (range_fuel start range_end)
            range_end
            (record { pos = start; sync_needed = false; gpa = 0; count = 0 })
            s
          ≡ some (l, s'))
        × (invalidate_range_start host mm start range_end s ≡ some (range_flush host mm l s'))
        × (range_end ≤ l.pos)
        × (l.count ≤ (range_end - start + 4095) / 4096)
  unfolding invalidate_range_start range_finish
  invalidate_range_start-returns start range_end s h =
      let (l, s', eq, past, few) =
        range_loop_lem (range_fuel start range_end) range_end
          (record { pos = start; sync_needed = false; gpa = 0; count = 0 }) s h (omega arith) in
      (l, s', eq, ap (range_finish host mm) eq, past, omega (arith, few))

  add64-lt : (a b : ℕ) → a + b < 2 ^ 64 → add64 a b ≡ a + b
  add64-lt a b h = omega arith

  loop_round :
      (fuel range_end : ℕ) (l : Loop host mm) (s : Ept H) (l' : Loop host mm) (s' : Ept H)
      → ltb l.pos range_end ≡ true
      → range_round host mm l s ≡ (l', s')
      → range_loop host mm (suc fuel) range_end l s ≡ range_loop host mm fuel range_end l' s'
  unfolding range_loop
  loop_round fuel range_end l s l' s' more eq =
      rw more (ap (λ (p : Loop host mm × Ept H). range_loop host mm fuel range_end p.0 p.1) eq)

  loop_end :
      (fuel range_end : ℕ) (l : Loop host mm) (s : Ept H)
      → ltb l.pos range_end ≡ false
      → range_loop host mm fuel range_end l s ≡ some (l, s)
  unfolding range_loop
  loop_end zero range_end l s over = rw over refl
  loop_end (suc fuel) range_end l s over = rw over refl

  -- The round that finds a small page.
  round_page :
      (l : Loop host mm) (a : ℕ) (s : Ept H)
      → lookup host mm l.pos 0 false s ≡ (found a, s)
      → s.mem a ≢ 0
      → epte_big (s.mem a) ≡ false
      → l.pos + 4096 < 2 ^ 64
      → range_round host mm l s ≡ (
        record {
          pos = l.pos + 4096;
          sync_needed = true;
          gpa = hva_to_gpa mm l.pos;
          count = l.count + 1;
        },
        store (on_host host (free_ept_page host (s.mem a)) s) a 0,
      )
  unfolding range_round range_entry clear_epte
  round_page l a s at there small fits =
      rw (at, small, ne→== (s.mem a) 0 there, add64-lt l.pos 4096 fits) refl

  -- The round that finds an empty entry.
  round_empty :
      (l : Loop host mm) (a : ℕ) (s : Ept H)
      → lookup host mm l.pos 0 false s ≡ (found a, s)
      → s.mem a ≡ 0
      → l.pos + 4096 < 2 ^ 64
      → range_round host mm l s ≡ (
        record {
          pos = l.pos + 4096;
          sync_needed = false;
          gpa = hva_to_gpa mm l.pos;
          count = l.count + 1;
        },
        s,
      )
  unfolding range_round range_entry clear_epte epte_big
  round_empty l a s at none_there fits = rw (at, none_there, add64-lt l.pos 4096 fits) refl

  -- ept_mmu_notifier_invalidate_range_start forgets a flush: of a range of two pages, the first
  -- with an entry for a small page and the second with an empty entry, the first entry is set to
  -- 0, but no flush of the TLB is requested.
  pub invalidate_range_start-forgets :
      (start a1 a2 : ℕ) (s : Ept H)
      → start + 8192 + huge_page_size < 2 ^ 64
      → lookup host mm start 0 false s ≡ (found a1, s)
      → s.mem a1 ≢ 0
      → epte_big (s.mem a1) ≡ false
      → let s1 = store (on_host host (free_ept_page host (s.mem a1)) s) a1 0 in
        lookup host mm (start + 4096) 0 false s1 ≡ (found a2, s1)
        → s1.mem a2 ≡ 0
        → (s' : Ept H) × (invalidate_range_start host mm start (start + 8192) s ≡ some s')
          × (s'.mem a1 ≡ 0)
          × (s'.syncs ≡ s.syncs)
  unfolding invalidate_range_start range_finish range_flush
  invalidate_range_start-forgets start a1 a2 s fits first there small second none_there =
      let s1 = store (on_host host (free_ept_page host (s.mem a1)) s) a1 0 in
      let three : (start + 8192 - start) / 4096 + 1 ≡ 3 = omega arith in
      let l0 : Loop host mm = record { pos = start; sync_needed = false; gpa = 0; count = 0 } in
      let l1 : Loop host mm = record {
        pos = start + 4096;
        sync_needed = true;
        gpa = hva_to_gpa mm start;
        count = 1;
      } in
      let l2 : Loop host mm = record {
        pos = start + 4096 + 4096;
        sync_needed = false;
        gpa = hva_to_gpa mm (start + 4096);
        count = 2;
      } in
      (
        s1,
        rw
            (
              three,
              loop_round 2 (start + 8192) l0 s l1 s1 (lt→ltb _ _ (omega arith))
                  (round_page l0 a1 s first there small (omega arith)),
              loop_round 1 (start + 8192) l1 s1 l2 s1 (lt→ltb _ _ (omega arith))
                  (round_empty l1 a2 s1 second none_there (omega arith)),
              loop_end 1 (start + 8192) l2 s1 (le→ltb _ _ (omega arith)),
            )
            refl,
        rw (eq→== a1 a1 refl) refl,
        refl,
      )
