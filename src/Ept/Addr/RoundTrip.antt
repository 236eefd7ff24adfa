-- ===== src/Ept/Addr/RoundTrip.antt =====
-- The translations are inverse to one another, and the kernel and the library agree.
use libdbos.Common.{
  ℕ, ◌+◌, ◌-◌, ◌*◌, ◌^◌, ◌≤◌, ◌<◌, ◌≡◌, ◌≢◌, refl, sym, ap, ◌∙◌, Bool, true, false, ◌&&◌, ◌||◌, ltb,
  leb, ◌==◌, arith, lt→ltb, le→ltb, le→leb, lt→leb,
}
use libdbos.Ept.Addr.{
  gpa_stack_size, gpa_map_size, gpa_posted_intr_descs, gpa_pv_info_pages, apic_base, lg_align,
  page_of, addr_inval, Mm, phys_end, mmap_start, stack_start, hva_to_gpa, is_special, add64, sub64,
  gpa_to_hva, get_layout, va_to_pa,
}
use libdbos.Ept.Addr.Windows.{
  IsLaidOut, in_stack, in_map, below, out_of_range, stack_part, low_end, window,
}

map_end : (p : ℕ) → 2 ^ 36 ≤ p → p ≤ 2 ^ 52 → sub64 p gpa_stack_size ≡ p - gpa_stack_size
map_end p a b = omega arith

-- An offset moves from the base `q` to the base `l - w`.
rebase :
    (q off l w : ℕ)
    → off < w
    → w ≤ l
    → l < 2 ^ 64
    → off + q < 2 ^ 64
    → sub64 (add64 (sub64 (off + q) q) l) w ≡ sub64 l w + off
rebase q off l w a b c d = omega arith

lg_align-fits : (a : ℕ) → lg_align a < 2 ^ 64
lg_align-fits a = omega arith

back_low :
    (mm : Mm) (g : ℕ)
    → IsLaidOut mm
    → is_special (page_of g) ≡ false
    → g < phys_end mm - 2 ^ 36
    → gpa_to_hva mm g ≡ g
unfolding gpa_to_hva
back_low mm g h plain low =
    rw (plain, low_end (phys_end mm) h.end_low h.end_high, lt→ltb g (phys_end mm - 2 ^ 36) low) refl

back_map :
    (mm : Mm) (off : ℕ)
    → IsLaidOut mm
    → off < gpa_map_size
    → is_special (page_of (off + (phys_end mm - 2 ^ 36))) ≡ false
    → gpa_to_hva mm (off + (phys_end mm - 2 ^ 36)) ≡ mmap_start mm + off
unfolding gpa_to_hva
back_map mm off h fits plain =
    let g = off + (phys_end mm - 2 ^ 36) in
    let l = h.end_low in
    let u = h.end_high in
    rw
      (
        plain,
        low_end (phys_end mm) l u,
        map_end (phys_end mm) l u,
        le→ltb g (phys_end mm - 2 ^ 36) (omega arith),
        lt→ltb g (phys_end mm - gpa_stack_size) (omega arith),
      )
      (rebase (phys_end mm - 2 ^ 36) off (lg_align mm.mmap_base) gpa_map_size fits h.map_room
        (lg_align-fits mm.mmap_base) (omega arith))

back_stack :
    (mm : Mm) (off : ℕ)
    → IsLaidOut mm
    → off < gpa_stack_size
    → is_special (page_of (off + (phys_end mm - gpa_stack_size))) ≡ false
    → gpa_to_hva mm (off + (phys_end mm - gpa_stack_size)) ≡ stack_start mm + off
unfolding gpa_to_hva
back_stack mm off h fits plain =
    let g = off + (phys_end mm - gpa_stack_size) in
    let l = h.end_low in
    let u = h.end_high in
    rw
      (
        plain,
        low_end (phys_end mm) l u,
        map_end (phys_end mm) l u,
        le→ltb g (phys_end mm - 2 ^ 36) (omega arith),
        le→ltb g (phys_end mm - gpa_stack_size) (omega arith),
        lt→ltb g (phys_end mm) (omega arith),
      )
      (rebase (phys_end mm - gpa_stack_size) off (lg_align mm.start_stack) gpa_stack_size fits
        h.stack_room (lg_align-fits mm.start_stack) (omega arith))

-- gpa_to_hva takes the guest address of a host address back to the host address, for a process
-- whose windows do not wrap around and a physical address of 36 to 52 bits: whenever hva_to_gpa
-- does not return ADDR_INVAL and its result is not in one of the pages that the hypervisor keeps
-- for itself (the APIC page, the posted-interrupt descriptors and the paravirtual pages).
pub gpa_to_hva-hva_to_gpa :
    (mm : Mm) (hva : ℕ)
    → IsLaidOut mm
    → hva < 2 ^ 64
    → hva_to_gpa mm hva ≢ addr_inval
    → is_special (page_of (hva_to_gpa mm hva)) ≡ false
    → gpa_to_hva mm (hva_to_gpa mm hva) ≡ hva
gpa_to_hva-hva_to_gpa mm hva h fits valid plain = elim (window mm hva h fits) [
  | in_stack a b eq ↦ rw eq (
      back_stack mm (hva - stack_start mm) h (omega arith) (ap special (sym eq) ∙ plain)
      ∙ omega arith)
  | in_map a b c eq ↦ rw eq (
      back_map mm (hva - mmap_start mm) h (omega arith) (ap special (sym eq) ∙ plain) ∙ omega arith)
  | below a b c eq ↦ rw eq (back_low mm hva h (ap special (sym eq) ∙ plain) c)
  | out_of_range eq ↦ absurd (valid eq)
]
  where
    special : ℕ → Bool
    special g = is_special (page_of g)

not_special :
    (page : ℕ)
    → is_special page ≡ false
    → ((leb gpa_posted_intr_descs page && ltb page (gpa_posted_intr_descs + 256 * 4096)) ≡ false)
      × ((leb gpa_pv_info_pages page && ltb page (gpa_pv_info_pages + 256 * 4096)) ≡ false)
not_special page h = parts _ _ _ h
  where
    parts : (a b c : Bool) → (a || b || c) ≡ false → (b ≡ false) × (c ≡ false)
    parts false false false h = (refl, refl)
    parts false true c h = absurd (ground arith)
    parts false false true h = absurd (ground arith)
    parts true b c h = absurd (ground arith)

map_part_user :
    (p s x : ℕ)
    → s ≤ x
    → x < s + gpa_map_size
    → x < 2 ^ 64
    → 2 ^ 36 ≤ p
    → p ≤ 2 ^ 52
    → add64 (sub64 x s) (p - 2 ^ 36) ≡ x - s + (p - 2 ^ 36)
map_part_user p s x a b c d e = omega arith

-- The kernel and the library agree: with the layout that DUNE_GET_LAYOUT returns, dune_va_to_pa
-- gives the guest address that the kernel's hva_to_gpa gives, for every address that hva_to_gpa
-- does not refuse and that lies in none of the pages that the library translates on its own
-- (the APIC page, the posted-interrupt descriptors and the paravirtual pages).
pub va_to_pa-hva_to_gpa :
    (mm : Mm) (hva : ℕ)
    → IsLaidOut mm
    → hva < 2 ^ 64
    → hva_to_gpa mm hva ≢ addr_inval
    → (page_of hva == apic_base) ≡ false
    → is_special (page_of hva) ≡ false
    → va_to_pa (get_layout mm) hva ≡ hva_to_gpa mm hva
unfolding va_to_pa
va_to_pa-hva_to_gpa mm hva h fits valid not_apic plain =
    let (posted, pv) = not_special (page_of hva) plain in
    elim (window mm hva h fits) [
      | in_stack a b eq ↦
          rw (eq, not_apic, posted, pv, le→leb (stack_start mm) hva a)
            (stack_part (phys_end mm) (stack_start mm) hva a b fits h.end_low h.end_high)
      | in_map a b c eq ↦
          rw
            (
              eq,
              not_apic,
              posted,
              pv,
              lt→leb (stack_start mm) hva a,
              le→leb (mmap_start mm) hva b,
              low_end (phys_end mm) h.end_low h.end_high,
            )
            (map_part_user (phys_end mm) (mmap_start mm) hva b c fits h.end_low h.end_high)
      | below a b c eq ↦
          rw (eq, not_apic, posted, pv, lt→leb (stack_start mm) hva a, lt→leb (mmap_start mm) hva b)
            refl
      | out_of_range eq ↦ absurd (valid eq)
    ]
