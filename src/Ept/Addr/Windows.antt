-- ===== src/Ept/Addr/Windows.antt =====
-- The windows of a process: which of them an address is in, and where it goes.
use libdbos.Common.{
  ℕ, ◌+◌, ◌-◌, ◌^◌, ◌≤◌, ◌<◌, ◌≡◌, refl, inl, inr, leb, arith, leb→le, leb→lt, Bool-cases,
}
use libdbos.Ept.Addr.{
  gpa_stack_size, gpa_map_size, lg_align, addr_inval, Mm, phys_end, mmap_start, stack_start,
  hva_to_gpa, add64, sub64,
}

-- The windows of a process do not wrap around: the aligned bases are addresses of 64 bits above
-- the sizes of their windows, and 36 to 52 bits make a physical address.
pub record IsLaidOut (mm : Mm) : Type 0 where
  pub end_low : 2 ^ 36 ≤ phys_end mm
  pub end_high : phys_end mm ≤ 2 ^ 52
  pub map_room : gpa_map_size ≤ lg_align mm.mmap_base
  pub stack_room : gpa_stack_size ≤ lg_align mm.start_stack

-- The three windows of host addresses, with the guest addresses they go to.
pub data Window (mm : Mm) (hva : ℕ) : Type 0 where
  in_stack :
      stack_start mm ≤ hva
      → hva < stack_start mm + gpa_stack_size
      → hva_to_gpa mm hva ≡ hva - stack_start mm + (phys_end mm - gpa_stack_size)
      → Window mm hva
  in_map :
      hva < stack_start mm
      → mmap_start mm ≤ hva
      → hva < mmap_start mm + gpa_map_size
      → hva_to_gpa mm hva ≡ hva - mmap_start mm + (phys_end mm - 2 ^ 36)
      → Window mm hva
  below :
      hva < stack_start mm
      → hva < mmap_start mm
      → hva < phys_end mm - 2 ^ 36
      → hva_to_gpa mm hva ≡ hva
      → Window mm hva
  out_of_range : hva_to_gpa mm hva ≡ addr_inval → Window mm hva

sub64-le : (a b : ℕ) → b ≤ a → a < 2 ^ 64 → sub64 a b ≡ a - b
sub64-le a b h k = omega arith

add64-lt : (a b : ℕ) → a + b < 2 ^ 64 → add64 a b ≡ a + b
add64-lt a b h = omega arith

pub stack_part :
    (p s x : ℕ)
    → s ≤ x
    → x < s + 2 ^ 30
    → x < 2 ^ 64
    → 2 ^ 36 ≤ p
    → p ≤ 2 ^ 52
    → sub64 (add64 (sub64 x s) p) gpa_stack_size ≡ x - s + (p - gpa_stack_size)
stack_part p s x a b c d e = omega arith

map_part :
    (p s x : ℕ)
    → s ≤ x
    → x < s + gpa_map_size
    → x < 2 ^ 64
    → 2 ^ 36 ≤ p
    → p ≤ 2 ^ 52
    → sub64 (sub64 (add64 (sub64 x s) p) gpa_stack_size) gpa_map_size ≡ x - s + (p - 2 ^ 36)
map_part p s x a b c d e = omega arith

pub low_end :
    (p : ℕ) → 2 ^ 36 ≤ p → p ≤ 2 ^ 52 → sub64 (sub64 p gpa_stack_size) gpa_map_size ≡ p - 2 ^ 36
low_end p a b = omega arith

pub window : (mm : Mm) (hva : ℕ) → IsLaidOut mm → hva < 2 ^ 64 → Window mm hva
unfolding hva_to_gpa
window mm hva h fits = elim (Bool-cases (leb (stack_start mm) hva)) [
  | inl high ↦ elim (Bool-cases (leb gpa_stack_size (sub64 hva (stack_start mm)))) [
    | inl far ↦ out_of_range (rw (high, far) refl)
    | inr near ↦
        let low = leb→le _ _ high in
        let room = leb→lt _ _ near in
        let short : hva < stack_start mm + gpa_stack_size =
          omega (arith, sub64-le hva (stack_start mm) low fits) in
        in_stack low short (
          rw (high, near)
            (stack_part (phys_end mm) (stack_start mm) hva low short fits h.end_low h.end_high))
  ]
  | inr low ↦ elim (Bool-cases (leb (mmap_start mm) hva)) [
    | inl mapped ↦ elim (Bool-cases (leb gpa_map_size (sub64 hva (mmap_start mm)))) [
      | inl far ↦ out_of_range (rw (low, mapped, far) refl)
      | inr near ↦
          let base = leb→le _ _ mapped in
          let room = leb→lt _ _ near in
          let short : hva < mmap_start mm + gpa_map_size =
            omega (arith, sub64-le hva (mmap_start mm) base fits) in
          in_map (leb→lt _ _ low) base short (
            rw (low, mapped, near)
              (map_part (phys_end mm) (mmap_start mm) hva base short fits h.end_low h.end_high))
    ]
    | inr lowest ↦
        elim (Bool-cases (leb (sub64 (sub64 (phys_end mm) gpa_stack_size) gpa_map_size) hva)) [
          | inl far ↦ out_of_range (rw (low, lowest, far) refl)
          | inr near ↦
              let room = leb→lt _ _ near in
              below (leb→lt _ _ low) (leb→lt _ _ lowest)
                (omega (arith, low_end (phys_end mm) h.end_low h.end_high))
                (rw (low, lowest, near) refl)
        ]
  ]
]
