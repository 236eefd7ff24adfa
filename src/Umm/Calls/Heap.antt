-- ===== src/Umm/Calls/Heap.antt =====
-- `umm_brk`, for any break.
use libdbos.Common.{
  ℕ, ◌+◌, ◌-◌, ◌%◌, ◌^◌, ◌≤◌, ◌<◌, ◌≡◌, refl, inl, inr, false, Option, ltb, ◌==◌, arith, Bool-cases,
  ltb→lt, ltb→le, ne→==, le→ltb,
}
use libdbos.Ept.Addr.{DuneLayout}
use libdbos.Umm.{
  app_mmap_len, Codes, Sys, PageTables, Umm, Result, round_page, brk_to, umm_brk, read_write,
}
use libdbos.Umm.Inv.{IsApart, IsBase, heap_fits, brk_to-Grown, Grown}
use libdbos.Umm.Calls.Base.{IsBounded, Apart, died, ends, refuses_anon}

far_up :
    (b m x : ℕ)
    → b + m ≤ app_mmap_len
    → 2 ^ 63 ≤ x
    → x + 4095 < 2 ^ 64
    → (b + m + round_page x) % 2 ^ 64 < app_mmap_len
    → 2 ^ 63 ≤ round_page x - b
far_up b m x a large fits left = omega arith

empty :
    (m x : ℕ) → m ≤ app_mmap_len → x < 2 ^ 64 → 2 ^ 64 ≤ x + 4095 → round_page x + m ≤ app_mmap_len
empty m x a word wraps = omega arith

module _ {W : Type 0} (sys : Sys W) (tables : PageTables W) (codes : Codes)
    (layout : DuneLayout) where
  Grown-Apart :
      {u : Umm W} {brk : ℕ} {o : Option (Result × Umm W)}
      → IsApart sys tables codes layout u
      → Grown sys tables codes layout u brk o
      → (Apart sys tables codes layout) o
  Grown-Apart a Grown.died = died
  Grown-Apart a (Grown.refused e u' b m) = ends _ u' (record {
    apart = omega (arith, a.apart, b, m);
    brk_pages = omega (arith, a.brk_pages, b);
    mmap_pages = omega (arith, a.mmap_pages, m);
  })
  Grown-Apart a (Grown.asked e) = ends _ _ a
  Grown-Apart a (Grown.set u' b m a') = ends _ u' a'

  -- A break so high that its length wraps in `umm_space_left` grows the heap by 2^63 bytes or more.
  brk_to-refused :
      (u : Umm W) (brk len : ℕ)
      → IsBounded sys
      → IsApart sys tables codes layout u
      → 2 ^ 63 ≤ len - u.brk_len
      → (Apart sys tables codes layout) (brk_to sys tables codes layout brk len u)
  unfolding brk_to
  brk_to-refused u brk len k a large =
      rw (ne→== len u.brk_len (λ e. absurd (omega (arith, e))), le→ltb len u.brk_len (omega arith))
        (refuses_anon sys tables codes layout u _ _ read_write false _ k large a)

  -- A break of 2^63 or more above the base is refused, or wraps around to an empty heap.
  brk_to-wraps :
      (u : Umm W) (x brk : ℕ)
      → x ≡ brk - layout.base_map
      → IsBounded sys
      → IsApart sys tables codes layout u
      → brk < 2 ^ 64
      → 2 ^ 63 ≤ x
      → (u.brk_len + u.mmap_len + round_page x) % 2 ^ 64 < app_mmap_len
      → (Apart sys tables codes layout) (brk_to sys tables codes layout brk (round_page x) u)
  brk_to-wraps u x brk e k a word large left = elim (Bool-cases (ltb (x + 4095) (2 ^ 64))) [
    | inl fits ↦
        brk_to-refused u brk (round_page x) k a
          (far_up u.brk_len u.mmap_len x a.apart large (ltb→lt _ _ fits) left)
    | inr wraps ↦ rw e (
        Grown-Apart a (
          brk_to-Grown sys tables codes layout u brk a (
            empty u.mmap_len (brk - layout.base_map) (omega (arith, a.apart))
              (omega (arith, e, word)) (omega (arith, e, ltb→le _ _ wraps)))))
  ]

  pub umm_brk-Apart :
      (brk : ℕ) (u : Umm W)
      → IsBounded sys
      → IsBase sys tables codes layout
      → IsApart sys tables codes layout u
      → brk < 2 ^ 64
      → (Apart sys tables codes layout) (umm_brk sys tables codes layout brk u)
  unfolding umm_brk
  umm_brk-Apart brk u k b a word = elim (Bool-cases (brk == 0)) [
    | inl query ↦ rw query (ends _ _ a)
    | inr change ↦ rw change (elim (Bool-cases (ltb brk layout.base_map)) [
      | inl low ↦ rw low (ends _ _ a)
      | inr above ↦
          rw above
            (elim (Bool-cases (
              ltb ((u.brk_len + u.mmap_len + round_page (brk - layout.base_map)) % 2 ^ 64)
                app_mmap_len)) [
                  | inr full ↦ rw full (ends _ _ a)
                  | inl left ↦ rw left (elim (Bool-cases (ltb (brk - layout.base_map) (2 ^ 63))) [
                    | inl small ↦ Grown-Apart a (
                        brk_to-Grown sys tables codes layout u brk a (
                          heap_fits u.brk_len u.mmap_len (brk - layout.base_map) a.apart
                            (ltb→lt _ _ small) (ltb→lt _ _ left)))
                    | inr large ↦
                        brk_to-wraps u (brk - layout.base_map) brk refl k a word (ltb→le _ _ large)
                          (ltb→lt _ _ left)
                  ])
                ])
    ])
  ]
