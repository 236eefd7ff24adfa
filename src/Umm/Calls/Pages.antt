-- ===== src/Umm/Calls/Pages.antt =====
-- `umm_munmap`, `umm_mprotect` and `umm_alloc_stack`.
use libdbos.Common.{
  ℕ, ◌+◌, ◌%◌, ◌^◌, inl, inr, some, ltb, ◌==◌, arith, Bool-cases, Option-cases, ltb→lt,
  if◌then◌else◌,
}
use libdbos.Ept.Addr.{DuneLayout}
use libdbos.Umm.{
  app_mmap_len, app_stack_size, Prot, Codes, Sys, PageTables, Umm, fail, umm_munmap, then_unmap,
  round_big, prot_to_perm, umm_mprotect, umm_alloc_stack, mem_ref_is_safe,
}
use libdbos.Umm.Inv.{IsApart, IsBase}
use libdbos.Umm.Calls.Base.{Apart, died, ends, same_lengths, succeeds}

module _ {W : Type 0} (sys : Sys W) (tables : PageTables W) (codes : Codes)
    (layout : DuneLayout) where
  then_unmap-Apart :
      (addr len : ℕ) (u : Umm W) (w : W)
      → IsApart sys tables codes layout u
      → (Apart sys tables codes layout) (then_unmap sys tables codes layout addr len u w)
  then_unmap-Apart addr len u w a = elim (Option-cases (tables.unmap w addr len)) [
    | inl ended ↦ rw (ended, then_unmap) died
    | inr (w', e) ↦ rw (e, then_unmap) (ends _ _ (same_lengths sys tables codes layout u w' a))
  ]

  pub umm_munmap-Apart :
      (addr len : ℕ) (u : Umm W)
      → IsApart sys tables codes layout u
      → (Apart sys tables codes layout) (umm_munmap sys tables codes layout addr len u)
  unfolding umm_munmap
  umm_munmap-Apart addr len u a = elim (Bool-cases (mem_ref_is_safe layout.base_map addr len)) [
    | inr outside ↦ rw outside (ends _ _ a)
    | inl safe ↦ rw safe (elim (Bool-cases ((sys.munmap u.world addr len).0 == 0)) [
      | inl freed ↦ rw freed (then_unmap-Apart addr len u _ a)
      | inr kept ↦ rw kept (big _)
    ])
  ]
    where
      big :
          (ret : ℕ)
          → (Apart sys tables codes layout) (
              if ret == 0
              then then_unmap sys tables codes layout addr
                  (round_big sys tables codes layout len)
                  u
                  (sys.munmap
                    (sys.munmap u.world addr len).1
                    addr
                    (round_big sys tables codes layout len)).1
              else some (
                fail ret,
                record u {
                  world =
                      (sys.munmap
                        (sys.munmap u.world addr len).1
                        addr
                        (round_big sys tables codes layout len)).1;
                },
              ))
      big ret = elim (Bool-cases (ret == 0)) [
        | inl freed ↦ rw freed (then_unmap-Apart addr _ u _ a)
        | inr kept ↦ rw kept (ends _ _ (same_lengths sys tables codes layout u _ a))
      ]

  pub umm_mprotect-Apart :
      (addr len : ℕ) (prot : Prot) (u : Umm W)
      → IsApart sys tables codes layout u
      → (Apart sys tables codes layout) (umm_mprotect sys tables codes layout addr len prot u)
  unfolding umm_mprotect
  umm_mprotect-Apart addr len prot u a =
      elim (Bool-cases (mem_ref_is_safe layout.base_map addr len)) [
        | inr outside ↦ rw outside (ends _ _ a)
        | inl safe ↦ rw safe (elim (Bool-cases ((sys.mprotect u.world addr len prot).0 == 0)) [
          | inr failed ↦ rw failed (ends _ _ (same_lengths sys tables codes layout u _ a))
          | inl success ↦
              rw success
                (elim (Option-cases (
                  tables.mprotect (sys.mprotect u.world addr len prot).1 addr len
                    (prot_to_perm prot))) [
                      | inl ended ↦ rw ended died
                      | inr ((r, w), e) ↦ rw e (elim (Bool-cases (r == 0)) [
                        | inl done ↦ rw done (ends _ _ (same_lengths sys tables codes layout u w a))
                        | inr died_there ↦ rw died_there died
                      ])
                    ])
        ])
      ]

  pub umm_alloc_stack-Apart :
      (u : Umm W)
      → IsBase sys tables codes layout
      → IsApart sys tables codes layout u
      → (Apart sys tables codes layout) (umm_alloc_stack sys tables codes layout u)
  unfolding umm_alloc_stack
  umm_alloc_stack-Apart u b a =
      elim (Bool-cases (ltb ((u.brk_len + u.mmap_len + app_stack_size) % 2 ^ 64) app_mmap_len)) [
        | inr full ↦ rw full (ends _ _ a)
        | inl left ↦ rw left (
            succeeds sys tables codes layout u _ _ a (λ w. record {
              apart = omega (
                arith,
                a.apart,
                ltb→lt _ _ left,
                a.mmap_pages,
                a.brk_pages,
                b.base_pages,
                b.room,
              );
              brk_pages = a.brk_pages;
              mmap_pages = omega (
                arith,
                a.apart,
                ltb→lt _ _ left,
                a.mmap_pages,
                a.brk_pages,
                b.base_pages,
                b.room,
              );
            }))
      ]
