-- ===== src/Umm/Calls/Move.antt =====
-- `umm_shmat` and `umm_mremap`.
use libdbos.Common.{
  ℕ, ◌+◌, ◌%◌, ◌^◌, ◌≤◌, ◌<◌, ◌≡◌, refl, inl, inr, Bool, true, false, not, ltb, ◌==◌, Bool-cases,
  Option-cases, ltb→lt, ltb→le, ==→eq, sym, if◌then◌else◌,
}
use mathlib.Core.Bool.{true≢false}
use libdbos.Ept.Addr.{DuneLayout, va_to_pa}
use libdbos.Umm.{
  app_mmap_len, Codes, Sys, PageTables, Umm, round_page, prot_to_perm, shmat_at, umm_shmat,
  mremap_at, remap_tables, umm_mremap, mem_ref_is_safe,
}
use libdbos.Umm.Inv.{IsApart}
use libdbos.Umm.Calls.Base.{IsBounded, Apart, died, ends, same_lengths, more_mapped, space}

module _ {W : Type 0} (sys : Sys W) (tables : PageTables W) (codes : Codes)
    (layout : DuneLayout) where
  shmat_at-Apart :
      (adjust : Bool) (shmid addr shmflg len : ℕ) (u : Umm W)
      → IsApart sys tables codes layout u
      → (adjust ≡ true → u.brk_len + u.mmap_len + round_page len ≤ app_mmap_len)
      → (Apart sys tables codes layout)
          (shmat_at sys tables codes layout adjust shmid addr shmflg len u)
  unfolding shmat_at
  shmat_at-Apart adjust shmid addr shmflg len u a fits =
      let perm =
        prot_to_perm (record { read = true; write = not (sys.is_rdonly shmflg); exec = false }) in
      let (mem, errno, w1) = sys.shmat u.world shmid addr shmflg in
      elim (Bool-cases (mem == addr)) [
        | inr other ↦ rw other (ends _ _ (same_lengths sys tables codes layout u _ a))
        | inl there ↦
            rw there
              (elim (Option-cases (tables.map_phys w1 addr len (va_to_pa layout addr) perm)) [
                | inl ended ↦ rw ended died
                | inr ((ret, w2), e) ↦ rw e (elim (Bool-cases (ret == 0)) [
                  | inr failed ↦ rw failed (ends _ _ (same_lengths sys tables codes layout u _ a))
                  | inl done ↦ rw done (ends _ _ (lengths adjust w2 fits))
                ])
              ])
      ]
    where
      lengths :
          (adjust : Bool) (w : W)
          → (adjust ≡ true → u.brk_len + u.mmap_len + round_page len ≤ app_mmap_len)
          → IsApart sys tables codes layout (record u {
            world = w;
            mmap_len = if adjust then (u.mmap_len + round_page len) % 2 ^ 64 else u.mmap_len;
          })
      lengths true w fits = more_mapped sys tables codes layout u len w a (fits refl)
      lengths false w fits = same_lengths sys tables codes layout u w a

  pub umm_shmat-Apart :
      (shmid addr shmflg : ℕ) (u : Umm W)
      → IsBounded sys
      → IsApart sys tables codes layout u
      → (Apart sys tables codes layout) (umm_shmat sys tables codes layout shmid addr shmflg u)
  unfolding umm_shmat
  umm_shmat-Apart shmid addr shmflg u k a = elim (Option-cases (sys.shm_segsz u.world shmid)) [
    | inl nowhere ↦ rw (nowhere, umm_shmat) (ends _ _ a)
    | inr (len, e) ↦
        rw (e, umm_shmat)
          (elim (Bool-cases (addr == 0)) [
            | inl anywhere ↦
                rw anywhere
                  (elim (Bool-cases (ltb ((u.brk_len + u.mmap_len + len) % 2 ^ 64) app_mmap_len)) [
                    | inl left ↦ rw left (
                        shmat_at-Apart true shmid _ shmflg len u a (λ on.
                          space sys tables codes layout u len a left
                            (k.segment u.world shmid len e)))
                    | inr full ↦ rw full (ends _ _ a)
                  ])
            | inr fixed ↦ rw fixed (elim (Bool-cases (mem_ref_is_safe layout.base_map addr len)) [
              | inl safe ↦ rw safe (
                  shmat_at-Apart false shmid addr shmflg len u a
                    (λ on. absurd (true≢false (sym on))))
              | inr outside ↦ rw outside (ends _ _ a)
            ])
          ])
  ]

  mremap_at-Apart :
      (adjust : Bool) (old_address old_size new_size flags new_address : ℕ) (u : Umm W)
      → IsBounded sys
      → IsApart sys tables codes layout u
      → (adjust ≡ true
          → new_size < 2 ^ 63
          → u.brk_len + u.mmap_len + round_page new_size ≤ app_mmap_len)
      → (Apart sys tables codes layout) (
          mremap_at sys tables codes layout adjust old_address old_size new_size flags new_address
            u)
  unfolding mremap_at
  mremap_at-Apart adjust old_address old_size new_size flags new_address u k a fits =
      let (ret, errno, w1) =
        sys.mremap u.world old_address old_size new_size (sys.move_fixed flags) new_address in
      elim (Bool-cases (sys.may_move flags)) [
        | inr stays ↦ rw stays (ends _ _ a)
        | inl moves ↦ rw moves (elim (Bool-cases (ret == new_address)) [
          | inr other ↦ rw other (ends _ _ (same_lengths sys tables codes layout u _ a))
          | inl there ↦
              rw there
                (elim (Option-cases (
                  remap_tables sys tables codes layout old_address old_size new_address new_size
                    w1)) [
                      | inl ended ↦ rw ended died
                      | inr (w2, e) ↦ rw e (ends _ _ (lengths adjust w2 fits (==→eq _ _ there)))
                    ])
        ])
      ]
    where
      lengths :
          (adjust : Bool) (w : W)
          → (adjust ≡ true
              → new_size < 2 ^ 63
              → u.brk_len + u.mmap_len + round_page new_size ≤ app_mmap_len)
          → (sys.mremap u.world old_address old_size new_size (sys.move_fixed flags) new_address).0
            ≡ new_address
          → IsApart sys tables codes layout (record u {
            mmap_len = if adjust then (u.mmap_len + round_page new_size) % 2 ^ 64 else u.mmap_len;
            world = w;
          })
      lengths true w fits there = elim (Bool-cases (ltb new_size (2 ^ 63))) [
        | inl small ↦
            more_mapped sys tables codes layout u new_size w a (fits refl (ltb→lt _ _ small))
        | inr large ↦ absurd (
            k.moved u.world old_address old_size new_size (sys.move_fixed flags) new_address
              (ltb→le _ _ large) there)
      ]
      lengths false w fits there = same_lengths sys tables codes layout u w a

  pub umm_mremap-Apart :
      (old_address old_size new_size flags new_address : ℕ) (u : Umm W)
      → IsBounded sys
      → IsApart sys tables codes layout u
      → (Apart sys tables codes layout)
          (umm_mremap sys tables codes layout old_address old_size new_size flags new_address u)
  unfolding umm_mremap
  umm_mremap-Apart old_address old_size new_size flags new_address u k a =
      elim (Bool-cases (mem_ref_is_safe layout.base_map old_address old_size)) [
        | inr outside ↦ rw outside (ends _ _ a)
        | inl safe ↦ rw safe (elim (Bool-cases (sys.is_fixed flags)) [
          | inl fixed ↦
              rw fixed (elim (Bool-cases (mem_ref_is_safe layout.base_map new_address new_size)) [
                | inl there ↦ rw there (
                    mremap_at-Apart false old_address old_size new_size flags new_address u k a
                      (λ on. absurd (true≢false (sym on))))
                | inr outside ↦ rw outside (ends _ _ a)
              ])
          | inr anywhere ↦
              rw anywhere
                (elim (Bool-cases
                  (ltb ((u.brk_len + u.mmap_len + new_size) % 2 ^ 64) app_mmap_len)) [
                    | inl left ↦ rw left (
                        mremap_at-Apart true old_address old_size new_size flags _ u k a
                          (λ on small. space sys tables codes layout u new_size a left small))
                    | inr full ↦ rw full (ends _ _ a)
                  ])
        ])
      ]
