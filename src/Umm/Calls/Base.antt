-- ===== src/Umm/Calls/Base.antt =====
-- What the calls of apps/sandbox/umm.c have in common, and `umm_mmap`.
use libdbos.Common.{
  ℕ, ◌+◌, ◌%◌, ◌^◌, ◌≤◌, ◌<◌, ◌≡◌, ◌≢◌, refl, inl, inr, Bool, true, false, Option, none, some, ltb,
  ◌==◌, arith, Bool-cases, ltb→lt, ltb→le, ne→==, sym,
}
use mathlib.Core.Bool.{true≢false}
use libdbos.Ept.Addr.{DuneLayout}
use libdbos.Umm.{
  app_mmap_len, Prot, Codes, Sys, PageTables, Umm, is_positive, Result, round_page, on_success,
  mmap_anom, mmap_file, mmap_at, umm_mmap, mem_ref_is_safe,
}
use libdbos.Umm.Inv.{IsApart, on_success-cases, round_page-fits}

-- The kernel's memory calls refuse a length of 2^63 bytes or more, with an error, and no segment is
-- that large.
pub record IsBounded {W : Type 0} (sys : Sys W) : Type 0 where
  pub anon :
      (w : W) (addr len : ℕ) (prot : Prot) (big : Bool)
      → 2 ^ 63 ≤ len
      → ((sys.mmap_anon w addr len prot big).0 ≢ addr) × ((sys.mmap_anon w addr len prot big).1 ≢ 0)
  pub file :
      (w : W) (addr len : ℕ) (prot : Prot) (flags : ℕ) (fd : Option ℕ) (offset : ℕ)
      → 2 ^ 63 ≤ len
      → ((sys.mmap_file w addr len prot flags fd offset).0 ≢ addr)
        × ((sys.mmap_file w addr len prot flags fd offset).1 ≢ 0)
  pub moved :
      (w : W) (old_address old_size new_size flags new_address : ℕ)
      → 2 ^ 63 ≤ new_size
      → (sys.mremap w old_address old_size new_size flags new_address).0 ≢ new_address
  pub segment : (w : W) (shmid len : ℕ) → sys.shm_segsz w shmid ≡ some len → len < 2 ^ 63

module _ {W : Type 0} (sys : Sys W) (tables : PageTables W) (codes : Codes)
    (layout : DuneLayout) where
  -- The program has ended, or heap and mappings are apart.
  pub data Apart : Option (Result × Umm W) → Type 0 where
    died : Apart none
    ends : (r : Result) (u : Umm W) → IsApart sys tables codes layout u → Apart (some (r, u))

  pub same_lengths :
      (u : Umm W) (w : W)
      → IsApart sys tables codes layout u
      → IsApart sys tables codes layout (record u { world = w })
  same_lengths u w a = record {
    apart = a.apart;
    brk_pages = a.brk_pages;
    mmap_pages = a.mmap_pages;
  }

  pub more_mapped :
      (u : Umm W) (size : ℕ) (w : W)
      → IsApart sys tables codes layout u
      → u.brk_len + u.mmap_len + round_page size ≤ app_mmap_len
      → IsApart sys tables codes layout
          (record u { world = w; mmap_len = (u.mmap_len + round_page size) % 2 ^ 64 })
  more_mapped u size w a fits = record {
    apart = omega (arith, fits);
    brk_pages = a.brk_pages;
    mmap_pages = omega (arith, fits, a.mmap_pages);
  }

  pub refuses_anon :
      (u : Umm W) (addr len : ℕ) (prot : Prot) (big : Bool) (next : W → Result × Umm W)
      → IsBounded sys
      → 2 ^ 63 ≤ len
      → IsApart sys tables codes layout u
      → Apart (
          on_success sys tables codes layout u
            (mmap_anom sys tables codes layout addr len prot big u.world)
            next)
  unfolding on_success mmap_anom
  refuses_anon u addr len prot big next k large a =
      let (other, failed) = k.anon u.world addr len prot big large in
      rw (ne→== _ _ other, ne→== _ _ failed) (ends _ _ (same_lengths u _ a))

  refuses_file :
      (u : Umm W) (addr len : ℕ) (prot : Prot) (flags : ℕ) (fd : Option ℕ) (offset : ℕ)
      (next : W → Result × Umm W)
      → IsBounded sys
      → 2 ^ 63 ≤ len
      → IsApart sys tables codes layout u
      → Apart (
          on_success sys tables codes layout u
            (mmap_file sys tables codes layout addr len prot flags fd offset u.world)
            next)
  unfolding on_success mmap_file
  refuses_file u addr len prot flags fd offset next k large a =
      let (other, failed) = k.file u.world addr len prot flags fd offset large in
      rw (ne→== _ _ other, ne→== _ _ failed) (ends _ _ (same_lengths u _ a))

  pub succeeds :
      (u : Umm W) (o : Option (ℕ × W)) (next : W → Result × Umm W)
      → IsApart sys tables codes layout u
      → ((w : W) → IsApart sys tables codes layout (next w).1)
      → Apart (on_success sys tables codes layout u o next)
  succeeds u o next a k =
      on_success-cases sys tables codes layout u o next Apart died
        (λ e w. ends _ _ (same_lengths u w a)) (λ w. ends _ _ (k w))

  -- A mapping of any length, with what the lengths are after it.
  mmap_at-Apart :
      (adjust : Bool) (addr len : ℕ) (prot : Prot) (flags : ℕ) (fd : Option ℕ) (offset : ℕ)
      (u : Umm W)
      → IsBounded sys
      → IsApart sys tables codes layout u
      → (adjust ≡ true → len < 2 ^ 63 → u.brk_len + u.mmap_len + round_page len ≤ app_mmap_len)
      → Apart (mmap_at sys tables codes layout adjust addr len prot flags fd offset u)
  unfolding mmap_at
  mmap_at-Apart false addr len prot flags fd offset u k a fits =
      elim (Bool-cases (sys.is_anonymous flags)) [
        | inl anonymous ↦ rw anonymous (succeeds u _ _ a (λ w. same_lengths u w a))
        | inr file ↦ rw file (elim (Bool-cases (is_positive fd)) [
          | inl valid ↦ rw valid (succeeds u _ _ a (λ w. same_lengths u w a))
          | inr closed ↦ rw closed (ends _ _ a)
        ])
      ]
  mmap_at-Apart true addr len prot flags fd offset u k a fits =
      elim (Bool-cases (sys.is_anonymous flags)) [
        | inl anonymous ↦ rw anonymous (elim (Bool-cases (ltb len (2 ^ 63))) [
          | inl small ↦ succeeds u _ _ a (λ w. more_mapped u len w a (fits refl (ltb→lt _ _ small)))
          | inr large ↦ refuses_anon u addr len prot false _ k (ltb→le _ _ large) a
        ])
        | inr file ↦ rw file (elim (Bool-cases (is_positive fd)) [
          | inl valid ↦ rw valid (elim (Bool-cases (ltb len (2 ^ 63))) [
            | inl small ↦
                succeeds u _ _ a (λ w. more_mapped u len w a (fits refl (ltb→lt _ _ small)))
            | inr large ↦ refuses_file u addr len prot flags fd offset _ k (ltb→le _ _ large) a
          ])
          | inr closed ↦ rw closed (ends _ _ a)
        ])
      ]

  -- What `umm_space_left` says of a length below 2^63.
  pub space :
      (u : Umm W) (len : ℕ)
      → IsApart sys tables codes layout u
      → ltb ((u.brk_len + u.mmap_len + len) % 2 ^ 64) app_mmap_len ≡ true
      → len < 2 ^ 63
      → u.brk_len + u.mmap_len + round_page len ≤ app_mmap_len
  space u len a left small =
      round_page-fits (u.brk_len + u.mmap_len) len (omega (arith, a.brk_pages, a.mmap_pages))
        a.apart small (ltb→lt _ _ left)

  pub umm_mmap-Apart :
      (addr len : ℕ) (prot : Prot) (flags : ℕ) (fd : Option ℕ) (offset : ℕ) (u : Umm W)
      → IsBounded sys
      → IsApart sys tables codes layout u
      → Apart (umm_mmap sys tables codes layout addr len prot flags fd offset u)
  unfolding umm_mmap
  umm_mmap-Apart addr len prot flags fd offset u k a = elim (Bool-cases (addr == 0)) [
    | inl anywhere ↦
        rw anywhere
          (elim (Bool-cases (ltb ((u.brk_len + u.mmap_len + len) % 2 ^ 64) app_mmap_len)) [
            | inl left ↦ rw left (
                mmap_at-Apart true _ len prot flags fd offset u k a
                  (λ e small. space u len a left small))
            | inr full ↦ rw full (ends _ _ a)
          ])
    | inr fixed ↦ rw fixed (elim (Bool-cases (mem_ref_is_safe layout.base_map addr len)) [
      | inl safe ↦ rw safe (
          mmap_at-Apart false addr len prot flags fd offset u k a
            (λ e. absurd (true≢false (sym e))))
      | inr outside ↦ rw outside (ends _ _ a)
    ])
  ]
