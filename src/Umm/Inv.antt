-- ===== src/Umm/Inv.antt =====
-- Heap and mappings stay apart.
use libdbos.Common.{
  ℕ, ◌+◌, ◌-◌, ◌%◌, ◌^◌, ◌≤◌, ◌<◌, ◌≡◌, refl, inl, inr, true, Option, none, some, ltb, ◌==◌, arith,
  Bool-cases, ltb→lt, ==→eq, sym,
}
use libdbos.Ept.Addr.{DuneLayout}
use libdbos.Umm.{
  app_mmap_base_off, app_mmap_len, Prot, Codes, Sys, PageTables, Umm, is_positive, Result, value,
  fail, round_page, on_success, shrunk, brk_to, umm_brk, mmap_at, umm_mmap, new_addr,
}

pub round_page-fits :
    (s len : ℕ)
    → s % 4096 ≡ 0
    → s ≤ app_mmap_len
    → len < 2 ^ 63
    → (s + len) % 2 ^ 64 < app_mmap_len
    → s + round_page len ≤ app_mmap_len
round_page-fits s len a b c d = omega arith

pub heap_fits :
    (b m x : ℕ)
    → b + m ≤ app_mmap_len
    → x < 2 ^ 63
    → (b + m + round_page x) % 2 ^ 64 < app_mmap_len
    → round_page x + m ≤ app_mmap_len
heap_fits b m x h k l = omega arith

position :
    (base m r : ℕ)
    → base + app_mmap_len < 2 ^ 64
    → m + r ≤ app_mmap_len
    → ((base + app_mmap_base_off + 2 ^ 64 - m) % 2 ^ 64 + 2 ^ 64 - r) % 2 ^ 64
      ≡ base + app_mmap_base_off - m - r
position base m r a b = omega arith

module _ {W : Type 0} (sys : Sys W) (tables : PageTables W) (codes : Codes)
    (layout : DuneLayout) where
  -- The heap and the mappings are whole pages and do not meet.
  pub record IsApart (u : Umm W) : Type 0 where
    pub apart : u.brk_len + u.mmap_len ≤ app_mmap_len
    pub brk_pages : u.brk_len % 4096 ≡ 0
    pub mmap_pages : u.mmap_len % 4096 ≡ 0

  -- A base of whole pages with room above it.
  pub record IsBase : Type 0 where
    pub base_pages : layout.base_map % 4096 ≡ 0
    pub room : layout.base_map + app_mmap_len < 2 ^ 64

  pub on_success-cases :
      (u : Umm W) (o : Option (ℕ × W)) (next : W → Result × Umm W)
      (P : Option (Result × Umm W) → Type 0)
      → P none
      → ((e : ℕ) (w : W) → P (some (fail e, record u { world = w })))
      → ((w : W) → P (some (next w)))
      → P (on_success sys tables codes layout u o next)
  unfolding on_success
  on_success-cases u none next P d f k = d
  on_success-cases u (some (ret, w)) next P d f k = elim (Bool-cases (ret == 0)) [
    | inl success ↦ rw success (k w)
    | inr failed ↦ rw failed (f ret w)
  ]

  -- What a new mapping of `size` bytes ends with: the program's end, an error and the same
  -- lengths, or an address, below the old mappings and not below the end of the heap.
  pub data Placed (u : Umm W) (size : ℕ) : Option (Result × Umm W) → Type 0 where
    died : Placed u size none
    refused :
        (e : ℕ) (u' : Umm W)
        → u'.brk_len ≡ u.brk_len
        → u'.mmap_len ≡ u.mmap_len
        → Placed u size (some (fail e, u'))
    placed :
        (addr : ℕ) (u' : Umm W)
        → addr + size ≡ layout.base_map + app_mmap_base_off - u.mmap_len
        → layout.base_map + u.brk_len ≤ addr
        → u'.brk_len ≡ u.brk_len
        → u'.mmap_len ≡ u.mmap_len + size
        → IsApart u'
        → Placed u size (some (value addr, u'))

  new_addr_lem :
      (u : Umm W) (len : ℕ)
      → IsBase
      → u.mmap_len + round_page len ≤ app_mmap_len
      → new_addr sys tables codes layout u len
        ≡ layout.base_map + app_mmap_base_off - u.mmap_len - round_page len
  new_addr_lem u len b fits = position layout.base_map u.mmap_len (round_page len) b.room fits

  new_mapping :
      (u : Umm W) (len : ℕ) (w : W)
      → IsApart u
      → IsBase
      → u.brk_len + u.mmap_len + round_page len ≤ app_mmap_len
      → Placed u (round_page len) (
          some (
            value (new_addr sys tables codes layout u len),
            record u { world = w; mmap_len = (u.mmap_len + round_page len) % 2 ^ 64 },
          ))
  new_mapping u len w a b fits =
      let at = new_addr_lem u len b (omega arith) in
      let no_wrap : (u.mmap_len + round_page len) % 2 ^ 64 ≡ u.mmap_len + round_page len =
        omega arith in
      rw (at, no_wrap)
        (placed _ _ (omega arith) (omega arith) refl refl
          (record { apart = omega arith; brk_pages = a.brk_pages; mmap_pages = omega arith }))

  mmap_at-Placed :
      (u : Umm W) (len : ℕ) (prot : Prot) (flags : ℕ) (fd : Option ℕ) (offset : ℕ)
      → IsApart u
      → IsBase
      → u.brk_len + u.mmap_len + round_page len ≤ app_mmap_len
      → Placed u (round_page len) (
          mmap_at sys tables codes layout true
            (new_addr sys tables codes layout u len)
            len
            prot
            flags
            fd
            offset
            u)
  unfolding mmap_at
  mmap_at-Placed u len prot flags fd offset a b fits = elim (Bool-cases (sys.is_anonymous flags)) [
    | inl anonymous ↦ rw anonymous (either _)
    | inr file ↦ rw file (elim (Bool-cases (is_positive fd)) [
      | inl valid ↦ rw valid (either _)
      | inr closed ↦ rw closed (refused codes.einval u refl refl)
    ])
  ]
    where
      either :
          (o : Option (ℕ × W))
          → Placed u (round_page len) (
              on_success sys tables codes layout u o (λ w. (
                value (new_addr sys tables codes layout u len),
                record u { world = w; mmap_len = (u.mmap_len + round_page len) % 2 ^ 64 },
              )))
      either o =
          on_success-cases u o _ (Placed u (round_page len)) died (λ e w. refused e _ refl refl)
            (λ w. new_mapping u len w a b fits)

  -- umm_mmap without an address, for a length below 2^63 and lengths that are apart: an error
  -- leaves the lengths of the heap and of the mappings; success returns an address such that the
  -- new mapping, in whole pages, ends where the old mappings begin and does not reach into the
  -- heap, and the heap and the mappings are apart again.
  pub umm_mmap-Placed :
      (u : Umm W) (len : ℕ) (prot : Prot) (flags : ℕ) (fd : Option ℕ) (offset : ℕ)
      → IsApart u
      → IsBase
      → len < 2 ^ 63
      → Placed u (round_page len) (umm_mmap sys tables codes layout 0 len prot flags fd offset u)
  unfolding umm_mmap mmap_at
  umm_mmap-Placed u len prot flags fd offset a b small =
      elim (Bool-cases (ltb ((u.brk_len + u.mmap_len + len) % 2 ^ 64) app_mmap_len)) [
        | inr full ↦ rw full (refused codes.enomem u refl refl)
        | inl space ↦ rw space (
            mmap_at-Placed u len prot flags fd offset a b (
              round_page-fits (u.brk_len + u.mmap_len) len (omega arith) a.apart small
                (ltb→lt _ _ space)))
      ]

  -- What a change of the heap ends with: the program's end, or an error, or the asked break.
  -- Heap and mappings are apart in any case, and the mappings have their length.
  pub data Grown (u : Umm W) (brk : ℕ) : Option (Result × Umm W) → Type 0 where
    died : Grown u brk none
    refused :
        (e : ℕ) (u' : Umm W)
        → u'.brk_len ≡ u.brk_len
        → u'.mmap_len ≡ u.mmap_len
        → Grown u brk (some (fail e, u'))
    asked : brk ≡ 0 → Grown u brk (some (value layout.base_map, u))
    set :
        (u' : Umm W)
        → u'.brk_len ≡ round_page (brk - layout.base_map)
        → u'.mmap_len ≡ u.mmap_len
        → IsApart u'
        → Grown u brk (some (value brk, u'))

  new_lengths :
      (u : Umm W) (brk : ℕ) (w : W)
      → IsApart u
      → round_page (brk - layout.base_map) + u.mmap_len ≤ app_mmap_len
      → IsApart (record u { brk_len = round_page (brk - layout.base_map); world = w })
  new_lengths u brk w a fits = record {
    apart = fits;
    brk_pages = omega arith;
    mmap_pages = a.mmap_pages;
  }

  shrunk-Grown :
      (u : Umm W) (brk : ℕ)
      → IsApart u
      → round_page (brk - layout.base_map) + u.mmap_len ≤ app_mmap_len
      → (o : Option W)
      → Grown u brk (shrunk sys tables codes layout brk (round_page (brk - layout.base_map)) u o)
  unfolding shrunk
  shrunk-Grown u brk a fits none = died
  shrunk-Grown u brk a fits (some w) = set _ refl refl (new_lengths u brk w a fits)

  pub brk_to-Grown :
      (u : Umm W) (brk : ℕ)
      → IsApart u
      → round_page (brk - layout.base_map) + u.mmap_len ≤ app_mmap_len
      → Grown u brk (brk_to sys tables codes layout brk (round_page (brk - layout.base_map)) u)
  unfolding brk_to
  brk_to-Grown u brk a fits =
      let len = round_page (brk - layout.base_map) in
      elim (Bool-cases (len == u.brk_len)) [
        | inl same ↦ rw same (set u (sym (==→eq _ _ same)) refl a)
        | inr other ↦ rw other (elim (Bool-cases (ltb len u.brk_len)) [
          | inl less ↦
              rw less
                (elim (Bool-cases
                  ((sys.munmap u.world (layout.base_map + len) (u.brk_len - len)).0 == 0)) [
                    | inr kept ↦ rw kept (refused _ _ refl refl)
                    | inl freed ↦ rw freed (shrunk-Grown u brk a fits _)
                  ])
          | inr more ↦ rw more (
              on_success-cases u _ _ (Grown u brk) died (λ e w. refused e _ refl refl)
                (λ w. set _ refl refl (new_lengths u brk w a fits)))
        ])
      ]

  -- umm_brk, for a break below 2^63 and lengths that are apart: an error leaves the lengths of the
  -- heap and of the mappings; success sets the length of the heap to the break's, in whole pages,
  -- keeps the mappings, and leaves heap and mappings apart; the break 0 asks for mmap_base.
  pub umm_brk-Grown :
      (u : Umm W) (brk : ℕ)
      → IsApart u
      → IsBase
      → brk < 2 ^ 63
      → Grown u brk (umm_brk sys tables codes layout brk u)
  unfolding umm_brk
  umm_brk-Grown u brk a b small = elim (Bool-cases (brk == 0)) [
    | inl query ↦ rw query (asked (==→eq _ _ query))
    | inr change ↦ rw change (elim (Bool-cases (ltb brk layout.base_map)) [
      | inl low ↦ rw low (refused codes.einval u refl refl)
      | inr above ↦
          rw above
            (elim (Bool-cases (
              ltb ((u.brk_len + u.mmap_len + round_page (brk - layout.base_map)) % 2 ^ 64)
                app_mmap_len)) [
                  | inr full ↦ rw full (refused codes.enomem u refl refl)
                  | inl space ↦ rw space (
                      brk_to-Grown u brk a (
                        heap_fits u.brk_len u.mmap_len (brk - layout.base_map) a.apart (omega arith)
                          (ltb→lt _ _ space)))
                ])
    ])
  ]
