-- ===== src/Ept/Lookup.antt =====
-- `ept_lookup_gpa` and `ept_lookup`.
pub mod Stable
use libdbos.Common.{
  ℕ, zero, suc, ◌+◌, ◌*◌, ◌/◌, ◌%◌, ◌^◌, Bool, true, false, Option, none, some, bit_or, leb, ◌==◌,
  ◌||◌, if◌then◌else◌,
}
use libdbos.Ept.Addr.{Mm, hva_to_gpa, addr_inval}
use libdbos.Ept.Entry.{
  epte_full, epte_addr, epte_present, epte_big, Errno, enoent, enomem, einval, Host, Ept, entry,
  store, clear_page,
}

-- `ADDR_TO_IDX`
abbrev pub addr_to_idx : ℕ → ℕ → ℕ
addr_to_idx la n = la / 2 ^ (12 + 9 * n) % 512

-- The entry's address, or an error.
pub data Reply : Type 0 where
  found : ℕ → Reply
  failed : Errno → Reply

module _ {H : Type 0} (host : Host H) where
  -- What follows once the entry is present: a large page is the answer on two levels.
  unfoldable pub enter : (i a : ℕ) → (ℕ → Ept H → Reply × Ept H) → Ept H → Reply × Ept H
  enter i a next s =
      if epte_big (s.mem a)
      then (if i == 1 || i == 2 then (found a, s) else (failed einval, s))
      else next (epte_addr (s.mem a)) s

  -- A new table below the entry at `a`.
  pub new_table : (a : ℕ) → (Ept H → Reply × Ept H) → Ept H → Reply × Ept H
  new_table a rest s = elim (host.get_free_page s.host) [
    | none ↦ (failed enomem, s)
    | some (page, h) ↦ rest (
        store
          (clear_page (record s { host = h; pgtbl_pages_created = s.pgtbl_pages_created + 1 }) page)
          a (bit_or (epte_addr page) epte_full))
  ]

  -- `for (i = EPT_LEVELS - 1; i > level; i--)` from `i`, and the end.
  unfoldable pub lookup_from : (gpa level : ℕ) → Bool → (i dir : ℕ) → Ept H → Reply × Ept H
  lookup_from gpa level create zero dir s = (found (entry dir (addr_to_idx gpa level)), s)
  lookup_from gpa level create (suc i) dir s =
      let a = entry dir (addr_to_idx gpa (suc i)) in
      let go = enter (suc i) a (lookup_from gpa level create i) in
      if leb (suc i) level
      then (found (entry dir (addr_to_idx gpa level)), s)
      else if epte_present (s.mem a)
      then go s
      else if create
      then new_table a go s
      else (failed enoent, s)

  -- `ept_lookup_gpa`
  unfoldable pub lookup_gpa : (gpa level : ℕ) → Bool → Ept H → Reply × Ept H
  lookup_gpa gpa level create s = lookup_from gpa level create 3 s.ept_root s

  -- `ept_lookup`
  unfoldable pub lookup : Mm → (hva level : ℕ) → Bool → Ept H → Reply × Ept H
  lookup mm hva level create s =
      if hva_to_gpa mm hva == addr_inval
      then (failed einval, s)
      else lookup_gpa (hva_to_gpa mm hva) level create s
