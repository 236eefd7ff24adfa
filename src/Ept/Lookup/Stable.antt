-- ===== src/Ept/Lookup/Stable.antt =====
-- Lookups that create nothing.
use libdbos.Common.{
  ℕ, zero, suc, ◌≡◌, refl, inl, inr, false, ◌||◌, leb, ◌==◌, Bool-cases, if◌then◌else◌,
}
use libdbos.Ept.Entry.{epte_addr, epte_present, epte_big, enoent, einval, Host, Ept, entry}
use libdbos.Ept.Lookup.{addr_to_idx, Reply, found, failed, enter, lookup_from, lookup_gpa}

-- The walk that the processor makes: down to `level` or to a large page.
unfoldable pub walk : (mem : ℕ → ℕ) (gpa level i dir : ℕ) → Reply
walk mem gpa level zero dir = found (entry dir (addr_to_idx gpa level))
walk mem gpa level (suc i) dir =
    let a = entry dir (addr_to_idx gpa (suc i)) in
    let below = walk mem gpa level i (epte_addr (mem a)) in
    let large : Reply = if suc i == 1 || suc i == 2 then found a else failed einval in
    if leb (suc i) level
    then found (entry dir (addr_to_idx gpa level))
    else if epte_present (mem a)
    then (if epte_big (mem a) then large else below)
    else failed enoent

module _ {H : Type 0} (host : Host H) where
  enter-walk :
      (gpa level i a : ℕ) (s : Ept H)
      → lookup_from host gpa level false i (epte_addr (s.mem a)) s
        ≡ (walk s.mem gpa level i (epte_addr (s.mem a)), s)
      → enter host (suc i) a (lookup_from host gpa level false i) s ≡ (
        if epte_big (s.mem a)
            then (if suc i == 1 || suc i == 2 then found a else failed einval)
            else walk s.mem gpa level i (epte_addr (s.mem a)),
        s,
      )
  unfolding enter
  enter-walk gpa level i a s below = elim (Bool-cases (epte_big (s.mem a))) [
    | inl big ↦ rw big (elim (Bool-cases (suc i == 1 || suc i == 2)) [
      | inl allowed ↦ rw allowed refl
      | inr refused ↦ rw refused refl
    ])
    | inr small ↦ rw small below
  ]

  lookup_from-walk :
      (gpa level i dir : ℕ) (s : Ept H)
      → lookup_from host gpa level false i dir s ≡ (walk s.mem gpa level i dir, s)
  unfolding lookup_from walk
  lookup_from-walk gpa level zero dir s = refl
  lookup_from-walk gpa level (suc i) dir s = elim (Bool-cases (leb (suc i) level)) [
    | inl top ↦ rw top refl
    | inr above ↦
        rw above (elim (Bool-cases (epte_present (s.mem (entry dir (addr_to_idx gpa (suc i)))))) [
          | inl there ↦ rw there (enter-walk gpa level i _ s (lookup_from-walk gpa level i _ s))
          | inr absent ↦ rw absent refl
        ])
  ]

  -- ept_lookup_gpa without `create` changes nothing and returns what the processor's walk of the
  -- tables gives: the entry of the asked level, the entry of a large page above it, -ENOENT for a
  -- table that is not there, -EINVAL for a large page where none is allowed.
  pub lookup_gpa-walk :
      (gpa level : ℕ) (s : Ept H)
      → lookup_gpa host gpa level false s ≡ (walk s.mem gpa level 3 s.ept_root, s)
  unfolding lookup_gpa
  lookup_gpa-walk gpa level s = lookup_from-walk gpa level 3 s.ept_root s
