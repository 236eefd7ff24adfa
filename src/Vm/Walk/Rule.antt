-- ===== src/Vm/Walk/Rule.antt =====
-- A rule for walks: what each call of the callback keeps, and each new table, the walk keeps.
use libdbos.Common.{ℕ, zero, suc, ◌+◌, ◌-◌, ◌≡◌, refl, inl, inr, none, some, false, Bool-cases}
use libdbos.Vm.Pte.{pte_present, pdx}
use libdbos.Vm.Machine.{Outcome, Errno, ok, err, PageOps, Machine, and_then, entry}
use libdbos.Vm.Walk.{
  Create, is_none, new_table, Turn, give, skip, down, turn, descend, visit, rounds, page_walk,
}

-- The program goes on, with a machine as `P` says after success and as `E` says after an error.
abbrev pub Ends :
    {S : Type 0} → (Machine S → Type 0) → (Errno → Machine S → Type 0) → Outcome S → Type 0
Ends P E none = ⊥
Ends P E (some (ok, m)) = P m
Ends P E (some (err e, m)) = E e m

module _ {S : Type 0} (ops : PageOps S) (P : Machine S → Type 0) (E : Errno → Machine S → Type 0)
    (create : Create) (cb : ℕ → ℕ → ℕ → Machine S → Outcome S)
    (keep : (pte va level : ℕ) (m : Machine S) → P m → Ends P E (cb pte va level m))
    (grow : is_none create ≡ false
      → (pte : ℕ) (m : Machine S) (rest : Machine S → Outcome S) → P m
      → ((m' : Machine S) → P m' → Ends P E (rest m'))
      → Ends P E (new_table ops pte m rest)) where
  and_then-Ends :
      (o : Outcome S) (rest : Machine S → Outcome S)
      → Ends P E o
      → ((m : Machine S) → P m → Ends P E (rest m))
      → Ends P E (and_then o rest)
  unfolding and_then
  and_then-Ends none rest h k = h
  and_then-Ends (some (ok, m)) rest h k = k m h
  and_then-Ends (some (err e, m)) rest h k = h

  rounds-Ends :
      (body : ℕ → Machine S → Outcome S)
      → ((i : ℕ) (m : Machine S) → P m → Ends P E (body i m))
      → (n i : ℕ) (m : Machine S) → P m
      → Ends P E (rounds ops body n i m)
  unfolding rounds
  rounds-Ends body each zero i m h = h
  rounds-Ends body each (suc n) i m h =
      and_then-Ends (body i m) (rounds ops body n (i + 1)) (each i m h)
        (rounds-Ends body each n (i + 1))

  descend-Ends :
      (sub : ℕ → ℕ → ℕ → Machine S → Outcome S)
      → ((d s e : ℕ) (m : Machine S) → P m → Ends P E (sub d s e m))
      → (pte s e : ℕ) (m : Machine S) → P m
      → Ends P E (descend ops create sub pte s e m)
  unfolding descend
  descend-Ends sub below pte s e m h = elim (Bool-cases (pte_present (m.mem pte))) [
    | inl there ↦ rw there (below _ _ _ m h)
    | inr absent ↦ rw absent (elim (Bool-cases (is_none create)) [
      | inl stop ↦ rw stop h
      | inr go ↦ rw go (grow go pte m _ h (λ m'. below _ _ _ m'))
    ])
  ]

  visit-Ends :
      (level : ℕ) (sub : ℕ → ℕ → ℕ → Machine S → Outcome S)
      → ((d s e : ℕ) (m : Machine S) → P m → Ends P E (sub d s e m))
      → (dir s e i : ℕ) (m : Machine S) → P m
      → Ends P E (visit ops create cb level sub dir s e i m)
  unfolding visit
  visit-Ends level sub below dir s e i m h = by_turn (turn create level (m.mem (entry dir i))) refl
    where
      by_turn :
          (t : Turn)
          → turn create level (m.mem (entry dir i)) ≡ t
          → Ends P E (visit ops create cb level sub dir s e i m)
      by_turn give eq = rw (eq, visit) (keep _ _ _ m h)
      by_turn skip eq = rw (eq, visit) h
      by_turn down eq = rw (eq, visit) (descend-Ends sub below _ _ _ m h)

  pub page_walk-Ends :
      (level dir s e : ℕ) (m : Machine S) → P m → Ends P E (page_walk ops create cb level dir s e m)
  unfolding page_walk
  page_walk-Ends zero dir s e =
      rounds-Ends _ (visit-Ends 0 _ (λ d s e m h. h) dir s e) (pdx 0 e + 1 - pdx 0 s) (pdx 0 s)
  page_walk-Ends (suc level) dir s e =
      rounds-Ends _ (visit-Ends (suc level) _ (page_walk-Ends level) dir s e)
        (pdx (suc level) e + 1 - pdx (suc level) s) (pdx (suc level) s)

-- A walk that fails on no error ends with 0.
pub Ends-ok :
    {S : Type 0} {P : Machine S → Type 0} (o : Outcome S)
    → Ends P (λ e m. ⊥) o
    → (m : Machine S) × (o ≡ some (ok, m)) × P m
Ends-ok none h = absurd h
Ends-ok (some (ok, m)) h = (m, refl, h)
Ends-ok (some (err e, m)) h = absurd h
