-- ===== src/Vm/Walk/Single.antt =====
-- Walks over a range in one page that create nothing, and give their callback one entry.
use libdbos.Common.{
  eq→==, ℕ, zero, suc, ◌+◌, ◌-◌, ◌/◌, ◌%◌, ◌≡◌, refl, ap, ◌∙◌, inl, inr, some, true, false, arith,
  Bool-cases, ◌==◌, if◌then◌else◌,
}
use libdbos.Vm.Pte.{pdx, pte_addr, pte_present}
use libdbos.Vm.Machine.{Outcome, ok, PageOps, Machine, entry, and_then}
use libdbos.Vm.Lookup.Stable.{large, entry_for}
use libdbos.Vm.Walk.{create_none, turn, give, down, visit, descend, rounds, page_walk}

count_one : (i j : ℕ) → i ≡ j → j + 1 - i ≡ 1
count_one i j h = omega arith

index_1 : (va last : ℕ) → va / 4096 ≡ last / 4096 → pdx 1 va ≡ pdx 1 last
index_1 va last h = omega arith

index_2 : (va last : ℕ) → va / 4096 ≡ last / 4096 → pdx 2 va ≡ pdx 2 last
index_2 va last h = omega arith

index_3 : (va last : ℕ) → va / 4096 ≡ last / 4096 → pdx 3 va ≡ pdx 3 last
index_3 va last h = omega arith

turn-used : (x : ℕ) → ((x == 0) ≡ false) → turn create_none 0 x ≡ give
unfolding turn
turn-used x h = rw h refl

turn-large : (level x : ℕ) → turn create_none (suc level) x ≡ (if large level x then give else down)
unfolding turn
turn-large zero x = refl
turn-large (suc zero) x = refl
turn-large (suc (suc level)) x = refl

module _ {S : Type 0} (ops : PageOps S) where
  one_round :
      (body : ℕ → Machine S → Outcome S) (n i : ℕ) (m m' : Machine S)
      → n ≡ 1
      → body i m ≡ some (ok, m')
      → rounds ops body n i m ≡ some (ok, m')
  unfolding rounds and_then
  one_round body n i m m' one h = rw (one, rounds, h) refl

  module _ (cb : ℕ → ℕ → ℕ → Machine S → Outcome S) (change : ℕ → Machine S → Machine S)
      (acts : (pte va level : ℕ) (m : Machine S) → cb pte va level m ≡ some (ok, change pte m))
      (va last : ℕ) where
    visit-gives :
        (level : ℕ) (sub : ℕ → ℕ → ℕ → Machine S → Outcome S) (dir : ℕ) (m : Machine S)
        → turn create_none level (m.mem (entry dir (pdx level va))) ≡ give
        → visit ops create_none cb level sub dir va last (pdx level va) m
          ≡ some (ok, change (entry dir (pdx level va)) m)
    unfolding visit
    visit-gives level sub dir m t = rw (t, visit) (acts _ _ _ m)

    visit-descends :
        (level : ℕ) (sub : ℕ → ℕ → ℕ → Machine S → Outcome S) (dir : ℕ) (m : Machine S)
        → pdx level va ≡ pdx level last
        → turn create_none level (m.mem (entry dir (pdx level va))) ≡ down
        → pte_present (m.mem (entry dir (pdx level va))) ≡ true
        → visit ops create_none cb level sub dir va last (pdx level va) m
          ≡ sub (pte_addr (m.mem (entry dir (pdx level va)))) va last m
    unfolding visit descend
    visit-descends level sub dir m same t there =
        rw (t, visit, there, eq→== (pdx level va) (pdx level va) refl, eq→== _ _ same) refl

    last_level :
        (dir e : ℕ) (m : Machine S)
        → pdx 0 va ≡ pdx 0 last
        → ((m.mem e == 0) ≡ false)
        → entry_for m.mem va 0 dir ≡ some e
        → page_walk ops create_none cb 0 dir va last m ≡ some (ok, change e m)
    unfolding page_walk entry_for
    last_level dir e m same used h =
        let here : entry dir (pdx 0 va) ≡ e = ground arith in
        one_round _ _ _ m _ (count_one _ _ same) (
          visit-gives 0 _ dir m (turn-used _ (ap (λ a. m.mem a == 0) here ∙ used))
          ∙ ap (λ (x : ℕ). some (ok, change x m)) here)

    -- A level whose entries are never large pages.
    to_table :
        (level dir e : ℕ) (m : Machine S)
        → pdx (suc level) va ≡ pdx (suc level) last
        → turn create_none (suc level) (m.mem (entry dir (pdx (suc level) va))) ≡ down
        → pte_present (m.mem (entry dir (pdx (suc level) va))) ≡ true
        → page_walk ops create_none cb level
            (pte_addr (m.mem (entry dir (pdx (suc level) va))))
            va
            last
            m
          ≡ some (ok, change e m)
        → page_walk ops create_none cb (suc level) dir va last m ≡ some (ok, change e m)
    unfolding page_walk
    to_table level dir e m same t there below =
        one_round _ _ _ m _ (count_one _ _ same)
          (visit-descends (suc level) _ dir m same t there ∙ below)

    to_large :
        (level dir : ℕ) (m : Machine S)
        → pdx (suc level) va ≡ pdx (suc level) last
        → turn create_none (suc level) (m.mem (entry dir (pdx (suc level) va))) ≡ give
        → page_walk ops create_none cb (suc level) dir va last m
          ≡ some (ok, change (entry dir (pdx (suc level) va)) m)
    unfolding page_walk
    to_large level dir m same t =
        one_round _ _ _ m _ (count_one _ _ same) (visit-gives (suc level) _ dir m t)

    one_level :
        (level dir e : ℕ) (m : Machine S)
        → pdx (suc level) va ≡ pdx (suc level) last
        → ((d : ℕ)
            → entry_for m.mem va level d ≡ some e
            → page_walk ops create_none cb level d va last m ≡ some (ok, change e m))
        → entry_for m.mem va (suc level) dir ≡ some e
        → page_walk ops create_none cb (suc level) dir va last m ≡ some (ok, change e m)
    unfolding entry_for
    one_level level dir e m same below h =
        let word : ℕ = m.mem (entry dir (pdx (suc level) va)) in
        elim (Bool-cases (pte_present word)) [
          | inr absent ↦ absurd (ground arith)
          | inl there ↦ elim (Bool-cases (large level word)) [
            | inl big ↦
                let here : entry dir (pdx (suc level) va) ≡ e = (ground arith) in
                to_large level dir m same
                  (turn-large level word ∙ ap (λ c. if c then give else down) big)
                ∙ ap (λ (x : ℕ). some (ok, change x m)) here
            | inr small ↦
                to_table level dir e m same
                  (turn-large level word ∙ ap (λ c. if c then give else down) small) there
                  (below _ (ground arith))
          ]
        ]

    -- A walk over a range in one page gives its callback the entry that the processor's walk
    -- reaches, and no other.
    pub page_walk-single :
        (dir e : ℕ) (m : Machine S)
        → va / 4096 ≡ last / 4096
        → ((m.mem e == 0) ≡ false)
        → entry_for m.mem va 3 dir ≡ some e
        → page_walk ops create_none cb 3 dir va last m ≡ some (ok, change e m)
    page_walk-single dir e m same used = one_level 2 dir e m (index_3 va last same) (λ d2.
        one_level 1 d2 e m (index_2 va last same) (λ d1.
          one_level 0 d1 e m (index_1 va last same)
            (λ d0. last_level d0 e m (ap (λ (x : ℕ). x % 512) same) used)))
