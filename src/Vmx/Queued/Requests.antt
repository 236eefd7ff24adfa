-- ===== src/Vmx/Queued/Requests.antt =====
-- Which requests the guest gets.
use libdbos.Common.{
  ℕ, zero, suc, ◌+◌, ◌%◌, ◌≤◌, ◌<◌, ◌≡◌, refl, sym, ap, ◌∙◌, ◌⊎◌, ◌↔◌, inl, inr, Bool, true, false,
  bit_or, ltb, ◌==◌, ==→eq, Bool-cases, ltb→lt, ltb→le, lt→ltb, arith,
}
use mathlib.Core.Bool.{true≢false}
use libdbos.Vmx.Queued.{Core, Found, add_vector, find_vectors, handle_queued_interrupts}

-- The requests among the vectors from `lo` up to `hi`, added to `f`.
record Added (vectors : ℕ → Bool) (lo hi : ℕ) (f g : Found) : Type 0 where
  pub requested : (u : ℕ) → lo ≤ u → u < hi → vectors u ≡ true → g.irr u ≡ true
  pub old : (u : ℕ) → f.irr u ≡ true → g.irr u ≡ true
  pub no_other :
      (u : ℕ) → g.irr u ≡ true → (f.irr u ≡ true) ⊎ ((lo ≤ u) × (u < hi) × (vectors u ≡ true))
  pub highest : (u : ℕ) → lo ≤ u → u < hi → vectors u ≡ true → u ≤ g.rvi
  pub at_least : f.rvi ≤ g.rvi
  pub from_one : (g.rvi ≡ f.rvi) ⊎ ((g.rvi < hi) × (vectors g.rvi ≡ true))

adds : (v u : ℕ) (f : Found) → f.irr u ≡ true → (add_vector v f).irr u ≡ true
adds v u f h = ground arith

rvi_after : (v : ℕ) (f : Found) → (v ≤ (add_vector v f).rvi) × (f.rvi ≤ (add_vector v f).rvi)
rvi_after v f = elim (Bool-cases (ltb v f.rvi)) [
  | inl less ↦ rw less (omega (arith, ltb→lt v f.rvi less), omega arith)
  | inr more ↦ rw more (omega arith, omega (arith, ltb→le v f.rvi more))
]

rvi_is : (v : ℕ) (f : Found) → ((add_vector v f).rvi ≡ f.rvi) ⊎ ((add_vector v f).rvi ≡ v)
rvi_is v f = elim (Bool-cases (ltb v f.rvi)) [
  | inl less ↦ rw less (inl refl)
  | inr more ↦ rw more (inr refl)
]

at_or_above : (v u : ℕ) → (u == v) ≡ false → v ≤ u → v + 1 ≤ u
at_or_above v u other low = ground arith

with_one :
    (vectors : ℕ → Bool) (n v : ℕ) (f g : Found)
    → vectors v ≡ true
    → Added vectors (v + 1) (v + 1 + n) (add_vector v f) g
    → Added vectors v (v + suc n) f g
with_one vectors n v f g on a = record {
  requested = λ u low high h. elim (Bool-cases (u == v)) [
    | inl this ↦ a.old u (rw this refl)
    | inr other ↦ a.requested u (at_or_above v u other low) (omega arith) h
  ];
  old = λ u h. a.old u (adds v u f h);
  no_other = λ u h. elim (a.no_other u h) [
    | inl e ↦ elim (Bool-cases (u == v)) [
      | inl this ↦ inr (
        omega (arith, ==→eq u v this),
        omega (arith, ==→eq u v this),
        ap vectors (==→eq u v this) ∙ on,
      )
      | inr other ↦ inl (ground arith)
    ]
    | inr (low, high, set) ↦ inr (omega arith, omega arith, set)
  ];
  highest = λ u low high h. elim (Bool-cases (u == v)) [
    | inl this ↦ omega (arith, ==→eq u v this, (rvi_after v f).0, a.at_least)
    | inr other ↦ a.highest u (at_or_above v u other low) (omega arith) h
  ];
  at_least = omega (arith, (rvi_after v f).1, a.at_least);
  from_one = elim a.from_one [
    | inl e ↦ elim (rvi_is v f) [
      | inl as_before ↦ inl (e ∙ as_before)
      | inr new ↦ inr (omega (arith, e, new), ap vectors (e ∙ new) ∙ on)
    ]
    | inr (high, set) ↦ inr (omega arith, set)
  ];
}

without_one :
    (vectors : ℕ → Bool) (n v : ℕ) (f g : Found)
    → vectors v ≡ false
    → Added vectors (v + 1) (v + 1 + n) f g
    → Added vectors v (v + suc n) f g
without_one vectors n v f g off a = record {
  requested = λ u low high h. a.requested u (past u low h) (omega arith) h;
  old = a.old;
  no_other = λ u h. elim (a.no_other u h) [
    | inl e ↦ inl e
    | inr (low, high, set) ↦ inr (omega arith, omega arith, set)
  ];
  highest = λ u low high h. a.highest u (past u low h) (omega arith) h;
  at_least = a.at_least;
  from_one = elim a.from_one [ inl e ↦ inl e | inr (high, set) ↦ inr (omega arith, set) ];
}
  where
    past : (u : ℕ) → v ≤ u → vectors u ≡ true → v + 1 ≤ u
    past u low h = elim (Bool-cases (u == v)) [
      | inl this ↦ absurd (true≢false (sym h ∙ ap vectors (==→eq u v this) ∙ off))
      | inr other ↦ at_or_above v u other low
    ]

find_vectors-Added :
    (vectors : ℕ → Bool) (n v : ℕ) (f : Found)
    → Added vectors v (v + n) f (find_vectors vectors n v f)
unfolding find_vectors
find_vectors-Added vectors zero v f = record {
  requested = λ u low high h. absurd (omega arith);
  old = λ u h. h;
  no_other = λ u h. inl h;
  highest = λ u low high h. absurd (omega arith);
  at_least = omega arith;
  from_one = inl refl;
}
find_vectors-Added vectors (suc n) v f = elim (Bool-cases (vectors v)) [
  | inl on ↦
      rw on (with_one vectors n v f _ on (find_vectors-Added vectors n (v + 1) (add_vector v f)))
  | inr off ↦ rw off (without_one vectors n v f _ off (find_vectors-Added vectors n (v + 1) f))
]

-- The guest has the requests of the descriptor besides its own, and the status has been or-ed with
-- the highest vector, `rvi`, of the descriptor and the old RVI.
pub record Delivered (c c' : Core) (rvi : ℕ) : Type 0 where
  pub requests :
      (u : ℕ) → u < 256 → ((c'.virr u ≡ true) ↔ ((c.virr u ≡ true) ⊎ (c.vectors u ≡ true)))
  pub emptied : (u : ℕ) → u < 256 → c'.vectors u ≡ false
  pub highest : (u : ℕ) → u < 256 → c.vectors u ≡ true → u ≤ rvi
  pub old_rvi : c.guest_interrupt_status % 256 ≤ rvi
  pub from_one : (rvi ≡ c.guest_interrupt_status % 256) ⊎ ((rvi < 256) × (c.vectors rvi ≡ true))
  pub status : c'.guest_interrupt_status ≡ bit_or c.guest_interrupt_status rvi

-- Before a run of the guest, when the outstanding bit is set: every vector that is requested in
-- the descriptor is requested in the vIRR, besides those that were, and no other; the descriptor
-- is left empty and its outstanding bit clear; and the interrupt status becomes its bitwise or
-- with the highest of its old RVI and the vectors requested, which keeps bits of the old RVI.
pub handle_queued_interrupts-Delivered :
    (c : Core)
    → c.outstanding ≡ true
    → (rvi : ℕ) × Delivered c (handle_queued_interrupts c) rvi
      × ((handle_queued_interrupts c).outstanding ≡ false)
unfolding handle_queued_interrupts
handle_queued_interrupts-Delivered c on =
    let start : Found = record {
      irr = c.virr;
      rvi = c.guest_interrupt_status % 256;
      queued = c.queued_interrupts;
    } in
    let a = find_vectors-Added c.vectors 256 0 start in
    rw on (
      (find_vectors c.vectors 256 0 start).rvi,
      record {
        requests = λ u small. (
          λ h. elim (a.no_other u h) [ inl e ↦ inl e | inr (low, high, set) ↦ inr set ],
          λ h. elim h [ inl e ↦ a.old u e | inr set ↦ a.requested u (omega arith) small set ],
        );
        emptied = λ u small. rw (lt→ltb u 256 small) refl;
        highest = λ u small set. a.highest u (omega arith) small set;
        old_rvi = a.at_least;
        from_one = a.from_one;
        status = refl;
      },
      refl,
    )
