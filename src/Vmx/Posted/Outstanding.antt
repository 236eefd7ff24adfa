-- ===== src/Vmx/Posted/Outstanding.antt =====
-- No requested vector is forgotten.
use libdbos.Common.{
  ℕ, zero, suc, ◌+◌, ◌/◌, ◌<◌, ◌≡◌, ◌≢◌, refl, sym, ap, ◌∙◌, inl, inr, Bool, true, false, ◌||◌,
  ◌==◌, ==→eq, Bool-cases, leb, le→leb, lt→leb, arith,
}
use mathlib.Core.Bool.{true≢false}
use libdbos.Vmx.Posted.{
  Handler, outside, taking, State, set_vector, clear_word, Step, mark, is_requested, notify,
  is_outstanding, take, nothing, take_word, leave, Starts, Reach, here, next,
}

-- The handler is going to take the vector.
abbrev pub takes : Handler → ℕ → Bool
takes outside v = false
takes (taking w) v = leb w (v / 64)

abbrev waits : ℕ → Bool
waits zero = false
waits (suc n) = true

-- Who answers for a vector: the outstanding bit, its sender, or the handler.
abbrev pub answered_for : State → ℕ → Bool
answered_for s v = s.outstanding || (waits (s.marked v) || takes s.handler v)

pub record Inv (s : State) : Type 0 where
  pub in_range : (v : ℕ) → s.vectors v ≡ true → v < 256
  pub answered : (v : ℕ) → s.vectors v ≡ true → answered_for s v ≡ true

others :
    (v u : ℕ) (vectors : ℕ → Bool)
    → (u == v) ≡ false
    → set_vector v true vectors u ≡ true
    → vectors u ≡ true
others v u vectors other h = ground arith

any_or : (a b : Bool) → a || (true || b) ≡ true
any_or a b = ground arith

last_or : (a : Bool) {b : Bool} → b ≡ true → a || b ≡ true
last_or a h = ground arith

kept : (w u : ℕ) (vectors : ℕ → Bool) → clear_word w vectors u ≡ true → vectors u ≡ true
kept w u vectors h = ground arith

cleared : (w u : ℕ) (vectors : ℕ → Bool) → clear_word w vectors u ≡ true → u / 64 ≢ w
cleared w u vectors h e = ground arith

-- A vector of another word that the handler has still to take.
goes_on :
    (w u : ℕ) (s : State)
    → s.handler ≡ taking w
    → u / 64 ≢ w
    → answered_for s u ≡ true
    → s.outstanding || (waits (s.marked u) || leb (w + 1) (u / 64)) ≡ true
goes_on w u s at away a =
    let e : takes s.handler u ≡ leb w (u / 64) = ap (λ (h : Handler). takes h u) at in
    let a' : s.outstanding || (waits (s.marked u) || leb w (u / 64)) ≡ true =
      ap (λ (b : Bool). s.outstanding || (waits (s.marked u) || b)) (sym e) ∙ a in
    ground arith

-- After the four words the handler answers for no vector.
ends :
    (u : ℕ) (s : State)
    → s.handler ≡ taking 4
    → u < 256
    → answered_for s u ≡ true
    → s.outstanding || (waits (s.marked u) || false) ≡ true
ends u s at small a =
    let e : takes s.handler u ≡ leb 4 (u / 64) = ap (λ (h : Handler). takes h u) at in
    let a' : s.outstanding || (waits (s.marked u) || leb 4 (u / 64)) ≡ true =
      ap (λ (b : Bool). s.outstanding || (waits (s.marked u) || b)) (sym e) ∙ a in
    let out : leb 4 (u / 64) ≡ false = lt→leb 4 (u / 64) (omega arith) in
    ap (λ (b : Bool). s.outstanding || (waits (s.marked u) || b)) (sym out) ∙ a'

Step-Inv : {s t : State} → Step s t → Inv s → Inv t
Step-Inv {s} (mark v small off) i = record {
  in_range = λ u h. elim (Bool-cases (u == v)) [
    | inl this ↦ rw (==→eq u v this) small
    | inr other ↦ i.in_range u (others v u s.vectors other h)
  ];
  answered = λ u h. elim (Bool-cases (u == v)) [
    | inl this ↦ rw this (any_or s.outstanding (takes s.handler u))
    | inr other ↦ rw other (i.answered u (others v u s.vectors other h))
  ];
}
Step-Inv {s} (is_requested v on) i = i
Step-Inv {s} (notify v n m off) i = record { in_range = i.in_range; answered = λ u h. refl }
Step-Inv {s} (is_outstanding v n m on) i = record {
  in_range = i.in_range;
  answered = λ u h. rw on refl;
}
Step-Inv {s} (take at on) i = record {
  in_range = i.in_range;
  answered = λ u h. last_or (waits (s.marked u)) (le→leb 0 (u / 64) (omega arith));
}
Step-Inv {s} (nothing at off) i = i
Step-Inv {s} (take_word {w} at small) i = record {
  in_range = λ u h. i.in_range u (kept w u s.vectors h);
  answered =
      λ u h. goes_on w u s at (cleared w u s.vectors h) (i.answered u (kept w u s.vectors h));
}
Step-Inv {s} (leave at) i = record {
  in_range = i.in_range;
  answered = λ u h. ends u s at (i.in_range u h) (i.answered u h);
}

Reach-Inv : {s t : State} → Starts s → Reach s t → Inv t
Reach-Inv b here = record {
  in_range = λ v h. absurd (true≢false (sym h ∙ b.none_requested v));
  answered = λ v h. absurd (true≢false (sym h ∙ b.none_requested v));
}
Reach-Inv b (next r st) = Step-Inv st (Reach-Inv b r)

at_rest :
    (s : State) (v : ℕ)
    → s.handler ≡ outside
    → s.marked v ≡ 0
    → answered_for s v ≡ true
    → s.outstanding ≡ true
at_rest s v out off a = ground arith

-- However the senders and the receiving core take turns from the start, a vector that is requested
-- is not forgotten: while the core does not take vectors and the sender of this one have passed
-- both bits, the outstanding bit is set, so that the core takes the vector when it looks next.
pub Reach-outstanding :
    {s t : State}
    → Starts s
    → Reach s t
    → (v : ℕ) → t.vectors v ≡ true
    → t.marked v ≡ 0
    → t.handler ≡ outside
    → t.outstanding ≡ true
Reach-outstanding {s} {t} b r v requested passed out =
    at_rest t v out passed ((Reach-Inv b r).answered v requested)
