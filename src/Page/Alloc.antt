-- ===== src/Page/Alloc.antt =====
-- `dune_page_alloc` hands out pages that nobody has.
use libdbos.Common.{
  ℕ, zero, suc, ◌<◌, ◌≡◌, refl, ◌∙◌, Bool, true, false, Option, none, some, List, [], ◌∷◌, ◌⊎◌, inl,
  inr, arith, if◌then◌else◌, lt→ltb, List-cases,
}
use native.Mathlib.Decide.{dec_lt}
use libdbos.Page.{
  Allocator, Thread, Env, Outcome, free_list, my_list, num_global_lists, grow_pages, choose_list,
  grow_size, steal_round, attempt, alloc_attempts, page_alloc,
}
use libdbos.Page.Inv.{IsValid}
use libdbos.Page.Steal.{
  Grown, Kept, Kept-refl, Kept-trans, grow_size_lem, try_steal_pages_lem, IsAbove,
}
use libdbos.Page.Take.{Allocated, taken, take_first_lem, take_first-Allocated, choose_from-Chosen}

-- How an allocation ends: with a page that nobody had, or with NULL and no page moved.
pub record Ended (n : ℕ) (t : Thread) (a : Allocator) (o : Outcome) : Type 0 where
  pub page : Option ℕ
  pub thread : Thread
  pub after : Allocator
  pub returns : o ≡ some (page, thread, after)
  pub keeps : IsAbove n thread
  pub same_core : thread.cpu_id ≡ t.cpu_id
  pub result : (page ≡ none) × Kept a after ⊎ ((pg : ℕ) × (page ≡ some pg) × Allocated a pg after)

-- What an allocation gives: NULL, only when the own list was empty and could not grow, or a page.
pub data Given (env : Env) (n : ℕ) (t : Thread) (a : Allocator) : Outcome → Type 0 where
  no_page :
      (t' : Thread) (after : Allocator)
      → free_list a (my_list t) ≡ []
      → (b : Allocator) → grow_size env.mmap (my_list t) a ≡ (false, b)
      → IsAbove n t'
      → t'.cpu_id ≡ t.cpu_id
      → Kept a after
      → Given env n t a (some (none, t', after))
  gave :
      (pg : ℕ) (t' : Thread) (after : Allocator)
      → IsAbove n t'
      → t'.cpu_id ≡ t.cpu_id
      → Allocated a pg after
      → Given env n t a (some (some pg, t', after))

-- An allocation after a step in which no page changed hands.
Kept-Allocated : {a b c : Allocator} {pg : ℕ} → Kept a b → Allocated b pg c → Allocated a pg c
Kept-Allocated {a} {b} {c} {pg} k d = record {
  valid = d.valid;
  managed = d.managed;
  unused = elim (dec_lt pg a.num_pages) [
    | yes h ↦ inr (ground (arith, d.unused, k.num, k.refs pg))
    | no h ↦ inl (omega arith)
  ];
  not_free = d.not_free;
  one = d.one;
  num = omega (arith, k.num, d.num);
  others = λ q h ne. ground (arith, d.others q (omega (arith, k.num)) ne, k.refs q, k.occurs q);
}

-- An allocation after a growth: the page may be one of the new ones.
Grown-Allocated :
    {l : ℕ} {a b c : Allocator} {pg : ℕ} → Grown l a b → Allocated b pg c → Allocated a pg c
Grown-Allocated {a} {b} {c} {pg} g d = record {
  valid = d.valid;
  managed = d.managed;
  unused = elim (dec_lt pg a.num_pages) [
    | yes h ↦ inr (ground (arith, d.unused, g.num, g.refs pg))
    | no h ↦ inl (omega arith)
  ];
  not_free = d.not_free;
  one = d.one;
  num = omega (arith, g.num, d.num);
  others = λ q h ne. ground (arith, d.others q (omega (arith, g.num)) ne, g.refs q, g.occurs q);
}

Ended-Kept :
    {n : ℕ} {t t' : Thread} {a b : Allocator} {o : Outcome}
    → Kept a b
    → t'.cpu_id ≡ t.cpu_id
    → Ended n t' b o
    → Ended n t a o
Ended-Kept k same d = record {
  page = d.page;
  thread = d.thread;
  after = d.after;
  returns = d.returns;
  keeps = d.keeps;
  same_core = d.same_core ∙ same;
  result = elim d.result [
    | inl (e, m) ↦ inl (e, Kept-trans k m)
    | inr (pg, e, m) ↦ inr (pg, e, Kept-Allocated k m)
  ];
}

module _ (env : Env) (few : env.max_cores < num_global_lists) where
  open env use {mmap, acquired, max_cores}

  took :
      (t : Thread) (a b : Allocator)
      → IsAbove max_cores t
      → {pg : ℕ} → Allocated a pg b
      → Ended max_cores t a (some (some pg, t, b))
  took t a b ab {pg} d = record {
    page = some pg;
    thread = t;
    after = b;
    returns = refl;
    keeps = ab;
    same_core = refl;
    result = inr (pg, refl, d);
  }

  module _ (k : ℕ) (retry : Thread → Allocator → Outcome) (t : Thread) (ab : IsAbove max_cores t)
      (mine : my_list t < max_cores)
      (again : (t' : Thread) (a' : Allocator)
        → IsValid a'
        → IsAbove max_cores t'
        → t'.cpu_id ≡ t.cpu_id
        → Ended max_cores t' a' (retry t' a')) where
    given_up-IsAbove :
        (won : Bool) (t1 : Thread)
        → IsAbove max_cores t1
        → IsAbove max_cores (if won then t1 else record t1 { last_stealed = none })
    given_up-IsAbove true t1 h = h
    given_up-IsAbove false t1 h = record { above = λ l e. absurd (ground arith) }

    given_up-core :
        (won : Bool) (t1 : Thread)
        → (if won then t1 else record t1 { last_stealed = none }).cpu_id ≡ t1.cpu_id
    given_up-core true t1 = refl
    given_up-core false t1 = refl

    steal_round-Ended :
        (a : Allocator) → IsValid a → Ended max_cores t a (steal_round env k retry t a)
    unfolding steal_round choose_list
    steal_round-Ended a v =
        let c = choose_from-Chosen max_cores t t.last_stealed refl ab few in
        let (won, b, es, kept) =
          try_steal_pages_lem (acquired k) c.list (my_list t) grow_pages a v c.inside
            (omega (arith, c.above)) in
        let t' = if won then c.thread else record c.thread { last_stealed = none } in
        let same : t'.cpu_id ≡ t.cpu_id = given_up-core won c.thread ∙ c.same_core in
        rw (c.returns, steal_round)
          (rw (es, steal_round)
            (Ended-Kept kept same
              (again t' b kept.valid (given_up-IsAbove won c.thread c.keeps) same)))

    here : my_list t < num_global_lists
    here = omega arith

    -- The rest of a round, by what `grow_size` did to an empty list.
    after_growth :
        (a b : Allocator)
        → IsValid a
        → (grow_size mmap (my_list t) a ≡ (true, b)) × Grown (my_list t) a b
          ⊎ (grow_size mmap (my_list t) a ≡ (false, b)) × Kept a b
        → free_list a (my_list t) ≡ []
        → Ended max_cores t a (attempt env k retry t a)
    unfolding attempt
    after_growth a b v (inl (eg, g)) e =
        let (y, ys, ef) = g.first in
        rw (lt→ltb (my_list t) 104 here, attempt)
          (rw (e, attempt)
            (rw (eg, attempt)
              (rw (eg, take_first_lem (my_list t) t b g.valid here ef)
                (took t a (taken (my_list t) t b g.valid here ef) ab
                  (Grown-Allocated g (take_first-Allocated (my_list t) t b g.valid here ef))))))
    after_growth a b v (inr (eg, kept)) e =
        rw (lt→ltb (my_list t) 104 here, attempt)
          (rw (e, attempt)
            (rw (eg, attempt) (rw eg (Ended-Kept kept refl (steal_round-Ended b kept.valid)))))

    attempt-Ended : (a : Allocator) → IsValid a → Ended max_cores t a (attempt env k retry t a)
    unfolding attempt
    attempt-Ended a v = elim (List-cases (free_list a (my_list t))) [
      | inr (pg, rest, e) ↦
          rw (lt→ltb (my_list t) 104 here, attempt)
            (rw (e, attempt)
              (rw (take_first_lem (my_list t) t a v here e) (
                took t a (taken (my_list t) t a v here e) ab
                  (take_first-Allocated (my_list t) t a v here e))))
      | inl e ↦ let (b, g) = grow_size_lem mmap (my_list t) a v here in after_growth a b v g e
    ]

  alloc_attempts-Ended :
      (k : ℕ) (t : Thread) (a : Allocator)
      → IsValid a
      → IsAbove max_cores t
      → my_list t < max_cores
      → Ended max_cores t a (alloc_attempts env k t a)
  unfolding alloc_attempts
  alloc_attempts-Ended zero t a v ab mine = record {
    page = none;
    thread = t;
    after = a;
    returns = refl;
    keeps = ab;
    same_core = refl;
    result = inl (refl, Kept-refl v);
  }
  alloc_attempts-Ended (suc k) t a v ab mine =
      attempt-Ended k (alloc_attempts env k) t ab mine
        (λ t' a' v' ab' same. alloc_attempts-Ended k t' a' v' ab' (mine_too t' same)) a v
    where
      mine_too : (t' : Thread) → t'.cpu_id ≡ t.cpu_id → my_list t' < max_cores
      mine_too t' same = rw same mine

  -- The own list has a page: it is given.
  own_page :
      (k : ℕ) (retry : Thread → Allocator → Outcome) (t : Thread) (a : Allocator) (pg : ℕ)
      (rest : List ℕ)
      → (v : IsValid a) → IsAbove max_cores t
      → (here : my_list t < num_global_lists) → free_list a (my_list t) ≡ pg ∷ rest
      → Given env max_cores t a (attempt env k retry t a)
  unfolding attempt
  own_page k retry t a pg rest v ab here e =
      rw (lt→ltb (my_list t) 104 here, attempt)
        (rw (e, attempt)
          (rw (take_first_lem (my_list t) t a v here e)
            (gave pg t _ ab refl (take_first-Allocated (my_list t) t a v here e))))

  -- The own list is empty, and a new batch is mapped: its first page is given.
  new_page :
      (k : ℕ) (retry : Thread → Allocator → Outcome) (t : Thread) (a b : Allocator)
      → IsValid a
      → IsAbove max_cores t
      → (here : my_list t < num_global_lists) → free_list a (my_list t) ≡ []
      → grow_size mmap (my_list t) a ≡ (true, b)
      → Grown (my_list t) a b
      → Given env max_cores t a (attempt env k retry t a)
  unfolding attempt
  new_page k retry t a b v ab here e eg g =
      let (y, ys, ef) = g.first in
      rw (lt→ltb (my_list t) 104 here, attempt)
        (rw (e, attempt)
          (rw (eg, attempt)
            (rw (eg, take_first_lem (my_list t) t b g.valid here ef)
              (gave y t _ ab refl
                (Grown-Allocated g (take_first-Allocated (my_list t) t b g.valid here ef))))))

  -- No own page and no new batch: whatever the theft gives.
  stolen :
      (t : Thread) (a b : Allocator)
      → free_list a (my_list t) ≡ []
      → grow_size mmap (my_list t) a ≡ (false, b)
      → (o : Outcome) → Ended max_cores t a o
      → Given env max_cores t a o
  stolen t a b e eg o d = elim d.result [
    | inl (none_left, kept) ↦
        rw (d.returns, none_left) (no_page d.thread d.after e b eg d.keeps d.same_core kept)
    | inr (pg, is_page, new) ↦
        rw (d.returns, is_page) (gave pg d.thread d.after d.keeps d.same_core new)
  ]

  -- A search with at least one attempt.
  alloc_attempts-Given :
      (k : ℕ) (t : Thread) (a : Allocator)
      → IsValid a
      → IsAbove max_cores t
      → my_list t < max_cores
      → Given env max_cores t a (alloc_attempts env (suc k) t a)
  unfolding alloc_attempts
  alloc_attempts-Given k t a v ab mine = elim (List-cases (free_list a (my_list t))) [
    | inr (pg, rest, e) ↦ own_page k _ t a pg rest v ab (omega (arith, mine, few)) e
    | inl e ↦
        let (b, g) = grow_size_lem mmap (my_list t) a v (omega (arith, mine, few)) in
        elim g [
          | inl (eg, grown) ↦ new_page k _ t a b v ab (omega (arith, mine, few)) e eg grown
          | inr (eg, kept) ↦ stolen t a b e eg _ (alloc_attempts-Ended (suc k) t a v ab mine)
        ]
  ]

  -- `dune_page_alloc` ends, on a valid allocator, for a thread whose core is below the cores that
  -- the application set, which are fewer than the lists, and whose last theft, if any, was from a
  -- list above those cores, whatever `mmap` and the locks do. It gives a page that was not yet
  -- managed or had no reference, to which the only reference is now the caller's and which is in no
  -- list, while no other page changes hands; or it gives NULL and no page changes hands, and then
  -- the thread's own list was empty and no new batch could be added to it. The allocator stays valid.
  pub page_alloc-Given :
      (t : Thread) (a : Allocator)
      → IsValid a
      → IsAbove max_cores t
      → my_list t < max_cores
      → Given env max_cores t a (page_alloc env t a)
  unfolding page_alloc
  page_alloc-Given = alloc_attempts-Given 100000
