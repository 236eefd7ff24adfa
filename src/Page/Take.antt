-- ===== src/Page/Take.antt =====
-- The first page of a list is handed out, and the choice of a list.
use libdbos.Common.{
  ℕ, ◌+◌, ◌-◌, ◌%◌, ◌^◌, ◌≤◌, ◌<◌, ◌≡◌, ◌≢◌, refl, ◌∙◌, ap, false, Option, none, some, List, ◌∷◌,
  ◌⊎◌, inr, arith, ◌==◌, if◌then◌else◌, length-set, lt→ltb, ne→==,
}
use native.Mathlib.Nat.{mod-lt}
use libdbos.Page.{
  Allocator, Thread, update, free_list, with_list, num_global_lists, rand_number, choose_from,
  page_get, take_first,
}
use libdbos.Page.Free.{count, occurrences, occurrences-set, update_self, update_ne}
use libdbos.Page.Inv.{IsValid}
use libdbos.Page.Steal.{IsAbove}

-- What the allocation of `pg` changes.
pub record Allocated (a : Allocator) (pg : ℕ) (b : Allocator) : Type 0 where
  pub valid : IsValid b
  pub managed : pg < b.num_pages
  pub unused : (a.num_pages ≤ pg) ⊎ (a.ref pg ≡ 0)
  pub not_free : occurrences pg b.lists ≡ 0
  pub one : b.ref pg ≡ 1
  pub num : a.num_pages ≤ b.num_pages
  pub others :
      (q : ℕ)
      → q < a.num_pages
      → q ≢ pg
      → (b.ref q ≡ a.ref q) × (occurrences q b.lists ≡ occurrences q a.lists)

module _ (cpu : ℕ) (t : Thread) (a : Allocator) (v : IsValid a) (here : cpu < num_global_lists)
    {pg : ℕ} {rest : List ℕ} (e : free_list a cpu ≡ pg ∷ rest) where
  abbrev popped : Allocator
  popped = with_list a cpu rest

  abbrev pub taken : Allocator
  taken = record popped { ref = update a.ref pg 1 }

  occurrences-popped :
      (q : ℕ) → occurrences q popped.lists + (if pg == q then 1 else 0) ≡ occurrences q a.lists
  occurrences-popped q =
      let all = v.all_lists in
      let counted : count q (free_list a cpu) ≡ count q (pg ∷ rest) = ap (count q) e in
      omega (arith, occurrences-set q a.lists cpu rest (omega arith))

  first-free : (pg < a.num_pages) × (a.ref pg ≡ 0)
  first-free = v.free pg (ground (arith, occurrences-popped pg))

  pub take_first_lem : take_first cpu t a ≡ some (some pg, t, taken)
  unfolding take_first page_get
  take_first_lem =
      rw (e, take_first) (rw (lt→ltb pg a.num_pages first-free.0, first-free.1, page_get) refl)

  pub take_first-Allocated : Allocated a pg taken
  take_first-Allocated = record {
    valid = record {
      all_lists = length-set a.lists cpu rest ∙ v.all_lists;
      small = v.small;
      once = λ p. ground (arith, occurrences-popped p, v.once p);
      free = λ p h. ground (arith, occurrences-popped p, v.once p, v.free p);
    };
    managed = first-free.0;
    unused = inr first-free.1;
    not_free = ground (arith, occurrences-popped pg, v.once pg);
    one = update_self a.ref pg 1;
    num = omega arith;
    others = λ q h ne. (update_ne a.ref pg 1 q ne, ground (arith, occurrences-popped q));
  }

rand_number-core : (t : Thread) → (rand_number t).1.cpu_id ≡ t.cpu_id
unfolding rand_number
rand_number-core t = refl

-- What a choice gives: a list above those of the cores.
pub record Chosen (n : ℕ) (t : Thread) (o : Option (ℕ × Thread)) : Type 0 where
  pub list : ℕ
  pub thread : Thread
  pub returns : o ≡ some (list, thread)
  pub above : n ≤ list
  pub inside : list < num_global_lists
  pub same_core : thread.cpu_id ≡ t.cpu_id
  pub keeps : IsAbove n thread

pub choose_from-Chosen :
    (n : ℕ) (t : Thread) (o : Option ℕ)
    → t.last_stealed ≡ o
    → IsAbove n t
    → n < num_global_lists
    → Chosen n t (choose_from n t o)
unfolding choose_from
choose_from-Chosen n t (some l) e ab h = record {
  list = l;
  thread = t;
  returns = refl;
  above = (ab.above l e).0;
  inside = (ab.above l e).1;
  same_core = refl;
  keeps = ab;
}
choose_from-Chosen n t none e ab h =
    let r = (rand_number t).0 in
    let span : (num_global_lists + 2 ^ 32 - n) % 2 ^ 32 ≡ num_global_lists - n = omega arith in
    let low : r % (num_global_lists - n) < num_global_lists - n = mod-lt r (omega arith) in
    let l = r % (num_global_lists - n) + n in
    let fits : l % 2 ^ 32 ≡ l = omega arith in
    let some_span : (num_global_lists - n == 0) ≡ false =
      ne→== (num_global_lists - n) 0 (omega arith) in
    record {
      list = l;
      thread = record (rand_number t).1 { last_stealed = some l };
      returns = rw (span, some_span, fits, lt→ltb l 104 (omega arith)) refl;
      above = omega arith;
      inside = omega arith;
      same_core = rand_number-core t;
      keeps = record { above = λ l' eq. ground arith };
    }
