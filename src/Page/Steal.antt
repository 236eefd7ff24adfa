-- ===== src/Page/Steal.antt =====
-- `grow_size` and `dune_try_steal_pages` keep the invariant.
use libdbos.Common.{
  ℕ, ◌+◌, ◌-◌, ◌*◌, ◌≤◌, ◌<◌, ◌≡◌, refl, ◌∙◌, ap, Bool, true, false, ◌&&◌, Option, none, some, List,
  [], ◌∷◌, ◌⊎◌, inl, inr, arith, ltb, leb, if◌then◌else◌, length, get_or, set, length-set,
  get_or-set_ne, lt→ltb, le→ltb, le→leb, lt→leb, Option-cases, List-cases,
}
use native.Mathlib.Decide.{dec_lt, dec_le}
use libdbos.Page.{
  Allocator, Thread, free_list, with_list, num_global_lists, max_pages, grow_pages, pagebase,
  pgsize, do_mapping, add_pages, grow_size, move_pages, try_steal_pages,
}
use libdbos.Page.Free.{
  count, occurrences, occurrences-set, count-move_pages, in_range, add_pages-Added, add_pages-first,
}
use libdbos.Page.Inv.{IsValid}

-- How a growth by one batch shows.
pub record Grown (l : ℕ) (a b : Allocator) : Type 0 where
  pub valid : IsValid b
  pub num : b.num_pages ≡ a.num_pages + grow_pages
  pub occurs :
      (p : ℕ) → occurrences p b.lists ≡ occurrences p a.lists + in_range a.num_pages grow_pages p
  pub refs :
      (p : ℕ)
      → b.ref p ≡ (if leb a.num_pages p && ltb p (a.num_pages + grow_pages) then 0 else a.ref p)
  pub first : (y : ℕ) × (ys : List ℕ) × (free_list b l ≡ y ∷ ys)

-- No page changes hands.
pub record Kept (a b : Allocator) : Type 0 where
  pub valid : IsValid b
  pub num : a.num_pages ≤ b.num_pages
  pub occurs : (p : ℕ) → occurrences p b.lists ≡ occurrences p a.lists
  pub refs : (p : ℕ) → b.ref p ≡ a.ref p

-- The pages of a batch, put on list `l`.
abbrev pub batch_added : ℕ → Allocator → Allocator
batch_added l a =
    add_pages l grow_pages a.num_pages (record a { num_pages = a.num_pages + grow_pages })

module _ (mmap : Bool → ℕ → ℕ → ℕ) (l : ℕ) (a : Allocator) where
  abbrev pub mapped : Option ℕ
  mapped = do_mapping mmap (pagebase + a.num_pages * pgsize) (grow_pages * pgsize)

  pub batch_added-Grown :
      IsValid a
      → l < num_global_lists
      → a.num_pages + grow_pages ≤ max_pages
      → Grown l a (batch_added l a)
  batch_added-Grown v here room =
      let a1 = record a { num_pages = a.num_pages + grow_pages } in
      let all = v.all_lists in
      let inside : l < length a.lists = omega arith in
      let d = add_pages-Added l grow_pages a.num_pages a1 inside in
      record {
        valid = record {
          all_lists = d.same_lists ∙ all;
          small = rw d.same_num room;
          once = λ p. ground (arith, d.occurs p, v.once p, v.free p);
          free = λ p h. ground (arith, d.occurs p, d.refs p, v.free p, d.same_num);
        };
        num = d.same_num;
        occurs = d.occurs;
        refs = d.refs;
        first = add_pages-first l 511 a.num_pages a1 inside;
      }

  pub grow_size_full : max_pages < a.num_pages + grow_pages → grow_size mmap l a ≡ (false, a)
  unfolding grow_size
  grow_size_full full = elim (dec_le max_pages a.num_pages) [
    | yes h ↦ rw (le→leb max_pages a.num_pages h) refl
    | no h ↦
        rw
          (
            lt→leb max_pages a.num_pages (omega arith),
            lt→ltb max_pages (a.num_pages + grow_pages) full,
          )
          refl
  ]

  back : a.num_pages + grow_pages - grow_pages ≡ a.num_pages
  back = omega arith

  pub grow_size-mapped :
      {ptr : ℕ}
      → a.num_pages + grow_pages ≤ max_pages
      → mapped ≡ some ptr
      → grow_size mmap l a ≡ (true, batch_added l a)
  unfolding grow_size
  grow_size-mapped room e =
      rw
        (
          lt→leb max_pages a.num_pages (omega arith),
          le→ltb max_pages (a.num_pages + grow_pages) room,
          back,
          e,
        )
        (rw back refl)

  -- The number of pages has grown although there are none.
  pub grow_size_unmapped :
      a.num_pages + grow_pages ≤ max_pages
      → mapped ≡ none
      → grow_size mmap l a ≡ (false, record a { num_pages = a.num_pages + grow_pages })
  unfolding grow_size
  grow_size_unmapped room e =
      rw
        (
          lt→leb max_pages a.num_pages (omega arith),
          le→ltb max_pages (a.num_pages + grow_pages) room,
          back,
          e,
        )
        refl

  -- `grow_size` on a valid allocator: it returns 0 and has added 512 unreferenced pages to the
  -- list, or it returns an error and no page changed hands.
  pub grow_size_lem :
      IsValid a
      → l < num_global_lists
      → (b : Allocator) × ((grow_size mmap l a ≡ (true, b)) × Grown l a b
          ⊎ (grow_size mmap l a ≡ (false, b)) × Kept a b)
  grow_size_lem v here = elim (dec_lt max_pages (a.num_pages + grow_pages)) [
    | yes full ↦ (
      a,
      inr (
        grow_size_full full,
        record { valid = v; num = omega arith; occurs = λ p. refl; refs = λ p. refl },
      ),
    )
    | no not_full ↦
        let room : a.num_pages + grow_pages ≤ max_pages = omega arith in
        elim (Option-cases mapped) [
          | inl e ↦ (
            record a { num_pages = a.num_pages + grow_pages },
            inr (
              grow_size_unmapped room e,
              record {
                valid = record {
                  all_lists = v.all_lists;
                  small = room;
                  once = v.once;
                  free = λ p h. (omega (arith, (v.free p h).0), (v.free p h).1);
                };
                num = omega arith;
                occurs = λ p. refl;
                refs = λ p. refl;
              },
            ),
          )
          | inr (ptr, e) ↦
              (batch_added l a, inl (grow_size-mapped room e, batch_added-Grown v here room))
        ]
  ]

pub Kept-refl : {a : Allocator} → IsValid a → Kept a a
Kept-refl v = record { valid = v; num = omega arith; occurs = λ p. refl; refs = λ p. refl }

pub Kept-trans : {a b c : Allocator} → Kept a b → Kept b c → Kept a c
Kept-trans k m = record {
  valid = m.valid;
  num = omega arith;
  occurs = λ p. m.occurs p ∙ k.occurs p;
  refs = λ p. m.refs p ∙ k.refs p;
}

-- Moving pages from one list to another.
module _ (a : Allocator) (from to n : ℕ) (v : IsValid a) (h : from < num_global_lists)
    (lt : to < from) where
  abbrev moved : List ℕ × List ℕ
  moved = move_pages n (free_list a from) (free_list a to)

  abbrev stolen : Allocator
  stolen = with_list (with_list a from moved.0) to moved.1

  occurrences-stolen : (p : ℕ) → occurrences p stolen.lists ≡ occurrences p a.lists
  occurrences-stolen p =
      let all = v.all_lists in
      let ls = set a.lists from moved.0 in
      let same : length ls ≡ length a.lists = length-set a.lists from moved.0 in
      let other : get_or ls to [] ≡ get_or a.lists to [] =
        get_or-set_ne a.lists from to moved.0 [] (omega arith) in
      let counted : count p (get_or ls to []) ≡ count p (get_or a.lists to []) =
        ap (count p) other in
      omega (
        arith,
        occurrences-set p a.lists from moved.0 (omega arith),
        occurrences-set p ls to moved.1 (omega arith),
        count-move_pages p n (free_list a from) (free_list a to),
      )

  pub stolen-Kept : Kept a stolen
  stolen-Kept = record {
    valid = record {
      all_lists =
          length-set (set a.lists from moved.0) to moved.1
          ∙ length-set a.lists from moved.0
          ∙ v.all_lists;
      small = v.small;
      once = λ p. rw (occurrences-stolen p) (v.once p);
      free = λ p k. v.free p (rw (occurrences-stolen p) at k);
    };
    num = omega arith;
    occurs = occurrences-stolen;
    refs = λ p. refl;
  }

-- `dune_try_steal_pages` from a later list: it does not die, and no page changes hands.
pub try_steal_pages_lem :
    (acquired : Bool) (from to n : ℕ) (a : Allocator)
    → IsValid a
    → from < num_global_lists
    → to < from
    → (won : Bool) × (b : Allocator) × (try_steal_pages acquired from to n a ≡ some (won, b))
      × Kept a b
unfolding try_steal_pages
try_steal_pages_lem false from to n a v h lt =
    (false, a, rw (lt→ltb to from lt, lt→ltb from 104 h) refl, Kept-refl v)
try_steal_pages_lem true from to n a v h lt = elim (List-cases (free_list a from)) [
  | inl e ↦ (false, a, rw (lt→ltb to from lt, lt→ltb from 104 h, e) refl, Kept-refl v)
  | inr (pg, rest, e) ↦ (
    ltb 0 n,
    stolen a from to n v h lt,
    rw (lt→ltb to from lt, lt→ltb from 104 h, e) refl,
    stolen-Kept a from to n v h lt,
  )
]

-- The list that a thread steals from lies above those of the cores.
pub record IsAbove (max_cores : ℕ) (t : Thread) : Type 0 where
  pub above : (l : ℕ) → t.last_stealed ≡ some l → (max_cores ≤ l) × (l < num_global_lists)
