-- ===== src/Page/Inv.antt =====
-- The invariant of the page allocator, and the operations on reference counts.
use libdbos.Common.{
  ℕ, ◌+◌, ◌-◌, ◌%◌, ◌^◌, ◌≤◌, ◌<◌, ◌≡◌, ◌≢◌, refl, ◌∙◌, ◌↔◌, false, some, ◌∷◌, arith, ◌==◌,
  if◌then◌else◌, length, length-set, lt→ltb,
}
use native.Mathlib.Decide.{ℕ_discrete}
use libdbos.Page.{
  Allocator, Thread, update, free_list, with_list, my_list, num_global_lists, max_pages, page_get,
  page_free, page_put,
}
use libdbos.Page.Free.{occurrences, occurrences-set, update_self, update_ne}

-- No page is free twice, and a free page has no reference.
pub record IsValid (a : Allocator) : Type 0 where
  pub all_lists : length a.lists ≡ num_global_lists
  pub small : a.num_pages ≤ max_pages
  pub once : (p : ℕ) → occurrences p a.lists ≤ 1
  pub free : (p : ℕ) → 0 < occurrences p a.lists → (p < a.num_pages) × (a.ref p ≡ 0)

-- A page that a caller holds: it is not free.
pub record Holds (a : Allocator) (pg : ℕ) : Type 0 where
  pub managed : pg < a.num_pages
  pub referenced : 0 < a.ref pg
  pub counted : a.ref pg < 2 ^ 64

-- The count of a page that is in no list may be anything.
pub set_ref-IsValid :
    (a : Allocator) (pg r : ℕ)
    → IsValid a
    → occurrences pg a.lists ≡ 0
    → IsValid (record a { ref = update a.ref pg r })
set_ref-IsValid a pg r v out = record {
  all_lists = v.all_lists;
  small = v.small;
  once = v.once;
  free = λ p h. ground (arith, v.free p h);
}

pub occurrences-push :
    (a : Allocator) (i pg q : ℕ)
    → IsValid a
    → i < num_global_lists
    → occurrences q (with_list a i (pg ∷ free_list a i)).lists
      ≡ occurrences q a.lists + (if pg == q then 1 else 0)
occurrences-push a i pg q v h =
    let all = v.all_lists in
    omega (arith, occurrences-set q a.lists i (pg ∷ free_list a i) (omega arith))

-- A page that nobody has goes back.
pub push-IsValid :
    (a : Allocator) (i pg : ℕ)
    → IsValid a
    → i < num_global_lists
    → pg < a.num_pages
    → a.ref pg ≡ 0
    → occurrences pg a.lists ≡ 0
    → IsValid (with_list a i (pg ∷ free_list a i))
push-IsValid a i pg v h in_pool unused out = record {
  all_lists = length-set a.lists i (pg ∷ free_list a i) ∙ v.all_lists;
  small = v.small;
  once = λ p. ground (arith, occurrences-push a i pg p v h, v.once p);
  free = λ p k. ground (arith, occurrences-push a i pg p v h, v.free p);
}

module _ {a : Allocator} {pg : ℕ} (v : IsValid a) (h : Holds a pg) where
  pub held-not-free : occurrences pg a.lists ≡ 0
  held-not-free = let used = h.referenced in ground (arith, v.free pg)

  -- `dune_page_get` on a page that is held and whose count has room: one more reference; no other
  -- page, no list and not the number of pages changes, and the allocator stays valid.
  pub page_get_lem :
      a.ref pg + 1 < 2 ^ 64
      → (b : Allocator) × (page_get a pg ≡ some b)
        × IsValid b
        × (b.ref pg ≡ a.ref pg + 1)
        × ((q : ℕ) → q ≢ pg → b.ref q ≡ a.ref q)
        × (b.lists ≡ a.lists)
        × (b.num_pages ≡ a.num_pages)
  unfolding page_get
  page_get_lem fits =
      let hm = h.managed in
      (
        record a { ref = update a.ref pg ((a.ref pg + 1) % 2 ^ 64) },
        rw (lt→ltb pg a.num_pages hm) refl,
        set_ref-IsValid a pg ((a.ref pg + 1) % 2 ^ 64) v held-not-free,
        omega (arith, update_self a.ref pg ((a.ref pg + 1) % 2 ^ 64)),
        update_ne a.ref pg ((a.ref pg + 1) % 2 ^ 64),
        refl,
        refl,
      )

  module _ (t : Thread) (mine : my_list t < num_global_lists) where
    put_shared :
        1 < a.ref pg → page_put t a pg ≡ some (record a { ref = update a.ref pg (a.ref pg - 1) })
    unfolding page_put
    put_shared shared =
        let hm = h.managed in
        let hc = h.counted in
        let left : (a.ref pg + 2 ^ 64 - 1) % 2 ^ 64 ≡ a.ref pg - 1 = omega arith in
        let more : (a.ref pg - 1 == 0) ≡ false = ground arith in
        rw (lt→ltb pg a.num_pages hm, left, more) refl

    put_last :
        a.ref pg ≡ 1
        → page_put t a pg
          ≡ some (
              with_list
                (record a { ref = update a.ref pg 0 })
                (my_list t)
                (pg ∷ free_list a (my_list t)))
    unfolding page_put page_free
    put_last last =
        let hm = h.managed in
        let left : (a.ref pg + 2 ^ 64 - 1) % 2 ^ 64 ≡ 0 = omega arith in
        rw (lt→ltb pg a.num_pages hm, left, update_self a.ref pg 0, lt→ltb (my_list t) 104 mine)
          refl

    -- `dune_page_put` on a page that is held, by a thread whose core has a list: one reference less;
    -- the page becomes free exactly when this was the last one. No other page's count or freedom
    -- changes, and the allocator stays valid.
    pub page_put_lem :
        (b : Allocator) × (page_put t a pg ≡ some b)
        × IsValid b
        × (b.ref pg + 1 ≡ a.ref pg)
        × ((occurrences pg b.lists ≡ 1) ↔ (a.ref pg ≡ 1))
        × ((q : ℕ) → q ≢ pg → (b.ref q ≡ a.ref q) × (occurrences q b.lists ≡ occurrences q a.lists))
        × (b.num_pages ≡ a.num_pages)
    page_put_lem = elim (ℕ_discrete (a.ref pg) 1) [
      | yes last ↦
          let a1 = record a { ref = update a.ref pg 0 } in
          let v1 : IsValid a1 = set_ref-IsValid a pg 0 v held-not-free in
          let zeroed : update a.ref pg 0 pg ≡ 0 = update_self a.ref pg 0 in
          let freed : occurrences pg (with_list a1 (my_list t) (pg ∷ free_list a (my_list t))).lists
              ≡ 1 =
            ground (arith, occurrences-push a1 (my_list t) pg pg v1 mine, held-not-free) in
          (
            with_list a1 (my_list t) (pg ∷ free_list a (my_list t)),
            put_last last,
            push-IsValid a1 (my_list t) pg v1 mine h.managed zeroed held-not-free,
            omega arith,
            ((λ _. last), λ _. freed),
            (λ q ne. (
              update_ne a.ref pg 0 q ne,
              ground (arith, occurrences-push a1 (my_list t) pg q v1 mine),
            )),
            refl,
          )
      | no more ↦
          let used = h.referenced in
          (
            record a { ref = update a.ref pg (a.ref pg - 1) },
            put_shared (omega arith),
            set_ref-IsValid a pg (a.ref pg - 1) v held-not-free,
            omega (arith, update_self a.ref pg (a.ref pg - 1)),
            ((λ e. absurd (omega (arith, held-not-free))), λ e. absurd (more e)),
            (λ q ne. (update_ne a.ref pg (a.ref pg - 1) q ne, refl)),
            refl,
          )
    ]
