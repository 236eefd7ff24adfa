-- ===== src/Page/Free.antt =====
-- How often a page stands in the free lists, and what moving pages does to that number.
use libdbos.Common.{
  ℕ, zero, suc, ◌+◌, ◌≤◌, ◌<◌, ◌≡◌, ◌≢◌, refl, List, [], ◌∷◌, arith, ◌==◌, ltb, leb, ◌&&◌,
  if◌then◌else◌, length, get_or, set, length-set, get_or-set_self,
}
use libdbos.Page.{move_pages, add_pages, Allocator, update, free_list}

abbrev pub count : ℕ → List ℕ → ℕ
count p [] = 0
count p (x ∷ xs) = (if x == p then 1 else 0) + count p xs

-- Over all lists.
abbrev pub occurrences : ℕ → List (List ℕ) → ℕ
occurrences p [] = 0
occurrences p (l ∷ ls) = count p l + occurrences p ls

pub occurrences-set :
    (p : ℕ) (ls : List (List ℕ)) (i : ℕ) (l : List ℕ)
    → i < length ls
    → occurrences p (set ls i l) + count p (get_or ls i []) ≡ occurrences p ls + count p l
occurrences-set p [] i l h = absurd (omega arith)
occurrences-set p (x ∷ ls) zero l h = omega arith
occurrences-set p (x ∷ ls) (suc i) l h = omega (arith, occurrences-set p ls i l (omega arith))

pub count-le-occurrences :
    (p : ℕ) (ls : List (List ℕ)) (i : ℕ) → count p (get_or ls i []) ≤ occurrences p ls
count-le-occurrences p [] i = omega arith
count-le-occurrences p (x ∷ ls) zero = omega arith
count-le-occurrences p (x ∷ ls) (suc i) = omega (arith, count-le-occurrences p ls i)

-- Moving pages keeps their number over the two lists.
pub count-move_pages :
    (p n : ℕ) (from to : List ℕ)
    → count p (move_pages n from to).0 + count p (move_pages n from to).1
      ≡ count p from + count p to
unfolding move_pages
count-move_pages p zero from to = refl
count-move_pages p (suc n) [] to = refl
count-move_pages p (suc n) (x ∷ from) to = omega (arith, count-move_pages p n from (x ∷ to))

pub update_self : (f : ℕ → ℕ) (i v : ℕ) → update f i v i ≡ v
update_self f i v = ground arith

pub update_ne : (f : ℕ → ℕ) (i v q : ℕ) → q ≢ i → update f i v q ≡ f q
update_ne f i v q h = ground arith

abbrev pub in_range : ℕ → ℕ → ℕ → ℕ
in_range i n p = if leb i p && ltb p (i + n) then 1 else 0

-- What `add_pages` does to the lists and to the references.
pub record Added (l n i : ℕ) (a b : Allocator) : Type 0 where
  pub same_num : b.num_pages ≡ a.num_pages
  pub same_lists : length b.lists ≡ length a.lists
  pub occurs : (p : ℕ) → occurrences p b.lists ≡ occurrences p a.lists + in_range i n p
  pub refs : (p : ℕ) → b.ref p ≡ (if leb i p && ltb p (i + n) then 0 else a.ref p)

pub add_pages-Added :
    (l n i : ℕ) (a : Allocator) → l < length a.lists → Added l n i a (add_pages l n i a)
unfolding add_pages
add_pages-Added l zero i a h = record {
  same_num = refl;
  same_lists = refl;
  occurs = λ p. ground arith;
  refs = λ p. ground arith;
}
add_pages-Added l (suc n) i a h =
    let b = record a { ref = update a.ref i 0; lists = set a.lists l (i ∷ free_list a l) } in
    let same : length b.lists ≡ length a.lists = length-set a.lists l (i ∷ free_list a l) in
    let rest = add_pages-Added l n (i + 1) b (omega arith) in
    record {
      same_num = rest.same_num;
      same_lists = omega (arith, rest.same_lists);
      occurs =
          λ p. ground (arith, rest.occurs p, occurrences-set p a.lists l (i ∷ free_list a l) h);
      refs = λ p. ground (arith, rest.refs p);
    }

-- A list that is not empty stays so, and one that grows is not empty.
add_pages-cons :
    (l n i : ℕ) (a : Allocator) {x : ℕ} {xs : List ℕ}
    → l < length a.lists
    → free_list a l ≡ x ∷ xs
    → (y : ℕ) × (ys : List ℕ) × (free_list (add_pages l n i a) l ≡ y ∷ ys)
unfolding add_pages
add_pages-cons l zero i a {x} {xs} h e = (x, xs, e)
add_pages-cons l (suc n) i a h e =
    let b = record a { ref = update a.ref i 0; lists = set a.lists l (i ∷ free_list a l) } in
    add_pages-cons l n (i + 1) b (rw length-set h)
      (get_or-set_self a.lists l (i ∷ free_list a l) [] h)

pub add_pages-first :
    (l n i : ℕ) (a : Allocator)
    → l < length a.lists
    → (y : ℕ) × (ys : List ℕ) × (free_list (add_pages l (suc n) i a) l ≡ y ∷ ys)
unfolding add_pages
add_pages-first l n i a h =
    let b = record a { ref = update a.ref i 0; lists = set a.lists l (i ∷ free_list a l) } in
    add_pages-cons l n (i + 1) b (rw length-set h)
      (get_or-set_self a.lists l (i ∷ free_list a l) [] h)
