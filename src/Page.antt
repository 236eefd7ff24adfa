-- ===== src/Page.antt =====
-- The physical page allocator, libdune/page.c: an array of page records with reference counts,
-- and 104 free lists. A page is its index in `pages`. `none` stands for the end of the program: a
-- failed `assert`, a division by zero, or an access outside `local_lists`.
pub mod Free
pub mod Inv
pub mod Take
pub mod Alloc
pub mod Addr
pub mod Steal
mod Tests
use libdbos.Common.{
  ℕ, zero, suc, ◌+◌, ◌-◌, ◌*◌, ◌/◌, ◌%◌, ◌^◌, Bool, true, false, ◌&&◌, Option, none, some, List, [],
  ◌∷◌, ltb, leb, ◌==◌, if◌then◌else◌, get_or, set, replicate,
}

abbrev pub pgsize : ℕ
pgsize = 4096

abbrev pub pagebase : ℕ
pagebase = 0x1_0000_0000

abbrev pub max_pages : ℕ
max_pages = 2 ^ 21

abbrev pub num_global_lists : ℕ
num_global_lists = 104

-- `GROW_SIZE`
abbrev pub grow_pages : ℕ
grow_pages = 512

-- `physical_page_allocator_t`: `lists` holds `local_lists[i].pages_free`, first page first, and
-- `ref` the reference counts, which are `uint64_t`.
pub record Allocator : Type 0 where
  pub num_pages : ℕ
  pub lists : List (List ℕ)
  pub ref : ℕ → ℕ

-- The static variables of one thread; `none` is -1.
pub record Thread : Type 0 where
  pub cpu_id : Option ℕ
  pub last_stealed : Option ℕ
  pub seed : ℕ

abbrev pub update : (ℕ → ℕ) → ℕ → ℕ → ℕ → ℕ
update f i v q = if q == i then v else f q

abbrev pub free_list : Allocator → ℕ → List ℕ
free_list a i = get_or a.lists i []

abbrev pub with_list : Allocator → ℕ → List ℕ → Allocator
with_list a i l = record a { lists = set a.lists i l }

-- `do_mapping`: a fixed mapping of huge pages, then of small ones; `mmap huge base len` is the
-- address that the system call returns.
pub do_mapping : (mmap : Bool → ℕ → ℕ → ℕ) → (base len : ℕ) → Option ℕ
do_mapping mmap base len =
    if mmap true base len == base
    then some base
    else if mmap false base len == base
    then some base
    else none

-- The loop of `grow_size`: pages `i` to `i + n - 1` get no references and go on top of the list.
pub add_pages : ℕ → ℕ → ℕ → Allocator → Allocator
add_pages list_id zero i a = a
add_pages list_id (suc n) i a =
    add_pages list_id n (i + 1)
      (record a { ref = update a.ref i 0; lists = set a.lists list_id (i ∷ free_list a list_id) })

-- `grow_size`: whether it returned 0, and the allocator after it.
pub grow_size : (mmap : Bool → ℕ → ℕ → ℕ) → ℕ → Allocator → Bool × Allocator
grow_size mmap list_id a =
    if leb max_pages a.num_pages
    then (false, a)
    else let new_num_pages = a.num_pages + grow_pages in
      if ltb max_pages new_num_pages
      then (false, a)
      else let old_num_pages = new_num_pages - grow_pages in
        let grown = record a { num_pages = new_num_pages } in
        elim (do_mapping mmap (pagebase + old_num_pages * pgsize) (grow_pages * pgsize)) [
          | none ↦ (false, grown)
          | some ptr ↦ (true, add_pages list_id grow_pages old_num_pages grown)
        ]

-- `rand_number`: `uint32_t` arithmetic; the first call of a thread seeds with its core, -1 wrapped.
pub rand_number : Thread → ℕ × Thread
rand_number t =
    let start =
      if t.seed == 5323 then elim t.cpu_id [ none ↦ 2 ^ 32 - 1 | some c ↦ c ] else t.seed in
    let seed = (8253729 * start + 2396403) % 2 ^ 32 in (seed, record t { seed = seed })

-- The loop of `dune_try_steal_pages` moves at most `num_pages` pages, one by one.
pub move_pages : ℕ → List ℕ → List ℕ → List ℕ × List ℕ
move_pages zero from to = (from, to)
move_pages (suc n) [] to = ([], to)
move_pages (suc n) (pg ∷ from) to = move_pages n from (pg ∷ to)

-- `dune_try_steal_pages`; `acquired` is whether `pthread_mutex_trylock` took the lock.
pub try_steal_pages :
    (acquired : Bool) → (steal_from to num_pages : ℕ) → Allocator → Option (Bool × Allocator)
try_steal_pages acquired steal_from to num_pages a =
    if ltb to steal_from && ltb steal_from num_global_lists
    then (elim acquired [
      | false ↦ some (false, a)
      | true ↦ elim (free_list a steal_from) [
        | [] ↦ some (false, a)
        | pg ∷ rest ↦
            let (from', to') = move_pages num_pages (pg ∷ rest) (free_list a to) in
            some (ltb 0 num_pages, with_list (with_list a steal_from from') to to')
      ]
    ])
    else none

-- The choice of a list to steal from: a list above the cores' own. The difference and the sum are
-- `uint32_t`; a value that is no index of a list ends the program.
pub choose_from : (max_cores : ℕ) → Thread → Option ℕ → Option (ℕ × Thread)
choose_from max_cores t (some l) = some (l, t)
choose_from max_cores t none =
    let (r, t') = rand_number t in
    let span = (num_global_lists + 2 ^ 32 - max_cores) % 2 ^ 32 in
    let l = (r % span + max_cores) % 2 ^ 32 in
    if span == 0
    then none
    else if ltb l num_global_lists
    then some (l, record t' { last_stealed = some l })
    else none

-- `if (last_stealed == -1)`
pub choose_list : (max_cores : ℕ) → Thread → Option (ℕ × Thread)
choose_list max_cores t = choose_from max_cores t t.last_stealed

-- The list of the calling core; list 0 before the core is known.
abbrev pub my_list : Thread → ℕ
my_list t = elim t.cpu_id [ none ↦ 0 | some c ↦ c ]

-- `dune_page_get`
pub page_get : Allocator → ℕ → Option Allocator
page_get a pg =
    if ltb pg a.num_pages
    then some (record a { ref = update a.ref pg ((a.ref pg + 1) % 2 ^ 64) })
    else none

-- `dune_page_free`
pub page_free : Thread → Allocator → ℕ → Option Allocator
page_free t a pg =
    if a.ref pg == 0 && ltb (my_list t) num_global_lists
    then some (with_list a (my_list t) (pg ∷ free_list a (my_list t)))
    else none

-- `dune_page_put`
pub page_put : Thread → Allocator → ℕ → Option Allocator
page_put t a pg =
    let left = (a.ref pg + 2 ^ 64 - 1) % 2 ^ 64 in
    let a' = record a { ref = update a.ref pg left } in
    let freed = page_free t a' pg in
    if ltb pg a.num_pages then (if left == 0 then freed else some a') else none

-- What `dune_page_alloc` returns: the page or NULL, and the thread's and the allocator's state.
abbrev pub Outcome : Type 0
Outcome = Option (Option ℕ × Thread × Allocator)

-- The end of `dune_page_alloc`: the first page of the list, with a reference.
pub take_first : ℕ → Thread → Allocator → Outcome
take_first cpu_id t a = elim (free_list a cpu_id) [
  | [] ↦ none
  | pg ∷ rest ↦ elim (page_get (with_list a cpu_id rest) pg) [
    | none ↦ none
    | some a' ↦ some (some pg, t, a')
  ]
]

-- What `dune_page_alloc` calls outside the allocator: `mmap`, whether each attempt to steal gets
-- the other list's lock, and the number of cores that the application set.
pub record Env : Type 0 where
  pub mmap : Bool → ℕ → ℕ → ℕ
  pub acquired : ℕ → Bool
  pub max_cores : ℕ

-- The branch that steals and goes to `retry`.
pub steal_round : Env → ℕ → (retry : Thread → Allocator → Outcome) → Thread → Allocator → Outcome
steal_round env left retry t a = elim (choose_list env.max_cores t) [
  | none ↦ none
  | some (l, t1) ↦ elim (try_steal_pages (env.acquired left) l (my_list t) grow_pages a) [
    | none ↦ none
    | some (stolen, a2) ↦ retry (if stolen then t1 else record t1 { last_stealed = none }) a2
  ]
]

-- One round of `dune_page_alloc`, with so many left after it.
pub attempt : Env → ℕ → (retry : Thread → Allocator → Outcome) → Thread → Allocator → Outcome
attempt env left retry t a = elim (ltb (my_list t) num_global_lists) [
  | false ↦ none
  | true ↦ elim (free_list a (my_list t)) [
    | pg ∷ rest ↦ take_first (my_list t) t a
    | [] ↦ elim (grow_size env.mmap (my_list t) a).0 [
      | true ↦ take_first (my_list t) t (grow_size env.mmap (my_list t) a).1
      | false ↦ steal_round env left retry t (grow_size env.mmap (my_list t) a).1
    ]
  ]
]

-- `dune_page_alloc` from `retry` on, with so many attempts left; `some none` is NULL.
pub alloc_attempts : Env → ℕ → Thread → Allocator → Outcome
alloc_attempts env zero t a = some (none, t, a)
alloc_attempts env (suc left) t a = attempt env left (alloc_attempts env left) t a

-- `steal_attempts > 100000` ends the search.
abbrev pub max_attempts : ℕ
max_attempts = 100001

pub page_alloc : Env → Thread → Allocator → Outcome
page_alloc env t a = alloc_attempts env max_attempts t a

-- `dune_page_isfrompool`
pub page_isfrompool : Allocator → ℕ → Bool
page_isfrompool a pa = leb pagebase pa && ltb pa (pagebase + a.num_pages * pgsize)

-- `dune_pa2page`: the subtraction wraps.
unfoldable pub pa2page : ℕ → ℕ
pa2page pa = (pa + 2 ^ 64 - pagebase) % 2 ^ 64 / 4096

-- `dune_page2pa`
unfoldable pub page2pa : ℕ → ℕ
page2pa pg = (pagebase + pg * 2 ^ 12) % 2 ^ 64

-- The loop of `dune_page_stats`: pages below `n` that are referenced.
pub count_allocated : (ℕ → ℕ) → ℕ → ℕ
count_allocated ref zero = 0
count_allocated ref (suc n) = count_allocated ref n + (if ref n == 0 then 0 else 1)

-- The numbers that `dune_page_stats` prints: allocated, free, total.
pub page_stats : Allocator → ℕ × ℕ × ℕ
page_stats a =
    let num_alloc = count_allocated a.ref a.num_pages in
    (num_alloc, a.num_pages - num_alloc, a.num_pages)

-- The loop of `dune_page_init`: `rounds` calls of `grow_size`, starting with list `j`.
pub init_rounds : (mmap : Bool → ℕ → ℕ → ℕ) → ℕ → ℕ → Allocator → Bool × Allocator
init_rounds mmap zero j a = (true, a)
init_rounds mmap (suc rounds) j a =
    let (grown, a') = grow_size mmap j a in
    elim grown [
      | false ↦ (false, a')
      | true ↦ init_rounds mmap rounds ((j + 1) % num_global_lists) a'
    ]

-- `dune_page_init` after the metadata is mapped, which is zero, and the locks are made.
pub page_init : (mmap : Bool → ℕ → ℕ → ℕ) → Bool × Allocator
page_init mmap =
    init_rounds mmap (max_pages / grow_pages) 0
      (record { num_pages = 0; lists = replicate num_global_lists []; ref = λ p. 0 })
