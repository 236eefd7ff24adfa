-- ===== src/Page/Tests.antt =====
-- Runs of the page allocator at small states.
use libdbos.Common.{
  ℕ, ◌+◌, ◌≡◌, ◌≢◌, ◌↔◌, refl, true, none, some, [], ◌∷◌, arith, replicate, ◌==◌, if◌then◌else◌,
}
use libdbos.Page.{Allocator, Thread, Env, page_alloc, page_put}
use libdbos.Page.Free.{occurrences}
use libdbos.Page.Inv.{IsValid, Holds, page_put_lem}
use libdbos.Page.Alloc.{Given, page_alloc-Given}

-- One batch: page 7 is on list 0, page 3 has two references.
abbrev small : Allocator
small = record {
  num_pages = 512;
  lists = (7 ∷ []) ∷ replicate 103 [];
  ref = λ p. if p == 3 then 2 else 0;
}

small-IsValid : IsValid small
small-IsValid = record {
  all_lists = refl;
  small = omega arith;
  once = λ p. ground arith;
  free = λ p h. ground arith;
}

small-Holds : Holds small 3
small-Holds = omega arith

abbrev thread : Thread
thread = record { cpu_id = some 0; last_stealed = none; seed = 5323 }

abbrev env : Env
env = record { mmap = λ huge base len. base; acquired = λ k. true; max_cores = 32 }

page_put_lem_example :
    (b : Allocator) × (page_put thread small 3 ≡ some b)
    × IsValid b
    × (b.ref 3 + 1 ≡ 2)
    × ((occurrences 3 b.lists ≡ 1) ↔ (small.ref 3 ≡ 1))
    × ((q : ℕ)
        → q ≢ 3
        → (b.ref q ≡ small.ref q) × (occurrences q b.lists ≡ occurrences q small.lists))
    × (b.num_pages ≡ 512)
page_put_lem_example = page_put_lem small-IsValid small-Holds thread (omega arith)

page_alloc-Given_example : Given env 32 thread small (page_alloc env thread small)
page_alloc-Given_example =
    page_alloc-Given env (omega arith) thread small small-IsValid
      (record { above = λ l e. absurd (ground arith) }) (omega arith)
