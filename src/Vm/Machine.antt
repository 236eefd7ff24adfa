-- ===== src/Vm/Machine.antt =====
-- The memory and the pages that libdune/vm.c works on. Physical and virtual addresses agree for the
-- page tables, as the code assumes ("Using PA == VA").
use libdbos.Common.{ℕ, ◌+◌, ◌*◌, Bool, ◌&&◌, Option, none, some, ltb, leb, ◌==◌, if◌then◌else◌}

-- Error codes, negated in the code.
pub data Errno : Type 0 where
  enoent enomem einval : Errno

-- An `int` result: 0 or an error.
pub data Ret : Type 0 where
  ok : Ret
  err : Errno → Ret

-- The allocator that vm.c calls, on pages named by their addresses. `none` ends the program;
-- `some (none, s)` is NULL.
pub record PageOps (S : Type 0) : Type 0 where
  pub alloc : S → Option (Option ℕ × S)
  pub get : S → ℕ → Option S
  pub put : S → ℕ → Option S
  pub isfrompool : S → ℕ → Bool
  pub ref : S → ℕ → ℕ

-- Words of memory by byte address, and the allocator's state.
pub record Machine (S : Type 0) : Type 0 where
  pub mem : ℕ → ℕ
  pub pool : S

-- What a routine that returns an `int` does; `none` is the end of the program.
abbrev pub Outcome : Type 0 → Type 0
Outcome S = Option (Ret × Machine S)

module _ {S : Type 0} where
  -- `*a = v`
  abbrev pub store : Machine S → ℕ → ℕ → Machine S
  store m a v = record m { mem = λ b. if b == a then v else m.mem b }

  -- `memset(page, 0, PGSIZE)`
  abbrev pub clear_page : Machine S → ℕ → Machine S
  clear_page m page = record m {
    mem = λ b. if leb page b && ltb b (page + 4096) then 0 else m.mem b;
  }

  -- `if (ret) return ret;` and then the rest.
  unfoldable pub and_then : Outcome S → (Machine S → Outcome S) → Outcome S
  and_then none rest = none
  and_then (some (ok, m)) rest = rest m
  and_then (some (err e, m)) rest = some (err e, m)

-- `&dir[i]`
abbrev pub entry : ℕ → ℕ → ℕ
entry dir i = dir + 8 * i
