-- ===== src/Vm/Clone/Fast.antt =====
-- `dune_vm_clone_fast`, which copies a full table of the last level as a whole.
use libdbos.Common.{
  ℕ, zero, suc, ◌+◌, ◌*◌, ◌/◌, ◌%◌, ◌^◌, ◌≤◌, ◌<◌, ◌≡◌, ◌≢◌, refl, ap, ◌∙◌, ◌⊎◌, inl, inr, true,
  false, Option, none, some, bit_or, ◌==◌, ne→==, arith, Bool-cases, ==→eq,
}
use mathlib.Core.Path.{subst}
use libdbos.Vm.Pte.{pte_w, pte_cow}
use libdbos.Vm.Machine.{Outcome, ok, PageOps, Machine, store, clear_page, entry}
use libdbos.Vm.Walk.{create_none}
use libdbos.Vm.Walk.Batch.{page_walk_batch}
use libdbos.Vm.Lookup.{found, missing, died, vm_lookup}
use libdbos.Vm.Clone.{without, va_end, clone_helper, end_clone}

module _ {S : Type 0} where
  -- The loops `for (i = 0; i < 512; ++i)` that fill a table of the last level from another, with
  -- `f` for what they do to an entry; `n` rounds are left.
  pub copy_table : (f : ℕ → ℕ) → (new_dir dir : ℕ) → (n i : ℕ) → Machine S → Machine S
  copy_table f new_dir dir zero i m = m
  copy_table f new_dir dir (suc n) i m =
      copy_table f new_dir dir n (i + 1) (store m (entry new_dir i) (f (m.mem (entry dir i))))

  -- `args->pages_copied++`: the counter is the low half of the word after the root.
  pub count_page : ℕ → Machine S → Machine S
  count_page args m =
      let word = m.mem (args + 8) in
      store m (args + 8) (word / 2 ^ 32 * 2 ^ 32 + (word + 1) % 2 ^ 32)

-- `newDir[i] |= PTE_COW; newDir[i] &= ~PTE_W;`
abbrev pub fast_entry : ℕ → ℕ
fast_entry pte = without (bit_or pte pte_cow) pte_w

module _ {S : Type 0} (ops : PageOps S) where
  -- `__dune_vm_clone_last_level_page_helper` of vm.c. Where the lookup fails, the loop writes
  -- through NULL.
  pub clone_last_level_page_helper : (args : ℕ) → ℕ → ℕ → Machine S → Outcome S
  clone_last_level_page_helper args dir start_va m =
      elim (vm_lookup ops (m.mem args) start_va true false m) [
        | found new_dir created m' ↦
            some (ok, count_page args (copy_table fast_entry new_dir dir 512 0 m'))
        | missing ↦ none
        | died ↦ none
      ]

  -- `dune_vm_clone_fast`. `args` is where the struct stands on the stack; the callback for single
  -- entries takes that address for the new root.
  pub vm_clone_fast : (args root : ℕ) → Machine S → Option (Option ℕ × Machine S)
  vm_clone_fast args root m = elim (ops.alloc m.pool) [
    | none ↦ none
    | some (none, s) ↦ none
    | some (some new_root, s) ↦
        let m1 = store (clear_page (record m { pool = s }) new_root) args new_root in
        let m2 = store m1 (args + 8) (m1.mem (args + 8) / 2 ^ 32 * 2 ^ 32) in
        end_clone ops new_root (
          page_walk_batch ops create_none (clone_helper ops args)
            (clone_last_level_page_helper args) 3 root 0 va_end m2)
  ]

-- A table of 512 words does not meet another.
abbrev pub Apart : ℕ → ℕ → Type 0
Apart a b = (a + 4096 ≤ b) ⊎ (b + 4096 ≤ a)

-- What the words of the new table are after `i` of 512 rounds, and that the rest is as before.
pub record CopiedFrom {S : Type 0} (f : ℕ → ℕ) (new_dir dir i : ℕ) (m m' : Machine S) : Type 0 where
  pub entries : (j : ℕ) → j < i → m'.mem (entry new_dir j) ≡ f (m.mem (entry dir j))
  pub rest : (b : ℕ) → ((j : ℕ) → j < i → b ≢ entry new_dir j) → m'.mem b ≡ m.mem b
  pub pool : m'.pool ≡ m.pool

pub entry-Apart : (a b i j : ℕ) → Apart a b → i < 512 → j < 512 → entry b i ≢ entry a j
entry-Apart a b i j (inl low) hi hj e = omega arith
entry-Apart a b i j (inr high) hi hj e = omega arith

index_below : (a i j : ℕ) → j < i + 1 → (entry a j == entry a i) ≡ false → j < i
index_below a i j below away = ground arith

module _ {S : Type 0} (f : ℕ → ℕ) (new_dir dir : ℕ) (apart : Apart new_dir dir) where
  one_more :
      (m m' : Machine S) (i : ℕ)
      → i < 512
      → CopiedFrom f new_dir dir i m m'
      → CopiedFrom f new_dir dir (i + 1) m (store m' (entry new_dir i) (f (m'.mem (entry dir i))))
  one_more m m' i h c = record {
    entries = λ j below. elim (Bool-cases (entry new_dir j == entry new_dir i)) [
      | inl here ↦ rw here (
          ap f (c.rest (entry dir i) (λ k k_i. entry-Apart new_dir dir i k apart h (omega arith)))
          ∙ ap (λ (k : ℕ). f (m.mem (entry dir k))) (omega (arith, ==→eq _ _ here)))
      | inr away ↦ rw away (c.entries j (index_below new_dir i j below away))
    ];
    rest = λ b off.
        rw (ne→== b (entry new_dir i) (off i (omega arith)))
          (c.rest b (λ j j_i. off j (omega arith)));
    pool = c.pool;
  }

  copy_table-CopiedFrom :
      (n i : ℕ) (m m' : Machine S)
      → i + n ≡ 512
      → CopiedFrom f new_dir dir i m m'
      → CopiedFrom f new_dir dir 512 m (copy_table f new_dir dir n i m')
  unfolding copy_table
  copy_table-CopiedFrom zero i m m' h c =
      subst (λ (k : ℕ). CopiedFrom f new_dir dir k m m') (omega arith) c
  copy_table-CopiedFrom (suc n) i m m' h c =
      copy_table-CopiedFrom n (i + 1) m _ (omega arith) (one_more m m' i (omega arith) c)

  pub copy_table_lem :
      (m : Machine S) → CopiedFrom f new_dir dir 512 m (copy_table f new_dir dir 512 0 m)
  copy_table_lem m =
      copy_table-CopiedFrom 512 0 m m refl (record {
        entries = λ j none_below. absurd (omega arith);
        rest = λ b off. refl;
        pool = refl;
      })
