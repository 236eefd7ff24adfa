-- ===== src/Spawn/Cow/Clone/Tables.antt =====
-- What the loop over a table of the last level writes, and what it leaves out.
use libdbos.Common.{ℕ, ◌+◌, ◌<◌, ◌≡◌, ◌≢◌, refl, Bool, true, some, ne→==}
use libdbos.Vm.Machine.{ok, PageOps, Machine, entry}
use libdbos.Vm.Lookup.{found}
use libdbos.Vm.Clone.Fast.{copy_table, entry-Apart, Apart, copy_table_lem}
use libdbos.Spawn.Entry.{is_shareable, cow_entry2}
use libdbos.Spawn.Entry.Laws.{
  IsGuarded, SamePage, SharedBy, is_shareable-CanShare, cow_entry-SharedBy,
}
use libdbos.Spawn.Cow.{loop_entry}
use libdbos.Spawn.Cow.Clone.{count_batch, copy_table_to}

-- Each entry of the new table is for the page of the original; where that can be written and is
-- not excepted, the new entry is write-protected and marked. The pool is as it was.
pub record SharesTable {S : Type 0} (new_dir dir : ℕ) (m m' : Machine S) : Type 0 where
  pub same_pages : (j : ℕ) → j < 512 → SamePage (m.mem (entry dir j)) (m'.mem (entry new_dir j))
  pub guarded :
      (j : ℕ)
      → j < 512
      → is_shareable (m.mem (entry dir j)) ≡ true
      → IsGuarded (m'.mem (entry new_dir j))
  pub originals : (j : ℕ) → j < 512 → m'.mem (entry dir j) ≡ m.mem (entry dir j)
  pub no_reference : m'.pool ≡ m.pool

module _ {S : Type 0} (ops : PageOps S) where
  -- The loop over a table of the last level in dune_vm_my_fast_clone, where dune_vm_lookup2 finds a
  -- table apart from the original, and the counters stand in neither: it returns 0; each of the
  -- 512 new entries is for the page of the original, and write-protected and marked PTE_COW where
  -- the original can be written and is not excepted; the original entries stay as they are, so the
  -- program goes on writing to the pages; and no reference is taken on any page.
  pub copy_table_to-SharesTable :
      (arg dir new_dir : ℕ) (c : Bool) (m : Machine S)
      → Apart new_dir dir
      → ((j : ℕ) → j < 512 → entry new_dir j ≢ arg + 8)
      → ((j : ℕ) → j < 512 → entry dir j ≢ arg + 8)
      → (m' : Machine S) × (copy_table_to ops arg dir (found new_dir c m) ≡ some (ok, m'))
        × SharesTable new_dir dir m m'
  unfolding copy_table_to
  copy_table_to-SharesTable arg dir new_dir c m apart off_new off_old =
      let copied = copy_table_lem loop_entry new_dir dir apart m in
      let t : Machine S = copy_table loop_entry new_dir dir 512 0 m in
      let new_word : (j : ℕ)
          → j < 512
          → (count_batch ops arg t).mem (entry new_dir j) ≡ loop_entry (m.mem (entry dir j)) =
        λ j h. rw (ne→== (entry new_dir j) (arg + 8) (off_new j h)) (copied.entries j h) in
      (
        _,
        refl,
        record {
          same_pages = λ j h. rw (new_word j h) ((shares (m.mem (entry dir j))).same1);
          guarded = λ j h w.
              rw (new_word j h)
                (((shares (m.mem (entry dir j))).guarded_both (is_shareable-CanShare _ w)).0);
          originals = λ j h.
              rw (ne→== (entry dir j) (arg + 8) (off_old j h))
                (copied.rest _ (λ k k_512. entry-Apart new_dir dir j k apart h k_512));
          no_reference = copied.pool;
        },
      )
    where
      shares : (x : ℕ) → SharedBy x (loop_entry x) (cow_entry2 (is_shareable x) x)
      shares x = cow_entry-SharedBy x (is_shareable x) refl
