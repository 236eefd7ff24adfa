-- ===== src/Spawn/Fault.antt =====
-- `dbos_fast_spawn_pgflt_handler`, libdune/fast_spawn.c: a write to a page that the program and
-- its snapshot share.
pub mod Entries
pub mod Isolation
pub mod Race
use libdbos.Common.{
  ℕ, zero, suc, ◌+◌, ◌*◌, ◌/◌, Bool, true, false, not, ◌&&◌, ◌||◌, Option, none, some, bit_or, ◌==◌,
  ◌>>=◌, if◌then◌else◌,
}
use libdbos.Vm.Pte.{pte_addr, pte_flags, pte_w, pte_u, pte_cow, has}
use libdbos.Vm.Machine.{PageOps, Machine, store}
use libdbos.Vm.Lookup.{Found, found, missing, died, vm_lookup}
use libdbos.Vm.Clone.{copy_page, without, fec_w}
use libdbos.Spawn.Entry.{pte_a, pte_d, pte_lock}

-- What the handler reads of `fast_spawn_state_t` and of the settings: the roots, whether the
-- snapshot's thread runs, `cow_pipeline_copy_and_ipi` and `dbos_selective_TLB_shootdown`; and
-- whether `dbos_tlb_shootdown` puts its message into the ring, which the snapshot's core answers: it
-- does not where it finds that core in the host or the ring full.
pub record Spawned : Type 0 where
  pub pgroot : ℕ
  pub pgroot_snapshot : Option ℕ
  pub snapshot_thread_started : Bool
  pub pipeline : Bool
  pub selective : Bool
  pub message_queued : Bool

-- What the handler leaves, whether it had the snapshot's core flush its TLB, and whether it
-- flushes its own at the end.
pub record Handled (S : Type 0) : Type 0 where
  pub machine : Machine S
  pub shot : Bool
  pub need_local_flush : Bool

-- `perm`: the flags of the entry that may be written again.
unfoldable pub new_perm : ℕ → ℕ
new_perm old =
    without
      (bit_or (bit_or (without (pte_flags old) pte_cow) pte_w) (bit_or pte_u (bit_or pte_a pte_d)))
      pte_lock

-- `snapshot_pte_perm` where the pages already differ.
unfoldable pub diverged_perm : ℕ → ℕ
diverged_perm pte = without (bit_or (pte_flags pte) (bit_or pte_d pte_a)) pte_lock

-- `snapshot_pte_perm` for the snapshot's own copy, before the copy is made.
unfoldable pub copied_perm : ℕ → ℕ
copied_perm pte = without (bit_or (diverged_perm pte) pte_w) pte_cow

-- The same, computed again after the entry was touched.
unfoldable pub touched_perm : ℕ → ℕ
touched_perm pte =
    without (without (bit_or (bit_or (pte_flags pte) pte_w) (bit_or pte_d pte_a)) pte_cow) pte_lock

-- The test for a fault that the handler resolves.
abbrev pub is_cow_fault : (fec pte : ℕ) → Bool
is_cow_fault fec pte =
    has fec fec_w && has pte pte_cow && not (has pte pte_w) && not (has pte pte_lock)

-- The asserts on the root that the processor uses.
abbrev pub root_is_right : Spawned → (snapshot : Bool) → (cr3 : ℕ) → Bool
root_is_right sp true cr3 =
    not (cr3 == sp.pgroot) && elim sp.pgroot_snapshot [ none ↦ true | some root ↦ root == cr3 ]
root_is_right sp false cr3 = cr3 == sp.pgroot

module _ {S : Type 0} (ops : PageOps S) where
  -- `if (dune_page_isfrompool(pa)) dune_page_put(dune_pa2page(pa));`
  unfoldable pub put_page : ℕ → Machine S → Option (Machine S)
  put_page pa m =
      if ops.isfrompool m.pool pa
      then elim (ops.put m.pool pa) [ none ↦ none | some s ↦ some (record m { pool = s }) ]
      else some m

  -- The fault of the snapshot's own core: it takes a copy.
  unfoldable pub copy_for_snapshot : (source pte old : ℕ) → Machine S → Option (Machine S)
  copy_for_snapshot source pte old m = elim (ops.alloc m.pool) [
    | none ↦ none
    | some (none, s) ↦ none
    | some (some page, s) ↦ put_page (pte_addr old) (
        store (copy_page ops (record m { pool = s }) source page) pte
          (bit_or (pte_addr page) (new_perm old)))
  ]

  -- The compare-exchange that ends the copy for the snapshot. `locked` is the entry as the handler
  -- left it, `touch` what the snapshot's core does to it meanwhile; the result says whether the
  -- exchange was lost.
  unfoldable pub put_copy : (touch : ℕ → ℕ) → (spte locked page : ℕ) → Machine S → Bool × Machine S
  put_copy touch spte locked page m =
      let now = touch (m.mem spte) in
      if now == locked
      then (false, store m spte (bit_or (pte_addr page) (copied_perm locked)))
      else (true, store m spte (bit_or (pte_addr page) (touched_perm now)))

  -- The copy for the snapshot into a new page, at the fault of a core of the program (an assert
  -- wants an address past the first page). `locked` is the snapshot's entry as the handler left it.
  -- In the pipelined way the handler waits for `flushed`, which only the message brings: without
  -- it, the loop does not end, and the result is none.
  unfoldable pub copy_into :
      Spawned
      → (touch : ℕ → ℕ) → (source addr spte locked page : ℕ) → Machine S
      → Option (Handled S)
  copy_into sp touch source addr spte locked page m =
      let m2 = copy_page ops m source page in
      if sp.pipeline && sp.snapshot_thread_started
      then if sp.message_queued
        then (put_page (pte_addr locked)
              (store m2 spte (bit_or (pte_addr page) (copied_perm locked)))
            >>= λ m3. some (record { machine = m3; shot = true; need_local_flush = false }))
        else none
      else if addr / 4096 == 0
      then none
      else let (lost, m3) = put_copy touch spte locked page m2 in
        put_page (pte_addr locked) m3 >>= λ m4. some (record {
          machine = m4;
          shot = sp.snapshot_thread_started && ((has locked pte_a || lost) || not sp.selective);
          need_local_flush = true;
        })

  -- The same with the page's allocation; NULL is written to.
  unfoldable pub copy_to_snapshot :
      Spawned → (touch : ℕ → ℕ) → (source addr spte locked : ℕ) → Machine S → Option (Handled S)
  copy_to_snapshot sp touch source addr spte locked m = elim (ops.alloc m.pool) [
    | none ↦ none
    | some (none, s) ↦ none
    | some (some page, s) ↦ copy_into sp touch source addr spte locked page (record m { pool = s })
  ]

  abbrev pub unshot : Machine S → Handled S
  unshot m = record { machine = m; shot = false; need_local_flush = true }

  -- The snapshot's entry, locked, and then the entry of the program, which keeps its page.
  unfoldable pub separate :
      Spawned → (touch : ℕ → ℕ) → (source addr pte old spte : ℕ) → Machine S → Option (Handled S)
  separate sp touch source addr pte old spte m =
      let locked = bit_or (m.mem spte) pte_lock in
      let m1 = store m spte locked in
      let done =
        if pte_addr old == pte_addr locked
        then copy_to_snapshot sp touch source addr spte locked m1
        else some (unshot (store m1 spte (bit_or (pte_addr locked) (diverged_perm locked)))) in
      done >>= λ h.
      some (record h { machine = store h.machine pte (bit_or (pte_addr old) (new_perm old)) })

  -- The branch where the program has a snapshot. A lookup that finds no entry leaves NULL, which
  -- is read; an assert wants the two entries to differ.
  unfoldable pub with_snapshot :
      Spawned → (touch : ℕ → ℕ) → (root source addr pte old : ℕ) → Machine S → Option (Handled S)
  with_snapshot sp touch root source addr pte old m = elim (vm_lookup ops root addr false false m) [
    | found spte created m' ↦
        if pte == spte then none else separate sp touch source addr pte old spte m'
    | missing ↦ none
    | died ↦ none
  ]

  -- `dune_page_isfrompool(pte_addr) && pg->ref == 1`
  abbrev pub is_sole : Machine S → ℕ → Bool
  is_sole m page = ops.isfrompool m.pool page && ops.ref m.pool page == 1

  -- The handler on the entry at `pte`, on the snapshot's core or another. `source` is where the
  -- processor finds the page of the address.
  unfoldable pub fault_on :
      Spawned
      → (snapshot : Bool) → (touch : ℕ → ℕ) → (source fec addr pte : ℕ) → Machine S
      → Option (Handled S)
  fault_on sp snapshot touch source fec addr pte m =
      let old = m.mem pte in
      let m1 = store m pte (bit_or old pte_lock) in
      let in_place = some (unshot (store m1 pte (bit_or (pte_addr old) (new_perm old)))) in
      if not (is_cow_fault fec old)
      then some (unshot m)
      else if is_sole m1 (pte_addr old)
      then in_place
      else if snapshot
      then (copy_for_snapshot source pte old m1 >>= λ m2. some (unshot m2))
      else elim sp.pgroot_snapshot [
        | none ↦ in_place
        | some root ↦ with_snapshot sp touch root source addr pte old m1
      ]

  -- `dbos_fast_spawn_pgflt_handler` where it alone changes the entries, but for `touch`.
  -- `translate` is the processor's translation of addresses.
  pub fast_spawn_pgflt_handler :
      Spawned
      → (snapshot : Bool) → (touch : ℕ → ℕ) → (translate : Machine S → ℕ → ℕ) → (cr3 addr fec : ℕ)
      → Machine S
      → Option (Handled S)
  fast_spawn_pgflt_handler sp snapshot touch translate cr3 addr fec m =
      if root_is_right sp snapshot cr3
      then elim (vm_lookup ops cr3 addr false false m) [
        | found pte created m' ↦
            fault_on sp snapshot touch (translate m' (addr / 4096 * 4096)) fec addr pte m'
        | missing ↦ none
        | died ↦ none
      ]
      else none
