-- ===== src/Spawn/Run.antt =====
-- A run on a snapshot, libdune/fast_spawn.c: `dune_fast_spawn_on_snapshot` on a core of the program,
-- `dbos_fast_spawn_snapshot_worker` on the snapshot's core, and `page_table_copy_worker`, by their
-- accesses to `fast_spawn_state_t`.
pub mod Versions
use libdbos.Common.{
  ℕ, ◌+◌, ◌≡◌, Bool, true, false, Option, none, some, ltb, leb, ◌==◌, if◌then◌else◌,
}

-- Where the program's core is; it holds the mutex throughout.
pub data MainPc : Type 0 where
  idle : MainPc
  chosen : MainPc  -- both copies are there, and no work
  switched : MainPc  -- `pgroot` is the first copy
  snapshot_set : MainPc  -- `pgroot_snapshot` is the second
  work_set : MainPc
  cleared : MainPc  -- the copies are taken

-- Where the snapshot's thread is.
pub data WorkerPc : Type 0 where
  waiting : WorkerPc
  seen_work : WorkerPc
  loaded : WorkerPc
  counted : WorkerPc
  running : WorkerPc
  finished_counted : WorkerPc
  no_thread : WorkerPc
  no_work : WorkerPc
  failed : WorkerPc  -- the assert on `pgroot_snapshot`

-- Where the thread that copies page tables is.
pub data CopierPc : Type 0 where
  copier_waiting : CopierPc
  copying : CopierPc
  first_set : CopierPc

-- The fields of `fast_spawn_state_t` that the three use. `snapshot_cr3` is the root that the
-- snapshot's core has loaded.
pub record State : Type 0 where
  pub pgroot : ℕ
  pub shadow_pgroot1 : Option ℕ
  pub shadow_pgroot2 : Option ℕ
  pub pgroot_snapshot : Option ℕ
  pub async_copy_job : Bool
  pub work : Bool
  pub snapshot_runs_started_version : ℕ
  pub snapshot_runs_finished_version : ℕ
  pub in_snapshot : Bool
  pub snapshot_cr3 : ℕ
  pub main : MainPc
  pub worker : WorkerPc
  pub copier : CopierPc

-- `dune_fast_spawn_snapshot_running`, with its asserts. It takes no lock: `started i` and
-- `finished i` are what the read number `i` of the version finds, counted from the first line on.
pub fast_spawn_snapshot_running : (started finished : ℕ → ℕ) → Option Bool
fast_spawn_snapshot_running started finished =
    if ltb 0 (started 0)
    then (if leb (finished 0) (started 1)
        then (if ltb (finished 1) (started 2)
            then (if finished 2 + 1 == started 3 then some (finished 3 + 1 == started 4) else none)
            else some (finished 2 + 1 == started 3))
        else none)
    else some false

pub data Step (s : State) : State → Type 0 where
  -- `dune_fast_spawn_on_snapshot`: the wait ends
  choose :
      {root1 root2 : ℕ}
      → s.main ≡ idle
      → s.shadow_pgroot1 ≡ some root1
      → s.shadow_pgroot2 ≡ some root2
      → s.work ≡ false
      → Step s (record s { main = chosen })
  switch :
      {root : ℕ}
      → s.main ≡ chosen
      → s.shadow_pgroot1 ≡ some root
      → Step s (record s { pgroot = root; main = switched })
  set_snapshot :
      s.main ≡ switched
      → Step s (record s { pgroot_snapshot = s.shadow_pgroot2; main = snapshot_set })
  set_work : s.main ≡ snapshot_set → Step s (record s { work = true; main = work_set })
  clear :
      s.main ≡ work_set
      → Step s (record s { shadow_pgroot1 = none; shadow_pgroot2 = none; main = cleared })
  -- the wait for DUNE_THREAD_SNAPSHOT, and the next copy
  next_copy :
      s.main ≡ cleared
      → s.in_snapshot ≡ true
      → Step s (record s { async_copy_job = true; main = idle })
  -- `dune_fast_spawn_signal_copy_worker`, for the first copy
  signal_copy :
      s.shadow_pgroot1 ≡ none
      → s.copier ≡ copier_waiting
      → Step s (record s { async_copy_job = true })
  -- `page_table_copy_worker`
  take_job :
      s.copier ≡ copier_waiting
      → s.async_copy_job ≡ true
      → Step s (record s { async_copy_job = false; copier = copying })
  set_first :
      (root : ℕ)
      → s.copier ≡ copying
      → Step s (record s { shadow_pgroot1 = some root; copier = first_set })
  set_second :
      (root : ℕ)
      → s.copier ≡ first_set
      → Step s (record s { shadow_pgroot2 = some root; copier = copier_waiting })
  -- `dbos_fast_spawn_snapshot_worker`
  see_work : s.worker ≡ waiting → s.work ≡ true → Step s (record s { worker = seen_work })
  load :
      {root : ℕ}
      → s.worker ≡ seen_work
      → s.pgroot_snapshot ≡ some root
      → Step s (record s { snapshot_cr3 = root; worker = loaded })
  no_root : s.worker ≡ seen_work → s.pgroot_snapshot ≡ none → Step s (record s { worker = failed })
  count_started :
      s.worker ≡ loaded
      → Step s (record s {
        snapshot_runs_started_version = s.snapshot_runs_started_version + 1;
        worker = counted;
      })
  enter_snapshot : s.worker ≡ counted → Step s (record s { in_snapshot = true; worker = running })
  count_finished :
      s.worker ≡ running
      → Step s (record s {
        snapshot_runs_finished_version = s.snapshot_runs_finished_version + 1;
        worker = finished_counted;
      })
  leave_snapshot :
      s.worker ≡ finished_counted → Step s (record s { in_snapshot = false; worker = no_thread })
  forget_work : s.worker ≡ no_thread → Step s (record s { work = false; worker = no_work })
  forget_root : s.worker ≡ no_work → Step s (record s { pgroot_snapshot = none; worker = waiting })

-- After `dune_fast_spawn_init`
pub record Starts (s : State) : Type 0 where
  pub no_shadows : (s.shadow_pgroot1 ≡ none) × (s.shadow_pgroot2 ≡ none)
  pub no_root : s.pgroot_snapshot ≡ none
  pub no_work : s.work ≡ false
  pub no_runs : (s.snapshot_runs_started_version ≡ 0) × (s.snapshot_runs_finished_version ≡ 0)
  pub at_start : (s.main ≡ idle) × (s.worker ≡ waiting) × (s.copier ≡ copier_waiting)

pub data Reach (s : State) : State → Type 0 where
  here : Reach s s
  next : {t u : State} → Reach s t → Step t u → Reach s u
