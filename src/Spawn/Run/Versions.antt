-- ===== src/Spawn/Run/Versions.antt =====
-- The versions of the runs, and a root that is lost.
use libdbos.Common.{
  zero, suc, none, Option, ℕ, ◌+◌, ◌≡◌, refl, ap, ◌∙◌, ◌⊎◌, inl, inr, Bool, true, false, Bool-cases,
  some, ltb, ◌==◌, ne→==, eq→==, lt→ltb, le→ltb, le→leb, arith,
}
use mathlib.Core.Path.{subst}
use libdbos.Spawn.Run.{
  idle, WorkerPc, waiting, seen_work, loaded, counted, running, finished_counted, no_thread,
  no_work, failed, State, fast_spawn_snapshot_running, Step, Starts, Reach, here, next, choose,
  switch, set_snapshot, set_work, clear, next_copy, signal_copy, take_job, set_first, set_second,
  see_work, load, no_root, count_started, enter_snapshot, count_finished, leave_snapshot,
  forget_work, forget_root,
}

-- The runs that are started and not finished, by where the snapshot's thread is.
abbrev pub open_runs : WorkerPc → ℕ
open_runs counted = 1
open_runs running = 1
open_runs _ = 0

abbrev pub is_open : WorkerPc → Bool
is_open counted = true
is_open running = true
is_open _ = false

-- The versions differ by the open runs.
abbrev pub Counted : State → Type 0
Counted s = s.snapshot_runs_started_version ≡ s.snapshot_runs_finished_version + open_runs s.worker

at_pc :
    (s : State) {p : WorkerPc}
    → Counted s
    → s.worker ≡ p
    → s.snapshot_runs_started_version ≡ s.snapshot_runs_finished_version + open_runs p
at_pc s c w =
    subst
      (λ (p : WorkerPc).
        s.snapshot_runs_started_version ≡ s.snapshot_runs_finished_version + open_runs p)
      w c

Step-Counted : {s t : State} → Step s t → Counted s → Counted t
Step-Counted (choose m a b w) c = c
Step-Counted (switch m a) c = c
Step-Counted (set_snapshot m) c = c
Step-Counted (set_work m) c = c
Step-Counted (clear m) c = c
Step-Counted (next_copy m i) c = c
Step-Counted (signal_copy n k) c = c
Step-Counted (take_job k j) c = c
Step-Counted (set_first root k) c = c
Step-Counted (set_second root k) c = c
Step-Counted {s} (see_work w h) c = at_pc s c w
Step-Counted {s} (load w r) c = at_pc s c w
Step-Counted {s} (no_root w r) c = at_pc s c w
Step-Counted {s} (count_started w) c = omega (arith, at_pc s c w)
Step-Counted {s} (enter_snapshot w) c = at_pc s c w
Step-Counted {s} (count_finished w) c = omega (arith, at_pc s c w)
Step-Counted {s} (leave_snapshot w) c = at_pc s c w
Step-Counted {s} (forget_work w) c = at_pc s c w
Step-Counted {s} (forget_root w) c = at_pc s c w

Reach-Counted : {s t : State} → Reach s t → Counted s → Counted t
Reach-Counted here c = c
Reach-Counted (next r st) c = Step-Counted st (Reach-Counted r c)

Starts-Counted : {s : State} → Starts s → Counted s
Starts-Counted {s} b = let (m, w, k) = b.at_start in rw w (omega (arith, b.no_runs.0, b.no_runs.1))

open-is_open :
    (p : WorkerPc)
    → ((open_runs p ≡ 1) × (is_open p ≡ true)) ⊎ ((open_runs p ≡ 0) × (is_open p ≡ false))
open-is_open counted = inl (refl, refl)
open-is_open running = inl (refl, refl)
open-is_open waiting = inr (refl, refl)
open-is_open seen_work = inr (refl, refl)
open-is_open loaded = inr (refl, refl)
open-is_open finished_counted = inr (refl, refl)
open-is_open no_thread = inr (refl, refl)
open-is_open no_work = inr (refl, refl)
open-is_open failed = inr (refl, refl)

closed_runs : (n : ℕ) → (n + 1 == n) ≡ false
closed_runs n = ne→== (n + 1) n (λ e. omega arith)

-- All reads in one state.
abbrev pub in_one : State → Option Bool
in_one s =
    fast_spawn_snapshot_running (λ i. s.snapshot_runs_started_version)
      (λ i. s.snapshot_runs_finished_version)

running-Counted : (s : State) → Counted s → in_one s ≡ some (is_open s.worker)
unfolding fast_spawn_snapshot_running
running-Counted s c = elim (open-is_open s.worker) [
  | inl (one, is) ↦
      let fin : ℕ = s.snapshot_runs_finished_version in
      let e : s.snapshot_runs_started_version ≡ fin + 1 = c ∙ ap (λ (n : ℕ). fin + n) one in
      rw
        (
          e,
          is,
          lt→ltb 0 (fin + 1) (omega arith),
          le→leb fin (fin + 1) (omega arith),
          lt→ltb fin (fin + 1) (omega arith),
          eq→== (fin + 1) (fin + 1) refl,
        )
        refl
  | inr (none_open, is) ↦
      let fin : ℕ = s.snapshot_runs_finished_version in
      let e : s.snapshot_runs_started_version ≡ fin = omega (arith, c, none_open) in
      elim (Bool-cases (ltb 0 fin)) [
        | inl some_run ↦
            rw
              (
                e,
                is,
                some_run,
                le→leb fin fin (omega arith),
                le→ltb fin fin (omega arith),
                closed_runs fin,
              )
              refl
        | inr no_run ↦ rw (e, is, no_run) refl
      ]
]

-- The reads of the version that is counted last, with a run that ends between the tests of the
-- second `if` and the assert in it.
abbrev pub between : State → State → ℕ → ℕ
between s t zero = s.snapshot_runs_finished_version
between s t (suc zero) = s.snapshot_runs_finished_version
between s t (suc (suc i)) = t.snapshot_runs_finished_version

-- In every state that the core of the program, the snapshot's thread and the copying thread reach
-- from the start with that thread in its run, dune_fast_spawn_snapshot_running returns true when no
-- version changes while it reads. The thread's step that counts the run as finished is then
-- possible; after it the function returns false; but as the function takes no lock, the step may
-- come between its test that the finished version is less than the started one and the assert
-- behind that test, and then the assert fails.
pub snapshot_running-is_open :
    {s t : State}
    → Starts s
    → Reach s t
    → t.worker ≡ running
    → (in_one t ≡ some true)
      × (u : State) × Step t u
      × (in_one u ≡ some false)
      × (fast_spawn_snapshot_running (λ i. t.snapshot_runs_started_version) (between t u) ≡ none)
unfolding fast_spawn_snapshot_running
snapshot_running-is_open {s} {t} b r w =
    let c : Counted t = Reach-Counted r (Starts-Counted b) in
    let e : t.snapshot_runs_started_version ≡ t.snapshot_runs_finished_version + 1 = at_pc t c w in
    let over : Counted (ended t) = Step-Counted {s = t} {t = ended t} (count_finished w) c in
    (
      running-Counted t c ∙ ap (λ p. some (is_open p)) w,
      ended t,
      count_finished w,
      running-Counted (ended t) over,
      rw
          (
            e,
            lt→ltb 0 (t.snapshot_runs_finished_version + 1) (omega arith),
            le→leb t.snapshot_runs_finished_version (t.snapshot_runs_finished_version + 1)
                (omega arith),
            lt→ltb t.snapshot_runs_finished_version (t.snapshot_runs_finished_version + 1)
                (omega arith),
            closed_runs (t.snapshot_runs_finished_version + 1),
          )
          refl,
    )
  where
    ended : State → State
    ended s = record s {
      snapshot_runs_finished_version = s.snapshot_runs_finished_version + 1;
      worker = finished_counted;
    }

-- The snapshot's thread clears the work before the root, and dune_fast_spawn_on_snapshot waits for
-- the work only: from every state between the two, with the next copies there, an order of the
-- accesses ends in the failed assert on pgroot_snapshot.
pub forget_root-failed :
    (s : State) {root1 root2 : ℕ}
    → s.worker ≡ no_work
    → s.work ≡ false
    → s.main ≡ idle
    → s.shadow_pgroot1 ≡ some root1
    → s.shadow_pgroot2 ≡ some root2
    → (t : State) × Reach s t × (t.worker ≡ failed)
forget_root-failed s w no_job m there1 there2 =
    let set =
      next (next (next here (choose m there1 there2 no_job)) (switch refl there1))
        (set_snapshot refl) in
    let lost = next (next set (forget_root w)) (set_work refl) in
    (_, next (next lost (see_work refl refl)) (no_root refl refl), refl)
