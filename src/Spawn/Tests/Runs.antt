-- ===== src/Spawn/Tests/Runs.antt =====
-- Runs on a snapshot, and two faults at once.
use libdbos.Common.{◌≡◌, refl, true, false, none, some}
use libdbos.Spawn.Run.{
  State, Step, Starts, Reach, here, next, idle, work_set, waiting, running, copier_waiting,
  fast_spawn_snapshot_running, signal_copy, take_job, set_first, set_second, choose, switch,
  set_snapshot, set_work, see_work, load, count_started, enter_snapshot,
}
use libdbos.Spawn.Run.Versions.{in_one, between, snapshot_running-is_open}

abbrev fresh : State
fresh = record {
  pgroot = 0x1000;
  shadow_pgroot1 = none;
  shadow_pgroot2 = none;
  pgroot_snapshot = none;
  async_copy_job = false;
  work = false;
  snapshot_runs_started_version = 0;
  snapshot_runs_finished_version = 0;
  in_snapshot = false;
  snapshot_cr3 = 0x1000;
  main = idle;
  worker = waiting;
  copier = copier_waiting;
}

fresh-Starts : Starts fresh
fresh-Starts = record {
  no_shadows = (refl, refl);
  no_root = refl;
  no_work = refl;
  no_runs = (refl, refl);
  at_start = (refl, refl, refl);
}

-- The first run has started.
abbrev under_way : State
under_way = record fresh {
  pgroot = 0x2000;
  shadow_pgroot1 = some 0x2000;
  shadow_pgroot2 = some 0x3000;
  pgroot_snapshot = some 0x3000;
  work = true;
  snapshot_runs_started_version = 1;
  in_snapshot = true;
  snapshot_cr3 = 0x3000;
  main = work_set;
  worker = running;
}

to_under_way : Reach fresh under_way
to_under_way =
    let copied =
      next
        (next (next (next here (signal_copy refl refl)) (take_job refl refl))
          (set_first 0x2000 refl))
        (set_second 0x3000 refl) in
    let given =
      next
        (next (next (next copied (choose refl refl refl refl)) (switch refl refl))
          (set_snapshot refl))
        (set_work refl) in
    next (next (next (next given (see_work refl refl)) (load refl refl)) (count_started refl))
      (enter_snapshot refl)

snapshot_running-is_open_example :
    (in_one under_way ≡ some true)
    × (u : State) × Step under_way u
    × (in_one u ≡ some false)
    × (fast_spawn_snapshot_running (λ i. 1) (between under_way u) ≡ none)
snapshot_running-is_open_example = snapshot_running-is_open fresh-Starts to_under_way refl
