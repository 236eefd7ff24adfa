-- ===== src/Spawn/Tests/Shootdown.antt =====
-- Runs of the shootdown.
use libdbos.Common.{◌≡◌, refl, true, false}
use libdbos.Spawn.Shootdown.{
  no_flags, guest, host, user, start, waiting, done, on_reentry, flushed_there, full_in_host,
  System, Starts, Reach, here, next, first_guest, queue, collect, answer, wait_flushed, flush_one,
}
use libdbos.Spawn.Shootdown.Safety.{first_of_batch, shootdown-flushed}
use libdbos.Spawn.Shootdown.Race.{full_in_host-stale, later_in_batch-stale}
use libdbos.Spawn.Shootdown.Live.{Alone, wait-ends}

-- The target runs the application with a stale translation.
abbrev in_guest : System
in_guest = record {
  flag = no_flags;
  full_flush_count = 5;
  guest_cr3 = 0x1000;
  mode = guest;
  task = user;
  stale = true;
  queued = false;
  first = true;
  flushed = false;
  pc = start;
}

in_guest-Starts : Starts in_guest
in_guest-Starts = record { at_start = refl; at_user = refl; unanswered = refl; mode_bit = refl }

-- The message is in the ring.
abbrev asked : System
asked = record in_guest { queued = true; pc = waiting }

to_asked : Reach in_guest asked
to_asked = next (next here (first_guest refl refl)) (queue refl)

-- The handler has answered and flushed, and the call has returned.
abbrev answered : System
answered = record in_guest { stale = false; flushed = true; pc = done flushed_there }

to_answered : Reach in_guest answered
to_answered =
    next
      (next (next (next to_asked (collect refl refl refl)) (answer refl refl))
        (wait_flushed refl refl))
      (flush_one refl refl)

shootdown-flushed_example : answered.stale ≡ false
shootdown-flushed_example =
    shootdown-flushed in_guest-Starts to_answered flushed_there (first_of_batch refl) refl refl refl

wait-ends_example : (u : System) × Alone asked u × (u.pc ≡ done on_reentry)
wait-ends_example = wait-ends in_guest-Starts to_asked refl

-- The target is in the host.
abbrev in_host : System
in_host = record in_guest { flag = record no_flags { in_host = true }; mode = host }

in_host-Starts : Starts in_host
in_host-Starts = record { at_start = refl; at_user = refl; unanswered = refl; mode_bit = refl }

full_in_host-stale_example :
    (t : System) × Reach in_host t
    × (t.pc ≡ done full_in_host)
    × (t.mode ≡ guest)
    × (t.task ≡ user)
    × (t.stale ≡ true)
full_in_host-stale_example = full_in_host-stale in_host in_host-Starts refl refl

-- Another message comes before this call's.
abbrev behind : System
behind = record in_guest { first = false }

behind-Starts : Starts behind
behind-Starts = record { at_start = refl; at_user = refl; unanswered = refl; mode_bit = refl }

later_in_batch-stale_example :
    (t : System) × Reach behind t
    × (t.pc ≡ done flushed_there)
    × (t.mode ≡ guest)
    × (t.task ≡ user)
    × (t.stale ≡ true)
later_in_batch-stale_example = later_in_batch-stale behind behind-Starts refl refl
