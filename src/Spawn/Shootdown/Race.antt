-- ===== src/Spawn/Shootdown/Race.antt =====
-- Orders of the steps in which the call returns and the old translation is still used.
use libdbos.Common.{◌≡◌, ◌≢◌, refl, sym, ap, ◌∙◌, true, false, arith, if◌then◌else◌}
use mathlib.Core.Bool.{true≢false}
use libdbos.Spawn.Shootdown.{
  Flag, host, guest, user, collected, flushed_there, full_in_host, start, done, System, with_host,
  no_flags, Starts, Reach, here, next, enter, run, leave, answer, flush_one, first_host,
  first_guest, collect, is_host, first_lost, queue, queue_full, wait_flushed, full_host, full_won,
  full_lost,
}

-- The ring is full and the target leaves and enters the guest between the reads of its flag: the
-- branch for a target in the host posts the flush to a target in the guest, and does not kick it.
-- From any start with the target in the host and no flush posted, `dbos_tlb_shootdown` can return
-- on that path while the application runs in the guest with the translation it had.
pub full_in_host-stale :
    (s : System)
    → Starts s
    → s.mode ≡ host
    → s.flag.flush_on_reentry ≡ false
    → (t : System) × Reach s t
      × (t.pc ≡ done full_in_host)
      × (t.mode ≡ guest)
      × (t.task ≡ user)
      × (t.stale ≡ s.stale)
full_in_host-stale s b m f =
    let in_host : s.flag.in_host ≡ true = ground arith in
    let tried_it = next here (first_host b.at_start in_host f) in
    let lost : no_flags ≢ s.flag =
      λ e. absurd (true≢false (sym in_host ∙ sym (ap Flag.in_host e))) in
    let in_guest = next (next (next tried_it (enter m)) (first_lost refl lost)) (run refl f) in
    let seen = next (next (next in_guest (queue_full refl)) (leave refl)) (full_host refl refl) in
    let back = next (next seen (enter refl)) (run refl refl) in
    let lost_again : no_flags ≢ with_host no_flags =
      λ e. absurd (true≢false (sym (ap Flag.in_host e))) in
    (
      _,
      next (next back (full_lost refl refl lost_again)) (full_won refl refl refl),
      refl,
      refl,
      b.at_user,
      refl,
    )

-- A target that is still in the handler for an earlier call answers this call, whose argument is
-- the same page, and flushes the address of the earlier one: from any state where this call starts
-- then, it can return while the application runs in the guest with the translation it had.
pub late_answer-stale :
    (s : System)
    → s.pc ≡ start
    → s.mode ≡ guest
    → s.task ≡ collected false
    → s.flag.in_host ≡ false
    → (t : System) × Reach s t
      × (t.pc ≡ done flushed_there)
      × (t.mode ≡ guest)
      × (t.task ≡ user)
      × (t.stale ≡ s.stale)
late_answer-stale s at g late h = (
  _,
  next
      (next (next (next (next here (first_guest at h)) (queue refl)) (answer g late))
        (wait_flushed refl refl))
      (flush_one g refl),
  refl,
  g,
  refl,
  refl,
)

-- The batch handler reads the address of a message that is not the first of its batch behind the
-- argument of the call, and flushes another page: from any start with the target in the guest whose
-- message comes to be a later one of its batch, `dbos_tlb_shootdown` can return with the answer of
-- the handler while the application runs in the guest with the translation it had.
pub later_in_batch-stale :
    (s : System)
    → Starts s
    → s.mode ≡ guest
    → s.first ≡ false
    → (t : System) × Reach s t
      × (t.pc ≡ done flushed_there)
      × (t.mode ≡ guest)
      × (t.task ≡ user)
      × (t.stale ≡ s.stale)
later_in_batch-stale s b g later =
    let in_guest : s.flag.in_host ≡ false = b.mode_bit ∙ ap is_host g in
    let asked = next (next here (first_guest b.at_start in_guest)) (queue refl) in
    let taken = next asked (collect g b.at_user refl) in
    let back = next (next taken (answer g refl)) (wait_flushed refl refl) in
    (_, next back (flush_one g refl), refl, g, refl, ap (λ f. if f then false else s.stale) later)
