-- ===== src/Spawn/Shootdown/Live.antt =====
-- The wait of `dbos_tlb_shootdown` never has to last.
use libdbos.Common.{◌≡◌, refl, ap, ◌∙◌, inl, inr, true, Bool-cases}
use libdbos.Spawn.Shootdown.{
  Step, other_flush, other_root, Mode, host, entering, counted, guest, waiting, done, on_reentry,
  System, is_host, Starts, Reach, here, next, count, flush_all, run, leave, wait_posted, wait_host,
  wait_won,
}
use libdbos.Spawn.Shootdown.Inv.{Inv, Reach-Inv, Starts-Inv}

-- A step that neither posts a flush nor a root for another core: one of the calling core or of the
-- target.
abbrev pub OfTheTwo : {s t : System} → Step s t → Type 0
OfTheTwo other_flush = ⊥
OfTheTwo (other_root root h) = ⊥
OfTheTwo _ = Unit

-- Steps of the calling core and of the target alone.
pub data Alone (s : System) : System → Type 0 where
  stay : Alone s s
  goes_on : {t u : System} → Alone s t → (st : Step t u) → OfTheTwo st → Alone s u

Alone-Reach : {s t : System} → Alone s t → Reach s t
Alone-Reach stay = here
Alone-Reach (goes_on r st own) = next (Alone-Reach r) st

abbrev ComesToHost : System → Type 0
ComesToHost s = (t : System) × Alone s t × (t.pc ≡ s.pc) × (t.mode ≡ host)

by_mode : (s : System) (m : Mode) → s.mode ≡ m → ComesToHost s
by_mode s host e = (s, stay, refl, e)
by_mode s (counted root) e =
    (_, goes_on (goes_on stay (flush_all e) tt) (leave refl) tt, refl, refl)
by_mode s guest e = (_, goes_on stay (leave e) tt, refl, refl)
by_mode s (entering f) e = elim (Bool-cases f.flush_on_reentry) [
  | inl on ↦ (
    _,
    goes_on (goes_on (goes_on stay (count e on) tt) (flush_all refl) tt) (leave refl) tt,
    refl,
    refl,
  )
  | inr off ↦ (_, goes_on (goes_on stay (run e off) tt) (leave refl) tt, refl, refl)
]

-- The target core comes back to the host, whatever it does.
to_host : (s : System) → ComesToHost s
to_host s = by_mode s s.mode refl

-- Where the target is in the host, the waiting core posts the flush, or sees that one is posted.
in_host-ends :
    (s : System)
    → s.pc ≡ waiting
    → s.flag.in_host ≡ true
    → (t : System) × Alone s t × (t.pc ≡ done on_reentry)
in_host-ends s at h = elim (Bool-cases s.flag.flush_on_reentry) [
  | inl on ↦ (_, goes_on stay (wait_posted at h on) tt, refl)
  | inr off ↦ (_, goes_on (goes_on stay (wait_host at h off) tt) (wait_won refl refl) tt, refl)
]

Alone-trans : {s t u : System} → Alone s t → Alone t u → Alone s u
Alone-trans r stay = r
Alone-trans r (goes_on q st own) = goes_on (Alone-trans r q) st own

-- From every state that `dbos_tlb_shootdown` reaches in its loop `while (call_arg->flushed ==
-- false)` there are steps of the calling core and of the target alone, with no flush that another
-- core posts and whether or not the target's handler ever answers, with which the call returns.
pub wait-ends :
    {s t : System}
    → Starts s
    → Reach s t
    → t.pc ≡ waiting
    → (u : System) × Alone t u × (u.pc ≡ done on_reentry)
wait-ends {s} {t} b r at =
    let (u, q, same, m) = to_host t in
    let v : Inv u = Reach-Inv (Alone-Reach q) (Reach-Inv r (Starts-Inv b)) in
    let (w, q2, e) = in_host-ends u (same ∙ at) (v.mode_bit ∙ ap is_host m) in
    (w, Alone-trans q q2, e)
