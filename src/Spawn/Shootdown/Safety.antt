-- ===== src/Spawn/Shootdown/Safety.antt =====
-- When the call returns, no stale translation is used any more.
use libdbos.Common.{◌≡◌, true, false, arith}
use libdbos.Spawn.Shootdown.{
  guest, user, Exit, on_reentry, flushed_there, kicked, done, System, Starts, Reach,
}
use libdbos.Spawn.Shootdown.Inv.{covered, Knows, Reach-Inv, Starts-Inv, known}

covered_there : (s : System) → covered s ≡ true → s.mode ≡ guest → s.task ≡ user → s.stale ≡ false
covered_there s c g u = ground arith

-- The returns after which the translation is gone: the target was in the host, or it was kicked, or
-- it answered, and this call's message was the first of the batch that it took.
pub data Answers (s : System) : Exit → Type 0 where
  reentry : Answers s on_reentry
  kick_done : Answers s kicked
  first_of_batch : s.first ≡ true → Answers s flushed_there

covered_exit : (s : System) (e : Exit) → Answers s e → Knows s (done e) → covered s ≡ true
covered_exit s _ reentry k = k
covered_exit s _ kick_done k = k
covered_exit s _ (first_of_batch f) k = k f

-- The steps of the target core, of other cores and of the caller may come in any order, from a
-- start where the target's handler is not at work for an earlier call. When `dbos_tlb_shootdown`
-- has returned because the target was in the host when its flag was read with the ring not full, or
-- after a kick, or because the target's handler answered a message that was the first of its batch,
-- and the target runs the application in the guest, its TLB does not hold the translation that the
-- page table no longer has.
pub shootdown-flushed :
    {s t : System}
    → Starts s
    → Reach s t
    → (e : Exit) → Answers t e
    → t.pc ≡ done e
    → t.mode ≡ guest
    → t.task ≡ user
    → t.stale ≡ false
shootdown-flushed {s} {t} b r e n at g u =
    covered_there t (covered_exit t e n (known (Reach-Inv r (Starts-Inv b)) at)) g u
