-- ===== src/Spawn/Shootdown/Inv.antt =====
-- The invariant of the shootdown: a posted flush or an answer covers the old translation.
use libdbos.Common.{
  ℕ, ◌+◌, ◌%◌, ◌^◌, ◌≡◌, ◌≢◌, refl, sym, ap, ◌∙◌, inl, inr, Bool, true, false, not, ◌||◌, arith,
  ◌==◌, ==→eq, Bool-cases,
}
use libdbos.Spawn.Shootdown.{
  Flag, Mode, host, entering, counted, guest, Task, user, collected, acked, on_reentry,
  flushed_there, kicked, full_in_host, Pc, start, tried, queueing, waiting, wait_tried, full,
  full_tried, full_in_guest, kick, kick_sent, done, System, Step, is_host, with_flush, load_root,
  Starts, Reach, here, next, enter, count, flush_all, run, leave, collect, answer, flush_one,
  other_flush, other_root, first_posted, first_host, first_guest, first_won, first_lost, queue,
  queue_full, wait_flushed, wait_posted, wait_host, wait_won, wait_lost, full_guest, read_count,
  kick_won, kick_lost, kick_flushed, full_host, full_posted, full_won, full_lost,
}

-- A full flush comes before the guest runs again.
abbrev pub pending : Mode → Flag → Bool
pending host f = f.flush_on_reentry
pending (entering g) f = g.flush_on_reentry
pending (counted root) f = true
pending guest f = false

abbrev pub is_acked : Task → Bool
is_acked (acked this_call) = this_call
is_acked _ = false

abbrev pub is_own : Task → Bool
is_own user = true
is_own (collected this_call) = this_call
is_own (acked this_call) = this_call

-- The translation is gone, or goes before the application runs.
abbrev pub covered : System → Bool
covered s = not s.stale || (pending s.mode s.flag || is_acked s.task)

-- What the calling core knows where it stands.
abbrev pub Knows : System → Pc → Type 0
Knows s (tried f) = f.in_host ≡ true
Knows s (wait_tried f) = f.in_host ≡ true
Knows s (kick old f) = s.full_flush_count ≢ old → covered s ≡ true
Knows s (kick_sent old) = s.full_flush_count ≢ old → covered s ≡ true
Knows s (done full_in_host) = Unit
Knows s (done flushed_there) = s.first ≡ true → covered s ≡ true
Knows s (done e) = covered s ≡ true
Knows s p = Unit

pub record Inv (s : System) : Type 0 where
  pub mode_bit : s.flag.in_host ≡ is_host s.mode
  pub own : s.first ≡ true → is_own s.task ≡ true
  pub answered : s.first ≡ true → s.flushed ≡ true → (not s.stale || is_acked s.task) ≡ true
  pub knows : Knows s s.pc

-- What follows a count that moved holds after a step that keeps it, or moves the count itself.
moved_on : {P Q : Type 0} (old c d : ℕ) → (P → Q) → (d ≢ c → Q) → (c ≢ old → P) → d ≢ old → Q
moved_on old c d keep counted_now k n = elim (Bool-cases (c == old)) [
  | inl e ↦ counted_now (λ d_c. n (d_c ∙ ==→eq c old e))
  | inr e ↦ keep (k (λ c_old. absurd (ground arith)))
]

-- A step of another core keeps what the caller knows.
Knows-map :
    (s t : System) (p : Pc)
    → t.first ≡ s.first
    → (covered s ≡ true → covered t ≡ true)
    → (t.full_flush_count ≢ s.full_flush_count → covered t ≡ true)
    → Knows s p
    → Knows t p
Knows-map s t start same keep counted_now k = tt
Knows-map s t (tried f) same keep counted_now k = k
Knows-map s t queueing same keep counted_now k = tt
Knows-map s t waiting same keep counted_now k = tt
Knows-map s t (wait_tried f) same keep counted_now k = k
Knows-map s t full same keep counted_now k = tt
Knows-map s t (full_tried f) same keep counted_now k = tt
Knows-map s t (full_in_guest f) same keep counted_now k = tt
Knows-map s t (kick old f) same keep counted_now k =
    moved_on old s.full_flush_count t.full_flush_count keep counted_now k
Knows-map s t (kick_sent old) same keep counted_now k =
    moved_on old s.full_flush_count t.full_flush_count keep counted_now k
Knows-map s t (done on_reentry) same keep counted_now k = keep k
Knows-map s t (done flushed_there) same keep counted_now k = λ f. keep (k (sym same ∙ f))
Knows-map s t (done kicked) same keep counted_now k = keep k
Knows-map s t (done full_in_host) same keep counted_now k = tt

-- A step that leaves the caller where it is, the count as it is, and a covered state covered.
other-Inv :
    {s : System} (t : System)
    → Inv s
    → t.first ≡ s.first
    → t.pc ≡ s.pc
    → t.full_flush_count ≡ s.full_flush_count
    → t.flag.in_host ≡ is_host t.mode
    → (t.first ≡ true → is_own t.task ≡ true)
    → (t.first ≡ true → t.flushed ≡ true → (not t.stale || is_acked t.task) ≡ true)
    → (covered s ≡ true → covered t ≡ true)
    → Inv t
other-Inv {s} t v same at cnt bit own ans keep = record {
  mode_bit = bit;
  own = own;
  answered = ans;
  knows = rw at (Knows-map s t s.pc same keep (λ moved. absurd (moved cnt)) v.knows);
}

-- A step of the caller alone.
own-Inv : {s : System} (p : Pc) → Inv s → Knows s p → Inv (record s { pc = p })
own-Inv {s} p v k = record {
  mode_bit = v.mode_bit;
  own = v.own;
  answered = v.answered;
  knows = Knows-map s (record s { pc = p }) p refl (λ c. c) (λ moved. absurd (moved refl)) k;
}

-- A step of the caller that posts the flush.
post-Inv :
    {s : System} {f : Flag} (p : Pc)
    → Inv s
    → s.flag ≡ f
    → Knows (record s { flag = with_flush f; pc = p }) p
    → Inv (record s { flag = with_flush f; pc = p })
post-Inv {s} {f} p v same k = record {
  mode_bit = sym (ap Flag.in_host same) ∙ v.mode_bit;
  own = v.own;
  answered = v.answered;
  knows = k;
}

-- A flush that is posted to a target in the host covers the translation.
host-covered :
    (s : System) → Inv s → s.flag.in_host ≡ true → s.flag.flush_on_reentry ≡ true → covered s ≡ true
host-covered s v h f = ground arith

post-covered :
    (s : System) {f : Flag} (p : Pc)
    → Inv s
    → s.flag ≡ f
    → f.in_host ≡ true
    → covered (record s { flag = with_flush f; pc = p }) ≡ true
post-covered s {f} p v same h = ground arith

posted-covered :
    (s : System) {f : Flag} (p : Pc)
    → s.flag ≡ f
    → covered s ≡ true
    → covered (record s { flag = with_flush f; pc = p }) ≡ true
posted-covered s {f} p same c = ground arith

run-covered :
    (s : System) {f : Flag}
    → s.mode ≡ entering f
    → f.flush_on_reentry ≡ false
    → covered s ≡ true
    → covered (record s { mode = guest; guest_cr3 = load_root f.change_cr3 s.guest_cr3 }) ≡ true
run-covered s m no_flush c =
    let e : pending s.mode s.flag ≡ false = ap (λ m'. pending m' s.flag) m ∙ no_flush in
    ap (λ p. not s.stale || (p || is_acked s.task)) (sym e) ∙ c

pub known : {s : System} {p : Pc} → Inv s → s.pc ≡ p → Knows s p
known v at = rw (sym at) v.knows

Step-Inv : {s t : System} → Step s t → Inv s → Inv t
Step-Inv {s} (enter m) v = other-Inv _ v refl refl refl refl v.own v.answered (λ c. ground arith)
Step-Inv {s} (count {f} m c) v = record {
  mode_bit = ground arith;
  own = v.own;
  answered = v.answered;
  knows =
      Knows-map s
        (record s {
          mode = counted f.change_cr3;
          full_flush_count = (s.full_flush_count + 1) % 2 ^ 32;
        })
        s.pc refl (λ c. ground arith) (λ moved. ground arith) v.knows;
}
Step-Inv {s} (flush_all {root} m) v =
    other-Inv (record s { mode = guest; stale = false; guest_cr3 = load_root root s.guest_cr3 }) v
      refl refl refl (ground arith) v.own (λ f a. refl) (λ c. refl)
Step-Inv {s} (run {f} m c) v =
    other-Inv (record s { mode = guest; guest_cr3 = load_root f.change_cr3 s.guest_cr3 }) v refl
      refl refl (ground arith) v.own v.answered (run-covered s m c)
Step-Inv {s} (leave m) v = other-Inv _ v refl refl refl refl v.own v.answered (λ c. ground arith)
Step-Inv {s} (collect g u q) v =
    other-Inv _ v refl refl refl v.mode_bit (λ f. f) (λ f a. ground (arith, v.answered f a))
      (λ c. ground arith)
Step-Inv {s} (answer {this_call} g u) v =
    other-Inv (record s { task = acked this_call; flushed = true }) v refl refl refl v.mode_bit
      (λ f. ground (arith, v.own f)) (λ f a. ground (arith, v.own f)) (λ c. ground arith)
Step-Inv {s} (flush_one {this_call} g u) v =
    other-Inv _ v refl refl refl v.mode_bit (λ f. refl)
      (λ f a. ground (arith, v.answered f a, v.own f)) (λ c. ground arith)
Step-Inv {s} other_flush v =
    other-Inv _ v refl refl refl v.mode_bit v.own v.answered (λ c. ground arith)
Step-Inv {s} (other_root root h) v =
    other-Inv _ v refl refl refl v.mode_bit v.own v.answered (λ c. ground arith)
Step-Inv {s} (first_posted at h f) v = own-Inv _ v (host-covered s v h f)
Step-Inv {s} (first_host at h f) v = own-Inv _ v h
Step-Inv {s} (first_guest at h) v = own-Inv _ v tt
Step-Inv {s} (first_won {f} at same) v =
    post-Inv _ v same (post-covered s (done on_reentry) v same (known v at))
Step-Inv {s} (first_lost at other) v = own-Inv _ v tt
Step-Inv {s} (queue at) v = record {
  mode_bit = v.mode_bit;
  own = v.own;
  answered = v.answered;
  knows = tt;
}
Step-Inv {s} (queue_full at) v = own-Inv _ v tt
Step-Inv {s} (wait_flushed at a) v = own-Inv _ v (λ f. ground (arith, v.answered f a))
Step-Inv {s} (wait_posted at h f) v = own-Inv _ v (host-covered s v h f)
Step-Inv {s} (wait_host at h f) v = own-Inv _ v h
Step-Inv {s} (wait_won {f} at same) v =
    post-Inv _ v same (post-covered s (done on_reentry) v same (known v at))
Step-Inv {s} (wait_lost at other) v = own-Inv _ v tt
Step-Inv {s} (full_guest at h) v = own-Inv _ v tt
Step-Inv {s} (read_count {f} at) v = own-Inv _ v (λ moved. absurd (moved refl))
Step-Inv {s} (kick_won {old} {f} at same) v =
    post-Inv _ v same (λ moved. posted-covered s (kick_sent old) same (known v at moved))
Step-Inv {s} (kick_lost {old} at other) v = own-Inv _ v (known v at)
Step-Inv {s} (kick_flushed at moved) v = own-Inv _ v ((known v at) moved)
Step-Inv {s} (full_host at h) v = own-Inv _ v tt
Step-Inv {s} (full_posted at p) v = own-Inv _ v tt
Step-Inv {s} (full_won at p same) v = post-Inv _ v same tt
Step-Inv {s} (full_lost at p other) v = own-Inv _ v tt

pub Reach-Inv : {s t : System} → Reach s t → Inv s → Inv t
Reach-Inv here v = v
Reach-Inv (next r st) v = Step-Inv st (Reach-Inv r v)

pub Starts-Inv : {s : System} → Starts s → Inv s
Starts-Inv {s} b = record {
  mode_bit = b.mode_bit;
  own = λ f. ground (arith, b.at_user);
  answered = λ f a. ground (arith, b.unanswered);
  knows = rw b.at_start tt;
}
