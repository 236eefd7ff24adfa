-- ===== src/Ipi/Handler/Passes.antt =====
-- What the interrupt handler runs: every message that waits, once.
use libdbos.Common.{
  ℕ, suc, ◌-◌, ◌*◌, ◌≤◌, ◌≡◌, refl, ap, sym, ◌∙◌, some, List, [], ◌∷◌, ◌++◌, arith, length,
  length-append,
}
use mathlib.Core.List.{Perm, perm_middle, append-nil, append_assoc}
use mathlib.Core.List.Perm
use libdbos.Ipi.{IpiMessage, MessageType, batchable, non_batchable, IpiRing}
use libdbos.Ipi.Ring.{IsValid, contents, length-copy_from, collect_messages_lem}
use libdbos.Ipi.Handler.{
  PercpuRing, idle, phase1, phase2, Event, collect_all, put_message, sort_messages, calls,
  call_batch_if_any, pass, interrupt_handler,
}

abbrev pub AllValid : List IpiRing → Type 0
AllValid [] = Unit
AllValid (r ∷ rs) = IsValid r × AllValid rs

abbrev pub AllEmpty : List IpiRing → Type 0
AllEmpty [] = Unit
AllEmpty (r ∷ rs) = (contents r ≡ []) × AllEmpty rs

-- The messages that wait, ring by ring.
abbrev pub waiting : List IpiRing → List IpiMessage
waiting [] = []
waiting (r ∷ rs) = contents r ++ waiting rs

-- The messages that a run of the handler gave to a callback.
abbrev pub ran : List Event → List IpiMessage
ran [] = []
ran (Event.call m ∷ es) = m ∷ ran es
ran (Event.call_batch func ms ∷ es) = ms ++ ran es
ran (Event.enter p ∷ es) = ran es

-- `buf` has room for four messages from each ring.
pub length-waiting : (rs : List IpiRing) → AllValid rs → length (waiting rs) ≤ 4 * length rs
length-waiting [] v = omega arith
length-waiting (r ∷ rs) v =
    let v0 = v.0 in
    omega (
      arith,
      length-append (contents r) (waiting rs),
      length-copy_from r.buf r.head (r.tail - r.head),
      length-waiting rs v.1,
    )

-- What a pass leaves of valid rings.
pub record Drained (rs rs' : List IpiRing) : Type 0 where
  pub valid : AllValid rs'
  pub empty : AllEmpty rs'
  pub same_length : length rs' ≡ length rs

collect_all_lem :
    (rs : List IpiRing)
    → AllValid rs
    → (rs' : List IpiRing) × (collect_all rs ≡ some (waiting rs, rs')) × Drained rs rs'
unfolding collect_all
collect_all_lem [] v = ([], refl, record { valid = tt; empty = tt; same_length = refl })
collect_all_lem (r ∷ rs) v =
    let (r', e, v', none_left, at_tail, same_tail) = collect_messages_lem r v.0 in
    let (rs', e', d) = collect_all_lem rs v.1 in
    (
      r' ∷ rs',
      rw (e, collect_all) (rw e' refl),
      record {
        valid = (v', d.valid);
        empty = (none_left, d.empty);
        same_length = ap suc d.same_length;
      },
    )

put_message-Perm :
    (t : MessageType) (m : IpiMessage) (p : List IpiMessage × List IpiMessage)
    (ms : List IpiMessage)
    → Perm (p.0 ++ p.1) ms
    → Perm ((put_message t m p).0 ++ (put_message t m p).1) (m ∷ ms)
unfolding put_message
put_message-Perm batchable m (plain, batch) ms h =
    Perm.trans (perm_middle plain batch) (Perm.cons m h)
put_message-Perm non_batchable m (plain, batch) ms h = Perm.cons m h

-- Sorting keeps every message.
sort_messages-Perm : (ms : List IpiMessage) → Perm ((sort_messages ms).0 ++ (sort_messages ms).1) ms
unfolding sort_messages
sort_messages-Perm [] = Perm.refl []
sort_messages-Perm (m ∷ ms) =
    put_message-Perm m.type m (sort_messages ms) ms (sort_messages-Perm ms)

ran-append : (es fs : List Event) → ran (es ++ fs) ≡ ran es ++ ran fs
ran-append [] fs = refl
ran-append (Event.call m ∷ es) fs = ap (◌∷◌ m) (ran-append es fs)
ran-append (Event.call_batch f ms ∷ es) fs =
    ap (λ xs. ms ++ xs) (ran-append es fs) ∙ sym (append_assoc ms (ran es) (ran fs))
ran-append (Event.enter p ∷ es) fs = ran-append es fs

ran-calls : (ms : List IpiMessage) → ran (calls ms) ≡ ms
ran-calls [] = refl
ran-calls (m ∷ ms) = ap (◌∷◌ m) (ran-calls ms)

ran-batch :
    (f : ℕ) (ms : List IpiMessage)
    → (events : List Event) × (call_batch_if_any (some f) ms ≡ some events) × (ran events ≡ ms)
unfolding call_batch_if_any
ran-batch f [] = ([], refl, refl)
ran-batch f (m ∷ ms) = (Event.call_batch f (m ∷ ms) ∷ [], refl, append-nil (m ∷ ms))

record Passed (f : ℕ) (rs : List IpiRing) : Type 0 where
  events : List Event
  rings : List IpiRing
  returns : pass (some f) rs ≡ some (events, rings)
  drained : Drained rs rings
  ran_all : Perm (ran events) (waiting rs)

pass_lem : (f : ℕ) (rs : List IpiRing) → AllValid rs → Passed f rs
unfolding pass
pass_lem f rs v =
    let (rs', e, d) = collect_all_lem rs v in
    let sorted = sort_messages (waiting rs) in
    let (events, eb, rb) = ran-batch f sorted.1 in
    record {
      events = calls sorted.0 ++ events;
      rings = rs';
      returns = rw (e, pass) (rw eb refl);
      drained = d;
      ran_all =
          rw (ran-append (calls sorted.0) events, ran-calls sorted.0, rb)
            (sort_messages-Perm (waiting rs));
    }

-- With a batch callback registered, valid rings at the interrupt and after what the other cores
-- queue during PHASE1, the handler returns: the messages it gave to callbacks are, as often as
-- they were queued, those that waited at the interrupt and those that were queued during PHASE1;
-- the second pass leaves every ring valid and empty, so that only what the other cores queue after
-- it is in the rings at the end; and the phase is then idle.
pub interrupt_handler_lem :
    (f : ℕ) (arrivals late : List IpiRing → List IpiRing) (st : PercpuRing)
    → AllValid st.rings
    → ((rs : List IpiRing) → AllValid rs → AllValid (arrivals rs))
    → (events : List Event) × (rs : List IpiRing) × (after : List IpiRing) × (interrupt_handler
          (some f)
          arrivals
          late
          st
        ≡ some (events, record { rings = late after; phase = idle }))
      × Drained st.rings rs
      × Perm (ran events) (waiting st.rings ++ waiting (arrivals rs))
      × AllValid after
      × AllEmpty after
unfolding interrupt_handler
interrupt_handler_lem f arrivals late st v keep =
    let one = pass_lem f st.rings v in
    let two = pass_lem f (arrivals one.rings) (keep one.rings one.drained.valid) in
    (
      (Event.enter phase1 ∷ one.events)
          ++ ((Event.enter phase2 ∷ two.events) ++ (Event.enter idle ∷ [])),
      one.rings,
      two.rings,
      rw (one.returns, interrupt_handler) (rw two.returns refl),
      one.drained,
      rw
          (
            ran-append one.events (Event.enter phase2 ∷ (two.events ++ (Event.enter idle ∷ []))),
            ran-append two.events (Event.enter idle ∷ []),
            append-nil,
          )
          (Perm.append one.ran_all two.ran_all),
      two.drained.valid,
      two.drained.empty,
    )
