-- ===== src/Ipi/Tests.antt =====
-- Runs of the rings of libdune/ipi_call.c at concrete messages.
use libdbos.Common.{ℕ, ◌≤◌, ◌≡◌, ◌≢◌, refl, some, List, [], ◌∷◌, ◌++◌, arith, length}
use mathlib.Core.List.{Perm}
use libdbos.Ipi.{
  IpiMessage, non_batchable, batchable, no_message, IpiRing, empty_ring, queue_call_fast,
  collect_messages, invalid_number,
}
use libdbos.Ipi.Ring.{
  IsValid, contents, Queued, queue_call_fast-Queued, IsNumbered, collect_messages-IsNumbered,
}
use libdbos.Ipi.Spsc.{Producer, Consumer, System, Step, Reach}
use libdbos.Ipi.Spsc.Order.{Reach-fifo}
use libdbos.Ipi.Handler.{PercpuRing, idle, Event, interrupt_handler}
use libdbos.Ipi.Handler.Passes.{AllValid, AllEmpty, Drained, waiting, ran, interrupt_handler_lem}

abbrev ping : IpiMessage
ping = record { func = 7; type = non_batchable; arg = 1 }

abbrev flush : IpiMessage
flush = record { func = 9; type = batchable; arg = 0x1000 }

-- Messages 5 and 6 wait; the second has wrapped round.
abbrev used_ring : IpiRing
used_ring = record { head = 7; tail = 9; buf = flush ∷ no_message ∷ no_message ∷ ping ∷ [] }

used_ring-IsValid : IsValid used_ring
used_ring-IsValid = omega arith

contents-used_ring : contents used_ring ≡ ping ∷ flush ∷ []
contents-used_ring = refl

fifth_is_refused :
    queue_call_fast (record used_ring { tail = 11 }) ping
    ≡ some (invalid_number, record used_ring { tail = 11 })
unfolding queue_call_fast
fifth_is_refused = refl

queue_call_fast-Queued_example :
    (n : ℕ) × (r' : IpiRing) × (queue_call_fast used_ring ping ≡ some (n, r'))
    × IsValid r'
    × Queued used_ring ping n r'
queue_call_fast-Queued_example =
    queue_call_fast-Queued used_ring ping used_ring-IsValid (omega arith)

collect_messages-IsNumbered_example :
    (r' : IpiRing) × (msgs : List IpiMessage) × (collect_messages used_ring ≡ some (msgs, r'))
    × IsNumbered used_ring msgs
    × IsValid r'
    × (contents r' ≡ [])
    × (r'.head ≡ 9)
    × (r'.tail ≡ 9)
collect_messages-IsNumbered_example = collect_messages-IsNumbered used_ring used_ring-IsValid

-- The target core reads `head` between the two loads of the source core.
abbrev published : System
published = record {
  ring = record { head = 0; tail = 1; buf = ping ∷ no_message ∷ no_message ∷ no_message ∷ [] };
  prod = Producer.idle;
  cons = Consumer.saw_head 0;
  produced = ping ∷ [];
  collected = [];
}

published-Reach : Reach published
published-Reach =
    Reach.next
      (Reach.next
        (Reach.next
          (Reach.next (Reach.next Reach.begin (Step.q_load_head ping refl)) (Step.c_load_head refl))
          (Step.q_load_tail refl (omega arith)))
        (Step.q_store refl (omega arith)))
      (Step.q_publish refl)

Reach-fifo_example :
    (ping ∷ [] ≡ [] ++ contents published.ring)
    × (length (contents published.ring) ≤ 4)
    × (Producer.idle ≢ Producer.died)
    × (Consumer.saw_head 0 ≢ Consumer.died)
Reach-fifo_example = Reach-fifo published-Reach (omega arith)

abbrev two_cores : PercpuRing
two_cores = record { rings = empty_ring ∷ used_ring ∷ []; phase = idle }

interrupt_handler_lem_example :
    (events : List Event) × (rs : List IpiRing) × (after : List IpiRing) × (interrupt_handler
        (some 3)
        (λ rs. rs)
        (λ rs. rs)
        two_cores
      ≡ some (events, record { rings = after; phase = idle }))
    × Drained (empty_ring ∷ used_ring ∷ []) rs
    × Perm (ran events) (waiting (empty_ring ∷ used_ring ∷ []) ++ waiting rs)
    × AllValid after
    × AllEmpty after
interrupt_handler_lem_example =
    interrupt_handler_lem 3 (λ rs. rs) (λ rs. rs) two_cores (omega arith) (λ rs v. v)
