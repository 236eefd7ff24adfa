-- ===== src/Ipi/Spsc/Order.antt =====
-- What every interleaving of the two cores keeps.
use libdbos.Common.{
  ℕ, suc, ◌+◌, ◌-◌, ◌%◌, ◌^◌, ◌≤◌, ◌<◌, ◌≡◌, ◌≢◌, refl, ap, sym, ◌∙◌, List, [], ◌∷◌, ◌++◌, arith,
  length, get_or, length-set, length-append, get_or-set_self,
}
use mathlib.Core.Path.{ap₂}
use mathlib.Core.List.{append_assoc}
use libdbos.Ipi.{IpiMessage, IpiRing, no_message, write_slot, publish, add64, copy_from}
use libdbos.Ipi.Ring.{
  IsValid, contents, length-copy_from, copy_from-set, copy_from-suc, copy_from-add,
  contents-publish, contents-write_slot,
}
use libdbos.Ipi.Spsc.{Producer, Consumer, System, start, Step, Reach}

-- What the source core knows of the ring.
abbrev ProducerKnows : IpiRing → Producer → Type 0
ProducerKnows r Producer.idle = Unit
ProducerKnows r (Producer.saw_head msg h) = h ≤ r.head
ProducerKnows r (Producer.saw_tail msg h t) = (h ≤ r.head) × (t ≡ r.tail)
ProducerKnows r (Producer.stored msg t) =
    (t ≡ r.tail) × (t < r.head + 4) × (get_or r.buf (t % 4) no_message ≡ msg)
ProducerKnows r Producer.died = ⊥

-- What the target core knows of the ring.
abbrev ConsumerKnows : IpiRing → Consumer → Type 0
ConsumerKnows r Consumer.idle = Unit
ConsumerKnows r (Consumer.saw_head h) = h ≡ r.head
ConsumerKnows r (Consumer.copying h t got) =
    (h ≡ r.head)
    × (h < t)
    × (t ≤ r.tail)
    × (length got ≤ t - h)
    × (got ≡ copy_from r.buf r.head (length got))
ConsumerKnows r Consumer.died = ⊥

record Inv (s : System) : Type 0 where
  valid : IsValid s.ring
  counted : length s.produced ≡ s.ring.tail
  ordered : s.produced ≡ s.collected ++ contents s.ring
  knows_p : ProducerKnows s.ring s.prod
  knows_c : ConsumerKnows s.ring s.cons

-- A store into the next slot is not seen by the target core.
ConsumerKnows-store :
    (r : IpiRing) (msg : IpiMessage) (c : Consumer)
    → r.tail < r.head + 4
    → ConsumerKnows r c
    → ConsumerKnows (write_slot r r.tail msg) c
ConsumerKnows-store r msg Consumer.idle room k = tt
ConsumerKnows-store r msg (Consumer.saw_head h) room k = k
ConsumerKnows-store r msg (Consumer.copying h t got) room k = (
  k.0,
  k.1,
  k.2,
  k.3,
  k.4 ∙ sym (copy_from-set r.buf msg (length got) r.head r.tail (omega arith) room),
)
ConsumerKnows-store r msg Consumer.died room k = k

ConsumerKnows-publish :
    (r : IpiRing) (c : Consumer)
    → r.tail + 1 < 2 ^ 64
    → ConsumerKnows r c
    → ConsumerKnows (publish r) c
ConsumerKnows-publish r Consumer.idle wrap k = tt
ConsumerKnows-publish r (Consumer.saw_head h) wrap k = k
ConsumerKnows-publish r (Consumer.copying h t got) wrap k = (k.0, k.1, omega arith, k.3, k.4)
ConsumerKnows-publish r Consumer.died wrap k = k

-- A head that moves on leaves the source core's reading of it behind.
ProducerKnows-release :
    (r : IpiRing) (p : Producer) (t : ℕ)
    → r.head ≤ t
    → t ≤ r.tail
    → ProducerKnows r p
    → ProducerKnows (record r { head = t }) p
ProducerKnows-release r Producer.idle t up le k = tt
ProducerKnows-release r (Producer.saw_head msg h) t up le k = omega arith
ProducerKnows-release r (Producer.saw_tail msg h u) t up le k = omega arith
ProducerKnows-release r (Producer.stored msg u) t up le k = (k.0, omega arith, k.2)
ProducerKnows-release r Producer.died t up le k = k

module _ {s : System} (i : Inv s) where
  open i use {valid, counted, ordered, knows_p, knows_c}

  p_knows : {p : Producer} → s.prod ≡ p → ProducerKnows s.ring p
  p_knows e = rw e at knows_p

  c_knows : {c : Consumer} → s.cons ≡ c → ConsumerKnows s.ring c
  c_knows e = rw e at knows_c

  with_producer : {p : Producer} → ProducerKnows s.ring p → Inv (record s { prod = p })
  with_producer k = record {
    valid = valid;
    counted = counted;
    ordered = ordered;
    knows_p = k;
    knows_c = knows_c;
  }

  with_consumer : {c : Consumer} → ConsumerKnows s.ring c → Inv (record s { cons = c })
  with_consumer k = record {
    valid = valid;
    counted = counted;
    ordered = ordered;
    knows_p = knows_p;
    knows_c = k;
  }

  store-Inv :
      {msg : IpiMessage} {h t : ℕ}
      → s.prod ≡ Producer.saw_tail msg h t
      → t - h < 4
      → Inv (record s { prod = Producer.stored msg t; ring = write_slot s.ring t msg })
  store-Inv {msg} {h} {t} e room =
      let k = p_knows e in
      rw k.1 (record {
        valid = omega (arith, length-set s.ring.buf (s.ring.tail % 4) msg);
        counted = counted;
        ordered = rw (contents-write_slot s.ring msg valid (omega arith)) ordered;
        knows_p = (
          refl,
          omega arith,
          get_or-set_self s.ring.buf (s.ring.tail % 4) msg no_message (omega arith),
        );
        knows_c = ConsumerKnows-store s.ring msg s.cons (omega arith) knows_c;
      })

  publish-Inv :
      {msg : IpiMessage} {t : ℕ}
      → s.prod ≡ Producer.stored msg t
      → length s.produced + 1 < 2 ^ 64
      → Inv (record s {
        prod = Producer.idle;
        ring = publish s.ring;
        produced = s.produced ++ (msg ∷ []);
      })
  publish-Inv {msg} {t} e wrap =
      let k = p_knows e in
      let slot : get_or s.ring.buf (s.ring.tail % 4) no_message ≡ msg = rw (← k.0) k.2 in
      record {
        valid = omega arith;
        counted = omega (arith, length-append s.produced (msg ∷ []));
        ordered =
            rw (contents-publish s.ring valid (omega arith), slot)
              (ap (λ xs. xs ++ (msg ∷ [])) ordered
                ∙ append_assoc s.collected (contents s.ring) (msg ∷ []));
        knows_p = tt;
        knows_c = ConsumerKnows-publish s.ring s.cons (omega arith) knows_c;
      }

  release-Inv :
      {h t : ℕ} {got : List IpiMessage}
      → s.cons ≡ Consumer.copying h t got
      → length got ≡ t - h
      → Inv (record s {
        cons = Consumer.idle;
        ring = record s.ring { head = add64 s.ring.head (t - h) };
        collected = s.collected ++ got;
      })
  release-Inv {h} {t} {got} e all =
      let k = c_knows e in
      let parts : s.ring.tail - s.ring.head ≡ length got + (s.ring.tail - t) = omega arith in
      let on : s.ring.head + length got ≡ t = omega arith in
      let split : contents s.ring ≡ got ++ copy_from s.ring.buf t (s.ring.tail - t) =
        ap (λ (n : ℕ). copy_from s.ring.buf s.ring.head n) parts
        ∙ copy_from-add s.ring.buf s.ring.head (length got) (s.ring.tail - t)
        ∙ ap₂ (λ xs (n : ℕ). xs ++ copy_from s.ring.buf n (s.ring.tail - t)) (sym k.4) on in
      let moved : add64 s.ring.head (t - h) ≡ t = omega arith in
      rw moved (record {
        valid = omega arith;
        counted = counted;
        ordered =
            ordered
            ∙ ap (λ xs. s.collected ++ xs) split
            ∙ sym (append_assoc s.collected got (copy_from s.ring.buf t (s.ring.tail - t)));
        knows_p = ProducerKnows-release s.ring s.prod t (omega arith) (omega arith) knows_p;
        knows_c = tt;
      })

  copy-Inv :
      {h t : ℕ} {got : List IpiMessage}
      → s.cons ≡ Consumer.copying h t got
      → length got < t - h
      → Inv (record s {
        cons =
            Consumer.copying h t
              (got ++ (get_or s.ring.buf ((h + length got) % 4) no_message ∷ []));
      })
  copy-Inv {h} {t} {got} e more =
      let k = c_knows e in
      let x = get_or s.ring.buf ((h + length got) % 4) no_message in
      let longer : length (got ++ (x ∷ [])) ≡ suc (length got) =
        omega (arith, length-append got (x ∷ [])) in
      let here : x ≡ get_or s.ring.buf ((s.ring.head + length got) % 4) no_message =
        ap (λ (n : ℕ). get_or s.ring.buf ((n + length got) % 4) no_message) k.0 in
      with_consumer (
        k.0,
        k.1,
        k.2,
        omega arith,
        ap₂ (λ xs y. xs ++ (y ∷ [])) k.4 here
            ∙ sym (copy_from-suc s.ring.buf s.ring.head (length got))
            ∙ ap (λ (n : ℕ). copy_from s.ring.buf s.ring.head n) (sym longer),
      )

-- One access keeps the invariant, as long as the numbers have not run out.
Step-Inv : {s t : System} → Step s t → length t.produced < 2 ^ 64 → Inv s → Inv t
Step-Inv (Step.q_load_head msg e) wrap i = with_producer i (omega arith)
Step-Inv (Step.q_load_tail e le) wrap i = with_producer i (p_knows i e, refl)
Step-Inv (Step.q_assert e lt) wrap i =
    absurd (let k = p_knows i e in let v = i.valid in omega arith)
Step-Inv (Step.q_full e full) wrap i = with_producer i tt
Step-Inv (Step.q_store e room) wrap i = store-Inv i e room
Step-Inv {s} (Step.q_publish {msg} e) wrap i =
    publish-Inv i e (omega (arith, length-append s.produced (msg ∷ [])))
Step-Inv (Step.c_load_head e) wrap i = with_consumer i refl
Step-Inv (Step.c_load_tail e lt) wrap i =
    with_consumer i (c_knows i e, lt, omega arith, omega arith, refl)
Step-Inv (Step.c_empty e all) wrap i = with_consumer i tt
Step-Inv (Step.c_assert e lt) wrap i =
    absurd (let k = c_knows i e in let v = i.valid in omega arith)
Step-Inv (Step.c_copy e more) wrap i = copy-Inv i e more
Step-Inv (Step.c_release e all) wrap i = release-Inv i e all

produced-grows : {s t : System} → Step s t → length s.produced ≤ length t.produced
produced-grows (Step.q_load_head msg e) = omega arith
produced-grows {s} (Step.q_publish {msg} e) = omega (arith, length-append s.produced (msg ∷ []))
produced-grows _ = omega arith

start-Inv : Inv start
start-Inv = record {
  valid = omega arith;
  counted = refl;
  ordered = refl;
  knows_p = tt;
  knows_c = tt;
}

Reach-Inv : {s : System} → Reach s → length s.produced < 2 ^ 64 → Inv s
Reach-Inv Reach.begin wrap = start-Inv
Reach-Inv (Reach.next r st) wrap = Step-Inv st wrap (Reach-Inv r (omega (arith, produced-grows st)))

-- However the loads and stores of the two cores interleave from an empty ring, as long as fewer
-- than 2^64 messages were published: neither `assert` fails, and what the target core was handed,
-- followed by what waits in the ring, is exactly what the source core published, in that order; at
-- most four messages wait.
pub Reach-fifo :
    {s : System}
    → Reach s
    → length s.produced < 2 ^ 64
    → (s.produced ≡ s.collected ++ contents s.ring)
      × (length (contents s.ring) ≤ 4)
      × (s.prod ≢ Producer.died)
      × (s.cons ≢ Consumer.died)
Reach-fifo {s} r wrap =
    let i = Reach-Inv r wrap in
    let v = i.valid in
    (i.ordered, rw length-copy_from (omega arith), (λ e. p_knows i e), λ e. c_knows i e)
