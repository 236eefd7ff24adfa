-- ===== src/Ipi/Spsc.antt =====
-- The loads, stores and publications of `dune_queue_ipi_call_fast` (source core) and
-- `dune_collect_ipi_messages` (target core) on one ring, in any interleaving of the two cores.
-- `produced` and `collected` record what was published and what was handed over; the code keeps
-- neither.
pub mod Order
use libdbos.Common.{ℕ, ◌+◌, ◌-◌, ◌%◌, ◌≤◌, ◌<◌, ◌≡◌, ◌≢◌, List, [], ◌∷◌, ◌++◌, length, get_or}
use libdbos.Ipi.{
  IpiMessage, IpiRing, no_message, ringbuf_size, empty_ring, add64, write_slot, publish,
}

-- Where the source core stands in `dune_queue_ipi_call_fast`; `died` is a failed `assert`.
pub data Producer : Type 0 where
  idle : Producer
  saw_head : (msg : IpiMessage) (head : ℕ) → Producer
  saw_tail : (msg : IpiMessage) (head tail : ℕ) → Producer
  stored : (msg : IpiMessage) (tail : ℕ) → Producer
  died : Producer

-- Where the target core stands in `dune_collect_ipi_messages`, with what it has copied.
pub data Consumer : Type 0 where
  idle : Consumer
  saw_head : (head : ℕ) → Consumer
  copying : (head tail : ℕ) (got : List IpiMessage) → Consumer
  died : Consumer

pub record System : Type 0 where
  pub ring : IpiRing
  pub prod : Producer
  pub cons : Consumer
  pub produced : List IpiMessage
  pub collected : List IpiMessage

abbrev pub start : System
start = record {
  ring = empty_ring;
  prod = Producer.idle;
  cons = Consumer.idle;
  produced = [];
  collected = [];
}

-- One access of memory by one core.
pub data Step (s : System) : System → Type 0 where
  q_load_head :
      (msg : IpiMessage)
      → s.prod ≡ Producer.idle
      → Step s (record s { prod = Producer.saw_head msg s.ring.head })
  q_load_tail :
      {msg : IpiMessage} {h : ℕ}
      → s.prod ≡ Producer.saw_head msg h
      → h ≤ s.ring.tail
      → Step s (record s { prod = Producer.saw_tail msg h s.ring.tail })
  q_assert :
      {msg : IpiMessage} {h : ℕ}
      → s.prod ≡ Producer.saw_head msg h
      → s.ring.tail < h
      → Step s (record s { prod = Producer.died })
  q_full :
      {msg : IpiMessage} {h t : ℕ}
      → s.prod ≡ Producer.saw_tail msg h t
      → ringbuf_size ≤ t - h
      → Step s (record s { prod = Producer.idle })
  q_store :
      {msg : IpiMessage} {h t : ℕ}
      → s.prod ≡ Producer.saw_tail msg h t
      → t - h < ringbuf_size
      → Step s (record s { prod = Producer.stored msg t; ring = write_slot s.ring t msg })
  q_publish :
      {msg : IpiMessage} {t : ℕ}
      → s.prod ≡ Producer.stored msg t
      → Step s (record s {
        prod = Producer.idle;
        ring = publish s.ring;
        produced = s.produced ++ (msg ∷ []);
      })
  c_load_head : s.cons ≡ Consumer.idle → Step s (record s { cons = Consumer.saw_head s.ring.head })
  c_load_tail :
      {h : ℕ}
      → s.cons ≡ Consumer.saw_head h
      → h < s.ring.tail
      → Step s (record s { cons = Consumer.copying h s.ring.tail [] })
  c_empty :
      {h : ℕ}
      → s.cons ≡ Consumer.saw_head h
      → h ≡ s.ring.tail
      → Step s (record s { cons = Consumer.idle })
  c_assert :
      {h : ℕ}
      → s.cons ≡ Consumer.saw_head h
      → s.ring.tail < h
      → Step s (record s { cons = Consumer.died })
  c_copy :
      {h t : ℕ} {got : List IpiMessage}
      → s.cons ≡ Consumer.copying h t got
      → length got < t - h
      → Step s (record s {
        cons =
            Consumer.copying h t
              (got ++ (get_or s.ring.buf ((h + length got) % ringbuf_size) no_message ∷ []));
      })
  c_release :
      {h t : ℕ} {got : List IpiMessage}
      → s.cons ≡ Consumer.copying h t got
      → length got ≡ t - h
      → Step s (record s {
        cons = Consumer.idle;
        ring = record s.ring { head = add64 s.ring.head (t - h) };
        collected = s.collected ++ got;
      })

pub data Reach : System → Type 0 where
  begin : Reach start
  next : {s t : System} → Reach s → Step s t → Reach t
