-- ===== src/Ipi.antt =====
-- The message rings of libdune/ipi_call.c: for each pair of cores a ring of four messages that
-- the source core fills and the target core drains. `none` is a failed `assert`, which calls
-- `dune_die`. A callback is the number of its function.
pub mod Ring
pub mod Spsc
pub mod Handler
pub mod Retry
mod Tests
use libdbos.Common.{
  ℕ, zero, suc, ◌+◌, ◌-◌, ◌%◌, ◌^◌, Bool, true, false, not, Option, none, some, List, [], ◌∷◌, ltb,
  leb, ◌==◌, if◌then◌else◌, get_or, set,
}

-- `IPI_CALL_MESSAGE_TYPE_T`
pub data MessageType : Type 0 where
  non_batchable batchable : MessageType

pub record IpiMessage : Type 0 where
  pub func : ℕ
  pub type : MessageType
  pub arg : ℕ

-- What `memset` leaves in a slot.
abbrev pub no_message : IpiMessage
no_message = record { func = 0; type = non_batchable; arg = 0 }

abbrev pub ringbuf_size : ℕ
ringbuf_size = 4

abbrev pub max_cpus : ℕ
max_cpus = 128

abbrev pub invalid_number : ℕ
invalid_number = 2 ^ 64 - 1

-- `ipi_ring_t`; `head` and `tail` are `uint64_t` and only grow.
pub record IpiRing : Type 0 where
  pub head : ℕ
  pub tail : ℕ
  pub buf : List IpiMessage

-- The ring in the region that `dune_ipi_init` clears.
abbrev pub empty_ring : IpiRing
empty_ring = record {
  head = 0;
  tail = 0;
  buf = no_message ∷ no_message ∷ no_message ∷ no_message ∷ [];
}

-- `__atomic_add_fetch` on a `uint64_t`
abbrev pub add64 : ℕ → ℕ → ℕ
add64 a b = (a + b) % 2 ^ 64

-- `dune_queue_ipi_call_empty`
pub queue_empty : IpiRing → Option Bool
queue_empty r = if leb r.head r.tail then some (leb r.tail r.head) else none

-- The store and the publication that end `dune_queue_ipi_call_fast`.
abbrev pub write_slot : IpiRing → ℕ → IpiMessage → IpiRing
write_slot r tail msg = record r { buf = set r.buf (tail % ringbuf_size) msg }

abbrev pub publish : IpiRing → IpiRing
publish r = record r { tail = add64 r.tail 1 }

-- `dune_queue_ipi_call_fast`: the call's number, or `invalid_number` for a full ring.
pub queue_call_fast : IpiRing → IpiMessage → Option (ℕ × IpiRing)
queue_call_fast r msg =
    if leb r.head r.tail
    then (if leb ringbuf_size (r.tail - r.head)
        then some (invalid_number, r)
        else some (r.tail, publish (write_slot r r.tail msg)))
    else none

-- `dune_ipi_call_number_collected`
pub call_number_collected : IpiRing → ℕ → Bool
call_number_collected r call_num = ltb call_num r.head

-- The copying loop of `dune_collect_ipi_messages`: `n` messages from number `from` on.
abbrev pub copy_from : List IpiMessage → ℕ → ℕ → List IpiMessage
copy_from buf from zero = []
copy_from buf from (suc n) =
    get_or buf (from % ringbuf_size) no_message ∷ copy_from buf (from + 1) n

-- `dune_collect_ipi_messages`: what it puts into `msgs`, and the ring after it. Its result
-- `n_msgs` is the length of the list.
pub collect_messages : IpiRing → Option (List IpiMessage × IpiRing)
collect_messages r =
    if r.head == r.tail
    then some ([], r)
    else if ltb r.head r.tail
    then some (
      copy_from r.buf r.head (r.tail - r.head),
      record r { head = add64 r.head (r.tail - r.head) },
    )
    else none

-- `bool succeeded = dune_queue_ipi_call_fast(...)`
abbrev pub as_bool : ℕ → Bool
as_bool n = not (n == 0)

-- The loop of `dune_queue_ipi_call`, at most `fuel` rounds; `between` is what the target core
-- does to the ring after a round that did not succeed.
pub queue_call : (between : IpiRing → IpiRing) → ℕ → IpiRing → IpiMessage → Option IpiRing
queue_call between zero r msg = none
queue_call between (suc fuel) r msg = elim (queue_call_fast r msg) [
  | none ↦ none
  | some (n, r') ↦ elim (as_bool n) [
    | true ↦ some r'
    | false ↦ queue_call between fuel (between r') msg
  ]
]
