-- ===== src/Ipi/Ring.antt =====
-- A ring of libdune/ipi_call.c as a bounded queue of messages.
use libdbos.Common.{
  ℕ, zero, suc, ◌+◌, ◌-◌, ◌%◌, ◌^◌, ◌≤◌, ◌<◌, ◌≡◌, refl, ap, ◌∙◌, some, List, [], ◌∷◌, ◌++◌, ◌⊎◌,
  inl, inr, arith, length, get_or, set, length-set, get_or-set_self, get_or-set_ne,
}
use mathlib.Core.Path.{ap₂}
use native.Mathlib.Decide.{dec_lt}
use libdbos.Ipi.{
  IpiMessage, no_message, invalid_number, IpiRing, add64, publish, write_slot, queue_call_fast,
  copy_from, collect_messages,
}

-- At most four messages, numbered within 64 bits, in four slots.
pub record IsValid (r : IpiRing) : Type 0 where
  pub slots : length r.buf ≡ 4
  pub ordered : r.head ≤ r.tail
  pub bounded : r.tail ≤ r.head + 4
  pub no_wrap : r.tail < 2 ^ 64

-- The messages that were queued and not yet collected, oldest first.
abbrev pub contents : IpiRing → List IpiMessage
contents r = copy_from r.buf r.head (r.tail - r.head)

pub length-copy_from : (buf : List IpiMessage) (from n : ℕ) → length (copy_from buf from n) ≡ n
length-copy_from buf from zero = refl
length-copy_from buf from (suc n) = ap suc (length-copy_from buf (from + 1) n)

-- A store at number `t` is not seen by the numbers from `from` to `t`, if there are less than four.
pub copy_from-set :
    (buf : List IpiMessage) (msg : IpiMessage) (n from t : ℕ)
    → from + n ≤ t
    → t < from + 4
    → copy_from (set buf (t % 4) msg) from n ≡ copy_from buf from n
copy_from-set buf msg zero from t h k = refl
copy_from-set buf msg (suc n) from t h k =
    ap₂ ◌∷◌ (get_or-set_ne buf (t % 4) (from % 4) msg no_message (omega arith))
      (copy_from-set buf msg n (from + 1) t (omega arith) (omega arith))

-- One more number at the end.
pub copy_from-suc :
    (buf : List IpiMessage) (from n : ℕ)
    → copy_from buf from (suc n)
      ≡ copy_from buf from n ++ (get_or buf ((from + n) % 4) no_message ∷ [])
copy_from-suc buf from zero = ap (λ i. get_or buf (i % 4) no_message ∷ []) (omega arith)
copy_from-suc buf from (suc n) = ap (◌∷◌ (get_or buf (from % 4) no_message)) (
    rw (copy_from-suc buf (from + 1) n)
      (ap (λ i. copy_from buf (from + 1) n ++ (get_or buf (i % 4) no_message ∷ [])) (omega arith)))

-- A run of numbers in two parts.
pub copy_from-add :
    (buf : List IpiMessage) (from n m : ℕ)
    → copy_from buf from (n + m) ≡ copy_from buf from n ++ copy_from buf (from + n) m
copy_from-add buf from zero m = ap₂ (λ (i n : ℕ). copy_from buf i n) (omega arith) (omega arith)
copy_from-add buf from (suc n) m =
    let shift : suc n + m ≡ suc (n + m) = omega arith in
    let next : from + 1 + n ≡ from + suc n = omega arith in
    rw (shift, copy_from-add buf (from + 1) n m, next) refl

-- The next number to be published is stored without disturbing those that wait.
pub contents-write_slot :
    (r : IpiRing) (msg : IpiMessage)
    → IsValid r
    → r.tail < r.head + 4
    → contents (write_slot r r.tail msg) ≡ contents r
contents-write_slot r msg v room =
    copy_from-set r.buf msg (r.tail - r.head) r.head r.tail (omega arith) room

-- A publication hands over what stands in the next slot.
pub contents-publish :
    (r : IpiRing)
    → IsValid r
    → r.tail + 1 < 2 ^ 64
    → contents (publish r) ≡ contents r ++ (get_or r.buf (r.tail % 4) no_message ∷ [])
contents-publish r v wrap =
    let n = r.tail - r.head in
    let more : add64 r.tail 1 - r.head ≡ suc n = omega arith in
    let last : r.head + n ≡ r.tail = omega arith in
    rw more (
      copy_from-suc r.buf r.head n
      ∙ ap (λ (i : ℕ). contents r ++ (get_or r.buf (i % 4) no_message ∷ [])) last)

-- The store and the publication of one message append it.
pub contents-publish-write_slot :
    (r : IpiRing) (msg : IpiMessage)
    → IsValid r
    → r.tail - r.head < 4
    → r.tail + 1 < 2 ^ 64
    → contents (publish (write_slot r r.tail msg)) ≡ contents r ++ (msg ∷ [])
contents-publish-write_slot r msg v room wrap =
    contents-publish (write_slot r r.tail msg) (omega (arith, length-set r.buf (r.tail % 4) msg))
      wrap
    ∙ ap₂ (λ xs x. xs ++ (x ∷ [])) (contents-write_slot r msg v (omega arith))
        (get_or-set_self r.buf (r.tail % 4) msg no_message (omega arith))

pub queue_call_fast_full :
    (r : IpiRing) (msg : IpiMessage)
    → IsValid r
    → r.tail - r.head ≡ 4
    → queue_call_fast r msg ≡ some (invalid_number, r)
unfolding queue_call_fast
queue_call_fast_full r msg v h = ground arith

pub queue_call_fast_room :
    (r : IpiRing) (msg : IpiMessage)
    → IsValid r
    → r.tail - r.head < 4
    → queue_call_fast r msg ≡ some (r.tail, publish (write_slot r r.tail msg))
unfolding queue_call_fast
queue_call_fast_room r msg v h = ground arith

pub publish-IsValid :
    (r : IpiRing) (msg : IpiMessage)
    → IsValid r
    → r.tail - r.head < 4
    → r.tail + 1 < 2 ^ 64
    → IsValid (publish (write_slot r r.tail msg))
publish-IsValid r msg v room wrap = omega (arith, length-set r.buf (r.tail % 4) msg)

-- What `dune_queue_ipi_call_fast` may do to a valid ring: refuse a message when four wait, or give
-- it the next number and put it behind those that wait.
abbrev pub Queued : IpiRing → IpiMessage → ℕ → IpiRing → Type 0
Queued r msg n r' =
    (length (contents r) ≡ 4) × (n ≡ invalid_number) × (r' ≡ r)
    ⊎ (length (contents r) < 4)
      × (n ≡ r.tail)
      × (contents r' ≡ contents r ++ (msg ∷ []))
      × (r'.head ≡ r.head)

-- On a valid ring whose numbers have not run out, `dune_queue_ipi_call_fast` does not die: it
-- either refuses the message, which happens exactly when four messages wait, and leaves the ring
-- as it was, or returns the message's number and appends the message; the ring stays valid.
pub queue_call_fast-Queued :
    (r : IpiRing) (msg : IpiMessage)
    → IsValid r
    → r.tail + 1 < 2 ^ 64
    → (n : ℕ) × (r' : IpiRing) × (queue_call_fast r msg ≡ some (n, r'))
      × IsValid r'
      × Queued r msg n r'
queue_call_fast-Queued r msg v wrap = elim (dec_lt (r.tail - r.head) 4) [
  | yes room ↦ (
    r.tail,
    publish (write_slot r r.tail msg),
    queue_call_fast_room r msg v room,
    publish-IsValid r msg v room wrap,
    inr (rw length-copy_from room, refl, contents-publish-write_slot r msg v room wrap, refl),
  )
  | no busy ↦ (
    invalid_number,
    r,
    queue_call_fast_full r msg v (omega arith),
    v,
    inl (rw length-copy_from (omega arith), refl, refl),
  )
]

-- What is collected, by the loop.
pub collect_messages_lem :
    (r : IpiRing)
    → IsValid r
    → (r' : IpiRing) × (collect_messages r ≡ some (contents r, r'))
      × IsValid r'
      × (contents r' ≡ [])
      × (r'.head ≡ r.tail)
      × (r'.tail ≡ r.tail)
unfolding collect_messages
collect_messages_lem r v =
    let none_left : r.tail - r.tail ≡ 0 = omega arith in
    (record r { head = r.tail }, collected, omega arith, rw none_left refl, refl, refl)
  where
    collected : collect_messages r ≡ some (contents r, record r { head = r.tail })
    collected = elim (dec_lt r.head r.tail) [
      | yes some_wait ↦ ground arith
      | no all_read ↦
          let same : r.tail ≡ r.head = omega arith in
          let no_more : r.head - r.head ≡ 0 = omega arith in
          ground (
            arith,
            ap (λ (t : ℕ). copy_from r.buf r.head (t - r.head)) same,
            ap (λ (n : ℕ). copy_from r.buf r.head n) no_more,
          )
    ]

-- The messages with the numbers from the ring's head to before its tail, each from the slot of its
-- number.
pub record IsNumbered (r : IpiRing) (msgs : List IpiMessage) : Type 0 where
  pub all : length msgs ≡ r.tail - r.head
  pub each :
      (i : ℕ)
      → i < r.tail - r.head
      → get_or msgs i no_message ≡ get_or r.buf ((r.head + i) % 4) no_message

get_or-copy_from :
    (buf : List IpiMessage) (from n i : ℕ)
    → i < n
    → get_or (copy_from buf from n) i no_message ≡ get_or buf ((from + i) % 4) no_message
get_or-copy_from buf from zero i h = absurd (omega arith)
get_or-copy_from buf from (suc n) zero h = ap (λ k. get_or buf (k % 4) no_message) (omega arith)
get_or-copy_from buf from (suc n) (suc i) h =
    get_or-copy_from buf (from + 1) n i (omega arith)
    ∙ ap (λ k. get_or buf (k % 4) no_message) (omega arith)

-- `dune_collect_ipi_messages` on a valid ring does not die: it hands over as many messages as were
-- given a number and not collected, each from the slot of its number and in the order of the
-- numbers, and leaves the ring valid and empty, with every number that was given out collected.
pub collect_messages-IsNumbered :
    (r : IpiRing)
    → IsValid r
    → (r' : IpiRing) × (msgs : List IpiMessage) × (collect_messages r ≡ some (msgs, r'))
      × IsNumbered r msgs
      × IsValid r'
      × (contents r' ≡ [])
      × (r'.head ≡ r.tail)
      × (r'.tail ≡ r.tail)
collect_messages-IsNumbered r v =
    let (r', e, valid, none_left, at_tail, same_tail) = collect_messages_lem r v in
    (
      r',
      contents r,
      e,
      record {
        all = length-copy_from r.buf r.head (r.tail - r.head);
        each = λ i h. get_or-copy_from r.buf r.head (r.tail - r.head) i h;
      },
      valid,
      none_left,
      at_tail,
      same_tail,
    )
