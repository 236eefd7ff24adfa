-- ===== src/Ipi/Retry.antt =====
-- `dune_queue_ipi_call`, which keeps the number that `dune_queue_ipi_call_fast` returns in a `bool`.
use libdbos.Common.{
  ℕ, suc, ◌+◌, ◌-◌, ◌^◌, ◌<◌, ◌≡◌, ◌≢◌, refl, ap, true, false, ◌∙◌, some, [], ◌∷◌, ◌++◌, arith,
  length,
}
use mathlib.Core.List.{append_assoc}
use native.Mathlib.Decide.{dec_lt, ℕ_discrete}
use libdbos.Ipi.{IpiMessage, IpiRing, queue_call, as_bool, write_slot, publish}
use libdbos.Ipi.Ring.{
  IsValid, contents, length-copy_from, queue_call_fast_full, queue_call_fast_room,
  contents-publish-write_slot, publish-IsValid,
}

as_bool-ne_zero : (n : ℕ) → n ≢ 0 → as_bool n ≡ true
as_bool-ne_zero n h = ground arith

as_bool-zero : (n : ℕ) → n ≡ 0 → as_bool n ≡ false
as_bool-zero n h = ground arith

module _ (between : IpiRing → IpiRing) (fuel : ℕ) (r : IpiRing) (msg : IpiMessage)
    (v : IsValid r) where
  waiting_lem : length (contents r) ≡ r.tail - r.head
  waiting_lem = length-copy_from r.buf r.head (r.tail - r.head)

  lost : length (contents r) ≡ 4 → queue_call between (suc fuel) r msg ≡ some r
  unfolding queue_call
  lost full = rw (queue_call_fast_full r msg v (omega (arith, waiting_lem)), queue_call) refl

  queued :
      length (contents r) < 4
      → r.tail ≢ 0
      → queue_call between (suc fuel) r msg ≡ some (publish (write_slot r r.tail msg))
  unfolding queue_call
  queued room later =
      rw
        (
          queue_call_fast_room r msg v (omega (arith, waiting_lem)),
          queue_call,
          as_bool-ne_zero r.tail later,
        )
        refl

  -- Number 0 is taken for a failure.
  again :
      r.tail ≡ 0
      → queue_call between (suc fuel) r msg
        ≡ queue_call between fuel (between (publish (write_slot r r.tail msg))) msg
  unfolding queue_call
  again first =
      rw (queue_call_fast_room r msg v (omega arith), queue_call, as_bool-zero r.tail first) refl

-- The first message of a ring is queued as numbers 0 and 1.
twice :
    (between : IpiRing → IpiRing) (fuel : ℕ) (r : IpiRing) (msg : IpiMessage)
    → IsValid r
    → ((x : IpiRing) → between x ≡ x)
    → r.tail ≡ 0
    → (r' : IpiRing) × (queue_call between (suc (suc fuel)) r msg ≡ some r')
      × (contents r' ≡ contents r ++ (msg ∷ msg ∷ []))
twice between fuel r msg v quiet first =
    let r1 = publish (write_slot r r.tail msg) in
    let v1 : IsValid r1 = publish-IsValid r msg v (omega arith) (omega arith) in
    let one : r1.tail ≡ 1 = omega arith in
    let room1 : length (contents r1) < 4 = rw length-copy_from (omega arith) in
    let step1 : contents r1 ≡ contents r ++ (msg ∷ []) =
      contents-publish-write_slot r msg v (omega arith) (omega arith) in
    (
      publish (write_slot r1 r1.tail msg),
      again between (suc fuel) r msg v first
          ∙ ap (λ x. queue_call between (suc fuel) x msg) (quiet r1)
          ∙ queued between fuel r1 msg v1 room1 (omega arith),
      contents-publish-write_slot r1 msg v1 (omega arith) (omega arith)
          ∙ ap (λ xs. xs ++ (msg ∷ [])) step1
          ∙ append_assoc (contents r) (msg ∷ []) (msg ∷ []),
    )

-- `dune_queue_ipi_call` on a valid ring with numbers left, when the target core does nothing
-- meanwhile and two rounds are allowed. When four messages wait it returns at once and the message
-- is lost; otherwise it appends the message, once if the ring has been used before, and twice if
-- this is the first message of the ring.
pub queue_call_lem :
    (between : IpiRing → IpiRing) (fuel : ℕ) (r : IpiRing) (msg : IpiMessage)
    → IsValid r
    → r.tail + 2 < 2 ^ 64
    → ((x : IpiRing) → between x ≡ x)
    → (r' : IpiRing) × (queue_call between (suc (suc fuel)) r msg ≡ some r')
      × (length (contents r) ≡ 4 → r' ≡ r)
      × (length (contents r) < 4 → r.tail ≢ 0 → contents r' ≡ contents r ++ (msg ∷ []))
      × (r.tail ≡ 0 → contents r' ≡ contents r ++ (msg ∷ msg ∷ []))
queue_call_lem between fuel r msg v wrap quiet = elim (dec_lt (r.tail - r.head) 4) [
  | no busy ↦ (
    r,
    lost between (suc fuel) r msg v (omega (arith, waiting_lem between fuel r msg v)),
    λ _. refl,
    (λ room later. absurd (omega (arith, waiting_lem between fuel r msg v))),
    λ first. absurd (let x = v in omega arith),
  )
  | yes room ↦ elim (ℕ_discrete r.tail 0) [
    | no later ↦ (
      publish (write_slot r r.tail msg),
      queued between (suc fuel) r msg v (omega (arith, waiting_lem between fuel r msg v)) later,
      (λ full. absurd (omega (arith, waiting_lem between fuel r msg v))),
      (λ _ _. contents-publish-write_slot r msg v room (omega arith)),
      λ first. absurd (later first),
    )
    | yes first ↦
        let (r', e, both) = twice between fuel r msg v quiet first in
        (
          r',
          e,
          (λ full. absurd (omega (arith, waiting_lem between fuel r msg v))),
          (λ _ later. absurd (later first)),
          λ _. both,
        )
  ]
]
