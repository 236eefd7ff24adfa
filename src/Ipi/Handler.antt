-- ===== src/Ipi/Handler.antt =====
-- `dune_ipi_interrupt_handler`: two passes over the rings of the interrupted core.
pub mod Passes
use libdbos.Common.{
  ℕ, Bool, true, false, not, Option, none, some, List, [], ◌∷◌, ◌++◌, ◌==◌, if◌then◌else◌,
}
use libdbos.Ipi.{IpiMessage, MessageType, batchable, non_batchable, IpiRing, collect_messages}

-- `IPI_FUNC_PHASE_T`
pub data Phase : Type 0 where
  idle phase1 phase2 : Phase

-- `ipi_percpu_ring_t`: a ring for each source core, and the phase that the others read.
pub record PercpuRing : Type 0 where
  pub rings : List IpiRing
  pub phase : Phase

-- What the handler does that others see: a callback, the batch callback, a change of phase.
pub data Event : Type 0 where
  call : IpiMessage → Event
  call_batch : (func : ℕ) (msgs : List IpiMessage) → Event
  enter : Phase → Event

-- `dune_queued_ipi_need_interrupt`
pub need_interrupt : Phase → Bool
need_interrupt phase1 = false
need_interrupt _ = true

-- The loop `for (i = 0; i < IPI_MAX_CPUS; ++i)` that fills `buf`.
pub collect_all : List IpiRing → Option (List IpiMessage × List IpiRing)
collect_all [] = some ([], [])
collect_all (r ∷ rs) = elim (collect_messages r) [
  | none ↦ none
  | some (msgs, r') ↦ elim (collect_all rs) [
    | none ↦ none
    | some (more, rs') ↦ some (msgs ++ more, r' ∷ rs')
  ]
]

-- The branch of the loop that sorts `buf` into `buf_nonbatchable` and `buf_batchable`.
pub put_message :
    MessageType → IpiMessage → List IpiMessage × List IpiMessage → List IpiMessage × List IpiMessage
put_message batchable m (plain, batch) = (plain, m ∷ batch)
put_message non_batchable m (plain, batch) = (m ∷ plain, batch)

-- That loop: the two buffers, each in the order of `buf`.
pub sort_messages : List IpiMessage → List IpiMessage × List IpiMessage
sort_messages [] = ([], [])
sort_messages (m ∷ ms) = put_message m.type m (sort_messages ms)

abbrev pub calls : List IpiMessage → List Event
calls [] = []
calls (m ∷ ms) = Event.call m ∷ calls ms

-- `if (n_msgs_batchable > 0) batch_ipi_call(...)`; no function was registered for `none`.
pub call_batch_if_any : Option ℕ → List IpiMessage → Option (List Event)
call_batch_if_any batch_ipi_call [] = some []
call_batch_if_any none (m ∷ ms) = none
call_batch_if_any (some func) (m ∷ ms) = some (Event.call_batch func (m ∷ ms) ∷ [])

-- One pass: collect, sort, call.
pub pass : Option ℕ → List IpiRing → Option (List Event × List IpiRing)
pass batch_ipi_call rings = elim (collect_all rings) [
  | none ↦ none
  | some (msgs, rings') ↦ elim (call_batch_if_any batch_ipi_call (sort_messages msgs).1) [
    | none ↦ none
    | some events ↦ some (calls (sort_messages msgs).0 ++ events, rings')
  ]
]

-- The handler. `arrivals` is what the other cores queue while they read PHASE1, and `late` what they
-- queue after the second pass has collected, for which they interrupt the core again.
pub interrupt_handler :
    (batch_ipi_call : Option ℕ) (arrivals late : List IpiRing → List IpiRing)
    → PercpuRing
    → Option (List Event × PercpuRing)
interrupt_handler batch_ipi_call arrivals late st = elim (pass batch_ipi_call st.rings) [
  | none ↦ none
  | some (events1, rings1) ↦ elim (pass batch_ipi_call (arrivals rings1)) [
    | none ↦ none
    | some (events2, rings2) ↦ some (
      (Event.enter phase1 ∷ events1) ++ ((Event.enter phase2 ∷ events2) ++ (Event.enter idle ∷ [])),
      record { rings = late rings2; phase = idle },
    )
  ]
]
