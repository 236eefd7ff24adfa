-- ===== src/Spawn/Flush.antt =====
-- The handlers that flush the TLB of the snapshot's core, libdune/fast_spawn.c:
-- `snapshot_worker_tlb_flush` and, for a batch of messages, `snapshot_worker_tlb_flush_batch`
-- where copies and interrupts are not pipelined.
pub mod Batch
use libdbos.Common.{
  ℕ, zero, suc, ◌+◌, ◌*◌, Bool, true, Option, none, some, List, [], ◌∷◌, ◌==◌, if◌then◌else◌,
}
use libdbos.Ipi.{IpiMessage}

-- Arguments of type `ipi_call_tlb_flush_arg_t` in memory, 16 bytes each: the word at an address,
-- and the two flags of the argument at an address.
pub record Args : Type 0 where
  pub word : ℕ → ℕ
  pub ready_to_flush : ℕ → Bool
  pub flushed : ℕ → Bool

-- `call_arg->flushed = true`
abbrev pub answer : ℕ → Args → Args
answer arg a = record a { flushed = λ b. if b == arg then true else a.flushed b }

-- `snapshot_worker_tlb_flush`, once the argument is ready: the address flushed, and the answer.
pub worker_tlb_flush : (arg : ℕ) → Args → ℕ × Args
worker_tlb_flush arg a = (a.word arg, answer arg a)

-- The first loop over the batch: the addresses kept in `addrs`, and the answers. The `i`-th
-- address is read from `call_arg[i]`; an assert wants the argument ready.
pub answer_all : (i : ℕ) → List IpiMessage → Args → Option (List ℕ × Args)
answer_all i [] a = some ([], a)
answer_all i (m ∷ ms) a =
    let addr = a.word (m.arg + 16 * i) in
    let rest = answer_all (i + 1) ms (answer m.arg a) in
    if a.ready_to_flush m.arg
    then elim rest [ none ↦ none | some (addrs, a') ↦ some (addr ∷ addrs, a') ]
    else none

-- `snapshot_worker_tlb_flush_batch`: the addresses that the second loop flushes.
pub worker_tlb_flush_batch : List IpiMessage → Args → Option (List ℕ × Args)
worker_tlb_flush_batch msgs a = answer_all 0 msgs a
