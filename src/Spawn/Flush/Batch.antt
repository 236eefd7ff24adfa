-- ===== src/Spawn/Flush/Batch.antt =====
-- Which addresses a batch flushes.
use libdbos.Common.{ℕ, ◌+◌, ◌*◌, ◌≡◌, refl, ap, true, some, List, [], ◌∷◌, eq→==, arith}
use libdbos.Ipi.{IpiMessage}
use libdbos.Spawn.Flush.{Args, answer, answer_all, worker_tlb_flush_batch}

-- Every message has an argument that is ready.
abbrev pub AllReady : Args → List IpiMessage → Type 0
AllReady a [] = Unit
AllReady a (m ∷ ms) = (a.ready_to_flush m.arg ≡ true) × AllReady a ms

abbrev pub AllAnswered : Args → List IpiMessage → Type 0
AllAnswered a [] = Unit
AllAnswered a (m ∷ ms) = (a.flushed m.arg ≡ true) × AllAnswered a ms

-- The words at the arguments, each as far past its argument as the message stands in the batch.
abbrev pub words_from : Args → ℕ → List IpiMessage → List ℕ
words_from a i [] = []
words_from a i (m ∷ ms) = a.word (m.arg + 16 * i) ∷ words_from a (i + 1) ms

answer-keeps : (arg b : ℕ) (a : Args) → a.flushed b ≡ true → (answer arg a).flushed b ≡ true
answer-keeps arg b a h = ground arith

ready_on : (arg : ℕ) (a : Args) (ms : List IpiMessage) → AllReady a ms → AllReady (answer arg a) ms
ready_on arg a [] h = h
ready_on arg a (m ∷ ms) (h, hs) = (h, ready_on arg a ms hs)

words_on :
    (arg i : ℕ) (a : Args) (ms : List IpiMessage)
    → words_from (answer arg a) i ms ≡ words_from a i ms
words_on arg i a [] = refl
words_on arg i a (m ∷ ms) =
    ap (λ (l : List ℕ). a.word (m.arg + 16 * i) ∷ l) (words_on arg (i + 1) a ms)

answer_all-Answered :
    (i : ℕ) (ms : List IpiMessage) (a : Args)
    → AllReady a ms
    → (a' : Args) × (answer_all i ms a ≡ some (words_from a i ms, a'))
      × AllAnswered a' ms
      × ((b : ℕ) → a.flushed b ≡ true → a'.flushed b ≡ true)
unfolding answer_all
answer_all-Answered i [] a h = (a, refl, tt, λ b f. f)
answer_all-Answered i (m ∷ ms) a (h, hs) =
    let (a', eq, all, keeps) =
      answer_all-Answered (i + 1) ms (answer m.arg a) (ready_on m.arg a ms hs) in
    rw (h, eq, words_on m.arg (i + 1) a ms)
      (
        a',
        refl,
        (keeps m.arg (rw (eq→== m.arg m.arg refl) refl), all),
        λ b f. keeps b (answer-keeps m.arg b a f),
      )

-- The batch handler when the argument of every message is ready: it returns, and every message is
-- answered. The address that it flushes for the i-th message, from 0, is the word 16 * i bytes
-- past the message's argument: for the first message the address asked for, and for each later
-- one a word past the argument.
pub worker_tlb_flush_batch-Answered :
    (ms : List IpiMessage) (a : Args)
    → AllReady a ms
    → (a' : Args) × (worker_tlb_flush_batch ms a ≡ some (words_from a 0 ms, a')) × AllAnswered a' ms
unfolding worker_tlb_flush_batch
worker_tlb_flush_batch-Answered ms a h =
    let (a', eq, all, keeps) = answer_all-Answered 0 ms a h in (a', eq, all)
