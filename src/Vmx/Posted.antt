-- ===== src/Vmx/Posted.antt =====
-- Posted interrupts: `send_posted_ipi` of kern/vmx.c, which libdune/apic.c has once more as
-- `dune_apic_send_posted_ipi`, and `vmx_handle_queued_interrupts` on the core that receives them,
-- access by access.
pub mod Outstanding
use libdbos.Common.{
  ℕ, suc, ◌+◌, ◌*◌, ◌/◌, ◌≤◌, ◌<◌, ◌≡◌, Bool, true, false, ◌||◌, ◌&&◌, ◌==◌, if◌then◌else◌,
}

-- Where the receiving core is: outside, or with so many of the four words of vectors taken.
pub data Handler : Type 0 where
  outside : Handler
  taking : (words : ℕ) → Handler

-- `posted_interrupt_desc`: the vectors that are requested and the outstanding bit. `marked` counts
-- the senders of each vector that stand between the two bits, `sent` is whether the notification is
-- on its way, and `taken` are the vectors that the handler has read.
pub record State : Type 0 where
  pub vectors : ℕ → Bool
  pub outstanding : Bool
  pub marked : ℕ → ℕ
  pub sent : Bool
  pub handler : Handler
  pub taken : ℕ → Bool

abbrev pub set_vector : ℕ → Bool → (ℕ → Bool) → ℕ → Bool
set_vector v b vectors = λ u. if u == v then b else vectors u

abbrev pub set_count : ℕ → ℕ → (ℕ → ℕ) → ℕ → ℕ
set_count v n counts = λ u. if u == v then n else counts u

-- `__atomic_exchange_n` of the word `w` of 64 vectors with 0
abbrev pub clear_word : ℕ → (ℕ → Bool) → ℕ → Bool
clear_word w vectors = λ u. if u / 64 == w then false else vectors u

abbrev pub add_word : ℕ → (vectors taken : ℕ → Bool) → ℕ → Bool
add_word w vectors taken = λ u. if u / 64 == w then vectors u || taken u else taken u

pub data Step (s : State) : State → Type 0 where
  -- a sender: `test_and_set_bit(vector, desc->vectors)`
  mark :
      (v : ℕ)
      → v < 256
      → s.vectors v ≡ false
      → Step s (record s {
        vectors = set_vector v true s.vectors;
        marked = set_count v (suc (s.marked v)) s.marked;
      })
  is_requested : (v : ℕ) → s.vectors v ≡ true → Step s s
  -- `test_and_set_bit(0, desc->extra)`, and the notification
  notify :
      (v n : ℕ)
      → s.marked v ≡ suc n
      → s.outstanding ≡ false
      → Step s (record s { outstanding = true; marked = set_count v n s.marked; sent = true })
  is_outstanding :
      (v n : ℕ)
      → s.marked v ≡ suc n
      → s.outstanding ≡ true
      → Step s (record s { marked = set_count v n s.marked })
  -- the handler: the exchange of the outstanding bit with 0, where it was set or was not
  take :
      s.handler ≡ outside
      → s.outstanding ≡ true
      → Step s (record s { outstanding = false; sent = false; handler = taking 0 })
  nothing : s.handler ≡ outside → s.outstanding ≡ false → Step s s
  take_word :
      {w : ℕ}
      → s.handler ≡ taking w
      → w < 4
      → Step s (record s {
        vectors = clear_word w s.vectors;
        handler = taking (w + 1);
        taken = add_word w s.vectors s.taken;
      })
  leave : s.handler ≡ taking 4 → Step s (record s { handler = outside })

-- Nothing is requested or under way.
pub record Starts (s : State) : Type 0 where
  pub none_requested : (v : ℕ) → s.vectors v ≡ false
  pub at_rest : s.handler ≡ outside

pub data Reach (s : State) : State → Type 0 where
  here : Reach s s
  next : {t u : State} → Reach s t → Step t u → Reach s u
