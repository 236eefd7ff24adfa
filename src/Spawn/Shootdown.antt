-- ===== src/Spawn/Shootdown.antt =====
-- The shootdown protocol: `dbos_tlb_shootdown` on one core, with `wait_for_flush`, against the
-- loop of `vmx_launch` (kern/vmx.c) and the flush handlers on the target core, access by access.
pub mod Inv
pub mod Safety
pub mod Race
pub mod Live
use libdbos.Common.{
  ℕ, zero, suc, ◌+◌, ◌%◌, ◌^◌, ◌≡◌, ◌≢◌, Bool, true, false, Option, none, some, if◌then◌else◌,
}

-- `dune_pv_info.flag` of the target core: DUNE_PV_TLB_IN_HOST, DUNE_PV_TLB_FLUSH_ON_REENTRY, and
-- the page table root that comes with DUNE_PV_CHANGE_GUEST_CR3.
pub record Flag : Type 0 where
  pub in_host : Bool
  pub flush_on_reentry : Bool
  pub change_cr3 : Option ℕ

abbrev pub with_flush : Flag → Flag
with_flush f = record f { flush_on_reentry = true }

abbrev pub with_host : Flag → Flag
with_host f = record f { in_host = true }

-- What the exchange on entry leaves.
abbrev pub no_flags : Flag
no_flags = record { in_host = false; flush_on_reentry = false; change_cr3 = none }

-- Where the target's virtual processor is: in the host, in `vmx_launch` with the flags that the
-- exchange read, past the count of flushes with a root to load, or in the guest.
pub data Mode : Type 0 where
  host : Mode
  entering : Flag → Mode
  counted : Option ℕ → Mode
  guest : Mode

-- What the guest does: the application, or the flush handler before and after it sets `flushed`.
-- The handler works on the address that it read: this call's; or another, that of an earlier call,
-- whose message it took late and whose argument is the same working page, or, for a message that is
-- not the first of its batch, the word at `call_arg[i].addr`, behind the argument of the call.
pub data Task : Type 0 where
  user : Task
  collected : (this_call : Bool) → Task
  acked : (this_call : Bool) → Task

-- How `dbos_tlb_shootdown` returned.
pub data Exit : Type 0 where
  on_reentry : Exit  -- the target was in the host
  flushed_there : Exit  -- the target's handler answered
  kicked : Exit  -- ring full, target in the guest
  full_in_host : Exit  -- ring full, target in the host

-- Where the calling core is in `dbos_tlb_shootdown`, with the value of `pv_info_flag` it holds.
pub data Pc : Type 0 where
  start : Pc
  tried : Flag → Pc
  queueing : Pc
  waiting : Pc
  wait_tried : Flag → Pc
  full : Pc
  full_tried : Flag → Pc
  full_in_guest : Flag → Pc
  kick : (old : ℕ) → Flag → Pc
  kick_sent : (old : ℕ) → Pc
  done : Exit → Pc

-- `stale`: the target's TLB may hold the translation that the page table no longer has. The entry
-- is changed before the call, so no step makes a translation stale again. `queued`: the message is
-- in the ring. `first`: when the handler takes it, it is the first message of the batch.
pub record System : Type 0 where
  pub flag : Flag
  pub full_flush_count : ℕ
  pub guest_cr3 : ℕ
  pub mode : Mode
  pub task : Task
  pub stale : Bool
  pub queued : Bool
  pub first : Bool
  pub flushed : Bool
  pub pc : Pc

-- The root that the guest runs with.
abbrev pub load_root : Option ℕ → ℕ → ℕ
load_root none old = old
load_root (some root) old = root

-- A step of the target core, of another core, or of the calling core.
pub data Step (s : System) : System → Type 0 where
  -- `xchg(&flag, 0)` in `vmx_launch`
  enter : s.mode ≡ host → Step s (record s { mode = entering s.flag; flag = no_flags })
  -- `atomic_inc(full_flush_count)`, a counter of 32 bits
  count :
      {f : Flag}
      → s.mode ≡ entering f
      → f.flush_on_reentry ≡ true
      → Step s (record s {
        mode = counted f.change_cr3;
        full_flush_count = (s.full_flush_count + 1) % 2 ^ 32;
      })
  -- `vpid_sync_context` and the run
  flush_all :
      {root : Option ℕ}
      → s.mode ≡ counted root
      → Step s (record s { mode = guest; stale = false; guest_cr3 = load_root root s.guest_cr3 })
  run :
      {f : Flag}
      → s.mode ≡ entering f
      → f.flush_on_reentry ≡ false
      → Step s (record s { mode = guest; guest_cr3 = load_root f.change_cr3 s.guest_cr3 })
  -- the loop of `cmpxchg` after the run
  leave : s.mode ≡ guest → Step s (record s { mode = host; flag = with_host s.flag })
  -- the interrupt handler takes the message, answers, and flushes
  collect :
      s.mode ≡ guest
      → s.task ≡ user
      → s.queued ≡ true
      → Step s (record s { task = collected s.first; queued = false })
  answer :
      {this_call : Bool}
      → s.mode ≡ guest
      → s.task ≡ collected this_call
      → Step s (record s { task = acked this_call; flushed = true })
  flush_one :
      {this_call : Bool}
      → s.mode ≡ guest
      → s.task ≡ acked this_call
      → Step s (record s { task = user; stale = if this_call then false else s.stale })
  -- another core posts a flush, or a change of the root to a target in the host
  other_flush : Step s (record s { flag = with_flush s.flag })
  other_root :
      (root : ℕ)
      → s.flag.in_host ≡ true
      → Step s (record s { flag = record s.flag { change_cr3 = some root } })
  -- the first test
  first_posted :
      s.pc ≡ start
      → s.flag.in_host ≡ true
      → s.flag.flush_on_reentry ≡ true
      → Step s (record s { pc = done on_reentry })
  first_host :
      s.pc ≡ start
      → s.flag.in_host ≡ true
      → s.flag.flush_on_reentry ≡ false
      → Step s (record s { pc = tried s.flag })
  first_guest : s.pc ≡ start → s.flag.in_host ≡ false → Step s (record s { pc = queueing })
  first_won :
      {f : Flag}
      → s.pc ≡ tried f
      → s.flag ≡ f
      → Step s (record s { flag = with_flush f; pc = done on_reentry })
  first_lost : {f : Flag} → s.pc ≡ tried f → s.flag ≢ f → Step s (record s { pc = queueing })
  -- `dune_queue_ipi_call_fast` and the interrupt
  queue : s.pc ≡ queueing → Step s (record s { queued = true; pc = waiting })
  queue_full : s.pc ≡ queueing → Step s (record s { pc = full })
  -- `while (call_arg->flushed == false)`
  wait_flushed : s.pc ≡ waiting → s.flushed ≡ true → Step s (record s { pc = done flushed_there })
  wait_posted :
      s.pc ≡ waiting
      → s.flag.in_host ≡ true
      → s.flag.flush_on_reentry ≡ true
      → Step s (record s { pc = done on_reentry })
  wait_host :
      s.pc ≡ waiting
      → s.flag.in_host ≡ true
      → s.flag.flush_on_reentry ≡ false
      → Step s (record s { pc = wait_tried s.flag })
  wait_won :
      {f : Flag}
      → s.pc ≡ wait_tried f
      → s.flag ≡ f
      → Step s (record s { flag = with_flush f; pc = done on_reentry })
  wait_lost : {f : Flag} → s.pc ≡ wait_tried f → s.flag ≢ f → Step s (record s { pc = waiting })
  -- the ring is full: the target in the guest is kicked
  full_guest :
      s.pc ≡ full → s.flag.in_host ≡ false → Step s (record s { pc = full_in_guest s.flag })
  read_count :
      {f : Flag} → s.pc ≡ full_in_guest f → Step s (record s { pc = kick s.full_flush_count f })
  kick_won :
      {old : ℕ} {f : Flag}
      → s.pc ≡ kick old f
      → s.flag ≡ f
      → Step s (record s { flag = with_flush f; pc = kick_sent old })
  kick_lost :
      {old : ℕ} {f : Flag}
      → s.pc ≡ kick old f
      → s.flag ≢ f
      → Step s (record s { pc = kick old s.flag })
  kick_flushed :
      {old : ℕ}
      → s.pc ≡ kick_sent old
      → s.full_flush_count ≢ old
      → Step s (record s { pc = done kicked })
  -- the ring is full: the target in the host
  full_host : s.pc ≡ full → s.flag.in_host ≡ true → Step s (record s { pc = full_tried s.flag })
  full_posted :
      {f : Flag}
      → s.pc ≡ full_tried f
      → f.flush_on_reentry ≡ true
      → Step s (record s { pc = done full_in_host })
  full_won :
      {f : Flag}
      → s.pc ≡ full_tried f
      → f.flush_on_reentry ≡ false
      → s.flag ≡ f
      → Step s (record s { flag = with_flush f; pc = done full_in_host })
  full_lost :
      {f : Flag}
      → s.pc ≡ full_tried f
      → f.flush_on_reentry ≡ false
      → s.flag ≢ f
      → Step s (record s { pc = full_tried s.flag })

abbrev pub is_host : Mode → Bool
is_host host = true
is_host _ = false

-- Before the call: nothing is queued or answered, and the bit says where the target is.
pub record Starts (s : System) : Type 0 where
  pub at_start : s.pc ≡ start
  pub at_user : s.task ≡ user
  pub unanswered : s.flushed ≡ false
  pub mode_bit : s.flag.in_host ≡ is_host s.mode

pub data Reach (s : System) : System → Type 0 where
  here : Reach s s
  next : {t u : System} → Reach s t → Step t u → Reach s u
