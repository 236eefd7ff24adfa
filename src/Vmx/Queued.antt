-- ===== src/Vmx/Queued.antt =====
-- `vmx_handle_queued_interrupts`, kern/vmx.c, on the state of its own core: the virtual interrupt
-- request register and the requesting vector RVI.
pub mod Requests
use libdbos.Common.{
  ℕ, zero, suc, ◌+◌, ◌*◌, ◌/◌, ◌%◌, ◌^◌, Bool, true, false, bit_or, ltb, ◌==◌, if◌then◌else◌,
}

-- What the handler works on: the descriptor's outstanding bit and 256 vectors, the vIRR (vector
-- `v` is the bit `v & 0x1F` of the word at `0x200 | (v & 0xE0) >> 1` of the virtual APIC page), the
-- guest interrupt status of the VMCS, and the count of queued interrupts.
pub record Core : Type 0 where
  pub outstanding : Bool
  pub vectors : ℕ → Bool
  pub virr : ℕ → Bool
  pub guest_interrupt_status : ℕ
  pub queued_interrupts : ℕ

-- The loops over the vectors, with `n` to go from `v`: the vIRR, RVI and the count.
pub record Found : Type 0 where
  pub irr : ℕ → Bool
  pub rvi : ℕ
  pub queued : ℕ

-- One set vector: `rvi = rvi > vector ? rvi : vector`
abbrev pub add_vector : ℕ → Found → Found
add_vector v f = record {
  irr = λ u. if u == v then true else f.irr u;
  rvi = if ltb v f.rvi then f.rvi else v;
  queued = f.queued + 1;
}

pub find_vectors : (vectors : ℕ → Bool) (n v : ℕ) → Found → Found
find_vectors vectors zero v f = f
find_vectors vectors (suc n) v f =
    find_vectors vectors n (v + 1) (if vectors v then add_vector v f else f)

-- `vmx_handle_queued_interrupts`
pub handle_queued_interrupts : Core → Core
handle_queued_interrupts c =
    let start : Found = record {
      irr = c.virr;
      rvi = c.guest_interrupt_status % 256;
      queued = c.queued_interrupts;
    } in
    let found : Found = find_vectors c.vectors 256 0 start in
    if c.outstanding
    then record {
      outstanding = false;
      vectors = λ v. if ltb v 256 then false else c.vectors v;
      virr = found.irr;
      guest_interrupt_status = bit_or c.guest_interrupt_status found.rvi;
      queued_interrupts = found.queued;
    }
    else record c { outstanding = false }
