-- ===== src/Sandbox/Handler/Mediates.antt =====
-- Every system call of the program passes the check and the monitor before anything is done for it.
use libdbos.Common.{◌≤◌, ◌≡◌, refl, Bool, true, Option, none, some, inl, inr, Bool-cases, ℕ}
use libdbos.Ept.Addr.{DuneLayout}
use libdbos.Umm.{app_max_elf_vaddr, Codes, Sys, PageTables}
use libdbos.Umm.Inv.{IsBase}
use libdbos.Sandbox.Params.{Abi, TrapFrame, Checked, pass, refused, died}
use libdbos.Sandbox.Params.Accesses.{IsSafe, All, accesses}
use libdbos.Sandbox.Params.Safe.{check_params-Safe}
use libdbos.Sandbox.Handler.{
  Ops, Monitor, Machine, Outcome, returned, with_rax, syscall_allow, syscall_do, monitored, checked,
  syscall_handler,
}

module _ {W : Type 0} (abi : Abi) (sys : Sys W) (tables : PageTables W) (codes : Codes)
    (layout : DuneLayout) (ops : Ops W) where
  -- What becomes of a system call: a failed `assert`; or an answer in `rax` and nothing done; or
  -- what `syscall_do_foreal` does for it, and then the parameters passed the check, name memory of
  -- the program only, and there is a monitor, which allowed the call.
  pub data Mediated (monitor : Monitor W) (tf : TrapFrame) (m : Machine W)
      : Option (Outcome W) → Type 0 where
    stopped : Mediated monitor tf m none
    answered : (rax : ℕ) → Mediated monitor tf m (some (returned (with_rax tf rax) m))
    done :
        (allows : TrapFrame → W → Bool × ℕ)
        → monitor ≡ some allows
        → (allows tf m.umm.world).0 ≡ true
        → All
            (IsSafe layout.base_map (ops.memory m.umm.world))
            (accesses abi (ops.memory m.umm.world) (abi.call tf.rax) tf)
        → Mediated monitor tf m (
            syscall_do abi sys tables codes layout ops
              (abi.call (allows tf m.umm.world).1)
              (with_rax tf (allows tf m.umm.world).1)
              m)

  monitored-Mediated :
      (monitor : Monitor W) (tf : TrapFrame) (m : Machine W)
      → All
          (IsSafe layout.base_map (ops.memory m.umm.world))
          (accesses abi (ops.memory m.umm.world) (abi.call tf.rax) tf)
      → Mediated monitor tf m (
          monitored abi sys tables codes layout ops tf m
            (syscall_allow abi sys tables codes layout ops monitor tf m.umm.world))
  unfolding monitored syscall_allow
  monitored-Mediated none tf m safe = answered _
  monitored-Mediated (some allows) tf m safe = elim (Bool-cases (allows tf m.umm.world).0) [
    | inl allowed ↦ rw allowed (done allows refl allowed safe)
    | inr denied ↦ rw denied (answered _)
  ]

  checked-Mediated :
      (monitor : Monitor W) (tf : TrapFrame) (m : Machine W) (c : Checked)
      → (c ≡ pass
          → All
              (IsSafe layout.base_map (ops.memory m.umm.world))
              (accesses abi (ops.memory m.umm.world) (abi.call tf.rax) tf))
      → Mediated monitor tf m (checked abi sys tables codes layout ops monitor tf m c)
  unfolding checked
  checked-Mediated monitor tf m pass safe = monitored-Mediated monitor tf m (safe refl)
  checked-Mediated monitor tf m (refused rax) safe = answered rax
  checked-Mediated monitor tf m died safe = stopped

  -- The handler of system calls does nothing for a call but to answer it, unless the parameters
  -- passed the check and there is a monitor that allowed it; then it does what syscall_do_foreal does
  -- for the number that the monitor leaves. Where the check passed, the ranges and paths of
  -- `accesses` are memory of the program: those that the parameters of the system calls in the
  -- switch of the check name there, each with the length that the kernel uses (a range may also be
  -- NULL, empty or pass the top of the address space). Nothing is said of system calls that are not
  -- in the switch, nor of what a call in it reads besides, such as the lists of arguments of execve.
  -- mmap_base lies above the program's image with room for its eight gigabytes.
  pub syscall_handler-Mediated :
      (monitor : Monitor W) (tf : TrapFrame) (m : Machine W)
      → app_max_elf_vaddr ≤ layout.base_map
      → IsBase sys tables codes layout
      → Mediated monitor tf m (syscall_handler abi sys tables codes layout ops monitor tf m)
  unfolding syscall_handler
  syscall_handler-Mediated monitor tf m above b =
      checked-Mediated monitor tf m _
        (λ h. check_params-Safe abi layout.base_map (ops.memory m.umm.world) above b.room tf h)
