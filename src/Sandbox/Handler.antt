-- ===== src/Sandbox/Handler.antt =====
-- `syscall_handler` of apps/sandbox/trap.c: the check of the parameters, the monitor, and what is
-- done for a system call that both let through.
pub mod Mediates
pub mod Heap
use libdbos.Common.{
  ℕ, ◌+◌, ◌-◌, ◌%◌, ◌^◌, Bool, true, false, Option, none, some, ltb, ◌==◌, if◌then◌else◌,
}
use libdbos.Ept.Addr.{DuneLayout}
use libdbos.Umm.{
  Prot, Codes, Sys, PageTables, Umm, Result, value, fail, umm_brk, umm_mmap, umm_munmap,
  umm_mprotect, umm_shmat, umm_mremap,
}
use libdbos.Sandbox.Check.{Bytes}
use libdbos.Sandbox.Params.{
  Sysno, Abi, TrapFrame, Checked, pass, refused, died, check_params, sys_arch_prctl, sys_brk,
  sys_mmap, sys_mprotect, sys_munmap, sys_mremap, sys_shmat, sys_clone, sys_execve,
  sys_rt_sigaction, sys_rt_sigprocmask, sys_sigaltstack, sys_signalfd, sys_signalfd4,
  sys_rt_sigpending, sys_rt_sigreturn, sys_rt_sigsuspend, sys_rt_sigqueueinfo, sys_rt_sigtimedwait,
  sys_exit, sys_exit_group,
}

-- What the handler leaves to others: the program's memory, the bits of a `prot`, a call that the
-- kernel serves itself, and `dune_clone` and `exec_execev`, with the new `rax`.
pub record Ops (W : Type 0) : Type 0 where
  pub memory : W → Bytes
  pub store_long : W → (addr val : ℕ) → W
  pub prot : ℕ → Prot
  pub passthrough : TrapFrame → W → ℕ × W
  pub clone : TrapFrame → W → ℕ × W
  pub execve : TrapFrame → W → ℕ × W

-- `_syscall_monitor`, which may be NULL: whether it allows the call, and `rax` after it.
abbrev pub Monitor : Type 0 → Type 0
Monitor W = Option (TrapFrame → W → Bool × ℕ)

-- The memory of the program, and the base of its FS segment.
pub record Machine (W : Type 0) : Type 0 where
  pub umm : Umm W
  pub user_fs : ℕ

-- The program goes on, or `dune_ret_from_user` ends it.
pub data Outcome (W : Type 0) : Type 0 where
  returned : TrapFrame → Machine W → Outcome W
  left : (code : ℕ) → Machine W → Outcome W

abbrev pub eperm : ℕ
eperm = 2 ^ 64 - 1

abbrev pub einval : ℕ
einval = 2 ^ 64 - 22

abbrev pub enosys : ℕ
enosys = 2 ^ 64 - 38

-- A result of umm.c in `rax`.
abbrev pub rax_of : Result → ℕ
rax_of (value v) = v
rax_of (fail e) = (2 ^ 64 - e) % 2 ^ 64

-- A file descriptor: the low 32 bits as an `int`, `none` where it is negative.
abbrev pub fd_of : ℕ → Option ℕ
fd_of n = if ltb (n % 2 ^ 32) (2 ^ 31) then some (n % 2 ^ 32) else none

abbrev pub with_rax : TrapFrame → ℕ → TrapFrame
with_rax tf rax = record tf { rax = rax }

module _ {W : Type 0} (abi : Abi) (sys : Sys W) (tables : PageTables W) (codes : Codes)
    (layout : DuneLayout) (ops : Ops W) where
  abbrev pub gives : TrapFrame → ℕ → Machine W → Option (Outcome W)
  gives tf rax m = some (returned (with_rax tf rax) m)

  -- After a call of umm.c.
  unfoldable pub from_umm : TrapFrame → Machine W → Option (Result × Umm W) → Option (Outcome W)
  from_umm tf m none = none
  from_umm tf m (some (r, u)) = gives tf (rax_of r) (record m { umm = u })

  -- After a call outside umm.c.
  abbrev pub from_host : TrapFrame → Machine W → ℕ × W → Option (Outcome W)
  from_host tf m o = gives tf o.0 (record m { umm = record m.umm { world = o.1 } })

  -- `case SYS_arch_prctl`
  unfoldable pub do_arch_prctl : TrapFrame → Machine W → Option (Outcome W)
  do_arch_prctl tf m =
      if tf.arg0 == abi.arch_get_fs
      then from_host tf m (0, ops.store_long m.umm.world tf.arg1 m.user_fs)
      else if tf.arg0 == abi.arch_set_fs
      then gives tf 0 (record m { user_fs = tf.arg1 })
      else gives tf einval m

  -- `syscall_do_foreal`
  unfoldable pub syscall_do : Sysno → TrapFrame → Machine W → Option (Outcome W)
  syscall_do sys_arch_prctl tf m = do_arch_prctl tf m
  syscall_do sys_brk tf m = from_umm tf m (umm_brk sys tables codes layout tf.arg0 m.umm)
  syscall_do sys_mmap tf m = from_umm tf m (
      umm_mmap sys tables codes layout tf.arg0 tf.arg1 (ops.prot (tf.arg2 % 2 ^ 32))
        (tf.arg3 % 2 ^ 32) (fd_of tf.arg4) tf.arg5 m.umm)
  syscall_do sys_mprotect tf m =
      from_umm tf m (umm_mprotect sys tables codes layout tf.arg0 tf.arg1 (ops.prot tf.arg2) m.umm)
  syscall_do sys_munmap tf m =
      from_umm tf m (umm_munmap sys tables codes layout tf.arg0 tf.arg1 m.umm)
  syscall_do sys_mremap tf m =
      from_umm tf m (
        umm_mremap sys tables codes layout tf.arg0 tf.arg1 tf.arg2 (tf.arg3 % 2 ^ 32) tf.arg4 m.umm)
  syscall_do sys_shmat tf m =
      from_umm tf m
        (umm_shmat sys tables codes layout (tf.arg0 % 2 ^ 32) tf.arg1 (tf.arg2 % 2 ^ 32) m.umm)
  syscall_do sys_clone tf m = from_host tf m (ops.clone tf m.umm.world)
  syscall_do sys_execve tf m = from_host tf m (ops.execve tf m.umm.world)
  syscall_do sys_rt_sigaction tf m = gives tf 0 m
  syscall_do sys_rt_sigprocmask tf m = gives tf 0 m
  syscall_do sys_sigaltstack tf m = gives tf enosys m
  syscall_do sys_signalfd tf m = gives tf enosys m
  syscall_do sys_signalfd4 tf m = gives tf enosys m
  syscall_do sys_rt_sigpending tf m = gives tf enosys m
  syscall_do sys_rt_sigreturn tf m = gives tf enosys m
  syscall_do sys_rt_sigsuspend tf m = gives tf enosys m
  syscall_do sys_rt_sigqueueinfo tf m = gives tf enosys m
  syscall_do sys_rt_sigtimedwait tf m = gives tf enosys m
  syscall_do sys_exit_group tf m = some (left (tf.arg0 % 2 ^ 32) m)
  syscall_do sys_exit tf m = some (left (tf.arg0 % 2 ^ 32) m)
  syscall_do call tf m = from_host tf m (ops.passthrough tf m.umm.world)

  -- `syscall_allow`: whether the call is allowed, and `rax` after it.
  unfoldable pub syscall_allow : Monitor W → TrapFrame → W → Bool × ℕ
  syscall_allow none tf w = (false, eperm)
  syscall_allow (some monitor) tf w = monitor tf w

  -- `if (!syscall_allow(tf)) return; syscall_do(tf);`
  unfoldable pub monitored : TrapFrame → Machine W → Bool × ℕ → Option (Outcome W)
  monitored tf m allowed =
      if allowed.0
      then syscall_do (abi.call allowed.1) (with_rax tf allowed.1) m
      else gives tf allowed.1 m

  unfoldable pub checked : Monitor W → TrapFrame → Machine W → Checked → Option (Outcome W)
  checked monitor tf m pass = monitored tf m (syscall_allow monitor tf m.umm.world)
  checked monitor tf m (refused rax) = gives tf rax m
  checked monitor tf m died = none

  -- `syscall_handler`
  unfoldable pub syscall_handler : Monitor W → TrapFrame → Machine W → Option (Outcome W)
  syscall_handler monitor tf m =
      checked monitor tf m (check_params abi layout.base_map (ops.memory m.umm.world) tf)
