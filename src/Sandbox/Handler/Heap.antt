-- ===== src/Sandbox/Handler/Heap.antt =====
-- No system call makes heap and mappings of the program meet.
use libdbos.Common.{ℕ, ◌^◌, ◌<◌, Bool, true, false, Option, none, some, inl, inr, Bool-cases, ◌==◌}
use libdbos.Ept.Addr.{DuneLayout}
use libdbos.Umm.{Codes, Sys, PageTables, Umm, Result}
use libdbos.Umm.Inv.{IsApart, IsBase}
use libdbos.Umm.Calls.Base.{IsBounded, Apart, umm_mmap-Apart}
use libdbos.Umm.Calls.Heap.{umm_brk-Apart}
use libdbos.Umm.Calls.Pages.{umm_munmap-Apart, umm_mprotect-Apart}
use libdbos.Umm.Calls.Move.{umm_shmat-Apart, umm_mremap-Apart}
use libdbos.Sandbox.Params.{
  Sysno, Abi, TrapFrame, Checked, pass, refused, died, sys_uname, sys_arch_prctl, sys_access,
  sys_open, sys_unlink, sys_openat, sys_getdents, sys_read, sys_write, sys_connect, sys_bind,
  sys_writev, sys_readv, sys_stat, sys_lstat, sys_fstat, sys_statfs, sys_time, sys_epoll_ctl,
  sys_epoll_wait, sys_setsockopt, sys_accept, sys_fcntl, sys_ioctl, sys_setgroups, sys_rt_sigaction,
  sys_sigaltstack, sys_signalfd, sys_signalfd4, sys_rt_sigpending, sys_rt_sigprocmask,
  sys_rt_sigreturn, sys_rt_sigsuspend, sys_rt_sigqueueinfo, sys_rt_sigtimedwait, sys_brk,
  sys_mprotect, sys_munmap, sys_mmap, sys_mremap, sys_shmat, sys_clone, sys_getcwd, sys_getrlimit,
  sys_sendfile, sys_close, sys_execve, sys_exit, sys_exit_group, other,
}
use libdbos.Sandbox.Handler.{
  Ops, Monitor, Machine, Outcome, returned, left, with_rax, from_umm, do_arch_prctl, syscall_do,
  monitored, checked, syscall_handler,
}

module _ {W : Type 0} (abi : Abi) (sys : Sys W) (tables : PageTables W) (codes : Codes)
    (layout : DuneLayout) (ops : Ops W) where
  -- The program has ended, or its heap and mappings are apart.
  pub data StillApart : Option (Outcome W) → Type 0 where
    ended : StillApart none
    goes_on :
        {tf : TrapFrame} {m : Machine W}
        → IsApart sys tables codes layout m.umm
        → StillApart (some (returned tf m))
    leaves :
        {code : ℕ} {m : Machine W}
        → IsApart sys tables codes layout m.umm
        → StillApart (some (left code m))

  from_umm-StillApart :
      (tf : TrapFrame) (m : Machine W) {o : Option (Result × Umm W)}
      → Apart sys tables codes layout o
      → StillApart (from_umm abi sys tables codes layout ops tf m o)
  unfolding from_umm
  from_umm-StillApart tf m Apart.died = ended
  from_umm-StillApart tf m (Apart.ends r u a) = goes_on a

  same :
      {u : Umm W} (w : W)
      → IsApart sys tables codes layout u
      → IsApart sys tables codes layout (record u { world = w })
  same w a = record { apart = a.apart; brk_pages = a.brk_pages; mmap_pages = a.mmap_pages }

  arch_prctl-StillApart :
      (tf : TrapFrame) (m : Machine W)
      → IsApart sys tables codes layout m.umm
      → StillApart (do_arch_prctl abi sys tables codes layout ops tf m)
  unfolding do_arch_prctl
  arch_prctl-StillApart tf m a = elim (Bool-cases (tf.arg0 == abi.arch_get_fs)) [
    | inl get ↦ rw get (goes_on (same _ a))
    | inr no_get ↦ rw no_get (elim (Bool-cases (tf.arg0 == abi.arch_set_fs)) [
      | inl put ↦ rw put (goes_on a)
      | inr unknown ↦ rw unknown (goes_on a)
    ])
  ]

  syscall_do-StillApart :
      (call : Sysno) (tf : TrapFrame) (m : Machine W)
      → IsBounded sys
      → IsBase sys tables codes layout
      → IsApart sys tables codes layout m.umm
      → tf.arg0 < 2 ^ 64
      → StillApart (syscall_do abi sys tables codes layout ops call tf m)
  unfolding syscall_do
  syscall_do-StillApart sys_uname tf m k b a word = goes_on (same _ a)
  syscall_do-StillApart sys_arch_prctl tf m k b a word = arch_prctl-StillApart tf m a
  syscall_do-StillApart sys_access tf m k b a word = goes_on (same _ a)
  syscall_do-StillApart sys_open tf m k b a word = goes_on (same _ a)
  syscall_do-StillApart sys_unlink tf m k b a word = goes_on (same _ a)
  syscall_do-StillApart sys_openat tf m k b a word = goes_on (same _ a)
  syscall_do-StillApart sys_getdents tf m k b a word = goes_on (same _ a)
  syscall_do-StillApart sys_read tf m k b a word = goes_on (same _ a)
  syscall_do-StillApart sys_write tf m k b a word = goes_on (same _ a)
  syscall_do-StillApart sys_connect tf m k b a word = goes_on (same _ a)
  syscall_do-StillApart sys_bind tf m k b a word = goes_on (same _ a)
  syscall_do-StillApart sys_writev tf m k b a word = goes_on (same _ a)
  syscall_do-StillApart sys_readv tf m k b a word = goes_on (same _ a)
  syscall_do-StillApart sys_stat tf m k b a word = goes_on (same _ a)
  syscall_do-StillApart sys_lstat tf m k b a word = goes_on (same _ a)
  syscall_do-StillApart sys_fstat tf m k b a word = goes_on (same _ a)
  syscall_do-StillApart sys_statfs tf m k b a word = goes_on (same _ a)
  syscall_do-StillApart sys_time tf m k b a word = goes_on (same _ a)
  syscall_do-StillApart sys_epoll_ctl tf m k b a word = goes_on (same _ a)
  syscall_do-StillApart sys_epoll_wait tf m k b a word = goes_on (same _ a)
  syscall_do-StillApart sys_setsockopt tf m k b a word = goes_on (same _ a)
  syscall_do-StillApart sys_accept tf m k b a word = goes_on (same _ a)
  syscall_do-StillApart sys_fcntl tf m k b a word = goes_on (same _ a)
  syscall_do-StillApart sys_ioctl tf m k b a word = goes_on (same _ a)
  syscall_do-StillApart sys_setgroups tf m k b a word = goes_on (same _ a)
  syscall_do-StillApart sys_rt_sigaction tf m k b a word = goes_on a
  syscall_do-StillApart sys_sigaltstack tf m k b a word = goes_on a
  syscall_do-StillApart sys_signalfd tf m k b a word = goes_on a
  syscall_do-StillApart sys_signalfd4 tf m k b a word = goes_on a
  syscall_do-StillApart sys_rt_sigpending tf m k b a word = goes_on a
  syscall_do-StillApart sys_rt_sigprocmask tf m k b a word = goes_on a
  syscall_do-StillApart sys_rt_sigreturn tf m k b a word = goes_on a
  syscall_do-StillApart sys_rt_sigsuspend tf m k b a word = goes_on a
  syscall_do-StillApart sys_rt_sigqueueinfo tf m k b a word = goes_on a
  syscall_do-StillApart sys_rt_sigtimedwait tf m k b a word = goes_on a
  syscall_do-StillApart sys_brk tf m k b a word =
      from_umm-StillApart tf m (umm_brk-Apart sys tables codes layout tf.arg0 m.umm k b a word)
  syscall_do-StillApart sys_mprotect tf m k b a word =
      from_umm-StillApart tf m (umm_mprotect-Apart sys tables codes layout _ _ _ m.umm a)
  syscall_do-StillApart sys_munmap tf m k b a word =
      from_umm-StillApart tf m (umm_munmap-Apart sys tables codes layout _ _ m.umm a)
  syscall_do-StillApart sys_mmap tf m k b a word =
      from_umm-StillApart tf m (umm_mmap-Apart sys tables codes layout _ _ _ _ _ _ m.umm k a)
  syscall_do-StillApart sys_mremap tf m k b a word =
      from_umm-StillApart tf m (umm_mremap-Apart sys tables codes layout _ _ _ _ _ m.umm k a)
  syscall_do-StillApart sys_shmat tf m k b a word =
      from_umm-StillApart tf m (umm_shmat-Apart sys tables codes layout _ _ _ m.umm k a)
  syscall_do-StillApart sys_clone tf m k b a word = goes_on (same _ a)
  syscall_do-StillApart sys_getcwd tf m k b a word = goes_on (same _ a)
  syscall_do-StillApart sys_getrlimit tf m k b a word = goes_on (same _ a)
  syscall_do-StillApart sys_sendfile tf m k b a word = goes_on (same _ a)
  syscall_do-StillApart sys_close tf m k b a word = goes_on (same _ a)
  syscall_do-StillApart sys_execve tf m k b a word = goes_on (same _ a)
  syscall_do-StillApart sys_exit tf m k b a word = leaves a
  syscall_do-StillApart sys_exit_group tf m k b a word = leaves a
  syscall_do-StillApart (other n) tf m k b a word = goes_on (same _ a)

  monitored-StillApart :
      (tf : TrapFrame) (m : Machine W) (allowed : Bool × ℕ)
      → IsBounded sys
      → IsBase sys tables codes layout
      → IsApart sys tables codes layout m.umm
      → tf.arg0 < 2 ^ 64
      → StillApart (monitored abi sys tables codes layout ops tf m allowed)
  unfolding monitored
  monitored-StillApart tf m (true, rax) k b a word =
      syscall_do-StillApart (abi.call rax) (with_rax tf rax) m k b a word
  monitored-StillApart tf m (false, rax) k b a word = goes_on a

  checked-StillApart :
      (monitor : Monitor W) (tf : TrapFrame) (m : Machine W) (c : Checked)
      → IsBounded sys
      → IsBase sys tables codes layout
      → IsApart sys tables codes layout m.umm
      → tf.arg0 < 2 ^ 64
      → StillApart (checked abi sys tables codes layout ops monitor tf m c)
  unfolding checked
  checked-StillApart monitor tf m pass k b a word = monitored-StillApart tf m _ k b a word
  checked-StillApart monitor tf m (refused rax) k b a word = goes_on a
  checked-StillApart monitor tf m died k b a word = ended

  -- Whatever system call the program makes, with whatever parameters: when its heap and mappings
  -- are whole pages that do not meet, they are so after it, unless the program has ended. The
  -- kernel refuses lengths of 2^63 bytes or more, and mmap_base is a multiple of the page size with
  -- room for eight gigabytes.
  pub syscall_handler-StillApart :
      (monitor : Monitor W) (tf : TrapFrame) (m : Machine W)
      → IsBounded sys
      → IsBase sys tables codes layout
      → IsApart sys tables codes layout m.umm
      → tf.arg0 < 2 ^ 64
      → StillApart (syscall_handler abi sys tables codes layout ops monitor tf m)
  unfolding syscall_handler
  syscall_handler-StillApart monitor tf m k b a word = checked-StillApart monitor tf m _ k b a word
