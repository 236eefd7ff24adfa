-- ===== src/Sandbox/Params/Safe.antt =====
-- A system call that passes the check names no memory outside the program's.
use libdbos.Common.{
  ℕ, ◌+◌, ◌*◌, ◌%◌, ◌^◌, ◌≤◌, ◌<◌, ◌≡◌, inl, inr, true, false, ◌==◌, if◌then◌else◌, Bool-cases,
  ==→eq,
}
use mathlib.Core.Bool.{true≢false}
use libdbos.Umm.{app_max_elf_vaddr, app_mmap_len}
use libdbos.Sandbox.Check.{Bytes, load, extent_fails}
use libdbos.Sandbox.Check.Strings.{string_fails_lem}
use libdbos.Sandbox.Params.{
  Sysno, Abi, TrapFrame, die, pass, pointer, accept_params, fcntl_params, switch_params, end_params,
  check_params, sys_uname, sys_arch_prctl, sys_access, sys_open, sys_unlink, sys_openat,
  sys_getdents, sys_read, sys_write, sys_connect, sys_bind, sys_writev, sys_readv, sys_stat,
  sys_lstat, sys_fstat, sys_statfs, sys_time, sys_epoll_ctl, sys_epoll_wait, sys_setsockopt,
  sys_accept, sys_fcntl, sys_ioctl, sys_setgroups, sys_rt_sigaction, sys_sigaltstack, sys_signalfd,
  sys_signalfd4, sys_rt_sigpending, sys_rt_sigprocmask, sys_rt_sigreturn, sys_rt_sigsuspend,
  sys_rt_sigqueueinfo, sys_rt_sigtimedwait, sys_brk, sys_mprotect, sys_munmap, sys_mmap, sys_mremap,
  sys_shmat, sys_clone, sys_getcwd, sys_getrlimit, sys_sendfile, sys_close, sys_execve, sys_exit,
  sys_exit_group, other, utsname, unsigned_long, stat, statfs, time_t, epoll_event, socklen_t,
  flock, gid_t, sigaction, sigset_t, siginfo_t, timespec, rlimit, off_t,
}
use libdbos.Sandbox.Params.Accesses.{range, IsSafe, All, accesses}
use libdbos.Sandbox.Params.Ranges.{
  extent, passed, dies, one, string, both, after, after_must, iovec-IsSafe,
}

module _ (abi : Abi) (mmap_base : ℕ) (mem : Bytes) (above : app_max_elf_vaddr ≤ mmap_base)
    (room : mmap_base + app_mmap_len < 2 ^ 64) where
  arch_prctl-Safe :
      (tf : TrapFrame)
      → end_params abi mmap_base mem (switch_params abi mmap_base mem sys_arch_prctl tf) ≡ pass
      → All (IsSafe mmap_base mem) (accesses abi mem sys_arch_prctl tf)
  unfolding switch_params accesses
  arch_prctl-Safe tf = elim (Bool-cases (tf.arg0 == abi.arch_get_fs)) [
    | inl get ↦ rw get (one abi mmap_base mem above room tf.arg1 (abi.size unsigned_long))
    | inr no_get ↦ rw no_get (λ h. tt)
  ]

  ioctl-Safe :
      (tf : TrapFrame)
      → end_params abi mmap_base mem (switch_params abi mmap_base mem sys_ioctl tf) ≡ pass
      → All (IsSafe mmap_base mem) (accesses abi mem sys_ioctl tf)
  unfolding switch_params accesses
  ioctl-Safe tf = elim (Bool-cases (abi.ioc_dir tf.arg1 == 0)) [
    | inl no_dir ↦ rw no_dir (λ h. tt)
    | inr dir ↦ rw dir (one abi mmap_base mem above room tf.arg2 (abi.ioc_size tf.arg1))
  ]

  accept-Safe :
      (tf : TrapFrame)
      → end_params abi mmap_base mem (accept_params abi mmap_base mem tf) ≡ pass
      → All (IsSafe mmap_base mem) (accesses abi mem sys_accept tf)
  unfolding accept_params accesses
  accept-Safe tf = elim (Bool-cases (tf.arg2 == 0)) [
    | inl null ↦ rw null (λ h. tt)
    | inr some_len ↦
        rw some_len (elim (Bool-cases (extent_fails mmap_base tf.arg2 (abi.size socklen_t))) [
          | inl fails ↦
              rw fails
                (λ h. absurd (true≢false (passed abi mmap_base mem above room 0 0 0 true h).no_err))
          | inr fits ↦ rw fits (elim (Bool-cases (tf.arg1 == 0)) [
            | inl no_ptr ↦ rw no_ptr (λ h. absurd (not_died h))
            | inr some_ptr ↦ rw some_ptr (λ h. (
              inr (inr (extent abi mmap_base mem above room tf.arg2 (abi.size socklen_t) fits)),
              one abi mmap_base mem above room tf.arg1 (load 4 mem tf.arg2) h,
            ))
          ])
        ])
  ]
    where
      not_died : end_params abi mmap_base mem die ≡ pass → ⊥
      not_died e = dies abi mmap_base mem above room e

  fcntl-Safe :
      (tf : TrapFrame)
      → end_params abi mmap_base mem (fcntl_params abi mmap_base mem tf) ≡ pass
      → All (IsSafe mmap_base mem) (accesses abi mem sys_fcntl tf)
  unfolding fcntl_params accesses
  fcntl-Safe tf = elim (Bool-cases (abi.is_plain tf.arg1)) [
    | inl plain ↦ rw plain (λ h. tt)
    | inr points ↦ rw points (elim (Bool-cases (abi.is_lock tf.arg1)) [
      | inl lock ↦ rw lock (one abi mmap_base mem above room tf.arg2 (abi.size flock))
      | inr unknown ↦
          rw unknown
            (λ h. absurd (true≢false (passed abi mmap_base mem above room 0 0 0 true h).no_err))
    ])
  ]

  sigprocmask-Safe :
      (tf : TrapFrame)
      → end_params abi mmap_base mem (switch_params abi mmap_base mem sys_rt_sigprocmask tf) ≡ pass
      → All (IsSafe mmap_base mem) (accesses abi mem sys_rt_sigprocmask tf)
  unfolding switch_params accesses
  sigprocmask-Safe tf h =
      let (second, h1) = after abi mmap_base mem above room tf.arg2 (abi.size sigset_t) _ h in
      (first h1, (second, tt))
    where
      first :
          end_params abi mmap_base mem (
              if tf.arg1 == 0
              then pointer abi mmap_base mem 0 0
              else pointer abi mmap_base mem tf.arg1 (abi.size sigset_t))
            ≡ pass
          → IsSafe mmap_base mem (range tf.arg1 (abi.size sigset_t))
      first = elim (Bool-cases (tf.arg1 == 0)) [
        | inl null ↦ λ h. inl (==→eq _ _ null)
        | inr some_ptr ↦ rw some_ptr (λ h.
            (passed abi mmap_base mem above room tf.arg1 (abi.size sigset_t) 0 false h).for_ptr)
      ]

  execve-Safe :
      (tf : TrapFrame)
      → end_params abi mmap_base mem (switch_params abi mmap_base mem sys_execve tf) ≡ pass
      → All (IsSafe mmap_base mem) (accesses abi mem sys_execve tf)
  unfolding switch_params accesses
  execve-Safe tf h = (
    inr (
        (string_fails_lem mmap_base mem tf.arg0 above room).0
          (passed abi mmap_base mem above room 0 0 0 _ h).no_err),
    tt,
  )

  switched-Safe :
      (call : Sysno) (tf : TrapFrame)
      → end_params abi mmap_base mem (switch_params abi mmap_base mem call tf) ≡ pass
      → All (IsSafe mmap_base mem) (accesses abi mem call tf)
  unfolding switch_params accesses
  switched-Safe sys_uname tf h = one abi mmap_base mem above room tf.arg0 (abi.size utsname) h
  switched-Safe sys_arch_prctl tf h = arch_prctl-Safe tf h
  switched-Safe sys_access tf h = string abi mmap_base mem above room tf.arg0 h
  switched-Safe sys_open tf h = string abi mmap_base mem above room tf.arg0 h
  switched-Safe sys_unlink tf h = string abi mmap_base mem above room tf.arg0 h
  switched-Safe sys_openat tf h = string abi mmap_base mem above room tf.arg1 h
  switched-Safe sys_getdents tf h = one abi mmap_base mem above room tf.arg1 tf.arg2 h
  switched-Safe sys_read tf h = one abi mmap_base mem above room tf.arg1 tf.arg2 h
  switched-Safe sys_write tf h = one abi mmap_base mem above room tf.arg1 tf.arg2 h
  switched-Safe sys_connect tf h = one abi mmap_base mem above room tf.arg1 tf.arg2 h
  switched-Safe sys_bind tf h = one abi mmap_base mem above room tf.arg1 tf.arg2 h
  switched-Safe sys_writev tf h =
      iovec-IsSafe abi mmap_base mem above room tf.arg1 tf.arg2
        (passed abi mmap_base mem above room 0 0 0 _ h).no_err
  switched-Safe sys_readv tf h =
      iovec-IsSafe abi mmap_base mem above room tf.arg1 tf.arg2
        (passed abi mmap_base mem above room 0 0 0 _ h).no_err
  switched-Safe sys_stat tf h = both abi mmap_base mem above room tf.arg1 (abi.size stat) tf.arg0 h
  switched-Safe sys_lstat tf h = both abi mmap_base mem above room tf.arg1 (abi.size stat) tf.arg0 h
  switched-Safe sys_fstat tf h = one abi mmap_base mem above room tf.arg1 (abi.size stat) h
  switched-Safe sys_statfs tf h =
      both abi mmap_base mem above room tf.arg1 (abi.size statfs) tf.arg0 h
  switched-Safe sys_time tf h = one abi mmap_base mem above room tf.arg0 (abi.size time_t) h
  switched-Safe sys_epoll_ctl tf h =
      one abi mmap_base mem above room tf.arg3 (abi.size epoll_event) h
  switched-Safe sys_epoll_wait tf h =
      one abi mmap_base mem above room tf.arg1 (tf.arg2 * abi.size epoll_event % 2 ^ 64) h
  switched-Safe sys_setsockopt tf h = one abi mmap_base mem above room tf.arg3 tf.arg4 h
  switched-Safe sys_accept tf h = accept-Safe tf h
  switched-Safe sys_fcntl tf h = fcntl-Safe tf h
  switched-Safe sys_ioctl tf h = ioctl-Safe tf h
  switched-Safe sys_setgroups tf h =
      one abi mmap_base mem above room tf.arg1 (abi.size gid_t * tf.arg0 % 2 ^ 64) h
  switched-Safe sys_rt_sigaction tf h =
      let (second, first) =
        after abi mmap_base mem above room tf.arg2 (abi.size sigaction)
          (pointer abi mmap_base mem tf.arg1 (abi.size sigaction)) h in
      (
        (passed abi mmap_base mem above room tf.arg1 (abi.size sigaction) 0 false first).for_ptr,
        (second, tt),
      )
  switched-Safe sys_sigaltstack tf h =
      one abi mmap_base mem above room tf.arg1 (abi.size sigset_t) h
  switched-Safe sys_signalfd tf h = one abi mmap_base mem above room tf.arg1 (abi.size sigset_t) h
  switched-Safe sys_signalfd4 tf h = one abi mmap_base mem above room tf.arg1 (abi.size sigset_t) h
  switched-Safe sys_rt_sigpending tf h =
      one abi mmap_base mem above room tf.arg0 (abi.size sigset_t) h
  switched-Safe sys_rt_sigprocmask tf h = sigprocmask-Safe tf h
  switched-Safe sys_rt_sigreturn tf h = tt
  switched-Safe sys_rt_sigsuspend tf h =
      one abi mmap_base mem above room tf.arg0 (abi.size sigset_t) h
  switched-Safe sys_rt_sigqueueinfo tf h =
      one abi mmap_base mem above room tf.arg1 (abi.size siginfo_t) h
  switched-Safe sys_rt_sigtimedwait tf h =
      let (first, h1) = after_must abi mmap_base mem above room tf.arg0 (abi.size siginfo_t) _ h in
      let (second, h2) =
        after_must abi mmap_base mem above room tf.arg1 (abi.size siginfo_t) _ h1 in
      (
        first,
        (second, ((after abi mmap_base mem above room tf.arg2 (abi.size timespec) _ h2).0, tt)),
      )
  switched-Safe sys_brk tf h = tt
  switched-Safe sys_mprotect tf h = tt
  switched-Safe sys_munmap tf h = tt
  switched-Safe sys_mmap tf h = tt
  switched-Safe sys_mremap tf h = tt
  switched-Safe sys_shmat tf h = tt
  switched-Safe sys_clone tf h = tt
  switched-Safe sys_getcwd tf h = one abi mmap_base mem above room tf.arg0 tf.arg1 h
  switched-Safe sys_getrlimit tf h = one abi mmap_base mem above room tf.arg1 (abi.size rlimit) h
  switched-Safe sys_sendfile tf h = one abi mmap_base mem above room tf.arg2 (abi.size off_t) h
  switched-Safe sys_close tf h = tt
  switched-Safe sys_execve tf h = execve-Safe tf h
  switched-Safe sys_exit tf h = tt
  switched-Safe sys_exit_group tf h = tt
  switched-Safe (other n) tf h = tt

  -- A system call that passes the check reads and writes through its parameters only memory of the
  -- program: every range that it names is NULL, empty, within the program's image, within the
  -- eight gigabytes from mmap_base on, or passes the top of the address space; and at every path
  -- that is not NULL there is a string in that memory. mmap_base lies above the image with room for
  -- the eight gigabytes.
  pub check_params-Safe :
      (tf : TrapFrame)
      → check_params abi mmap_base mem tf ≡ pass
      → All (IsSafe mmap_base mem) (accesses abi mem (abi.call tf.rax) tf)
  unfolding check_params
  check_params-Safe tf h = switched-Safe (abi.call tf.rax) tf h
