-- ===== src/Sandbox/Params.antt =====
-- `syscall_check_params` of apps/sandbox/trap.c: the parameters of each system call.
pub mod Accesses
pub mod Ranges
pub mod Safe
use libdbos.Common.{
  ℕ, ◌+◌, ◌-◌, ◌*◌, ◌%◌, ◌^◌, Bool, true, false, not, ◌&&◌, ltb, ◌==◌, if◌then◌else◌,
}
use libdbos.Sandbox.Check.{Bytes, load, extent_fails, string_fails, iovec_fails}

-- The system calls that trap.c names, and the others by their numbers.
pub data Sysno : Type 0 where
  sys_uname sys_arch_prctl sys_access sys_open sys_unlink sys_openat : Sysno
  sys_getdents sys_read sys_write sys_connect sys_bind sys_writev sys_readv : Sysno
  sys_stat sys_lstat sys_fstat sys_statfs sys_time sys_epoll_ctl sys_epoll_wait : Sysno
  sys_setsockopt sys_accept sys_fcntl sys_ioctl sys_setgroups sys_rt_sigaction : Sysno
  sys_sigaltstack sys_signalfd sys_signalfd4 sys_rt_sigpending sys_rt_sigprocmask : Sysno
  sys_rt_sigreturn sys_rt_sigsuspend sys_rt_sigqueueinfo sys_rt_sigtimedwait : Sysno
  sys_brk sys_mprotect sys_munmap sys_mmap sys_mremap sys_shmat sys_clone sys_getcwd : Sysno
  sys_getrlimit sys_sendfile sys_close sys_execve sys_exit sys_exit_group : Sysno
  other : ℕ → Sysno

-- The types whose `sizeof` is taken.
pub data Struct : Type 0 where
  utsname unsigned_long stat statfs time_t epoll_event socklen_t flock gid_t : Struct
  sigaction sigset_t siginfo_t timespec rlimit off_t : Struct

-- The kernel's headers: the numbers of system calls, sizes, the commands of fcntl that take no
-- pointer and those that take a lock, the fields of an ioctl's number, and of arch_prctl the code
-- of ARCH_GET_FS and of ARCH_SET_FS.
pub record Abi : Type 0 where
  pub call : ℕ → Sysno
  pub size : Struct → ℕ
  pub is_plain : ℕ → Bool
  pub is_lock : ℕ → Bool
  pub ioc_dir : ℕ → ℕ
  pub ioc_size : ℕ → ℕ
  pub arch_get_fs : ℕ
  pub arch_set_fs : ℕ

-- `struct dune_tf`, as far as the handler uses it
pub record TrapFrame : Type 0 where
  pub rax : ℕ
  pub arg0 : ℕ
  pub arg1 : ℕ
  pub arg2 : ℕ
  pub arg3 : ℕ
  pub arg4 : ℕ
  pub arg5 : ℕ

-- What the switch ends with: `ptr`, `len`, `str` and whether `err` is set; or a return of -1 with
-- a value in `rax`; or a failed `assert`.
pub data Switched : Type 0 where
  params : (ptr len str : ℕ) (err : Bool) → Switched
  refuse : ℕ → Switched
  die : Switched

-- The result of the check.
pub data Checked : Type 0 where
  pass : Checked
  refused : (rax : ℕ) → Checked
  died : Checked

-- `-EFAULT` in `rax`
abbrev pub efault : ℕ
efault = 2 ^ 64 - 14

module _ (abi : Abi) (mmap_base : ℕ) (mem : Bytes) where
  abbrev pub pointer : (ptr len : ℕ) → Switched
  pointer ptr len = params ptr len 0 false

  -- A second pointer, which may be NULL, is tested before the first.
  abbrev pub and_then : (ptr len : ℕ) → Switched → Switched
  and_then ptr len next =
      if not (ptr == 0) && extent_fails mmap_base ptr len then refuse efault else next

  -- A pointer that is tested even if it is NULL.
  abbrev pub must_pass : (ptr len : ℕ) → Switched → Switched
  must_pass ptr len next = if extent_fails mmap_base ptr len then refuse efault else next

  -- `case SYS_accept`
  unfoldable pub accept_params : TrapFrame → Switched
  accept_params tf =
      if tf.arg2 == 0
      then pointer 0 0
      else if extent_fails mmap_base tf.arg2 (abi.size socklen_t)
      then params 0 0 0 true
      else if tf.arg1 == 0
      then die
      else pointer tf.arg1 (load 4 mem tf.arg2)

  -- `case SYS_fcntl`
  unfoldable pub fcntl_params : TrapFrame → Switched
  fcntl_params tf =
      if abi.is_plain tf.arg1
      then pointer 0 0
      else if abi.is_lock tf.arg1
      then pointer tf.arg2 (abi.size flock)
      else params 0 0 0 true

  -- `case SYS_rt_sigaction`
  abbrev pub sigaction_params : TrapFrame → Switched
  sigaction_params tf = and_then tf.arg2 (abi.size sigaction) (pointer tf.arg1 (abi.size sigaction))

  -- `case SYS_rt_sigprocmask`
  abbrev pub sigprocmask_params : TrapFrame → Switched
  sigprocmask_params tf =
      and_then tf.arg2 (abi.size sigset_t)
        (if tf.arg1 == 0 then pointer 0 0 else pointer tf.arg1 (abi.size sigset_t))

  -- `case SYS_rt_sigtimedwait`
  abbrev pub sigtimedwait_params : TrapFrame → Switched
  sigtimedwait_params tf =
      must_pass tf.arg0 (abi.size siginfo_t) (
        must_pass tf.arg1 (abi.size siginfo_t) (and_then tf.arg2 (abi.size timespec) (pointer 0 0)))

  -- The switch of `syscall_check_params`.
  unfoldable pub switch_params : Sysno → TrapFrame → Switched
  switch_params sys_uname tf = pointer tf.arg0 (abi.size utsname)
  switch_params sys_arch_prctl tf =
      if tf.arg0 == abi.arch_get_fs then pointer tf.arg1 (abi.size unsigned_long) else pointer 0 0
  switch_params sys_access tf = params 0 0 tf.arg0 false
  switch_params sys_open tf = params 0 0 tf.arg0 false
  switch_params sys_unlink tf = params 0 0 tf.arg0 false
  switch_params sys_openat tf = params 0 0 tf.arg1 false
  switch_params sys_getdents tf = pointer tf.arg1 tf.arg2
  switch_params sys_read tf = pointer tf.arg1 tf.arg2
  switch_params sys_write tf = pointer tf.arg1 tf.arg2
  switch_params sys_connect tf = pointer tf.arg1 tf.arg2
  switch_params sys_bind tf = pointer tf.arg1 tf.arg2
  switch_params sys_writev tf = params 0 0 0 (iovec_fails mmap_base mem tf.arg1 tf.arg2)
  switch_params sys_readv tf = params 0 0 0 (iovec_fails mmap_base mem tf.arg1 tf.arg2)
  switch_params sys_stat tf = params tf.arg1 (abi.size stat) tf.arg0 false
  switch_params sys_lstat tf = params tf.arg1 (abi.size stat) tf.arg0 false
  switch_params sys_fstat tf = pointer tf.arg1 (abi.size stat)
  switch_params sys_statfs tf = params tf.arg1 (abi.size statfs) tf.arg0 false
  switch_params sys_time tf = pointer tf.arg0 (abi.size time_t)
  switch_params sys_epoll_ctl tf = pointer tf.arg3 (abi.size epoll_event)
  switch_params sys_epoll_wait tf = pointer tf.arg1 (tf.arg2 * abi.size epoll_event % 2 ^ 64)
  switch_params sys_setsockopt tf = pointer tf.arg3 tf.arg4
  switch_params sys_accept tf = accept_params tf
  switch_params sys_fcntl tf = fcntl_params tf
  switch_params sys_ioctl tf =
      if abi.ioc_dir tf.arg1 == 0 then pointer 0 0 else pointer tf.arg2 (abi.ioc_size tf.arg1)
  switch_params sys_setgroups tf = pointer tf.arg1 (abi.size gid_t * tf.arg0 % 2 ^ 64)
  switch_params sys_rt_sigaction tf = sigaction_params tf
  switch_params sys_sigaltstack tf = pointer tf.arg1 (abi.size sigset_t)
  switch_params sys_signalfd tf = pointer tf.arg1 (abi.size sigset_t)
  switch_params sys_signalfd4 tf = pointer tf.arg1 (abi.size sigset_t)
  switch_params sys_rt_sigpending tf = pointer tf.arg0 (abi.size sigset_t)
  switch_params sys_rt_sigprocmask tf = sigprocmask_params tf
  switch_params sys_rt_sigreturn tf = pointer 0 0
  switch_params sys_rt_sigsuspend tf = pointer tf.arg0 (abi.size sigset_t)
  switch_params sys_rt_sigqueueinfo tf = pointer tf.arg1 (abi.size siginfo_t)
  switch_params sys_rt_sigtimedwait tf = sigtimedwait_params tf
  switch_params sys_brk tf = pointer 0 0
  switch_params sys_mprotect tf = pointer 0 0
  switch_params sys_munmap tf = pointer 0 0
  switch_params sys_mmap tf = pointer 0 0
  switch_params sys_mremap tf = pointer 0 0
  switch_params sys_shmat tf = pointer 0 0
  switch_params sys_clone tf = pointer 0 0
  switch_params sys_getcwd tf = pointer tf.arg0 tf.arg1
  switch_params sys_getrlimit tf = pointer tf.arg1 (abi.size rlimit)
  switch_params sys_sendfile tf = pointer tf.arg2 (abi.size off_t)
  switch_params sys_close tf = if ltb tf.arg0 3 then refuse 0 else pointer 0 0
  switch_params sys_execve tf = params 0 0 0 (string_fails mmap_base mem tf.arg0)
  switch_params sys_exit tf = pointer 0 0
  switch_params sys_exit_group tf = pointer 0 0
  switch_params (other n) tf = pointer 0 0

  -- The end of `syscall_check_params`.
  unfoldable pub end_params : Switched → Checked
  end_params (params ptr len str err) =
      if not (ptr == 0) && (not (len == 0) && extent_fails mmap_base ptr len)
      then refused efault
      else if not (str == 0) && string_fails mmap_base mem str
      then refused efault
      else if err
      then refused efault
      else pass
  end_params (refuse rax) = refused rax
  end_params die = died

  -- `syscall_check_params`
  unfoldable pub check_params : TrapFrame → Checked
  check_params tf = end_params (switch_params (abi.call tf.rax) tf)
