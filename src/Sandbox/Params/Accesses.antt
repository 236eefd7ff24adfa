-- ===== src/Sandbox/Params/Accesses.antt =====
-- What the system calls that the sandbox checks read and write through the parameters that it
-- checks, and which memory is the program's.
use libdbos.Common.{
  ℕ, zero, suc, ◌+◌, ◌*◌, ◌%◌, ◌^◌, ◌<◌, ◌≡◌, ◌⊎◌, List, [], ◌∷◌, ◌==◌, if◌then◌else◌,
}
use libdbos.Umm.Safe.{InApp}
use libdbos.Sandbox.Check.{Bytes, load}
use libdbos.Sandbox.Check.Strings.{StringInApp}
use libdbos.Sandbox.Params.{
  Sysno, Abi, TrapFrame, sys_uname, sys_arch_prctl, sys_access, sys_open, sys_unlink, sys_openat,
  sys_getdents, sys_read, sys_write, sys_connect, sys_bind, sys_writev, sys_readv, sys_stat,
  sys_lstat, sys_fstat, sys_statfs, sys_time, sys_epoll_ctl, sys_epoll_wait, sys_setsockopt,
  sys_accept, sys_fcntl, sys_ioctl, sys_setgroups, sys_rt_sigaction, sys_sigaltstack, sys_signalfd,
  sys_signalfd4, sys_rt_sigpending, sys_rt_sigprocmask, sys_rt_sigsuspend, sys_rt_sigqueueinfo,
  sys_rt_sigtimedwait, sys_getcwd, sys_getrlimit, sys_sendfile, sys_execve, utsname, unsigned_long,
  stat, statfs, time_t, epoll_event, socklen_t, flock, gid_t, sigaction, sigset_t, siginfo_t,
  timespec, rlimit, off_t,
}

-- Memory that a system call reads or writes: a range, or a string with its zero byte.
pub data Access : Type 0 where
  range : (ptr len : ℕ) → Access
  text : ℕ → Access

-- Memory of the program, or none: a NULL pointer or an empty range. A range that passes the top of
-- the address space is not covered.
abbrev pub IsSafe : (mmap_base : ℕ) → Bytes → Access → Type 0
IsSafe mmap_base mem (range ptr len) =
    (ptr ≡ 0) ⊎ ((len ≡ 0) ⊎ (ptr + len < 2 ^ 64 → InApp mmap_base ptr (ptr + len)))
IsSafe mmap_base mem (text ptr) = (ptr ≡ 0) ⊎ StringInApp mmap_base mem ptr

abbrev pub All : (Access → Type 0) → List Access → Type 0
All P [] = Unit
All P (a ∷ rest) = P a × All P rest

-- The buffers of `n` structures `iovec`.
unfoldable pub buffers : (n : ℕ) → Bytes → ℕ → List Access
buffers zero mem iov = []
buffers (suc n) mem iov = range (load 8 mem iov) (load 8 mem (iov + 8)) ∷ buffers n mem (iov + 16)

-- The ranges and paths of the system calls in the switch of `syscall_check_params`, with the lengths
-- that the kernel takes. There are none for the other calls, for which nothing is checked, though
-- many of them take pointers (pread64, rename, sendto, recvmsg); and none for the lists of pointers
-- of execve and the thread identifiers of clone.
unfoldable pub accesses : (abi : Abi) → Bytes → Sysno → TrapFrame → List Access
accesses abi mem sys_uname tf = range tf.arg0 (abi.size utsname) ∷ []
accesses abi mem sys_arch_prctl tf =
    if tf.arg0 == abi.arch_get_fs then range tf.arg1 (abi.size unsigned_long) ∷ [] else []
accesses abi mem sys_access tf = text tf.arg0 ∷ []
accesses abi mem sys_open tf = text tf.arg0 ∷ []
accesses abi mem sys_unlink tf = text tf.arg0 ∷ []
accesses abi mem sys_openat tf = text tf.arg1 ∷ []
accesses abi mem sys_getdents tf = range tf.arg1 tf.arg2 ∷ []
accesses abi mem sys_read tf = range tf.arg1 tf.arg2 ∷ []
accesses abi mem sys_write tf = range tf.arg1 tf.arg2 ∷ []
accesses abi mem sys_connect tf = range tf.arg1 tf.arg2 ∷ []
accesses abi mem sys_bind tf = range tf.arg1 tf.arg2 ∷ []
accesses abi mem sys_writev tf =
    range tf.arg1 (tf.arg2 % 2 ^ 32 * 16) ∷ buffers (tf.arg2 % 2 ^ 32) mem tf.arg1
accesses abi mem sys_readv tf =
    range tf.arg1 (tf.arg2 % 2 ^ 32 * 16) ∷ buffers (tf.arg2 % 2 ^ 32) mem tf.arg1
accesses abi mem sys_stat tf = text tf.arg0 ∷ range tf.arg1 (abi.size stat) ∷ []
accesses abi mem sys_lstat tf = text tf.arg0 ∷ range tf.arg1 (abi.size stat) ∷ []
accesses abi mem sys_fstat tf = range tf.arg1 (abi.size stat) ∷ []
accesses abi mem sys_statfs tf = text tf.arg0 ∷ range tf.arg1 (abi.size statfs) ∷ []
accesses abi mem sys_time tf = range tf.arg0 (abi.size time_t) ∷ []
accesses abi mem sys_epoll_ctl tf = range tf.arg3 (abi.size epoll_event) ∷ []
accesses abi mem sys_setsockopt tf = range tf.arg3 tf.arg4 ∷ []
accesses abi mem sys_accept tf =
    if tf.arg2 == 0
    then []
    else range tf.arg2 (abi.size socklen_t) ∷ range tf.arg1 (load 4 mem tf.arg2) ∷ []
accesses abi mem sys_fcntl tf =
    if abi.is_plain tf.arg1 then [] else range tf.arg2 (abi.size flock) ∷ []
accesses abi mem sys_ioctl tf =
    if abi.ioc_dir tf.arg1 == 0 then [] else range tf.arg2 (abi.ioc_size tf.arg1) ∷ []
accesses abi mem sys_rt_sigaction tf =
    range tf.arg1 (abi.size sigaction) ∷ range tf.arg2 (abi.size sigaction) ∷ []
accesses abi mem sys_rt_sigprocmask tf =
    range tf.arg1 (abi.size sigset_t) ∷ range tf.arg2 (abi.size sigset_t) ∷ []
accesses abi mem sys_rt_sigtimedwait tf =
    range tf.arg0 (abi.size siginfo_t)
    ∷ range tf.arg1 (abi.size siginfo_t)
    ∷ range tf.arg2 (abi.size timespec)
    ∷ []
accesses abi mem sys_sigaltstack tf = range tf.arg1 (abi.size sigset_t) ∷ []
accesses abi mem sys_signalfd tf = range tf.arg1 (abi.size sigset_t) ∷ []
accesses abi mem sys_signalfd4 tf = range tf.arg1 (abi.size sigset_t) ∷ []
accesses abi mem sys_rt_sigpending tf = range tf.arg0 (abi.size sigset_t) ∷ []
accesses abi mem sys_rt_sigsuspend tf = range tf.arg0 (abi.size sigset_t) ∷ []
accesses abi mem sys_rt_sigqueueinfo tf = range tf.arg1 (abi.size siginfo_t) ∷ []
accesses abi mem sys_getcwd tf = range tf.arg0 tf.arg1 ∷ []
accesses abi mem sys_getrlimit tf = range tf.arg1 (abi.size rlimit) ∷ []
accesses abi mem sys_sendfile tf = range tf.arg2 (abi.size off_t) ∷ []
accesses abi mem sys_execve tf = text tf.arg0 ∷ []
accesses abi mem sys_epoll_wait tf = range tf.arg1 (tf.arg2 * abi.size epoll_event % 2 ^ 64) ∷ []
accesses abi mem sys_setgroups tf = range tf.arg1 (abi.size gid_t * tf.arg0 % 2 ^ 64) ∷ []
accesses abi mem call tf = []
