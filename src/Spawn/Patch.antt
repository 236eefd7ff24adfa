-- ===== src/Spawn/Patch.antt =====
-- System calls of the snapshot's thread, libdune/fast_spawn.c: their buffers go through a
-- workspace that is not copied on write.
pub mod Buffers
use libdbos.Common.{
  ℕ, zero, suc, ◌+◌, ◌-◌, ◌*◌, ◌%◌, ◌^◌, Bool, true, false, not, ◌&&◌, Option, none, some, leb, ltb,
  ◌==◌, if◌then◌else◌,
}

-- The registers of `struct dune_tf` that the patches use.
pub record Frame : Type 0 where
  pub rax : ℕ
  pub arg0 : ℕ
  pub arg1 : ℕ
  pub arg2 : ℕ

-- Memory by bytes.
abbrev pub Bytes : Type 0
Bytes = ℕ → ℕ

-- `memcpy(to, from, n)` of areas that do not overlap
unfoldable pub copy_bytes : (to from n : ℕ) → Bytes → Bytes
copy_bytes to from n mem = λ b. if leb to b && ltb b (to + n) then mem (b - to + from) else mem b

-- `ssize_t` results: `ret > 0`
abbrev pub is_positive : ℕ → Bool
is_positive ret = not (ret == 0) && ltb ret (2 ^ 63)

-- What the host does for a system call: `dune_passthrough_g0_syscall`, whose result is in `rax`.
abbrev pub Passthrough : Type 0
Passthrough = Frame → Bytes → ℕ × Bytes

module _ (passthrough : Passthrough) (workspace size : ℕ) where
  -- `dune_sys_patch_write`
  pub sys_patch_write : Frame → Bytes → Option (Frame × Bytes)
  sys_patch_write tf mem =
      if leb tf.arg2 size
      then (let (ret, mem') =
            passthrough (record tf { arg1 = workspace })
              (copy_bytes workspace tf.arg1 tf.arg2 mem) in
          some (record tf { rax = ret }, mem'))
      else none

  -- `dune_sys_patch_read`
  pub sys_patch_read : Frame → Bytes → Option (Frame × Bytes)
  sys_patch_read tf mem =
      if leb tf.arg2 size
      then (let (ret, mem') = passthrough (record tf { arg1 = workspace }) mem in
          some (
            record tf { rax = ret },
            if is_positive ret then copy_bytes tf.arg1 workspace tf.arg2 mem' else mem',
          ))
      else none

  -- `dune_sys_patch_epoll_wait`; an event has 12 bytes, and `maxevents` is an `int`, whose product
  -- with the size is one of 64 bits.
  pub sys_patch_epoll_wait : Frame → Bytes → Option (Frame × Bytes)
  sys_patch_epoll_wait tf mem =
      let maxevents = tf.arg2 % 2 ^ 32 in
      let extended = if ltb maxevents (2 ^ 31) then maxevents else 2 ^ 64 - 2 ^ 32 + maxevents in
      if leb (12 * extended % 2 ^ 64) size
      then (let (ret, mem') = passthrough (record tf { arg1 = workspace }) mem in
          some (
            record tf { rax = ret },
            if is_positive ret then copy_bytes tf.arg1 workspace (12 * ret % 2 ^ 64) mem' else mem',
          ))
      else none

  -- `dune_sys_patch_open`. `strlen` is the C library's; it is called before the test for NULL.
  pub sys_patch_open : (strlen : Bytes → ℕ → Option ℕ) → Frame → Bytes → Option (Frame × Bytes)
  sys_patch_open strlen tf mem = elim (strlen mem tf.arg0) [
    | none ↦ none
    | some len ↦
        let ended =
          λ (b : ℕ). if b == workspace + len then 0 else copy_bytes workspace tf.arg0 len mem b in
        if not (leb (len + 1) size)
        then none
        else if tf.arg0 == 0
        then (let (ret, mem') = passthrough tf mem in some (record tf { rax = ret }, mem'))
        else (let (ret, mem') = passthrough (record tf { arg0 = workspace }) ended in
            some (record tf { rax = ret }, mem'))
  ]

  -- The dispatch of `dune_fast_spawn_syscall_handler` on the number of the call; the counters of
  -- calls and cycles are left out. Only the snapshot's core is patched.
  pub syscall_handler :
      (strlen : Bytes → ℕ → Option ℕ) (cpu_id snapshot_core : ℕ)
      → Frame
      → Bytes
      → Option (Frame × Bytes)
  syscall_handler strlen cpu_id snapshot_core tf mem =
      let passed = let (ret, mem') = passthrough tf mem in some (record tf { rax = ret }, mem') in
      let syscall_num = tf.rax % 2 ^ 32 in
      if not (cpu_id == snapshot_core)
      then passed
      else if syscall_num == 2
      then sys_patch_open strlen tf mem
      else if syscall_num == 1
      then sys_patch_write tf mem
      else if syscall_num == 0
      then sys_patch_read tf mem
      else if syscall_num == 232
      then sys_patch_epoll_wait tf mem
      else passed
