-- ===== src/Spawn/Patch/Buffers.antt =====
-- What the buffers of patched calls hold.
use libdbos.Common.{
  ℕ, ◌+◌, ◌≤◌, ◌<◌, ◌≡◌, refl, ap, ◌∙◌, ◌⊎◌, inl, inr, true, some, le→leb, lt→ltb, lt→leb, le→ltb,
  arith,
}
use libdbos.Spawn.Patch.{
  Frame, Bytes, copy_bytes, is_positive, Passthrough, sys_patch_write, sys_patch_read,
}

copy_bytes-within :
    (to from n off : ℕ) (mem : Bytes)
    → off < n
    → copy_bytes to from n mem (to + off) ≡ mem (from + off)
unfolding copy_bytes
copy_bytes-within to from n off mem h =
    rw (le→leb to (to + off) (omega arith), lt→ltb (to + off) (to + n) (omega arith))
      (ap mem (omega arith))

-- Outside `n` bytes from `to`.
abbrev pub Beyond : (to n b : ℕ) → Type 0
Beyond to n b = (b < to) ⊎ (to + n ≤ b)

copy_bytes-Beyond :
    (to from n b : ℕ) (mem : Bytes) → Beyond to n b → copy_bytes to from n mem b ≡ mem b
unfolding copy_bytes
copy_bytes-Beyond to from n b mem (inl low) = rw (lt→leb to b low) refl
copy_bytes-Beyond to from n b mem (inr high) =
    rw (le→leb to b (omega arith), le→ltb b (to + n) high) refl

-- The host gets the frame with the workspace for a buffer, and a memory in which the workspace
-- holds the user's bytes; what it returns is the result.
pub record Written (p : Passthrough) (workspace size : ℕ) (tf : Frame) (mem : Bytes) : Type 0 where
  pub seen : Bytes
  pub returns :
      sys_patch_write p workspace size tf mem
      ≡ some (
        record tf { rax = (p (record tf { arg1 = workspace }) seen).0 },
        (p (record tf { arg1 = workspace }) seen).1,
      )
  pub content : (off : ℕ) → off < tf.arg2 → seen (workspace + off) ≡ mem (tf.arg1 + off)
  pub elsewhere : (b : ℕ) → Beyond workspace tf.arg2 b → seen b ≡ mem b

-- The patched write of at most as many bytes as the workspace has: the host is called once, with
-- the workspace as the buffer; there it finds the bytes of the user's buffer, and no byte outside
-- the part of the workspace that is used has changed; its result is the user's result.
pub sys_patch_write-Written :
    (p : Passthrough) (workspace size : ℕ) (tf : Frame) (mem : Bytes)
    → tf.arg2 ≤ size
    → Written p workspace size tf mem
unfolding sys_patch_write
sys_patch_write-Written p workspace size tf mem fits = record {
  seen = copy_bytes workspace tf.arg1 tf.arg2 mem;
  returns = rw (le→leb tf.arg2 size fits) refl;
  content = λ off h. copy_bytes-within workspace tf.arg1 tf.arg2 off mem h;
  elsewhere = λ b out. copy_bytes-Beyond workspace tf.arg1 tf.arg2 b mem out;
}

-- The patched read copies as many bytes as were asked for, however many were read. When the host
-- reads fewer, a positive number `ret`, and writes only so many bytes into the workspace, each
-- byte of the user's buffer from `ret` on is overwritten with what the workspace held before.
pub sys_patch_read-overwrites :
    (p : Passthrough) (workspace size ret off : ℕ) (tf : Frame) (mem mem' : Bytes)
    → tf.arg2 ≤ size
    → p (record tf { arg1 = workspace }) mem ≡ (ret, mem')
    → is_positive ret ≡ true
    → ((b : ℕ) → Beyond workspace ret b → mem' b ≡ mem b)
    → ret ≤ off
    → off < tf.arg2
    → (end : Bytes) × (sys_patch_read p workspace size tf mem ≡ some (record tf { rax = ret }, end))
      × (end (tf.arg1 + off) ≡ mem (workspace + off))
unfolding sys_patch_read
sys_patch_read-overwrites p workspace size ret off tf mem mem' fits called some_read only late
      inside =
    rw (le→leb tf.arg2 size fits, called, some_read)
      (
        _,
        refl,
        copy_bytes-within tf.arg1 workspace tf.arg2 off mem' inside
            ∙ only (workspace + off) (inr (omega arith)),
      )
