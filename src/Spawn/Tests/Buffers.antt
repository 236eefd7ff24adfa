-- ===== src/Spawn/Tests/Buffers.antt =====
-- Patched system calls and a batch of flushes.
use libdbos.Common.{ℕ, ◌≡◌, inl, inr, true, false, leb, ◌==◌, if◌then◌else◌, arith}
use libdbos.Ipi.{IpiMessage, batchable}
use libdbos.Spawn.Patch.{Frame, Bytes, Passthrough}
use libdbos.Spawn.Patch.Buffers.{Beyond, Written, sys_patch_write-Written}
use libdbos.Spawn.Flush.{Args}

-- A host that reads 2 bytes, 7 and 8, whatever is asked for.
abbrev two_bytes : Passthrough
two_bytes tf mem = (2, λ b. if b == 0x9000 then 7 else if b == 0x9001 then 8 else mem b)

-- 4 bytes at 0x100
abbrev call : Frame
call = record { rax = 0; arg0 = 3; arg1 = 0x100; arg2 = 4 }

-- The workspace at 0x9000 holds 99s.
abbrev bytes : Bytes
bytes b = if leb 0x9000 b then 99 else 1

only_two : (b : ℕ) → Beyond 0x9000 2 b → (two_bytes call bytes).1 b ≡ bytes b
only_two b (inl low) = ground arith
only_two b (inr high) = ground arith

sys_patch_write-Written_example : Written two_bytes 0x9000 4096 call bytes
sys_patch_write-Written_example =
    sys_patch_write-Written two_bytes 0x9000 4096 call bytes (omega arith)

abbrev ask : ℕ → IpiMessage
ask arg = record { func = 9; type = batchable; arg = arg }

-- Two arguments, at 0x100 and 0x200.
abbrev args : Args
args = record {
  word = λ a. if a == 0x100 then 0x7000 else if a == 0x200 then 0x8000 else 0;
  ready_to_flush = λ a. true;
  flushed = λ a. false;
}
