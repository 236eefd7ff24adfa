-- ===== src/Vmx/Vpid.antt =====
-- Identifiers of virtual processors: `vmx_allocate_vpid` and `vmx_free_vpid`, each under its lock.
pub mod Unique
use libdbos.Common.{ℕ, zero, suc, ◌+◌, ◌≡◌, Bool, true, false, not, leb, ◌==◌, if◌then◌else◌}

-- `vmx_vpid_bitmap`, of VMX_NR_VPIDS bits
abbrev pub Bitmap : Type 0
Bitmap = ℕ → Bool

-- `__set_bit`, `__clear_bit`
abbrev pub write_bit : ℕ → Bool → Bitmap → Bitmap
write_bit i b map = λ j. if j == i then b else map j

-- `find_first_zero_bit` from the bit `i`, with `n` bits left; `i + n` where all are set.
unfoldable pub find_zero_bit : (n i : ℕ) → Bitmap → ℕ
find_zero_bit zero i map = i
find_zero_bit (suc n) i map = let later = find_zero_bit n (i + 1) map in if map i then later else i

-- The result of `vmx_allocate_vpid`, the identifier of the virtual processor, and the bitmap.
pub record Allocated : Type 0 where
  pub failed : Bool
  pub vpid : ℕ
  pub bitmap : Bitmap

-- `vmx_allocate_vpid`, with `nr` for VMX_NR_VPIDS
unfoldable pub allocate_vpid : (nr : ℕ) → Bitmap → Allocated
allocate_vpid nr map =
    let vpid = find_zero_bit nr 0 map in
    if leb nr vpid
    then record { failed = true; vpid = 0; bitmap = map }
    else record { failed = false; vpid = vpid; bitmap = write_bit vpid true map }

-- `vmx_free_vpid`
unfoldable pub free_vpid : (vpid : ℕ) → Bitmap → Bitmap
free_vpid vpid map = if vpid == 0 then map else write_bit vpid false map

-- The bitmap and the identifier of each virtual processor, 0 for one that has none.
pub record Vcpus : Type 0 where
  pub bitmap : Bitmap
  pub vpid_of : ℕ → ℕ

abbrev pub give_vpid : (vcpu vpid : ℕ) → (ℕ → ℕ) → ℕ → ℕ
give_vpid vcpu vpid vpid_of = λ k. if k == vcpu then vpid else vpid_of k

-- Virtual processors come, where the allocation succeeds, and go.
pub data Step (nr : ℕ) (s : Vcpus) : Vcpus → Type 0 where
  create :
      (vcpu : ℕ)
      → s.vpid_of vcpu ≡ 0
      → (allocate_vpid nr s.bitmap).failed ≡ false
      → Step nr s (record {
        bitmap = (allocate_vpid nr s.bitmap).bitmap;
        vpid_of = give_vpid vcpu (allocate_vpid nr s.bitmap).vpid s.vpid_of;
      })
  destroy :
      (vcpu : ℕ)
      → Step nr s (record {
        bitmap = free_vpid (s.vpid_of vcpu) s.bitmap;
        vpid_of = give_vpid vcpu 0 s.vpid_of;
      })

-- After `vmx_init`: only the identifier of the host is taken.
pub record Starts (s : Vcpus) : Type 0 where
  pub host : s.bitmap 0 ≡ true
  pub none_yet : (k : ℕ) → s.vpid_of k ≡ 0

pub data Reach (nr : ℕ) (s : Vcpus) : Vcpus → Type 0 where
  here : Reach nr s s
  next : {t u : Vcpus} → Reach nr s t → Step nr t u → Reach nr s u
