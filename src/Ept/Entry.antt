-- ===== src/Ept/Entry.antt =====
-- Entries of the extended page tables, and their release. Memory is read by physical address: the
-- code's `__va` and `__pa` are inverse to one another. Locks are not part of the model: each
-- routine runs alone.
use libdbos.Common.{
  ℕ, zero, suc, ◌+◌, ◌*◌, ◌/◌, Bool, true, false, not, Option, none, some, List, bit_and, ltb, leb,
  ◌==◌, if◌then◌else◌,
}

abbrev pub epte_read : ℕ
epte_read = 0x01

abbrev pub epte_write : ℕ
epte_write = 0x02

abbrev pub epte_exec : ℕ
epte_exec = 0x04

abbrev pub epte_ipat : ℕ
epte_ipat = 0x40

abbrev pub epte_sz : ℕ
epte_sz = 0x80

abbrev pub epte_a : ℕ
epte_a = 0x100

abbrev pub epte_d : ℕ
epte_d = 0x200

abbrev pub epte_pfnmap : ℕ
epte_pfnmap = 0x400

-- `EPTE_TYPE_UC`, `EPTE_TYPE_WC` and `EPTE_TYPE_WB` through `__EPTE_TYPE`
pub data CacheType : Type 0 where
  uncachable write_combining write_back : CacheType

abbrev pub epte_type : CacheType → ℕ
epte_type uncachable = 0x00
epte_type write_combining = 0x08
epte_type write_back = 0x30

abbrev pub epte_full : ℕ
epte_full = 0x07

-- A test `x & flag`.
abbrev pub has : ℕ → ℕ → Bool
has x flag = not (bit_and x flag == 0)

-- `epte_addr`
abbrev pub epte_addr : ℕ → ℕ
epte_addr epte = epte / 4096 * 4096

-- `epte_present`
unfoldable pub epte_present : ℕ → Bool
epte_present epte = has epte epte_full

-- `epte_big`
unfoldable pub epte_big : ℕ → Bool
epte_big epte = has epte epte_sz

pub data Errno : Type 0 where
  enoent enomem einval efault : Errno

-- What the kernel offers on pages of memory, by their physical addresses; `none` is NULL.
pub record Host (H : Type 0) : Type 0 where
  pub get_free_page : H → Option (ℕ × H)
  pub free_page : H → ℕ → H
  pub put_page : H → ℕ → H
  pub get_page : H → ℕ → H
  pub set_page_dirty : H → ℕ → H
  pub set_page_dirty_lock : H → ℕ → H

-- `vmx_ept_batch_sync_individual_addr` and `vmx_ept_batch_sync`
pub data Sync : Type 0 where
  sync_addr : ℕ → Sync
  sync_all : Sync

-- The memory, the instance and the counters of a virtual processor, and the flushes so far, the
-- last first.
pub record Ept (H : Type 0) : Type 0 where
  pub mem : ℕ → ℕ
  pub host : H
  pub ept_root : ℕ
  pub ept_ad_enabled : Bool
  pub pgtbl_pages_created : ℕ
  pub host_huge_pages_connected : ℕ
  pub host_4k_pages_connected : ℕ
  pub syncs : List Sync

-- `&dir[i]`
abbrev pub entry : ℕ → ℕ → ℕ
entry dir i = dir + 8 * i

module _ {H : Type 0} where
  -- `*epte = v`
  abbrev pub store : Ept H → ℕ → ℕ → Ept H
  store s a v = record s { mem = λ b. if b == a then v else s.mem b }

  -- `memset(page, 0, PAGE_SIZE)`
  abbrev pub clear_page : Ept H → ℕ → Ept H
  clear_page s page = record s {
    mem = λ b. if leb page b then (if ltb b (page + 4096) then 0 else s.mem b) else s.mem b;
  }

  -- `for (i = 0; i < n; i++)` with so many rounds left.
  pub each : (ℕ → Ept H → Ept H) → ℕ → ℕ → Ept H → Ept H
  each body zero i s = s
  each body (suc n) i s = each body n (i + 1) (body i s)

module _ {H : Type 0} (host : Host H) where
  -- `free_ept_page`
  unfoldable pub free_ept_page : ℕ → H → H
  free_ept_page epte h =
      if has epte epte_pfnmap
      then h
      else host.put_page (if has epte epte_write then host.set_page_dirty h (epte_addr epte) else h)
          (epte_addr epte)

  -- `free_ept_page_lock`
  pub free_ept_page_lock : ℕ → H → H
  free_ept_page_lock epte h =
      if has epte epte_pfnmap
      then h
      else host.put_page
          (if has epte epte_write then host.set_page_dirty_lock h (epte_addr epte) else h)
          (epte_addr epte)

  abbrev pub on_host : (H → H) → Ept H → Ept H
  on_host f s = record s { host = f s.host }

  -- The entries of a last table: `if (!epte_present(pte[i])) continue;` and the release.
  pub free_entries : (ℕ → H → H) → (pte : ℕ) → Ept H → Ept H
  free_entries free pte =
      each
        (λ i s.
          if epte_present (s.mem (entry pte i)) then on_host (free (s.mem (entry pte i))) s else s)
        512 0

  -- One entry of an upper table: skipped, a large page, or a table that is freed with `below`.
  pub free_upper : (ℕ → H → H) → (ℕ → Ept H → Ept H) → ℕ → Ept H → Ept H
  free_upper free below a s =
      if epte_present (s.mem a)
      then (if epte_big (s.mem a)
          then on_host (free (s.mem a)) s
          else let table = epte_addr (s.mem a) in
            on_host (λ h. host.free_page h table) (below table s))
      else s

  -- The loops of `vmx_free_ept`, on each level.
  pub free_pmd : ℕ → Ept H → Ept H
  free_pmd pmd =
      each (λ k. free_upper free_ept_page_lock (free_entries free_ept_page_lock) (entry pmd k)) 512
        0

  pub free_pud : ℕ → Ept H → Ept H
  free_pud pud = each (λ j. free_upper free_ept_page_lock free_pmd (entry pud j)) 512 0

  pub free_pgd_entry : ℕ → Ept H → Ept H
  free_pgd_entry a s =
      if epte_present (s.mem a)
      then on_host (λ h. host.free_page h (epte_addr (s.mem a))) (free_pud (epte_addr (s.mem a)) s)
      else s

  -- `vmx_free_ept`
  pub free_ept : ℕ → Ept H → Ept H
  free_ept ept_root s =
      on_host (λ h. host.free_page h ept_root)
        (each (λ i. free_pgd_entry (entry ept_root i)) 512 0 s)

  -- `ept_clear_epte`: whether there was an entry.
  unfoldable pub clear_epte : ℕ → Ept H → Bool × Ept H
  clear_epte a s =
      if s.mem a == 0 then (false, s) else (true, store (on_host (free_ept_page (s.mem a)) s) a 0)

  -- `ept_clear_l1_epte`
  pub clear_l1_epte : ℕ → Ept H → Bool × Ept H
  clear_l1_epte a s =
      let table = epte_addr (s.mem a) in
      if s.mem a == 0 then (false, s) else (
        true,
        store (on_host (λ h. host.free_page h table) (free_entries free_ept_page table s)) a 0,
      )

  -- `ept_clear_l2_epte`
  pub clear_l2_epte : ℕ → Ept H → Bool × Ept H
  clear_l2_epte a s =
      let table = epte_addr (s.mem a) in
      if s.mem a == 0 then (false, s) else (
        true,
        store
            (on_host (λ h. host.free_page h table)
              (each (λ i. free_upper free_ept_page (free_entries free_ept_page) (entry table i)) 512
                0 s))
            a 0,
      )

-- `vmx_init_ept`; `none` is -ENOMEM.
pub init_ept : {H : Type 0} → Host H → Ept H → Option (Ept H)
init_ept host s = elim (host.get_free_page s.host) [
  | none ↦ none
  | some (page, h) ↦ some (record (clear_page (record s { host = h }) page) { ept_root = page })
]
