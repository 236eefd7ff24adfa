-- ===== src/Ept/Map.antt =====
-- Mapping in kern/ept.c: the fixed pages, memory of devices, and the fault on host memory.
use libdbos.Common.{
  ◌⊎◌, inl, inr, ℕ, ◌+◌, ◌*◌, ◌%◌, ◌^◌, Bool, true, false, not, ◌&&◌, ◌||◌, Option, none, some,
  bit_or, ltb, leb, ◌==◌, if◌then◌else◌,
}
use libdbos.Ept.Addr.{
  Mm, gpa_apic_page, gpa_posted_intr_descs, gpa_pv_info_pages, page_of, addr_inval, gpa_to_hva,
  add64, sub64,
}
use libdbos.Ept.Entry.{
  epte_read, epte_write, epte_exec, epte_ipat, epte_sz, epte_a, epte_d, epte_pfnmap, CacheType,
  uncachable, write_back, epte_type, epte_addr, epte_present, epte_big, Errno, enoent, einval,
  efault, Host, Ept, store, clear_epte, clear_l1_epte, clear_l2_epte, has,
}
use libdbos.Ept.Lookup.{Reply, found, failed, lookup_gpa}

-- An `int` result: 0 or an error.
pub data Ret : Type 0 where
  ok : Ret
  err : Errno → Ret

-- `struct vm_area_struct`: `vma_is_anonymous`, VM_IO or VM_PFNMAP, and the cache mode.
pub record Vma : Type 0 where
  pub anonymous : Bool
  pub io_or_pfnmap : Bool
  pub cache : CacheType

-- What the fault handler uses of the kernel besides: processors, regions by physical address,
-- `find_vma`, `get_user_pages_fast` (the physical address of the page and the order of its
-- compound page), `compound_head`, and `hva_to_pfn_remapped` after its retries.
pub record Env (H : Type 0) : Type 0 where
  pub num_possible_cpus : ℕ
  pub posted_interrupt_desc_region : ℕ
  pub tlb_info_region : ℕ
  pub apic_default_phys_base : ℕ
  pub find_vma : H → ℕ → Option Vma
  pub get_user_page : H → ℕ → Bool → Option (ℕ × ℕ × H)
  pub compound_head : H → ℕ → ℕ
  pub remapped_pfn : H → ℕ → Bool → (ℕ ⊎ Errno) × H

-- `flags |= __EPTE_WRITE` and the marks of an access.
unfoldable pub access_flags : (ad_enabled make_write : Bool) → ℕ → ℕ
access_flags ad_enabled make_write flags =
    let f1 = if make_write then bit_or flags epte_write else flags in
    let f2 = if make_write then bit_or (bit_or f1 epte_a) epte_d else bit_or f1 epte_a in
    if ad_enabled then f2 else f1

module _ {H : Type 0} (host : Host H) where
  -- `if (epte_present(*epte)) ept_clear_epte(epte);`
  abbrev pub clear_present : ℕ → Ept H → Ept H
  clear_present a s =
      if epte_present (s.mem a) then (let (removed, s') = clear_epte host a s in s') else s

  -- What follows a lookup: its error, or the work on the entry.
  unfoldable pub with_entry : Reply × Ept H → (ℕ → Ept H → Ret × Ept H) → Ret × Ept H
  with_entry (failed e, s) work = (err e, s)
  with_entry (found a, s) work = work a s

  -- `ept_map_apic_page`
  pub map_apic_page : Env H → Bool → ℕ → Ept H → Ret × Ept H
  map_apic_page env make_write gpa s = with_entry (lookup_gpa host gpa 0 true s) λ a s1.
      let flags =
        access_flags s1.ept_ad_enabled make_write
          (bit_or (bit_or (bit_or epte_read (epte_type uncachable)) epte_ipat) epte_pfnmap) in
      (ok, store (clear_present a s1) a (bit_or (epte_addr env.apic_default_phys_base) flags))

  -- The page of a region of the kernel: no A or D mark, and an old entry is not released.
  abbrev pub map_region_page : (region base gpa : ℕ) → Ept H → Ret × Ept H
  map_region_page region base gpa s = with_entry (lookup_gpa host gpa 0 true s) λ a s1. (
    ok,
    store s1 a (
        bit_or (epte_addr (add64 region (sub64 gpa base)))
          (bit_or (bit_or epte_read epte_write) (epte_type write_back))),
  )

  -- `ept_map_posted_intr_desc_page`
  pub map_posted_intr_desc_page : Env H → ℕ → Ept H → Ret × Ept H
  map_posted_intr_desc_page env =
      map_region_page env.posted_interrupt_desc_region gpa_posted_intr_descs

  -- `ept_map_tlb_info_page`
  pub map_tlb_info_page : Env H → ℕ → Ept H → Ret × Ept H
  map_tlb_info_page env = map_region_page env.tlb_info_region gpa_pv_info_pages

  -- The tests for the pages of the two regions.
  abbrev pub in_posted : Env H → ℕ → Bool
  in_posted env page =
      leb gpa_posted_intr_descs page
      && ltb page (gpa_posted_intr_descs + 4096 * env.num_possible_cpus)

  abbrev pub in_pv_info : Env H → ℕ → Bool
  in_pv_info env page =
      leb gpa_pv_info_pages page && ltb page (gpa_pv_info_pages + 4096 * env.num_possible_cpus)

  -- `ept_set_pfnmap_epte` past the fixed pages, for the area of the address.
  pub map_pfn : Env H → Bool → (gpa hva : ℕ) → Vma → Ept H → Ret × Ept H
  map_pfn env make_write gpa hva vma s =
      let (r, h) = env.remapped_pfn s.host hva make_write in
      let s1 = record s { host = h } in
      elim r [
        | inr e ↦ (err e, s1)
        | inl pfn ↦ with_entry (lookup_gpa host gpa 0 true s1) λ a s2.
            let flags =
              access_flags s2.ept_ad_enabled make_write
                (bit_or (bit_or (bit_or epte_read (epte_type vma.cache)) epte_ipat) epte_pfnmap) in
            (ok, store (clear_present a s2) a (bit_or (epte_addr (pfn * 4096 % 2 ^ 64)) flags))
      ]

  -- `ept_set_pfnmap_epte`
  pub set_pfnmap_epte : Env H → Bool → (gpa hva : ℕ) → Ept H → Ret × Ept H
  set_pfnmap_epte env make_write gpa hva s =
      if page_of gpa == gpa_apic_page
      then map_apic_page env make_write gpa s
      else if in_posted env (page_of gpa)
      then map_posted_intr_desc_page env gpa s
      else if in_pv_info env (page_of gpa)
      then map_tlb_info_page env gpa s
      else elim (env.find_vma s.host hva) [
        | none ↦ (err efault, s)
        | some vma ↦
            if vma.io_or_pfnmap then map_pfn env make_write gpa hva vma s else (err efault, s)
      ]

  -- The level for a compound page of the given shift.
  abbrev pub level_for : ℕ → ℕ
  level_for huge_shift = if huge_shift == 30 then 2 else if huge_shift == 21 then 1 else 0

  -- The lookup of `ept_set_epte`: again with `create` after -ENOENT.
  pub lookup_or_create : (gpa level : ℕ) → Ept H → Reply × Ept H
  lookup_or_create gpa level s = again (lookup_gpa host gpa level false s)
    where
      again : Reply × Ept H → Reply × Ept H
      again (failed enoent, s1) = lookup_gpa host gpa level true s1
      again r = r

  -- The release of what the entry held before: a table, a large page or a page.
  pub release_old : (level a : ℕ) → Ept H → Ept H
  release_old level a s =
      let (b0, s0) = clear_epte host a s in
      let (b1, s1) = clear_l1_epte host a s in
      let (b2, s2) = clear_l2_epte host a s in
      if epte_present (s.mem a)
      then if not (epte_big (s.mem a)) && level == 2
        then s2
        else if not (epte_big (s.mem a)) && level == 1
        then s1
        else s0
      else s

  -- The new entry for `page`, and the counters. A large page is held by its head.
  pub connect : Env H → Bool → (level page a : ℕ) → Ept H → Ret × Ept H
  connect env make_write level page a s =
      let flags =
        access_flags s.ept_ad_enabled make_write
          (bit_or (bit_or (bit_or epte_read epte_exec) (epte_type write_back)) epte_ipat) in
      let head = env.compound_head s.host page in
      let small =
        store (record s { host_4k_pages_connected = s.host_4k_pages_connected + 1 }) a
          (bit_or (epte_addr page) flags) in
      let held = host.put_page (host.get_page s.host head) page in
      let large =
        store
          (record s { host = held; host_huge_pages_connected = s.host_huge_pages_connected + 1 }) a
          (bit_or (epte_addr head) (bit_or flags epte_sz)) in
      if level == 0 then (ok, small) else (ok, large)

  -- What `ept_set_epte` does with its page after the lookup: back to the host when it failed.
  unfoldable pub place : Env H → Bool → (level page : ℕ) → Reply × Ept H → Ret × Ept H
  place env make_write level page (failed e, s) =
      (err e, record s { host = host.put_page s.host page })
  place env make_write level page (found a, s) =
      connect env make_write level page a (release_old level a s)

  pub place_page : Env H → Bool → (gpa level page : ℕ) → Ept H → Ret × Ept H
  place_page env make_write gpa level page s =
      place env make_write level page (lookup_or_create gpa level s)

  -- `ept_set_epte` once it is known whether the page is to be writable.
  pub set_epte_for : Env H → Bool → (gpa hva : ℕ) → Ept H → Ret × Ept H
  set_epte_for env make_write gpa hva s = elim (env.get_user_page s.host hva make_write) [
    | none ↦ set_pfnmap_epte env make_write gpa hva s
    | some (page, order, h) ↦
        place_page env make_write gpa (level_for (order + 12)) page (record s { host = h })
  ]

  -- `ept_set_epte`: anonymous memory is mapped to be written at once.
  pub set_epte : Env H → Bool → (gpa hva : ℕ) → Ept H → Ret × Ept H
  set_epte env make_write gpa hva s =
      if page_of gpa == gpa_apic_page || in_posted env (page_of gpa) || in_pv_info env (page_of gpa)
      then set_epte_for env make_write gpa hva s
      else elim (env.find_vma s.host hva) [
        | none ↦ (err efault, s)
        | some vma ↦
            set_epte_for env (make_write || vma.anonymous && not vma.io_or_pfnmap) gpa hva s
      ]

  -- `vmx_do_ept_fault`
  pub do_ept_fault : Env H → Mm → (gpa fault_flags : ℕ) → Ept H → Ret × Ept H
  do_ept_fault env mm gpa fault_flags s =
      if gpa_to_hva mm gpa == addr_inval
      then (err einval, s)
      else set_epte env (has fault_flags 0x02) gpa (gpa_to_hva mm gpa) s
