-- ===== src/Ept/Addr.antt =====
-- Guest-physical addresses: `hva_to_gpa` and `gpa_to_hva` of kern/ept.c, the layout of
-- kern/core.c and the translations of libdune/dune.h. All words have 64 bits; a mask of page
-- addresses is written as a quotient.
pub mod Windows
pub mod RoundTrip
use libdbos.Common.{
  ℕ, ◌+◌, ◌-◌, ◌*◌, ◌/◌, ◌%◌, ◌^◌, Bool, ◌&&◌, ◌||◌, ltb, leb, ◌==◌, if◌then◌else◌,
}

abbrev pub gpa_stack_size : ℕ
gpa_stack_size = 2 ^ 30

abbrev pub gpa_map_size : ℕ
gpa_map_size = 2 ^ 36 - 2 ^ 30

abbrev pub gpa_apic_page : ℕ
gpa_apic_page = 2 ^ 46 - 4096

abbrev pub gpa_posted_intr_descs : ℕ
gpa_posted_intr_descs = 2 ^ 45

abbrev pub gpa_pv_info_pages : ℕ
gpa_pv_info_pages = 2 ^ 46 - 4096 * 1024

-- `LG_ALIGN`
abbrev pub lg_align : ℕ → ℕ
lg_align addr = (addr + 2 ^ 30 - 1) % 2 ^ 64 / 2 ^ 30 * 2 ^ 30

-- Sums and differences of words.
abbrev pub add64 : ℕ → ℕ → ℕ
add64 a b = (a + b) % 2 ^ 64

abbrev pub sub64 : ℕ → ℕ → ℕ
sub64 a b = (a + 2 ^ 64 - b) % 2 ^ 64

-- `gpa & PAGE_MASK`, `PGADDR`
abbrev pub page_of : ℕ → ℕ
page_of a = a / 4096 * 4096

-- `ADDR_INVAL`
abbrev pub addr_inval : ℕ
addr_inval = 2 ^ 64 - 1

-- The fields of `mm_struct` that are read, and the bits of a physical address.
pub record Mm : Type 0 where
  pub mmap_base : ℕ
  pub start_stack : ℕ
  pub phys_bits : ℕ

abbrev pub phys_end : Mm → ℕ
phys_end mm = 2 ^ mm.phys_bits % 2 ^ 64

abbrev pub mmap_start : Mm → ℕ
mmap_start mm = sub64 (lg_align mm.mmap_base) gpa_map_size

abbrev pub stack_start : Mm → ℕ
stack_start mm = sub64 (lg_align mm.start_stack) gpa_stack_size

-- `hva_to_gpa`
unfoldable pub hva_to_gpa : Mm → ℕ → ℕ
hva_to_gpa mm hva =
    if leb (stack_start mm) hva
    then if leb gpa_stack_size (sub64 hva (stack_start mm))
      then addr_inval
      else sub64 (add64 (sub64 hva (stack_start mm)) (phys_end mm)) gpa_stack_size
    else if leb (mmap_start mm) hva
    then if leb gpa_map_size (sub64 hva (mmap_start mm))
      then addr_inval
      else sub64 (sub64 (add64 (sub64 hva (mmap_start mm)) (phys_end mm)) gpa_stack_size)
          gpa_map_size
    else if leb (sub64 (sub64 (phys_end mm) gpa_stack_size) gpa_map_size) hva
    then addr_inval
    else hva

-- The pages that `gpa_to_hva` does not translate.
abbrev pub is_special : ℕ → Bool
is_special page =
    page == gpa_apic_page
    || leb gpa_posted_intr_descs page && ltb page (gpa_posted_intr_descs + 4096 * 256)
    || leb gpa_pv_info_pages page && ltb page (gpa_pv_info_pages + 4096 * 256)

-- `gpa_to_hva`
unfoldable pub gpa_to_hva : Mm → ℕ → ℕ
gpa_to_hva mm gpa =
    let low_end = sub64 (sub64 (phys_end mm) gpa_stack_size) gpa_map_size in
    let map_end = sub64 (phys_end mm) gpa_stack_size in
    if is_special (page_of gpa)
    then 0
    else if ltb gpa low_end
    then gpa
    else if ltb gpa map_end
    then sub64 (add64 (sub64 gpa low_end) (lg_align mm.mmap_base)) gpa_map_size
    else if ltb gpa (phys_end mm)
    then sub64 (add64 (sub64 gpa map_end) (lg_align mm.start_stack)) gpa_stack_size
    else addr_inval

-- `struct dune_layout`
pub record DuneLayout : Type 0 where
  pub phys_limit : ℕ
  pub base_map : ℕ
  pub base_stack : ℕ

-- `DUNE_GET_LAYOUT`
abbrev pub get_layout : Mm → DuneLayout
get_layout mm = record {
  phys_limit = phys_end mm;
  base_map = mmap_start mm;
  base_stack = stack_start mm;
}

-- `APIC_BASE`
abbrev pub apic_base : ℕ
apic_base = 0xffff_ffff_ffff_f000

-- `dune_mmap_addr_to_pa`
abbrev pub mmap_addr_to_pa : DuneLayout → ℕ → ℕ
mmap_addr_to_pa l ptr =
    add64 (sub64 ptr l.base_map) (sub64 (sub64 l.phys_limit gpa_stack_size) gpa_map_size)

-- `dune_stack_addr_to_pa`
abbrev pub stack_addr_to_pa : DuneLayout → ℕ → ℕ
stack_addr_to_pa l ptr = sub64 (add64 (sub64 ptr l.base_stack) l.phys_limit) gpa_stack_size

-- `dune_va_to_pa`
unfoldable pub va_to_pa : DuneLayout → ℕ → ℕ
va_to_pa l ptr =
    let page = page_of ptr in
    if page == apic_base
    then gpa_apic_page
    else if leb gpa_posted_intr_descs page && ltb page (gpa_posted_intr_descs + 256 * 4096)
    then add64 gpa_posted_intr_descs (sub64 page gpa_posted_intr_descs)
    else if leb gpa_pv_info_pages page && ltb page (gpa_pv_info_pages + 256 * 4096)
    then add64 gpa_pv_info_pages (sub64 page gpa_pv_info_pages)
    else if leb l.base_stack ptr
    then stack_addr_to_pa l ptr
    else if leb l.base_map ptr
    then mmap_addr_to_pa l ptr
    else ptr
