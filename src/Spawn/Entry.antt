-- ===== src/Spawn/Entry.antt =====
-- The entry that a snapshot shares, and the regions of addresses that it shares otherwise:
-- libdune/fast_spawn.c with the flags of libdune/mmu-x86.h.
pub mod Laws
use libdbos.Common.{ℕ, ◌+◌, ◌*◌, ◌%◌, ◌^◌, Bool, not, ◌&&◌, ◌||◌, bit_or, ltb, leb, if◌then◌else◌}
use libdbos.Vm.Pte.{pte_p, pte_w, pte_cow, pte_stack, pte_usr3, has}
use libdbos.Vm.Clone.{without}

abbrev pub pte_a : ℕ
pte_a = 0x20

abbrev pub pte_d : ℕ
pte_d = 0x40

abbrev pub pte_lock : ℕ
pte_lock = 0x800

-- `PTE_NOCOW`
abbrev pub pte_nocow : ℕ
pte_nocow = pte_usr3

-- The test of the copying loops: a page that can be written and is not excepted.
abbrev pub is_shareable : ℕ → Bool
is_shareable pte =
    has pte pte_w
    && has pte pte_p
    && not (has pte pte_stack)
    && not (has pte pte_cow)
    && not (has pte pte_nocow)

-- The entry of the first copy, and of the copy that `pgtable_cow_copy_one` and the loop of the
-- last level make, by the test on the original.
unfoldable pub cow_entry : (shareable : Bool) → ℕ → ℕ
cow_entry shareable pte =
    if shareable
    then without (bit_or (without pte pte_w) pte_cow) pte_lock
    else without pte pte_lock

-- The entry of the second copy, which also loses the accessed bit.
unfoldable pub cow_entry2 : (shareable : Bool) → ℕ → ℕ
cow_entry2 shareable pte =
    if shareable
    then without (without (bit_or (without pte pte_w) pte_cow) pte_a) pte_lock
    else without (without pte pte_a) pte_lock

-- The entry of a page that all share, in both copies.
unfoldable pub shared_entry : ℕ → ℕ
shared_entry pte = without (without pte pte_a) pte_lock

-- `is_canonical_virtual_address`
abbrev pub is_canonical_virtual_address : ℕ → Bool
is_canonical_virtual_address addr = ltb addr 0x8000_0000_0000 || leb 0xffff_8000_0000_0000 addr

-- `canonical_virtual_address`
abbrev pub canonical_virtual_address : ℕ → ℕ
canonical_virtual_address addr =
    if ltb addr 0x8000_0000_0000 then addr else bit_or addr 0xffff_0000_0000_0000

-- Ends of regions that the sizes of C types and the start of the program fix:
-- IPI_ADDR_SHARED_STATE_END, and `dune_pmem_alloc_begin()` and `dune_pmem_alloc_end()`.
pub record Regions : Type 0 where
  pub ipi_end : ℕ
  pub pmem_begin : ℕ
  pub pmem_end : ℕ

-- What the copying callbacks do at an address: map the page, share it, or copy it on write.
pub data Region : Type 0 where
  pool_page shared private : Region

-- The tests of `pgtable_cow_copy` on `can_va`: PAGEBASE, then IPI_ADDR_RING_BASE, APIC_BASE,
-- POSTED_INTR_DESCS_BASE and the pmem allocator.
unfoldable pub region_of : Regions → ℕ → Region
region_of r va =
    if leb 0x1_0000_0000 va && ltb va (0x1_0000_0000 + 2 ^ 21 * 4096)
    then pool_page
    else if (leb 0xffff_8000_0000_0000 va && ltb va r.ipi_end)
        || leb 0xffff_ffff_ffff_f000 va
        || (leb (2 ^ 45) va && ltb va (2 ^ 45 + 104 * 4096))
        || (leb r.pmem_begin va && ltb va r.pmem_end)
    then shared
    else private
