-- ===== src/Page/Addr.antt =====
-- Pages and their addresses.
use libdbos.Common.{
  ℕ, ◌+◌, ◌*◌, ◌%◌, ◌^◌, ◌≤◌, ◌<◌, ◌≡◌, ◌↔◌, Bool, true, false, ◌&&◌, leb, ltb, arith, le→leb,
  lt→ltb, ltb→lt,
}
use libdbos.Page.{pagebase, max_pages, Allocator, pa2page, page2pa, page_isfrompool}

-- The address of a page, and where every byte of it leads.
pub record IsAddress (a : Allocator) (pg off : ℕ) : Type 0 where
  pub back : pa2page (page2pa pg + off) ≡ pg
  pub aligned : page2pa pg % 4096 ≡ 0
  pub pooled : (page_isfrompool a (page2pa pg + off) ≡ true) ↔ (pg < a.num_pages)

and-right : (b c : Bool) → (b && c) ≡ true → c ≡ true
and-right true c h = h
and-right false c h = absurd (ground arith)

below :
    (pg off n : ℕ)
    → off < 4096
    → pg < max_pages
    → (pagebase + pg * 2 ^ 12) % 2 ^ 64 + off < pagebase + n * 4096
    → pg < n
below pg off n a b c = omega arith

-- dune_page2pa and dune_pa2page are inverse: every byte of a page below MAX_PAGES leads back to
-- the page, whose address is a multiple of 4096; and dune_page_isfrompool accepts the byte's
-- address exactly when the page is one of the pages that the allocator manages.
pub page2pa-IsAddress :
    (a : Allocator) (pg off : ℕ) → pg < max_pages → off < 4096 → IsAddress a pg off
unfolding page2pa pa2page page_isfrompool
page2pa-IsAddress a pg off h k =
    let low : pagebase ≤ (pagebase + pg * 2 ^ 12) % 2 ^ 64 + off = omega arith in
    let address = (pagebase + pg * 2 ^ 12) % 2 ^ 64 + off in
    record {
      back = omega arith;
      aligned = omega arith;
      pooled = (
        λ yes. below pg off a.num_pages k h (
            ltb→lt _ _
              (and-right (leb pagebase address) (ltb address (pagebase + a.num_pages * 4096)) yes)),
        λ managed.
            rw (le→leb pagebase ((pagebase + pg * 2 ^ 12) % 2 ^ 64 + off) low)
              (lt→ltb _ _ (omega arith)),
      );
    }
