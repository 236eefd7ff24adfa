-- ===== src/Vm/Map/Page.antt =====
-- `dune_vm_mprotect` on a range in one page.
use libdbos.Common.{
  ne→==, ◌⊎◌, ℕ, ◌+◌, ◌/◌, ◌%◌, ◌^◌, ◌≡◌, ◌≢◌, ◌≤◌, ◌<◌, refl, inl, inr, some, true, false, arith,
  Bool-cases, if◌then◌else◌,
}
use libdbos.Vm.Pte.{has, perm_r, perm_w, get_pte_perm}
use libdbos.Vm.Machine.{ok, PageOps, Machine, store}
use libdbos.Vm.Lookup.Stable.{entry_for}
use libdbos.Vm.Walk.{create_none, page_walk}
use libdbos.Vm.Walk.Single.{page_walk-single}
use libdbos.Vm.Map.{last_byte, mprotect_helper, vm_mprotect}
use libdbos.Vm.Map.Protect.{protected}

same_page :
    (va len : ℕ)
    → 0 < len
    → va % 4096 + len ≤ 4096
    → va + len ≤ 2 ^ 64
    → va / 4096 ≡ last_byte va len / 4096
same_page va len some_bytes inside fits = omega arith

module _ {S : Type 0} (ops : PageOps S) where
  -- dune_vm_mprotect with PERM_R or without PERM_W, on a range of at least one byte that lies in
  -- one page (of 4 KiB) and does not wrap, where the processor's walk from `root` reaches an entry
  -- for `va` that is not 0, of a page of any size: it returns 0, and that entry keeps its address
  -- field and its size flag and has exactly the flags of the permissions besides (of PERM_NONE
  -- without PERM_R). No other word of memory changes, and neither does the pool of pages.
  pub vm_mprotect-one_page :
      (root va len perm e : ℕ) (m : Machine S)
      → (has perm perm_r ≡ true) ⊎ (has perm perm_w ≡ false)
      → 0 < len
      → va % 4096 + len ≤ 4096
      → va + len ≤ 2 ^ 64
      → entry_for m.mem va 3 root ≡ some e
      → m.mem e ≢ 0
      → vm_mprotect ops root va len perm m
        ≡ some (
          ok,
          store m e (protected (get_pte_perm (if has perm perm_r then perm else 0)) (m.mem e)),
        )
  unfolding vm_mprotect mprotect_helper
  vm_mprotect-one_page root va len perm e m allowed some_bytes inside fits reached used =
      elim (Bool-cases (has perm perm_r)) [
        | inl r ↦ rw r (run perm)
        | inr r ↦ rw (r, refused_not r) (run 0)
      ]
    where
      run :
          (p : ℕ)
          → page_walk ops create_none
              (mprotect_helper ops (get_pte_perm p))
              3
              root
              va
              (last_byte va len)
              m
            ≡ some (ok, store m e (protected (get_pte_perm p) (m.mem e)))
      run p =
          page_walk-single ops (mprotect_helper ops (get_pte_perm p))
            (λ a m'. store m' a (protected (get_pte_perm p) (m'.mem a))) (λ pte v level m'. refl) va
            (last_byte va len) root e m (same_page va len some_bytes inside fits) (ne→== _ _ used)
            reached

      refused_not : has perm perm_r ≡ false → has perm perm_w ≡ false
      refused_not r = elim allowed [ inl h ↦ absurd (ground arith) | inr h ↦ h ]
