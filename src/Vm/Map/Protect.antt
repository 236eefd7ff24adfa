-- ===== src/Vm/Map/Protect.antt =====
-- `dune_vm_mprotect` changes flags only.
use libdbos.Common.{
  ==→eq, ℕ, ◌≡◌, refl, sym, ap, ◌∙◌, inl, inr, ◌⊎◌, some, true, false, bit_and, bit_or, arith,
  Bool-cases, Bool, ◌==◌, if◌then◌else◌,
}
use libdbos.Common.Bits.{
  bit_and_assoc, bit_or_assoc, bit_and-or, bit_and-zero, bit_or-zero, zero-bit_or,
  bit_or-and_absorb,
}
use libdbos.Vm.Pte.{
  or_if, pte_stack, pte_usr1, pte_usr2, pte_usr3, pte_cow, pte_pcd, pte_u, pte_nx, pte_w, pte_p,
  pte_addr, pte_flags, pte_ps, has, perm_r, perm_w, get_pte_perm,
}
use libdbos.Vm.Pte.Laws.{AreFlags, pte_addr-or}
use libdbos.Vm.Machine.{Outcome, ok, err, einval, PageOps, Machine}
use libdbos.Vm.Walk.{create_none, page_walk}
use libdbos.Vm.Walk.Rule.{Ends, Ends-ok, page_walk-Ends}
use libdbos.Vm.Map.{last_byte, mprotect_helper, vm_mprotect}

-- An entry with other permissions: its address and its size flag stay.
abbrev pub protected : ℕ → ℕ → ℕ
protected p x = bit_or (bit_or (pte_addr x) (bit_and (pte_flags x) pte_ps)) p

size_flag : (x : ℕ) → bit_and (pte_flags x) pte_ps ≡ bit_and x pte_ps
unfolding pte_flags
size_flag x = bit_and_assoc x _ _

size-AreFlags : (x : ℕ) → AreFlags (bit_and x pte_ps)
size-AreFlags x = rw (bit_and_assoc, bit_and-zero) refl

pte_addr-protected : (p x : ℕ) → AreFlags p → pte_addr (protected p x) ≡ pte_addr x
pte_addr-protected p x h =
    rw (bit_or_assoc, size_flag)
      (pte_addr-or x (bit_or (bit_and x pte_ps) p)
        (rw (bit_and-or, size-AreFlags, h, bit_or-zero) refl))

addr_size : (x : ℕ) → bit_and (pte_addr x) pte_ps ≡ 0
unfolding pte_addr
addr_size x = rw (bit_and_assoc, bit_and-zero) refl

protected-protected : (p x : ℕ) → AreFlags p → protected p (protected p x) ≡ protected p x
protected-protected p x h =
    rw
      (
        pte_addr-protected p x h,
        size_flag (protected p x),
        size_flag x,
        bit_and-or,
        bit_and-or,
        addr_size x,
      )
      (rw (bit_and_assoc, zero-bit_or, bit_or_assoc, bit_or_assoc, bit_or-and_absorb)
        (sym (bit_or_assoc (pte_addr x) (bit_and x pte_ps) p)))

or_if-AreFlags : (c : Bool) (f x : ℕ) → AreFlags f → AreFlags x → AreFlags (or_if c f x)
unfolding or_if
or_if-AreFlags true f x hf hx = rw (bit_and-or, hf, hx, bit_or-zero) refl
or_if-AreFlags false f x hf hx = hx

present-AreFlags : (c : Bool) → AreFlags (if c then pte_p else 0)
present-AreFlags true = refl
present-AreFlags false = refl

pub get_pte_perm-AreFlags : (perm : ℕ) → AreFlags (get_pte_perm perm)
unfolding get_pte_perm
get_pte_perm-AreFlags perm = or_if-AreFlags _ pte_ps _ refl (
    or_if-AreFlags _ pte_stack _ refl (
      or_if-AreFlags _ pte_usr3 _ refl (
        or_if-AreFlags _ pte_usr2 _ refl (
          or_if-AreFlags _ pte_usr1 _ refl (
            or_if-AreFlags _ pte_cow _ refl (
              or_if-AreFlags _ pte_pcd _ refl (
                or_if-AreFlags _ pte_u _ refl (
                  or_if-AreFlags _ pte_nx _ refl
                    (or_if-AreFlags _ pte_w _ refl (present-AreFlags (has perm perm_r)))))))))))

module _ {S : Type 0} (ops : PageOps S) where
  -- Each word of memory is as before or has the permissions `p`; the pool is as before.
  pub record Protected (p : ℕ) (m m' : Machine S) : Type 0 where
    pub pool_kept : m'.pool ≡ m.pool
    pub words : (a : ℕ) → (m'.mem a ≡ m.mem a) ⊎ (m'.mem a ≡ protected p (m.mem a))

  helper-Protected :
      (p : ℕ) (hp : AreFlags p) (m : Machine S) (pte va level : ℕ) (m' : Machine S)
      → Protected p m m'
      → Ends (Protected p m) (λ e m'. ⊥) (mprotect_helper ops p pte va level m')
  unfolding mprotect_helper
  helper-Protected p hp m pte va level m' h = record {
    pool_kept = h.pool_kept;
    words = λ a. by_case a (Bool-cases (a == pte)) (h.words a);
  }
    where
      by_case :
          (a : ℕ)
          → ((a == pte) ≡ true) ⊎ ((a == pte) ≡ false)
          → (m'.mem a ≡ m.mem a) ⊎ (m'.mem a ≡ protected p (m.mem a))
          → let w = if a == pte then protected p (m'.mem pte) else m'.mem a in
            (w ≡ m.mem a) ⊎ (w ≡ protected p (m.mem a))
      by_case a (inr other) old = rw other old
      by_case a (inl here) (inl same) =
          rw here
            (inr (ap (λ n. protected p (m'.mem n)) (sym (==→eq _ _ here)) ∙ ap (protected p) same))
      by_case a (inl here) (inr done) = rw here (
          inr (
            ap (λ n. protected p (m'.mem n)) (sym (==→eq _ _ here))
            ∙ ap (protected p) done
            ∙ protected-protected p (m.mem a) hp))

  -- The walk of `dune_vm_mprotect` with the entry flags `p`.
  walk-Protected :
      (p : ℕ)
      → AreFlags p
      → (root va end_va : ℕ) (m : Machine S)
      → Ends
          (Protected p m)
          (λ e m'. ⊥)
          (page_walk ops create_none (mprotect_helper ops p) 3 root va end_va m)
  walk-Protected p hp root va end_va m =
      page_walk-Ends ops (Protected p m) _ create_none (mprotect_helper ops p)
        (helper-Protected p hp m) (λ never. absurd (ground arith)) 3 root va end_va m
        (record { pool_kept = refl; words = λ a. inl refl })

  -- The two ends of `dune_vm_mprotect`: -EINVAL for a page to write and not to read, and else 0.
  abbrev MprotectEnds : (root va len perm : ℕ) → Machine S → Type 0
  MprotectEnds root va len perm m =
      ((has perm perm_r ≡ false)
        × (has perm perm_w ≡ true)
        × (vm_mprotect ops root va len perm m ≡ some (err einval, m)))
      ⊎ (((has perm perm_r ≡ true) ⊎ (has perm perm_w ≡ false))
          × (m' : Machine S) × (vm_mprotect ops root va len perm m ≡ some (ok, m'))
          × Protected (get_pte_perm (if has perm perm_r then perm else 0)) m m'
          × ((a : ℕ) → pte_addr (m'.mem a) ≡ pte_addr (m.mem a)))

  words-Protected :
      (perm : ℕ) (m : Machine S) (o : Outcome S)
      → Ends (Protected (get_pte_perm perm) m) (λ e m'. ⊥) o
      → (m' : Machine S) × (o ≡ some (ok, m'))
        × Protected (get_pte_perm perm) m m'
        × ((a : ℕ) → pte_addr (m'.mem a) ≡ pte_addr (m.mem a))
  words-Protected perm m o h =
      let (m', eq, done) = Ends-ok o h in
      (
        m',
        eq,
        done,
        λ a. elim (done.words a) [
          | inl same ↦ ap pte_addr same
          | inr changed ↦
              ap pte_addr changed
              ∙ pte_addr-protected (get_pte_perm perm) (m.mem a) (get_pte_perm-AreFlags perm)
        ],
      )

  -- dune_vm_mprotect, on any page tables and any range: PERM_W without PERM_R is refused with
  -- -EINVAL and changes nothing. In every other case it returns 0, takes no page and gives none
  -- back, and each word of memory is as before or keeps its address field and its size flag and
  -- has exactly the flags of the permissions besides (of PERM_NONE without PERM_R); no entry
  -- points to another page afterwards.
  vm_mprotect_lem : (root va len perm : ℕ) (m : Machine S) → MprotectEnds root va len perm m
  unfolding vm_mprotect
  vm_mprotect_lem root va len perm m = elim (Bool-cases (has perm perm_r)) [
    | inl r ↦
        let (m', eq, done, all) =
          words-Protected perm m _
            (walk-Protected _ (get_pte_perm-AreFlags perm) root va (last_byte va len) m) in
        rw r (inr (inl refl, m', eq, done, all))
    | inr r ↦ elim (Bool-cases (has perm perm_w)) [
      | inl w ↦ rw (r, w) (inl (refl, refl, refl))
      | inr w ↦
          let (m', eq, done, all) =
            words-Protected 0 m _
              (walk-Protected _ (get_pte_perm-AreFlags 0) root va (last_byte va len) m) in
          rw (r, w) (inr (inr refl, m', eq, done, all))
    ]
  ]
