-- ===== src/Vm/Pte/Perms.antt =====
-- The two tables of flags are inverse to one another.
use libdbos.Common.{
  ℕ, zero, suc, ◌+◌, ◌*◌, ◌/◌, ◌%◌, ◌≤◌, ==→eq, ◌<◌, ◌≡◌, refl, inl, inr, Bool, true, false,
  Bool-cases, ◌&&◌, arith, ◌==◌, if◌then◌else◌,
}
use libdbos.Vm.Pte.{or_if, get_pte_perm, pteflags_to_perm}

-- The test succeeds on `left` numbers from `from` on.
abbrev passes : (test : ℕ → Bool) → (from left : ℕ) → Bool
passes test from zero = true
passes test from (suc left) = test from && passes test (from + 1) left

both : (b c : Bool) → (b && c) ≡ true → (b ≡ true) × (c ≡ true)
both true c h = (refl, h)
both false c h = absurd (ground arith)

passes_at :
    (test : ℕ → Bool) (left from k : ℕ)
    → passes test from left ≡ true
    → from ≤ k
    → k < from + left
    → test k ≡ true
passes_at test zero from k h low high = absurd (omega arith)
passes_at test (suc left) from k h low high =
    let (first, others) = both (test from) (passes test (from + 1) left) h in
    elim (Bool-cases (k == from)) [
      | inl here ↦ rw (==→eq k from here) first
      | inr beyond ↦ passes_at test left (from + 1) k others (ground arith) (omega arith)
    ]

-- PERM_BIG for level 1, PERM_BIG_1GB for level 2, no size flag for level 0.
abbrev pub size_perm : ℕ → ℕ
size_perm level = if level == 1 then 0x100 else if level == 2 then 0x200 else 0

-- The permissions with the access flags `access` and the user flags `user`, for a page of `level`.
abbrev pub perm_of : (access user level : ℕ) → ℕ
perm_of access user level = access + size_perm level + user * 0x1000

abbrev survives : ℕ → ℕ → Bool
survives level n =
    pteflags_to_perm (get_pte_perm (perm_of (n % 64) (n / 64) level)) level
    == perm_of (n % 64) (n / 64) level

table0 : passes (survives 0) 0 1024 ≡ true
unfolding get_pte_perm pteflags_to_perm or_if
table0 = refl

table1 : passes (survives 1) 0 1024 ≡ true
unfolding get_pte_perm pteflags_to_perm or_if
table1 = refl

table2 : passes (survives 2) 0 1024 ≡ true
unfolding get_pte_perm pteflags_to_perm or_if
table2 = refl

at_level : (level n : ℕ) → level < 3 → n < 1024 → survives level n ≡ true
at_level zero n h k = passes_at (survives 0) 1024 0 n table0 (omega arith) k
at_level (suc zero) n h k = passes_at (survives 1) 1024 0 n table1 (omega arith) k
at_level (suc (suc zero)) n h k = passes_at (survives 2) 1024 0 n table2 (omega arith) k
at_level (suc (suc (suc l))) n h k = absurd (omega arith)

decoded :
    (level n : ℕ)
    → level < 3
    → n < 1024
    → pteflags_to_perm (get_pte_perm (perm_of (n % 64) (n / 64) level)) level
      ≡ perm_of (n % 64) (n / 64) level
decoded level n h k = ==→eq _ _ (at_level level n h k)

-- `pteflags_to_perm` recovers the permissions that `get_pte_perm` turned into entry flags: any of
-- the six access flags and the four user flags, with PERM_BIG for an entry of level 1,
-- PERM_BIG_1GB for one of level 2 and no size flag for one of level 0.
pub pteflags_to_perm-get_pte_perm :
    (access user level : ℕ)
    → access < 64
    → user < 16
    → level < 3
    → pteflags_to_perm (get_pte_perm (perm_of access user level)) level ≡ perm_of access user level
pteflags_to_perm-get_pte_perm access user level ha hu hl =
    let n = user * 64 + access in
    let low : n % 64 ≡ access = omega arith in
    let high : n / 64 ≡ user = omega arith in rw (low, high) at (decoded level n hl (omega arith))
