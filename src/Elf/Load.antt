-- ===== src/Elf/Load.antt =====
-- What the calls of the loader do to the address space, and the bytes up to the end of a page.
use libdbos.Common.{
  ◌>>=◌, if◌then◌else◌, ℕ, zero, suc, ◌+◌, ◌-◌, ◌*◌, ◌/◌, ◌≤◌, ◌<◌, ◌≡◌, ◌≢◌, ◌⊎◌, inl, inr, refl,
  ap, ◌∙◌, ◌==◌, if◌then◌else◌, Bool, true, false, Option, some, not, arith, Bool-cases, ==→eq,
  ne→==, eq→==, eq→==,
}
use mathlib.Core.Bool.{true≢false}
use libdbos.Elf.{
  Space, page_size, can_write, Calls, enomem, memset, change_prot, clear_page, map_zeros,
  prot_write,
}

abbrev pub round_up : ℕ → ℕ
round_up len = (len + page_size - 1) / page_size * page_size

-- The address `a` is not in the `len` bytes from `addr` on.
abbrev pub Outside : (addr len a : ℕ) → Type 0
Outside addr len a = (a < addr) ⊎ (addr + len ≤ a)

-- What the manual says of `mmap` and `mprotect`: a file of `file_len` bytes, zeros of an anonymous
-- mapping, whole pages, and nothing else changed.
pub record Maps {W : Type 0} (calls : Calls W) (file : ℕ → ℕ) (file_len : ℕ) : Type 0 where
  pub file_bytes :
      (s : Space W) (addr len prot offset i : ℕ)
      → (calls.mmap_file s addr len prot offset).0 ≡ addr
      → i < len
      → offset + i < file_len
      → (calls.mmap_file s addr len prot offset).1.byte (addr + i) ≡ file (offset + i)
  pub file_writable :
      (s : Space W) (addr len prot offset i : ℕ)
      → (calls.mmap_file s addr len prot offset).0 ≡ addr
      → i < round_up len
      → (calls.mmap_file s addr len prot offset).1.writable (addr + i) ≡ can_write prot
  pub file_else :
      (s : Space W) (addr len prot offset a : ℕ)
      → (calls.mmap_file s addr len prot offset).0 ≡ addr
      → Outside addr (round_up len) a
      → (calls.mmap_file s addr len prot offset).1.byte a ≡ s.byte a
  pub anon_bytes :
      (s : Space W) (addr len prot i : ℕ)
      → (calls.mmap_anon s addr len prot).0 ≡ addr
      → i < round_up len
      → (calls.mmap_anon s addr len prot).1.byte (addr + i) ≡ 0
  pub anon_else :
      (s : Space W) (addr len prot a : ℕ)
      → (calls.mmap_anon s addr len prot).0 ≡ addr
      → Outside addr (round_up len) a
      → (calls.mmap_anon s addr len prot).1.byte a ≡ s.byte a
  pub protect_bytes :
      (s : Space W) (addr len prot a : ℕ) → (calls.mprotect s addr len prot).1.byte a ≡ s.byte a
  pub protect_writable :
      (s : Space W) (addr len prot i : ℕ)
      → (calls.mprotect s addr len prot).0 ≡ 0
      → i < round_up len
      → (calls.mprotect s addr len prot).1.writable (addr + i) ≡ can_write prot

-- A call of the kernel that did not do what it was asked for: the reason of -ENOMEM.
pub data Refused {W : Type 0} (calls : Calls W) : ℕ → Type 0 where
  file_refused :
      (s : Space W) (addr len prot offset : ℕ)
      → (calls.mmap_file s addr len prot offset).0 ≢ addr
      → Refused calls enomem
  anon_refused :
      (s : Space W) (addr len prot : ℕ)
      → (calls.mmap_anon s addr len prot).0 ≢ addr
      → Refused calls enomem
  protect_refused :
      (s : Space W) (addr len prot : ℕ)
      → (calls.mprotect s addr len prot).0 ≢ 0
      → Refused calls enomem

pub Refused-ne : {W : Type 0} (calls : Calls W) (e : ℕ) → Refused calls e → e ≢ 0
Refused-ne calls _ (file_refused s addr len prot offset r) = λ e. omega arith
Refused-ne calls _ (anon_refused s addr len prot r) = λ e. omega arith
Refused-ne calls _ (protect_refused s addr len prot r) = λ e. omega arith

-- How a part of the loader ends: with an error for a reason `R`, or with what it is for. It never
-- makes a store that is not allowed.
pub data Ends {W : Type 0} (R : ℕ → Type 0) (P : Space W → Type 0)
    : Option (ℕ × Space W) → Type 0 where
  failed : (e : ℕ) (s : Space W) → e ≢ 0 → R e → Ends R P (some (e, s))
  done : (s : Space W) → P s → Ends R P (some (0, s))

module _ {W : Type 0} {R : ℕ → Type 0} {P Q : Space W → Type 0} where
  pub weaken_lem :
      (o : Option (ℕ × Space W)) → Ends R P o → ((s : Space W) → P s → Q s) → Ends R Q o
  weaken_lem _ (failed e s bad why) f = failed e s bad why
  weaken_lem _ (done s p) f = done s (f s p)

  pub then_lem :
      (next : Space W → ℕ × Space W) (o : Option (ℕ × Space W))
      → Ends R P o
      → ((s : Space W) → P s → Ends R Q (some (next s)))
      → Ends R Q (o >>= λ r. some (if r.0 == 0 then next r.1 else r))
  then_lem next _ (failed e s bad why) f = rw (ne→== e 0 bad) (failed e s bad why)
  then_lem next _ (done s p) f = f s p

-- An error has another reason as well.
pub because :
    {W : Type 0} {R R' : ℕ → Type 0} {P : Space W → Type 0} (o : Option (ℕ × Space W))
    → Ends R P o
    → ((e : ℕ) → R e → R' e)
    → Ends R' P o
because _ (failed e s bad why) f = failed e s bad (f e why)
because _ (done s p) f = done s p

pub ==→ne : (a b : ℕ) → (a == b) ≡ false → a ≢ b
==→ne a b h = λ e. ground arith

-- The `n` bytes from `addr` on are 0 in `s'`, and the others as in `s`.
pub record Cleared {W : Type 0} (n addr : ℕ) (s s' : Space W) : Type 0 where
  pub zeros : (i : ℕ) → i < n → s'.byte (addr + i) ≡ 0
  pub others : (a : ℕ) → Outside addr n a → s'.byte a ≡ s.byte a

further : (addr n a : ℕ) → Outside addr (suc n) a → Outside (addr + 1) n a
further addr n a (inl below) = inl (omega arith)
further addr n a (inr above) = inr (omega arith)

differs : (addr n a : ℕ) → Outside addr (suc n) a → a ≢ addr
differs addr n a (inl below) = λ e. omega arith
differs addr n a (inr above) = λ e. omega arith

module _ {W : Type 0} where
  memset_lem :
      (n addr : ℕ) (s : Space W)
      → ((i : ℕ) → i < n → s.writable (addr + i) ≡ true)
      → (s' : Space W) × (memset n addr s ≡ some s') × Cleared n addr s s'
  unfolding memset
  memset_lem zero addr s may =
      (s, refl, record { zeros = λ i h. absurd (omega arith); others = λ a h. refl })
  memset_lem (suc n) addr s may =
      let (s', e, rest) = memset_lem n (addr + 1) here (λ i h. next i h) in
      (
        s',
        rw first e,
        record { zeros = λ i h. zeros i h s' rest; others = λ a h. others a h s' rest },
      )
    where
      here : Space W
      here = record s { byte = λ a. if a == addr then 0 else s.byte a }

      next : (i : ℕ) → i < n → s.writable (addr + 1 + i) ≡ true
      next i h = ap s.writable (omega arith) ∙ may (suc i) (omega arith)

      first : s.writable addr ≡ true
      first = ap s.writable (omega arith) ∙ may 0 (omega arith)

      zeros :
          (i : ℕ)
          → i < suc n
          → (s' : Space W) → Cleared n (addr + 1) here s'
          → s'.byte (addr + i) ≡ 0
      zeros zero h s' rest = rest.others (addr + 0) (inl (omega arith)) ∙ rw (is_addr) refl
        where
          is_addr : (addr + 0 == addr) ≡ true
          is_addr = eq→== (addr + 0) addr (omega arith)
      zeros (suc i) h s' rest = ap s'.byte (omega arith) ∙ rest.zeros i (omega arith)

      others :
          (a : ℕ)
          → Outside addr (suc n) a
          → (s' : Space W) → Cleared n (addr + 1) here s'
          → s'.byte a ≡ s.byte a
      others a h s' rest =
          rest.others a (further addr n a h) ∙ rw (ne→== a addr (differs addr n a h)) refl

module _ {W : Type 0} (calls : Calls W) {file : ℕ → ℕ} {file_len : ℕ}
    (k : Maps calls file file_len) where
  with_write : (prot : ℕ) → can_write prot ≡ false → can_write (prot + prot_write) ≡ true
  with_write prot h = ground arith

  abbrev opened : (prot map_start : ℕ) → Space W → ℕ × Space W
  opened prot map_start s =
      change_prot calls (not (can_write prot)) (map_start - page_size) (prot + prot_write) s

  -- The page before `map_start` can be written after the first call, and keeps its bytes.
  writes_page :
      (prot map_start : ℕ) (s : Space W)
      → ((i : ℕ) → i < page_size → s.writable (map_start - page_size + i) ≡ can_write prot)
      → ((opened prot map_start s).0 == 0) ≡ true
      → (i : ℕ) → i < page_size
      → (opened prot map_start s).1.writable (map_start - page_size + i) ≡ true
  writes_page prot map_start s page granted i h = elim (Bool-cases (can_write prot)) [
    | inl on ↦ rw on (page i h ∙ on)
    | inr off ↦ rw off (
        k.protect_writable s (map_start - page_size) page_size (prot + prot_write) i
          (==→eq _ _ (rw off at granted)) h
        ∙ with_write prot off)
  ]

  same_bytes :
      (mod_prot : Bool) (addr prot a : ℕ) (s : Space W)
      → (change_prot calls mod_prot addr prot s).1.byte a ≡ s.byte a
  same_bytes true addr prot a s = k.protect_bytes s addr page_size prot a
  same_bytes false addr prot a s = refl

  change_prot-Refused :
      (mod_prot : Bool) (addr prot : ℕ) (s : Space W)
      → ((change_prot calls mod_prot addr prot s).0 == 0) ≡ false
      → Refused calls enomem
  change_prot-Refused true addr prot s h = protect_refused s addr page_size prot (==→ne _ _ h)
  change_prot-Refused false addr prot s h = absurd (true≢false h)

  pub clear_page_lem :
      (prot start map_start : ℕ) (s : Space W)
      → start < map_start
      → map_start < start + page_size
      → page_size ≤ map_start
      → ((i : ℕ) → i < page_size → s.writable (map_start - page_size + i) ≡ can_write prot)
      → Ends
          (Refused calls)
          (Cleared (map_start - start) start s)
          (clear_page calls prot start map_start s)
  unfolding clear_page
  clear_page_lem prot start map_start s below near high page =
      elim (Bool-cases ((opened prot map_start s).0 == 0)) [
        | inr refused ↦ rw refused (
            failed enomem _ (λ e. omega arith)
              (change_prot-Refused _ (map_start - page_size) _ s refused))
        | inl granted ↦
            let (s2, e, cleared) =
              memset_lem (map_start - start) start (opened prot map_start s).1
                (λ i h. may granted i h) in
            rw (granted, e)
              (elim (Bool-cases ((closed s2).0 == 0)) [
                | inr refused ↦ rw refused (
                    failed enomem _ (λ e. omega arith)
                      (change_prot-Refused _ (map_start - page_size) _ s2 refused))
                | inl shut ↦ rw shut (done _ (all s2 cleared))
              ])
      ]
    where
      closed : Space W → ℕ × Space W
      closed s2 = change_prot calls (not (can_write prot)) (map_start - page_size) prot s2

      may :
          ((opened prot map_start s).0 == 0) ≡ true
          → (i : ℕ) → i < map_start - start
          → (opened prot map_start s).1.writable (start + i) ≡ true
      may granted i h =
          ap (opened prot map_start s).1.writable (omega arith)
          ∙ writes_page prot map_start s page granted (start + i + page_size - map_start)
              (omega arith)

      all :
          (s2 : Space W)
          → Cleared (map_start - start) start (opened prot map_start s).1 s2
          → Cleared (map_start - start) start s (closed s2).1
      all s2 c = record {
        zeros = λ i h. same_bytes _ _ _ (start + i) s2 ∙ c.zeros i h;
        others = λ a h. same_bytes _ _ _ a s2 ∙ c.others a h ∙ same_bytes _ _ _ a s;
      }

  pub map_zeros_lem :
      (prot map_start zero_len : ℕ) (s : Space W)
      → Ends
          (Refused calls)
          (Cleared (round_up zero_len) map_start s)
          (some (map_zeros calls prot map_start zero_len s))
  unfolding map_zeros
  map_zeros_lem prot map_start zero_len s =
      elim (Bool-cases ((calls.mmap_anon s map_start zero_len prot).0 == map_start)) [
        | inr other ↦ rw other (
            failed enomem _ (λ e. omega arith)
              (anon_refused s map_start zero_len prot (==→ne _ _ other)))
        | inl there ↦ rw there (
            done _ (record {
              zeros = λ i h. k.anon_bytes s map_start zero_len prot i (==→eq _ _ there) h;
              others = λ a h. k.anon_else s map_start zero_len prot a (==→eq _ _ there) h;
            }))
      ]
