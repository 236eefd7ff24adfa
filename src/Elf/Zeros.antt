-- ===== src/Elf/Zeros.antt =====
-- The bytes behind the content of a segment: the rest of its last page, and whole pages.
use libdbos.Common.{
  ℕ, ◌+◌, ◌-◌, ◌%◌, ◌^◌, ◌≤◌, ◌<◌, ◌≡◌, inl, inr, refl, ap, ◌∙◌, false, ltb, arith, Bool-cases,
  ltb→lt, ltb→le,
}
use libdbos.Elf.{Space, page_size, can_write, Calls, map_zeros, clear_rest}
use libdbos.Elf.Load.{
  round_up, Outside, Maps, Refused, Ends, weaken_lem, then_lem, Cleared, clear_page_lem,
  map_zeros_lem,
}

-- Zeros from `start` to the end of the last page of an anonymous mapping.
abbrev pub zeros_len : (start zero_len : ℕ) → ℕ
zeros_len start zero_len = round_up start - start + round_up zero_len

module _ {W : Type 0} (calls : Calls W) {file : ℕ → ℕ} {file_len : ℕ}
    (k : Maps calls file file_len) where
  zeros_joined :
      (start zero_len : ℕ) (s s1 s2 : Space W)
      → Cleared (round_up start - start) start s s1
      → Cleared (round_up zero_len) (round_up start) s1 s2
      → Cleared (zeros_len start zero_len) start s s2
  zeros_joined start zero_len s s1 s2 c1 c2 = record {
    zeros = λ i h. elim (Bool-cases (ltb i (round_up start - start))) [
      | inl low ↦
          c2.others (start + i) (inl (omega (arith, ltb→lt _ _ low))) ∙ c1.zeros i (ltb→lt _ _ low)
      | inr high ↦
          ap s2.byte (omega (arith, ltb→le _ _ high))
          ∙ c2.zeros (start + i - round_up start) (omega (arith, ltb→le _ _ high))
    ];
    others = λ a h. c2.others a (behind a h) ∙ c1.others a (before a h);
  }
    where
      behind :
          (a : ℕ)
          → Outside start (zeros_len start zero_len) a
          → Outside (round_up start) (round_up zero_len) a
      behind a (inl below) = inl (omega arith)
      behind a (inr above) = inr (omega arith)

      before :
          (a : ℕ)
          → Outside start (zeros_len start zero_len) a
          → Outside start (round_up start - start) a
      before a (inl below) = inl below
      before a (inr above) = inr (omega arith)

  pub clear_rest_lem :
      (prot start zero_len : ℕ) (s : Space W)
      → start + page_size ≤ 2 ^ 64
      → (start < round_up start
          → (i : ℕ) → i < page_size
          → s.writable (round_up start - page_size + i) ≡ can_write prot)
      → Ends
          (Refused calls)
          (Cleared (zeros_len start zero_len) start s)
          (clear_rest calls prot start zero_len s)
  unfolding clear_rest
  clear_rest_lem prot start zero_len s room page =
      let no_wrap : (start + page_size - 1) % 2 ^ 64 ≡ start + page_size - 1 = omega arith in
      rw no_wrap (elim (Bool-cases (ltb start (round_up start))) [
        | inl partial ↦ rw partial (
            then_lem (map_zeros calls prot (round_up start) zero_len) _
              (clear_page_lem calls k prot start (round_up start) s (ltb→lt _ _ partial)
                (omega arith) (omega (arith, ltb→lt _ _ partial)) (page (ltb→lt _ _ partial)))
              (λ s1 c1.
                weaken_lem _ (map_zeros_lem calls k prot (round_up start) zero_len s1)
                  (λ s2 c2. zeros_joined start zero_len s s1 s2 c1 c2)))
        | inr whole ↦ rw whole (
            weaken_lem _ (map_zeros_lem calls k prot (round_up start) zero_len s)
              (λ s2 c2. zeros_joined start zero_len s s s2 (nothing whole) c2))
      ])
    where
      nothing : ltb start (round_up start) ≡ false → Cleared (round_up start - start) start s s
      nothing whole = record {
        zeros = λ i h. absurd (omega (arith, ltb→le _ _ whole));
        others = λ a h. refl;
      }
