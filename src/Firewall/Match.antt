-- ===== src/Firewall/Match.antt =====
-- Which addresses a rule concerns.
use libdbos.Common.{ℕ, ◌≡◌, ◌↔◌, ◌⊎◌, sym, ap, ◌∙◌, inl, inr, true, ==→eq, eq→==, bit_and}
use libdbos.Common.Bits.{bit_and_assoc, bit_and_comm, bit_and-zero, bit_and_self}
use libdbos.Firewall.{Rule, ip_matches}

-- The part of an address that the mask keeps.
abbrev pub network : Rule → ℕ → ℕ
network r ip = bit_and ip r.mask

swap : (a b c : ℕ) → bit_and (bit_and a b) c ≡ bit_and a (bit_and c b)
swap a b c = bit_and_assoc a b c ∙ ap (bit_and a) (bit_and_comm b c)

-- A rule whose address has no bits outside its mask applies to an address exactly when the bits of
-- the address's network are among those of the rule's, not when the networks are the same.
pub ip_matches_lem :
    (r : Rule) (ip : ℕ)
    → bit_and r.ip r.mask ≡ r.ip
    → (ip_matches r ip ≡ true) ↔ (bit_and (network r ip) r.ip ≡ network r ip)
ip_matches_lem r ip h =
    let within : bit_and (bit_and ip r.mask) r.ip ≡ bit_and ip r.ip =
      swap ip r.mask r.ip ∙ ap (bit_and ip) h in
    (λ m. within ∙ ==→eq _ _ m, λ e. eq→== _ _ (sym within ∙ e))

-- Such a rule applies to its own network, and to network 0.
pub ip_matches-network :
    (r : Rule) (ip : ℕ)
    → bit_and r.ip r.mask ≡ r.ip
    → (network r ip ≡ r.ip) ⊎ (network r ip ≡ 0)
    → ip_matches r ip ≡ true
ip_matches-network r ip h (inl own) = (ip_matches_lem r ip h).1 (rw own (bit_and_self r.ip))
ip_matches-network r ip h (inr zero_net) =
    (ip_matches_lem r ip h).1 (rw zero_net (bit_and_comm 0 r.ip ∙ bit_and-zero r.ip))
