-- ===== src/Firewall/Order.antt =====
-- Later rules come first.
use libdbos.Common.{
  sym, ◌==◌, ◌||◌, bit_and, ℕ, ◌⊎◌, ◌≡◌, refl, ap, ◌∙◌, Bool, true, false, ◌&&◌, Option, none, some,
  List, [], ◌∷◌, inl, inr, if◌then◌else◌,
}
use mathlib.Core.List.{foldl}
use libdbos.Firewall.{
  RuleType, bind_allow, connect_allow, connect_deny, Rule, port_matches, ip_matches, says,
  check_connect, check_bind, is_bind_allow,
}
use libdbos.Firewall.Parse.{Line, Buffers, Parsed, skip, rule, unknown, parse_line, firewall_parse}

module _ (inet_aton : Line → ℕ → ℕ) where
  -- The rules of the lines, in the order of the file.
  pub rules_of : List Line → Buffers → Option (List Rule)
  rules_of [] b = some []
  rules_of (line ∷ lines) b = elim (parse_line inet_aton line b) [
    | skip ↦ rules_of lines b
    | rule r b' ↦ elim (rules_of lines b') [ none ↦ none | some rules ↦ some (r ∷ rules) ]
    | unknown ↦ none
  ]

-- What a rule says of the connections that it concerns, if it is about connections.
abbrev pub verdict : RuleType → Option Bool
verdict bind_allow = none
verdict connect_allow = some true
verdict connect_deny = some false

-- A rule concerns a connection by its port, 0 for all ports, and by the bits of its address.
abbrev pub concerns : (port ip : ℕ) → Rule → Bool
concerns port ip r = (bit_and ip r.ip == bit_and ip r.mask) && (r.port == 0 || r.port == port)

-- What a rule makes of the answer of the rules before it.
abbrev pub override : (port ip : ℕ) → Bool → Rule → Bool
override port ip so_far r = elim (verdict r.kind) [
  | none ↦ so_far
  | some answer ↦ if concerns port ip r then answer else so_far
]

says_lem :
    (port ip : ℕ) (so_far : Bool) (kind : RuleType) (r : Rule)
    → r.kind ≡ kind
    → says kind (ip_matches r ip && port_matches r port) so_far ≡ override port ip so_far r
unfolding says
says_lem port ip so_far bind_allow r e = rw e refl
says_lem port ip so_far connect_allow r e = rw e refl
says_lem port ip so_far connect_deny r e = rw e refl

-- The last rule that concerns a connection decides; where none does, it is refused.
abbrev pub last_word : List Rule → (port ip : ℕ) → Bool
last_word rules port ip = foldl (override port ip) false rules

abbrev may_bind : RuleType → Bool
may_bind kind = elim (verdict kind) [ none ↦ true | some answer ↦ false ]

-- Some rule allows programs to bind the port.
abbrev pub some_allows : List Rule → (port : ℕ) → Bool
some_allows rules port =
    foldl
      (λ (so_far : Bool) (r : Rule).
        if may_bind r.kind && (r.port == 0 || r.port == port) then true else so_far)
      false rules

-- The rules of `new` in front of others, the last one first.
abbrev onto : (new rules : List Rule) → List Rule
onto [] rules = rules
onto (r ∷ new) rules = onto new (r ∷ rules)

is_bind_lem : (kind : RuleType) → is_bind_allow kind ≡ may_bind kind
is_bind_lem bind_allow = refl
is_bind_lem connect_allow = refl
is_bind_lem connect_deny = refl

connect-onto :
    (new rules : List Rule) (port ip : ℕ)
    → check_connect (onto new rules) port ip
      ≡ foldl (override port ip) (check_connect rules port ip) new
unfolding check_connect
connect-onto [] rules port ip = refl
connect-onto (r ∷ new) rules port ip =
    connect-onto new (r ∷ rules) port ip
    ∙ ap (λ (b : Bool). foldl (override port ip) b new)
        (says_lem port ip (check_connect rules port ip) r.kind r refl)

bind-onto :
    (new rules : List Rule) (port : ℕ)
    → check_bind (onto new rules) port
      ≡ foldl
          (λ (so_far : Bool) (r : Rule).
            if may_bind r.kind && (r.port == 0 || r.port == port) then true else so_far)
          (check_bind rules port)
          new
unfolding check_bind
bind-onto [] rules port = refl
bind-onto (r ∷ new) rules port = rw (sym (is_bind_lem r.kind)) (bind-onto new (r ∷ rules) port)

Parsed-cases :
    (p : Parsed) → (p ≡ skip) ⊎ (((r : Rule) × (b : Buffers) × (p ≡ rule r b)) ⊎ (p ≡ unknown))
Parsed-cases skip = inl refl
Parsed-cases (rule r b) = inr (inl (r, b, refl))
Parsed-cases unknown = inr (inr refl)

parse-onto :
    (inet_aton : Line → ℕ → ℕ) (lines : List Line) (b : Buffers) (old : List Rule)
    {rules : List Rule}
    → firewall_parse inet_aton lines b old ≡ some rules
    → (new : List Rule) × (rules_of inet_aton lines b ≡ some new) × (rules ≡ onto new old)
unfolding firewall_parse rules_of
parse-onto inet_aton [] b old h = ([], refl, cc)
parse-onto inet_aton (line ∷ lines) b old {rules} h =
    elim (Parsed-cases (parse_line inet_aton line b)) [
      | inl e ↦
          let (new, of, eq) = parse-onto inet_aton lines b old (rw (e, firewall_parse) at h) in
          (new, rw (e, rules_of) of, eq)
      | inr (inl (r, b', e)) ↦
          let (new, of, eq) =
            parse-onto inet_aton lines b' (r ∷ old) (rw (e, firewall_parse) at h) in
          (r ∷ new, rw (e, rules_of, of) refl, eq)
      | inr (inr e) ↦ absurd (ends e)
    ]
  where
    ends : parse_line inet_aton line b ≡ unknown → ⊥
    ends e = cc (rw (e, firewall_parse) at h)

-- When firewall_parse accepts a file, the rules that it stores decide as the rules that parse_line
-- reads of its lines, in their order: the last rule on connections that concerns a connection, by
-- its port and by the bits of its address, has the word, which is yes for an allow rule and no for
-- a deny rule; where no rule concerns the connection it is refused; and a port may be bound exactly
-- when some rule that allows to bind is for it or for all ports.
pub firewall_parse-last_word :
    (inet_aton : Line → ℕ → ℕ) (lines : List Line) (b : Buffers) {rules : List Rule}
    → firewall_parse inet_aton lines b [] ≡ some rules
    → (new : List Rule) × (rules_of inet_aton lines b ≡ some new)
      × ((port ip : ℕ) → check_connect rules port ip ≡ last_word new port ip)
      × ((port : ℕ) → check_bind rules port ≡ some_allows new port)
unfolding check_connect check_bind
firewall_parse-last_word inet_aton lines b h =
    let (new, of, eq) = parse-onto inet_aton lines b [] h in
    (
      new,
      of,
      λ port ip. ap (λ (l : List Rule). check_connect l port ip) eq ∙ connect-onto new [] port ip,
      λ port. ap (λ (l : List Rule). check_bind l port) eq ∙ bind-onto new [] port,
    )
