-- ===== src/Firewall/Parse.antt =====
-- `firewall_parse` of apps/ufirewall/firewall.c, on the lines that `fgets` gives. The words of a
-- line fit in the buffers of 8 and 20 bytes, as `sscanf` does not check.
use Prim.Native.Char.{code}
use Prim.Native.String.{String}
use libdbos.Common.{
  ℕ, ◌+◌, ◌-◌, ◌*◌, ◌%◌, ◌^◌, Bool, false, ◌&&◌, ◌||◌, Option, none, some, List, [], ◌∷◌, ◌++◌, leb,
  ◌==◌, if◌then◌else◌,
}
use libdbos.Firewall.{RuleType, bind_allow, connect_allow, connect_deny, Rule, port_any}

abbrev pub Line : Type 0
Line = List ℕ

abbrev pub codes : String → Line
codes String.[] = []
codes (String.◌∷◌ c s) = code c ∷ codes s

-- The line without the text, where `strncmp` finds that it begins with it.
unfoldable pub after_prefix : (text line : Line) → Option Line
after_prefix [] line = some line
after_prefix (c ∷ text) [] = none
after_prefix (c ∷ text) (d ∷ line) =
    let rest = after_prefix text line in if c == d then rest else none

-- `isspace`
abbrev pub is_space : ℕ → Bool
is_space c = c == b' ' || leb b'\t' c && leb c b'\r'

-- `%s` of `sscanf`: the word that is being read, if any, and the words after it.
unfoldable pub words : (word : Option Line) → Line → List Line
words none [] = []
words (some w) [] = w ∷ []
words none (c ∷ line) = if is_space c then words none line else words (some (c ∷ [])) line
words (some w) (c ∷ line) =
    let next = words none line in
    let more = words (some (w ++ (c ∷ []))) line in if is_space c then w ∷ next else more

-- `port`, `ip` and `mask` of `firewall_parse`, and `inp.s_addr`.
pub record Buffers : Type 0 where
  pub port : Line
  pub ip : Line
  pub mask : Line
  pub s_addr : ℕ

-- The buffers after `sscanf` with one or with three words; a missing word changes nothing.
unfoldable pub scan_port : List Line → Buffers → Buffers
scan_port [] b = b
scan_port (w ∷ ws) b = record b { port = w }

unfoldable pub scan_three : List Line → Buffers → Buffers
scan_three [] b = b
scan_three (p ∷ []) b = record b { port = p }
scan_three (p ∷ i ∷ []) b = record b { port = p; ip = i }
scan_three (p ∷ i ∷ m ∷ ws) b = record b { port = p; ip = i; mask = m }

-- `atoi` on digits, from the value `n` of those before.
unfoldable pub digits : Line → ℕ → ℕ
digits [] n = n
digits (c ∷ s) n =
    let rest = digits s (n * 10 + (c - b'0')) in if leb b'0' c && leb c b'9' then rest else n

-- `(uint16_t)atoi(port)`, on a word: it has no space before its sign or its digits.
unfoldable pub atoi16 : Line → ℕ
atoi16 [] = 0
atoi16 (c ∷ s) =
    if c == b'-'
    then (2 ^ 16 - digits s 0 % 2 ^ 16) % 2 ^ 16
    else if c == b'+'
    then digits s 0 % 2 ^ 16
    else digits (c ∷ s) 0 % 2 ^ 16

abbrev pub is_star : Line → Bool
is_star [] = false
is_star (c ∷ []) = c == b'*'
is_star (c ∷ d ∷ s) = false

-- The port of a rule.
unfoldable pub port_of : Line → ℕ
port_of word = if is_star word then port_any else atoi16 word

-- What a line is.
pub data Parsed : Type 0 where
  skip : Parsed
  rule : Rule → Buffers → Parsed
  unknown : Parsed

module _ (inet_aton : Line → (before : ℕ) → ℕ) where
  -- A rule on connections: the result of `inet_aton`, 0 or 1, is never negative, so `s_addr` is
  -- taken whatever it is.
  unfoldable pub connect_rule : RuleType → Buffers → Parsed
  connect_rule kind b =
      let ip = inet_aton b.ip b.s_addr in
      let mask = inet_aton b.mask ip in
      rule (record { kind = kind; port = port_of b.port; ip = ip; mask = mask })
        (record b { s_addr = mask })

  -- The address and the mask of a rule on ports are never read.
  unfoldable pub bind_rule : Buffers → Parsed
  bind_rule b = rule (record { kind = bind_allow; port = port_of b.port; ip = 0; mask = 0 }) b

  -- The tests of a line after those for a comment and a blank line.
  unfoldable pub rule_line : Buffers → (bind allow deny : Option Line) → Parsed
  rule_line b (some rest) allow deny = bind_rule (scan_port (words none rest) b)
  rule_line b none (some rest) deny = connect_rule connect_allow (scan_three (words none rest) b)
  rule_line b none none (some rest) = connect_rule connect_deny (scan_three (words none rest) b)
  rule_line b none none none = unknown

  abbrev pub is_blank : Line → Bool
  is_blank [] = false
  is_blank (c ∷ []) = c == b'\n'
  is_blank (c ∷ d ∷ s) = false

  abbrev pub is_comment : Line → Bool
  is_comment [] = false
  is_comment (c ∷ s) = c == b'#'

  unfoldable pub parse_line : Line → Buffers → Parsed
  parse_line line b =
      if is_comment line || is_blank line
      then skip
      else rule_line b (after_prefix (codes "allow bind") line)
          (after_prefix (codes "allow connect") line) (after_prefix (codes "deny connect") line)

  -- The loop of `firewall_parse`: the rules, the last one first; `none` for a result of -1.
  unfoldable pub firewall_parse : List Line → Buffers → List Rule → Option (List Rule)
  firewall_parse [] b rules = some rules
  firewall_parse (line ∷ lines) b rules = elim (parse_line line b) [
    | skip ↦ firewall_parse lines b rules
    | rule r b' ↦ firewall_parse lines b' (r ∷ rules)
    | unknown ↦ none
  ]
