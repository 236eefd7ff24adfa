-- ===== src/Firewall/Tests.antt =====
-- Rules and runs of the firewall.
use libdbos.Common.{
  ℕ, ◌-◌, ◌≡◌, ◌↔◌, refl, true, false, ◌&&◌, some, List, [], ◌∷◌, leb, ◌==◌, bit_and, if◌then◌else◌,
}
use libdbos.Umm.Tests.{granting, mapping, errors, layout}
use libdbos.Sandbox.Check.{Bytes, load}
use libdbos.Sandbox.Params.{TrapFrame}
use libdbos.Sandbox.Handler.{syscall_handler}
use libdbos.Sandbox.Tests.{linux, machine, ops_with}
use libdbos.Firewall.{
  Rule, bind_allow, connect_allow, connect_deny, ip_matches, check_bind, check_connect, says,
  syscall_monitor,
}
use libdbos.Firewall.Match.{network, ip_matches_lem}
use libdbos.Firewall.Parse.{
  Line, Buffers, codes, firewall_parse, parse_line, rule_line, words, after_prefix, bind_rule,
  connect_rule, scan_port, scan_three, port_of, atoi16, digits,
}
use libdbos.Firewall.Order.{rules_of, last_word, some_allows, firewall_parse-last_word}
use libdbos.Firewall.Guard.{by_connect, OnlyAnswered, firewall-OnlyAnswered}

-- `allow connect 80 192.168.0.0 255.255.0.0`, with the addresses as little-endian words.
abbrev private_network : Rule
private_network = record { kind = connect_allow; port = 80; ip = 0xa8c0; mask = 0xffff }

ip_matches_lem_example : (ip_matches private_network 0x0100_00c0 ≡ true) ↔ (
    bit_and (network private_network 0x0100_00c0) private_network.ip
    ≡ network private_network 0x0100_00c0)
ip_matches_lem_example = ip_matches_lem private_network 0x0100_00c0 refl

-- The address 192.0.0.1 is not of the network 192.168, but the rule applies to it.
other_network : ip_matches private_network 0x0100_00c0 ≡ true
other_network = refl

-- `inet_aton` on texts of one digit.
abbrev one_digit : Line → ℕ → ℕ
one_digit [] before = before
one_digit (c ∷ s) before = c - b'0'

abbrev no_words : Buffers
no_words = record { port = []; ip = []; mask = []; s_addr = 0 }

abbrev file : List Line
file =
    codes "# ports"
    ∷ codes "allow bind 8080"
    ∷ codes "allow connect * 0 0"
    ∷ codes "deny connect 25 0 0"
    ∷ []

abbrev stored : List Rule
stored =
    record { kind = connect_deny; port = 25; ip = 0; mask = 0 }
    ∷ record { kind = connect_allow; port = 0; ip = 0; mask = 0 }
    ∷ record { kind = bind_allow; port = 8080; ip = 0; mask = 0 }
    ∷ []

file-stored : firewall_parse one_digit file no_words [] ≡ some stored
unfolding firewall_parse parse_line rule_line words after_prefix bind_rule connect_rule scan_port
    scan_three port_of atoi16 digits
file-stored = refl

firewall_parse-last_word_example :
    (new : List Rule) × (rules_of one_digit file no_words ≡ some new)
    × ((port ip : ℕ) → check_connect stored port ip ≡ last_word new port ip)
    × ((port : ℕ) → check_bind stored port ≡ some_allows new port)
firewall_parse-last_word_example = firewall_parse-last_word one_digit file no_words file-stored

-- A connection to port 25 of 1.2.3.4.
abbrev mail_address : Bytes
mail_address p =
    if p == 0x40_0000
    then 2
    else if p == 0x40_0003
    then 25
    else if leb 0x40_0004 p && leb p 0x40_0007
    then p - 0x40_0003
    else 0

abbrev connect_mail : TrapFrame
connect_mail = record {
  rax = 42;
  arg0 = 3;
  arg1 = 0x40_0000;
  arg2 = 16;
  arg3 = 0;
  arg4 = 0;
  arg5 = 0;
}

mail_denied : check_connect stored 25 (load 4 mail_address 0x40_0004) ≡ false
unfolding check_connect load says
mail_denied = refl

firewall-OnlyAnswered_example :
    OnlyAnswered linux granting mapping errors layout (ops_with mail_address) connect_mail machine (
      syscall_handler linux granting mapping errors layout
        (ops_with mail_address)
        (some (syscall_monitor linux (ops_with mail_address) stored))
        connect_mail
        machine)
firewall-OnlyAnswered_example =
    firewall-OnlyAnswered linux granting mapping errors layout (ops_with mail_address) stored
      connect_mail machine (by_connect refl mail_denied)
