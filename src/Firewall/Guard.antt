-- ===== src/Firewall/Guard.antt =====
-- The monitor in the handler of system calls, and the ports of the rules.
use libdbos.Common.{
  ℕ, ◌+◌, ◌≡◌, ◌≢◌, ◌⊎◌, refl, ◌∙◌, inl, inr, Bool, true, false, ◌&&◌, Option, none, some, List,
  ◌∷◌, leb, ne→==, if◌then◌else◌,
}
use libdbos.Ept.Addr.{DuneLayout}
use libdbos.Umm.{Codes, Sys, PageTables}
use libdbos.Sandbox.Check.{load}
use libdbos.Sandbox.Params.{
  Sysno, sys_bind, sys_connect, Abi, TrapFrame, Checked, pass, refused, died,
}
use libdbos.Sandbox.Handler.{
  Ops, Machine, Outcome, returned, with_rax, syscall_allow, monitored, checked, syscall_handler,
}
use libdbos.Firewall.{
  Rule, port_any, port_matches, check_bind, check_connect, sin_port, is_ipv4, bind_allowed,
  connect_allowed, monitor_call, syscall_monitor,
}
use libdbos.Firewall.Parse.{Line, is_star, digits, atoi16, port_of}

-- A bind or a connection by IPv4 that the rules do not allow.
pub data Forbidden (rules : List Rule) (mem : ℕ → ℕ) (tf : TrapFrame) : Sysno → Type 0 where
  by_bind :
      is_ipv4 mem tf.arg1 tf.arg2 ≡ true
      → check_bind rules (sin_port mem tf.arg1) ≡ false
      → Forbidden rules mem tf sys_bind
  by_connect :
      is_ipv4 mem tf.arg1 tf.arg2 ≡ true
      → check_connect rules (sin_port mem tf.arg1) (load 4 mem (tf.arg1 + 4)) ≡ false
      → Forbidden rules mem tf sys_connect

denies :
    (rules : List Rule) (mem : ℕ → ℕ) (tf : TrapFrame) {call : Sysno}
    → Forbidden rules mem tf call
    → (monitor_call rules mem call tf).0 ≡ false
unfolding monitor_call bind_allowed connect_allowed
denies rules mem tf (by_bind ipv4 no_rule) = rw (ipv4, no_rule) refl
denies rules mem tf (by_connect ipv4 no_rule) = rw (ipv4, no_rule) refl

module _ {W : Type 0} (abi : Abi) (sys : Sys W) (tables : PageTables W) (codes : Codes)
    (layout : DuneLayout) (ops : Ops W) where
  -- The program has ended, or goes on with an answer and nothing else done.
  abbrev pub OnlyAnswered : TrapFrame → Machine W → Option (Outcome W) → Type 0
  OnlyAnswered tf m o = (o ≡ none) ⊎ ((rax : ℕ) × (o ≡ some (returned (with_rax tf rax) m)))

  stops :
      (rules : List Rule) (tf : TrapFrame) (m : Machine W) (c : Checked)
      → (syscall_monitor abi ops rules tf m.umm.world).0 ≡ false
      → OnlyAnswered tf m
          (checked abi sys tables codes layout ops (some (syscall_monitor abi ops rules)) tf m c)
  unfolding checked monitored syscall_allow
  stops rules tf m pass denied =
      inr ((syscall_monitor abi ops rules tf m.umm.world).1, rw denied refl)
  stops rules tf m (refused rax) denied = inr (rax, refl)
  stops rules tf m died denied = inl refl

  -- With the firewall as the monitor, a system call that binds a port, or connects to an address
  -- and a port, by a 16-byte IPv4 address in the program's memory, does nothing but return a
  -- number, or ends the program, when the rules do not allow it.
  pub firewall-OnlyAnswered :
      (rules : List Rule) (tf : TrapFrame) (m : Machine W)
      → Forbidden rules (ops.memory m.umm.world) tf (abi.call tf.rax)
      → OnlyAnswered tf m (
          syscall_handler abi sys tables codes layout ops
            (some (syscall_monitor abi ops rules))
            tf
            m)
  unfolding syscall_handler
  firewall-OnlyAnswered rules tf m f =
      stops rules tf m _ (denies rules (ops.memory m.umm.world) tf f)

-- A rule whose port is a word that begins with no digit and no sign, such as the name of a
-- service, applies to every port.
pub port_of-port_any :
    (r : Rule) (c : ℕ) (s : Line)
    → (leb b'0' c && leb c b'9') ≡ false
    → c ≢ b'-'
    → c ≢ b'+'
    → r.port ≡ port_of (c ∷ s)
    → (port : ℕ) → port_matches r port ≡ true
unfolding port_of atoi16 digits
port_of-port_any r c s no_digit no_minus no_plus e port = rw (e ∙ zero_port (is_star (c ∷ s))) refl
  where
    zero_port : (star : Bool) → (if star then port_any else atoi16 (c ∷ s)) ≡ port_any
    zero_port true = refl
    zero_port false = rw (ne→== c b'-' no_minus, ne→== c b'+' no_plus, no_digit) refl
