-- ===== src/Firewall.antt =====
-- apps/ufirewall/firewall.c: rules on the ports and addresses that a sandboxed program may use, and
-- the monitor of its system calls.
pub mod Parse
pub mod Match
pub mod Order
pub mod Guard
mod Tests
use libdbos.Common.{
  ℕ, ◌+◌, ◌-◌, ◌*◌, ◌%◌, ◌^◌, Bool, true, false, not, ◌&&◌, ◌||◌, List, [], ◌∷◌, bit_and, ◌==◌,
  if◌then◌else◌,
}
use libdbos.Sandbox.Check.{Bytes, load}
use libdbos.Sandbox.Params.{Sysno, sys_bind, sys_connect, Abi, TrapFrame}
use libdbos.Sandbox.Handler.{Ops, eperm}

pub data RuleType : Type 0 where
  bind_allow connect_allow connect_deny : RuleType

-- `struct fw_rule`; an `ip` and a `mask` are numbers in network order, as in `s_addr`.
pub record Rule : Type 0 where
  pub kind : RuleType
  pub port : ℕ
  pub ip : ℕ
  pub mask : ℕ

abbrev pub port_any : ℕ
port_any = 0

-- The test of a port.
abbrev pub port_matches : Rule → ℕ → Bool
port_matches r port = r.port == port_any || r.port == port

-- The test of an address, `(ip & p->ip) == (ip & p->mask)`
abbrev pub ip_matches : Rule → ℕ → Bool
ip_matches r ip = bit_and ip r.ip == bit_and ip r.mask

abbrev pub is_bind_allow : RuleType → Bool
is_bind_allow bind_allow = true
is_bind_allow connect_allow = false
is_bind_allow connect_deny = false

-- `firewall_check_bind`, on the list of rules
unfoldable pub check_bind : List Rule → (port : ℕ) → Bool
check_bind [] port = false
check_bind (r ∷ rules) port =
    let rest = check_bind rules port in
    if is_bind_allow r.kind && port_matches r port then true else rest

-- What a rule says of a connection, and whether it says anything.
unfoldable pub says : RuleType → (applies rest : Bool) → Bool
says bind_allow applies rest = rest
says connect_allow applies rest = if applies then true else rest
says connect_deny applies rest = if applies then false else rest

-- `firewall_check_connect`, on the list of rules
unfoldable pub check_connect : List Rule → (port ip : ℕ) → Bool
check_connect [] port ip = false
check_connect (r ∷ rules) port ip =
    says r.kind (ip_matches r ip && port_matches r port) (check_connect rules port ip)

-- `struct sockaddr_in` in memory: the family, the port in network order, and the address.
abbrev pub sin_family : Bytes → ℕ → ℕ
sin_family mem a = mem a + 256 * mem (a + 1)

abbrev pub sin_port : Bytes → ℕ → ℕ
sin_port mem a = mem (a + 2) * 256 + mem (a + 3)

-- `len == sizeof(*a) && a->sin_family == AF_INET`
abbrev pub is_ipv4 : Bytes → (addr len : ℕ) → Bool
is_ipv4 mem addr len = len % 2 ^ 32 == 16 && sin_family mem addr == 2

-- `check_bind` and `check_connect` on the parameters of the system calls
unfoldable pub bind_allowed : List Rule → Bytes → (addr len : ℕ) → Bool
bind_allowed rules mem addr len =
    if is_ipv4 mem addr len then check_bind rules (sin_port mem addr) else true

unfoldable pub connect_allowed : List Rule → Bytes → (addr len : ℕ) → Bool
connect_allowed rules mem addr len =
    if is_ipv4 mem addr len
    then check_connect rules (sin_port mem addr) (load 4 mem (addr + 4))
    else true

-- The answer of the monitor: a refused call has -EPERM in `rax`.
abbrev pub answer : Bool → TrapFrame → Bool × ℕ
answer status tf = (status, (if status then tf.rax else eperm))

unfoldable pub monitor_call : List Rule → Bytes → Sysno → TrapFrame → Bool × ℕ
monitor_call rules mem sys_bind tf = answer (bind_allowed rules mem tf.arg1 tf.arg2) tf
monitor_call rules mem sys_connect tf = answer (connect_allowed rules mem tf.arg1 tf.arg2) tf
monitor_call rules mem call tf = (true, tf.rax)

-- `syscall_monitor`
abbrev pub syscall_monitor : {W : Type 0} → Abi → Ops W → List Rule → TrapFrame → W → Bool × ℕ
syscall_monitor abi ops rules tf w = monitor_call rules (ops.memory w) (abi.call tf.rax) tf
