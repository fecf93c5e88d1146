-- ===== src/Probes/Network.antt =====
-- ingraind-probes/src/network: the probes on the calls of TCP and UDP. A hook is called with the
-- registers, the calling thread, the clock and the kernel's memory at that time; what it sends to
-- the grain is a list.
pub mod Threads
pub mod Calls
use ingraind.Prelude.{
  ℕ, ◌%◌, ◌/◌, ◌^◌, ◌≡◌, Option, none, some, List, [], ◌∷◌, ◌++◌, if◌then◌else◌, ◌==◌, nat_equality,
  Result, ok, err, ◌>>=◌, ok_or,
}
use ingraind.Probes.Bpf.{BpfMap, field}

-- an `in6_addr` as its four words
abbrev pub Ipv6Addr : Type 0
Ipv6Addr = ℕ × ℕ × ℕ × ℕ

-- the fields of a `sock`, each of which may be unreadable
pub record Sock : Type 0 where
  pub skc_family : Option ℕ
  pub skc_v6_daddr : Option Ipv6Addr
  pub skc_v6_rcv_saddr : Option Ipv6Addr
  pub skc_daddr : Option ℕ
  pub skc_rcv_saddr : Option ℕ
  pub skc_dport : Option ℕ
  pub skc_num : Option ℕ
  pub bitfield : Option ℕ

-- what the bindings of the kernel's headers give: two families, and the protocol in a bit field
pub record Bindings : Type 0 where
  pub af_inet : ℕ
  pub af_inet6 : ℕ
  pub protocol : ℕ → ℕ

-- at a hook: the first and the third parameter register, the thread, the clock, the name of the
-- command, and the sockets that pointers point to
pub record Context : Type 0 where
  pub parm1 : ℕ
  pub parm3 : ℕ
  pub pid_tgid : ℕ
  pub ktime : ℕ
  pub comm : List ℕ
  pub memory : ℕ → Sock

pub record Connection : Type 0 where
  pub ts : ℕ
  pub pid : ℕ
  pub typ : ℕ
  pub sport : ℕ
  pub dport : ℕ
  pub comm : List ℕ
  pub saddr : Ipv6Addr
  pub daddr : Ipv6Addr

-- `Message`
pub data Volume : Type 0 where
  send receive : Connection → ℕ → Volume

-- what the two perf maps take
pub data Output : Type 0 where
  ip_connections : Connection → Output
  ip_volumes : Volume → Output

pub data Hook : Type 0 where
  connect_enter connect send_enter send_exit recv_enter recv_exit udp_send_enter udp_rcv_enter :
      Hook

-- an IPv4 address mapped into IPv6, in the words that the code writes
abbrev pub mapped : ℕ → Ipv6Addr
mapped a = (0, 0, 0xFFFF0000, a)

module _ ⦃b : Bindings⦄ where
  -- the addresses of the destination and the source
  unfoldable pub addresses : ℕ → Sock → Result (Unit {0}) (Ipv6Addr × Ipv6Addr)
  addresses family socket =
      if family == b.af_inet6
      then (field socket.skc_v6_daddr >>= λ daddr.
          field socket.skc_v6_rcv_saddr >>= λ saddr. ok (daddr, saddr))
      else if family == b.af_inet
      then (field socket.skc_daddr >>= λ dest.
          field socket.skc_rcv_saddr >>= λ src. ok (mapped dest, mapped src))
      else ok ((0, 0, 0, 0), (0, 0, 0, 0))

  -- the connection of a socket, as far as its fields can be read
  unfoldable pub connection : Context → Sock → Result (Unit {0}) Connection
  unfolding addresses
  connection ctx socket = do
    family ← field socket.skc_family
    ends ← addresses family socket
    dport ← field socket.skc_dport
    sport ← field socket.skc_num
    bits ← field socket.bitfield
    ok (record {
      ts = ctx.ktime;
      pid = (ctx.pid_tgid / 2 ^ 32) % 2 ^ 32;
      typ = b.protocol bits;
      sport = sport;
      dport = dport;
      comm = ctx.comm;
      saddr = ends.1;
      daddr = ends.0;
    })

module _ {M : Type 0} ⦃b : Bindings⦄ ⦃task_to_socket : BpfMap ℕ ℕ M⦄ where
  unfoldable pub store_socket : Context → M → M
  store_socket ctx m = task_to_socket.set ctx.pid_tgid ctx.parm1 m

  -- The socket of the thread is forgotten once its connection is read.
  unfoldable pub conn_details : Context → M → Option Connection × M
  conn_details ctx m = elim (task_to_socket.get ctx.pid_tgid m) [
    | none ↦ (none, m)
    | some s ↦ elim (connection ctx (ctx.memory s)) [
      | err _ ↦ (none, m)
      | ok c ↦ (some c, task_to_socket.delete ctx.pid_tgid m)
    ]
  ]

  unfoldable pub trace_message : Context → (Connection → ℕ → Volume) → M → List Output × M
  unfolding conn_details
  trace_message ctx direction m =
      let details = conn_details ctx m in
      elim details.0 [
        | none ↦ ([], details.1)
        | some c ↦ (ip_volumes (direction c (ctx.parm3 % 2 ^ 16)) ∷ [], details.1)
      ]

  unfoldable pub trace_connect : Context → M → List Output × M
  unfolding conn_details
  trace_connect ctx m =
      let details = conn_details ctx m in
      elim details.0 [ none ↦ ([], details.1) | some c ↦ (ip_connections c ∷ [], details.1) ]

  -- the program of a hook
  unfoldable pub step : Hook → Context → M → List Output × M
  unfolding store_socket trace_message trace_connect
  step connect_enter ctx m = ([], store_socket ctx m)
  step connect ctx m = trace_connect ctx m
  step send_enter ctx m = ([], store_socket ctx m)
  step send_exit ctx m = trace_message ctx send m
  step recv_enter ctx m = ([], store_socket ctx m)
  step recv_exit ctx m = trace_message ctx receive m
  step udp_send_enter ctx m = trace_message ctx send m
  step udp_rcv_enter ctx m = trace_message ctx receive m
