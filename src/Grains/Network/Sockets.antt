-- ===== src/Grains/Network/Sockets.antt =====
-- From a TCP socket in the kernel's memory to the measurement that src/grains/network.rs makes of it:
-- ingraind-probes/src/network/main.rs reads the socket, and the grain writes the tags.
use ingraind.Prelude.{ℕ, ◌/◌, ◌%◌, ◌^◌, ◌<◌, chars, none, some, [], ◌∷◌, nat_equality}
use ingraind.Prelude.Number
use ingraind.Float.{Float}
use ingraind.Metrics
use ingraind.Metrics.Kind
use ingraind.Metrics.TagList
use ingraind.Metrics.TagList.{Tags}
use ingraind.Grains.CString
use ingraind.Grains.CString.{Lossy}
use ingraind.Grains.Packet.{to_le, of_ipv4, show_ip, Ipv4Addr}
use ingraind.Grains.Network.{ShowV6}
use ingraind.Probes.Network.{Bindings, Context, Connection, Sock, mapped}

-- the two ends of a connection over IPv4
pub record Ends : Type 0 where
  pub source : Ipv4Addr
  pub destination : Ipv4Addr
  pub source_port : ℕ
  pub destination_port : ℕ

abbrev IsAddress : Ipv4Addr → Type 0
IsAddress (a, b, c, d) = (a < 256) × (b < 256) × (c < 256) × (d < 256)

-- bytes in the addresses, and two bytes in a port
abbrev pub IsEnds : Ends → Type 0
IsEnds e =
    IsAddress e.source
    × IsAddress e.destination
    × (e.source_port < 65536)
    × (e.destination_port < 65536)

-- a socket of these ends as the kernel keeps it: the addresses and the destination's port in the
-- order of the network, and the source's port, `skc_num`, in that of the host
abbrev pub socket_of : ⦃b : Bindings⦄ → ℕ → Ends → Sock
socket_of ⦃b⦄ bits e = record {
  skc_family = some b.af_inet;
  skc_v6_daddr = none;
  skc_v6_rcv_saddr = none;
  skc_daddr = some (of_ipv4 e.destination);
  skc_rcv_saddr = some (of_ipv4 e.source);
  skc_dport = some (to_le e.destination_port);
  skc_num = some e.source_port;
  bitfield = some bits;
}

abbrev connection_of : ⦃b : Bindings⦄ → Context → ℕ → Ends → Connection
connection_of ⦃b⦄ ctx bits e = record {
  ts = ctx.ktime;
  pid = (ctx.pid_tgid / 2 ^ 32) % 2 ^ 32;
  typ = b.protocol bits;
  sport = e.source_port;
  dport = to_le e.destination_port;
  comm = ctx.comm;
  saddr = mapped (of_ipv4 e.source);
  daddr = mapped (of_ipv4 e.destination);
}

module _ ⦃lossy : Lossy⦄ ⦃v6 : ShowV6⦄ where
  -- the tags of a connection, in their order
  abbrev pub tags_of : Context → Ends → Tags
  tags_of ctx e =
      (chars "process_str", CString.to_string ctx.comm)
      ∷ (chars "process_id", Number.to_string ((ctx.pid_tgid / 2 ^ 32) % 2 ^ 32))
      ∷ (chars "d_ip", show_ip e.destination)
      ∷ (chars "s_ip", show_ip e.source)
      ∷ (chars "d_port", Number.to_string e.destination_port)
      ∷ (chars "s_port", Number.to_string (to_le e.source_port))
      ∷ []
