-- ===== src/Grains/Network.antt =====
-- src/grains/network.rs: the measurements made of what the probes on TCP and UDP send. The bytes of
-- an event are read by `Layout`, the layout of the structures that both sides share.
pub mod Sockets
use ingraind.Prelude.{
  ℕ, ◌%◌, ◌^◌, ◌≡◌, ◌&&◌, ◌||◌, Text, chars, Option, none, some, List, if◌then◌else◌, ◌==◌,
  nat_equality, text_equality, Run, ok, err, panic, bit_or,
}
use ingraind.Prelude.Number
use ingraind.Float.{Float}
use ingraind.Backends.{Message, single}
use ingraind.Metrics
use ingraind.Metrics.Kind
use ingraind.Metrics.Units.{MeasureUnit}
use ingraind.Metrics.TagList
use ingraind.Metrics.TagList.{Tags}
use ingraind.Grains.CString
use ingraind.Grains.CString.{Lossy}
use ingraind.Grains.Packet.{to_le, to_ipv4, show_ip, Ipv4Addr}
use ingraind.Probes.Network.{Connection, Volume, send, receive, Ipv6Addr}

-- the two protocols among the bindings
pub record Protocols : Type 0 where
  pub ipproto_tcp : ℕ
  pub ipproto_udp : ℕ

-- `ptr::read` at the two types
pub record Layout : Type 0 where
  pub read_connection : List ℕ → Connection
  pub read_message : List ℕ → Volume

-- `to_string` of an IPv6 address
pub record ShowV6 : Type 0 where
  pub show_v6 : Ipv6Addr → Text

-- `to_ipv4` of `std::net::Ipv6Addr` on the words of the address, the low bytes first: ten bytes of
-- zeros, and then two of zeros or two of ones
unfoldable pub to_v4 : Ipv6Addr → Option Ipv4Addr
to_v4 (w0, w1, w2, w3) =
    if w0 == 0 && w1 == 0 && (w2 == 0 || w2 == 0xFFFF0000) then some (to_ipv4 w3) else none

unfoldable pub ip_to_string : ⦃v6 : ShowV6⦄ → Ipv6Addr → Text
unfolding to_v4
ip_to_string ⦃v6⦄ addr = elim (to_v4 addr) [ some v4 ↦ show_ip v4 | none ↦ v6.show_v6 addr ]

-- the name, the connection and the size of a message
abbrev pub parts : Volume → Text × Connection × ℕ
parts (send conn size) = (chars "volume.out", conn, size)
parts (receive conn size) = (chars "volume.in", conn, size)

unfoldable pub proto_name : ⦃protocols : Protocols⦄ → ℕ → Option Text
proto_name ⦃protocols⦄ typ =
    if typ == protocols.ipproto_tcp
    then some (chars "tcp")
    else if typ == protocols.ipproto_udp
    then some (chars "udp")
    else none

module _ ⦃lossy : Lossy⦄ ⦃v6 : ShowV6⦄ where
  unfoldable pub conn_tags : Connection → Tags
  unfolding TagList.insert
  conn_tags event =
      TagList.insert (chars "s_port") (Number.to_string (to_le (event.sport % 2 ^ 16))) (
        TagList.insert (chars "d_port") (Number.to_string (to_le (event.dport % 2 ^ 16))) (
          TagList.insert (chars "s_ip") (ip_to_string event.saddr) (
            TagList.insert (chars "d_ip") (ip_to_string event.daddr) (
              TagList.insert (chars "process_id") (Number.to_string event.pid) (
                TagList.insert (chars "process_str") (CString.to_string event.comm) TagList.new)))))

  module _ {F : Type 0} ⦃fl : Float F⦄ where
    -- the callback of `ip_connections`
    unfoldable pub connection_out : ℕ → Connection → Option (Message F)
    connection_out now event = some (
        single (
          Metrics.new now (bit_or (bit_or Kind.counter Kind.histogram) Kind.meter)
            (chars "connection.out") (MeasureUnit.count 1) (conn_tags event)))

    module _ ⦃protocols : Protocols⦄ where
      -- the callback of `ip_volume`
      unfoldable pub volume_message : ℕ → Volume → Option (Message F)
      unfolding proto_name
      volume_message now event =
          let (name, conn, vol) = parts event in
          elim (proto_name conn.typ) [
            | none ↦ none
            | some proto ↦ some (
                single (
                  Metrics.new now (bit_or Kind.counter Kind.histogram) name (MeasureUnit.byte vol)
                    (TagList.insert (chars "proto") proto (conn_tags conn))))
          ]

      -- any other name reaches `unreachable!()`
      unfoldable pub get_handler : ⦃layout : Layout⦄ → Text → Run (ℕ → List ℕ → Option (Message F))
      get_handler ⦃layout⦄ id =
          if id == chars "ip_connections"
          then ok (λ now raw. connection_out now (layout.read_connection raw))
          else if id == chars "ip_volume"
          then ok (λ now raw. volume_message now (layout.read_message raw))
          else err panic
