-- ===== src/Probes/Dns.antt =====
-- ingraind-probes/src/dns: the filter on the packets of an interface. `XdpContext` gives the headers
-- and the bytes behind them; a packet in which one of them is missing ends the program at the `?`.
use ingraind.Prelude.{
  ℕ, ◌/◌, ◌%◌, not, Option, none, some, List, [], ◌∷◌, if◌then◌else◌, ◌==◌, nat_equality, leb,
  length, take, get_elem?, Result, ok, ◌>>=◌,
}
use ingraind.Probes.Bpf.{field}

pub record Event : Type 0 where
  pub saddr : ℕ
  pub daddr : ℕ
  pub sport : ℕ
  pub dport : ℕ

-- the addresses of the IP header, the ports of the transport header, the payload with its offset in
-- the packet, and the length of the packet
pub record XdpContext : Type 0 where
  pub ip : Option (ℕ × ℕ)
  pub transport : Option (ℕ × ℕ)
  pub payload : Option (ℕ × List ℕ)
  pub len : ℕ

-- `MapData::with_payload`
pub record MapData : Type 0 where
  pub event : Event
  pub offset : ℕ
  pub size : ℕ

pub data XdpAction : Type 0 where
  pass : XdpAction

-- `data.slice(len)`
abbrev slice : List ℕ → ℕ → Option (List ℕ)
slice payload n = if leb n (length payload) then some (take n payload) else none

-- the action, and what is sent to `events`
unfoldable pub probe : XdpContext → Result (Unit {0}) (XdpAction × List MapData)
probe ctx = do
  ip ← field ctx.ip
  transport ← field ctx.transport
  (offset, payload) ← field ctx.payload
  header ← field (slice payload 12)
  flags ← field (get_elem? header 2)
  if not ((flags / 8) % 16 == 0)
      then ok (pass, [])
      else ok (
        pass,
        record {
          event = record { saddr = ip.0; daddr = ip.1; sport = transport.0; dport = transport.1 };
          offset = offset;
          size = ctx.len;
        }
            ∷ [],
      )
