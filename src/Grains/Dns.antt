-- ===== src/Grains/Dns.antt =====
-- src/grains/dns.rs: the measurements made of a DNS packet. dns_parser parses the packet, and the
-- types below hold what the code reads of its values, names as texts; metrohash makes the identifier.
pub mod Correlated
use ingraind.Prelude.{
  ℕ, ◌≡◌, Bool, true, false, Text, chars, Option, none, some, List, [], ◌∷◌, ◌++◌, map, Run, ok,
  err, panic, ◌>>=◌, try_map, retain, bit_or,
}
use ingraind.Prelude.Number
use ingraind.Float.{Float}
use ingraind.Backends.{Message, list}
use ingraind.Metrics
use ingraind.Metrics.{Measurement}
use ingraind.Metrics.Kind
use ingraind.Metrics.Units.{MeasureUnit}
use ingraind.Metrics.TagList
use ingraind.Metrics.TagList.{Tags}
use ingraind.Grains.Packet.{Ipv4Addr, to_ipv4, show_ip}
use ingraind.Probes.Dns.{Event}

pub record Soa : Type 0 where
  pub primary_ns : Text
  pub mailbox : Text
  pub serial : ℕ
  pub refresh : ℕ
  pub retry : ℕ
  pub expire : ℕ
  pub minimum_ttl : ℕ

pub data RData : Type 0 where
  a : Ipv4Addr → RData
  aaaa cname ns ptr : Text → RData
  mx : ℕ → Text → RData
  soa : Soa → RData
  srv : ℕ → ℕ → ℕ → Text → RData
  txt unknown : RData

-- the names of the questions, and the data of the answers
pub record Packet : Type 0 where
  pub questions : List Text
  pub answers : List RData

-- `Packet::parse` of dns_parser
pub record DnsParser : Type 0 where
  pub parse : List ℕ → Option Packet

-- `MetroHash64`: what `finish` gives after numbers of so many bits are written, one after the other
pub record MetroHash64 : Type 0 where
  pub finish : List (ℕ × ℕ) → ℕ

unfoldable pub hash_event : ⦃metro : MetroHash64⦄ → Event → ℕ → Text
hash_event ⦃metro⦄ event timestamp = Number.to_string (
    metro.finish (
      (64, timestamp)
      ∷ (32, event.saddr)
      ∷ (32, event.daddr)
      ∷ (16, event.sport)
      ∷ (16, event.dport)
      ∷ []))

-- one more tag
abbrev pub tag : Text → Text → Tags → Tags
tag = TagList.insert

unfoldable pub soa_tags : Soa → Tags → Tags
unfolding TagList.insert
soa_tags s tags = tag (chars "minimum_ttl") (Number.to_string s.minimum_ttl) (
    tag (chars "expire") (Number.to_string s.expire) (
      tag (chars "retry") (Number.to_string s.retry) (
        tag (chars "refresh") (Number.to_string s.refresh) (
          tag (chars "serial") (Number.to_string s.serial) (
            tag (chars "mailbox") s.mailbox (
              tag (chars "primary_ns") s.primary_ns
                (tag (chars "record_type") (chars "SOA") tags)))))))

unfoldable pub srv_tags : ℕ → ℕ → ℕ → Text → Tags → Tags
unfolding TagList.insert
srv_tags priority weight port target tags = tag (chars "address") target (
    tag (chars "srv_port") (Number.to_string port) (
      tag (chars "srv_weight") (Number.to_string weight) (
        tag (chars "srv_priority") (Number.to_string priority)
          (tag (chars "record_type") (chars "SRV") tags))))

-- a type and an address
abbrev pub address_tags : Text → Text → Tags → Tags
address_tags kind address tags = tag (chars "address") address (tag (chars "record_type") kind tags)

-- by the data of a record, behind the identifier
unfoldable pub data_tags : RData → Tags → Run Tags
unfolding TagList.insert soa_tags srv_tags
data_tags (a addr) tags = ok (address_tags (chars "A") (show_ip addr) tags)
data_tags (aaaa addr) tags = ok (address_tags (chars "AAAA") addr tags)
data_tags (cname name) tags = ok (address_tags (chars "CNAME") name tags)
data_tags (mx preference exchange) tags = ok (
    tag (chars "address") exchange (
      tag (chars "mx_preference") (Number.to_string preference)
        (tag (chars "record_type") (chars "MX") tags)))
data_tags (ns name) tags = ok (address_tags (chars "NS") name tags)
data_tags (ptr name) tags = ok (address_tags (chars "PTR") name tags)
data_tags (soa s) tags = ok (soa_tags s tags)
data_tags (srv priority weight port target) tags = ok (srv_tags priority weight port target tags)
data_tags txt tags = ok (tag (chars "record_type") (chars "TXT") tags)
data_tags unknown tags = err panic

unfoldable pub ip_to_tags : RData → Text → Run Tags
unfolding data_tags
ip_to_tags v id = data_tags v (tag (chars "id") id TagList.new)

pub record DnsQuery : Type 0 where
  pub destination_ip : Ipv4Addr
  pub destination_port : ℕ
  pub source_ip : Ipv4Addr
  pub source_port : ℕ

unfoldable pub from : Event → DnsQuery
from event = record {
  destination_ip = to_ipv4 event.daddr;
  destination_port = event.dport;
  source_ip = to_ipv4 event.saddr;
  source_port = event.sport;
}

unfoldable pub to_tags : DnsQuery → Tags
unfolding TagList.insert
to_tags query = tag (chars "s_port") (Number.to_string query.source_port) (
    tag (chars "s_ip") (show_ip query.source_ip) (
      tag (chars "d_port") (Number.to_string query.destination_port)
        (tag (chars "d_ip") (show_ip query.destination_ip) TagList.new)))

-- the answers that the filter keeps
unfoldable pub is_known : RData → Bool
is_known unknown = false
is_known _ = true

module _ {F : Type 0} ⦃fl : Float F⦄ where
  -- one of something, with all three kinds
  abbrev pub counted : ℕ → Text → Tags → Measurement F
  counted timestamp name tags =
      Metrics.with_timestamp timestamp (bit_or (bit_or Kind.counter Kind.histogram) Kind.meter) name
        (MeasureUnit.count 1) tags

  unfoldable pub question : ℕ → Text → Text → Measurement F
  question timestamp id qname =
      counted timestamp (chars "dns.answer_address")
        ((chars "q_address_str", qname) ∷ (chars "id", id) ∷ [])

  unfoldable pub answer : ℕ → Text → RData → Run (Measurement F)
  unfolding ip_to_tags
  answer timestamp id v =
      ip_to_tags v id >>= λ tags. ok (counted timestamp (chars "dns.answer_record") tags)

  -- the measurements of a packet
  unfoldable pub measured : ℕ → Text → Event → Packet → Run (List (Measurement F))
  unfolding question answer from to_tags is_known
  measured timestamp id event packet =
      try_map (answer timestamp id) (retain is_known packet.answers) >>= λ answers. ok (
        counted timestamp (chars "dns.answer") (tag (chars "id") id (to_tags (from event)))
        ∷ (map (question timestamp id) packet.questions ++ answers))

  -- the callback of `get_handler`, on the event and the payload; `now` is what `timestamp_now()` reads
  unfoldable pub handler :
      ⦃metro : MetroHash64⦄ ⦃parser : DnsParser⦄ → ℕ → Event → List ℕ → Run (Option (Message F))
  unfolding measured hash_event
  handler ⦃parser = parser⦄ now event payload = elim (parser.parse payload) [
    | none ↦ ok none
    | some packet ↦ measured now (hash_event event now) event packet >>= λ ms. ok (some (list ms))
  ]
