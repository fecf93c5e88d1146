-- ===== src/Grains/Tls.antt =====
-- src/grains/tls.rs: the messages made of TLS handshakes. rustls parses the packets and writes
-- versions and cipher suites; what the code reads of its values is in the types below.
pub mod Filtered
pub mod Trimmed
use ingraind.Prelude.{
  ℕ, ◌≡◌, Bool, true, false, Text, chars, Option, none, some, List, [], ◌∷◌, ◌++◌, if◌then◌else◌,
  length, drop, leb, Run, Result, ok, err, panic, ◌>>=◌, unwrap, try_map, retain, join, bit_or,
}
use ingraind.Float.{Float}
use ingraind.Backends.{Message, single}
use ingraind.Metrics
use ingraind.Metrics.Kind
use ingraind.Metrics.Units.{MeasureUnit}
use ingraind.Metrics.TagList
use ingraind.Metrics.TagList.{Tags}
use ingraind.Grains.Packet.{tcp_payload_offset, tag_ip_and_ports}
use ingraind.Grains.Statsd.Delivery.{Utf8}

-- a `ServerName`: whether its type is `HostName`, and the name if its payload is one
pub record ServerName : Type 0 where
  pub is_host_name : Bool
  pub host_name : Option Text

pub record ClientHello : Type 0 where
  pub cipher_suites : List Text
  pub client_version : Text
  pub sni_extension : Option (List ServerName)

pub record ServerHello : Type 0 where
  pub cipher_suite : Text
  pub alpn_protocol : Option (List ℕ)

pub data HandshakePayload : Type 0 where
  client_hello : ClientHello → HandshakePayload
  server_hello : ServerHello → HandshakePayload
  other_handshake : HandshakePayload

-- a packet: its type, what `decode_payload` makes of a handshake (`none` where it fails or leaves
-- no handshake), and its version
pub record TlsPacket : Type 0 where
  pub is_handshake : Bool
  pub decoded : Option HandshakePayload
  pub version : Text

-- `Message::read_bytes` of rustls
pub record Rustls : Type 0 where
  pub read_bytes : List ℕ → Option TlsPacket

-- the suites as rustls writes them
abbrev pub cipher_suites_to_string : List Text → Text
cipher_suites_to_string list = join (chars ",") list

-- the name of a server name of type `HostName`; `unreachable!()` otherwise
unfoldable pub host_name_of : ServerName → Run Text
host_name_of sni = unwrap sni.host_name

unfoldable pub sni_list : List ServerName → Run Text
unfolding host_name_of
sni_list snis =
    try_map host_name_of (retain (λ (sni : ServerName). sni.is_host_name) snis) >>= λ names.
    ok (join (chars ",") names)

-- `&buf[offset..]`
unfoldable pub slice_from : List ℕ → ℕ → Run (List ℕ)
slice_from buf offset = if leb offset (length buf) then ok (drop offset buf) else err panic

module _ {F : Type 0} ⦃fl : Float F⦄ where
  unfoldable pub msg : ℕ → Text → Tags → Message F
  msg now name tags = single (
      Metrics.new now (bit_or Kind.counter Kind.meter) (chars "tls.handshake." ++ name)
        (MeasureUnit.count 1) tags)

  -- the tags of a client's message, the SNI extension's among them if there is one
  unfoldable pub parse_clienthello : ℕ → ClientHello → Tags → Run (Message F)
  parse_clienthello now payload tags =
      let versioned = TagList.insert (chars "client_version") payload.client_version (
        TagList.insert (chars "ciphersuites_list") (cipher_suites_to_string payload.cipher_suites)
          tags) in
      elim payload.sni_extension [
        | none ↦ ok (msg now (chars "clienthello") versioned)
        | some snis ↦ sni_list snis >>= λ names.
            ok (msg now (chars "clienthello") (TagList.insert (chars "sni_list") names versioned))
      ]

-- the protocol that `get_alpn_protocol` gives, if it is UTF-8
unfoldable pub alpn : ⦃utf8 : Utf8⦄ → ServerHello → Option Text
alpn ⦃utf8⦄ payload = elim payload.alpn_protocol [ none ↦ none | some bs ↦ utf8.from_utf8 bs ]

module _ {F : Type 0} ⦃fl : Float F⦄ ⦃utf8 : Utf8⦄ where
  unfoldable pub parse_serverhello : ℕ → ServerHello → Tags → Message F
  parse_serverhello now payload tags =
      let suited = TagList.insert (chars "ciphersuite_str") payload.cipher_suite tags in
      elim (alpn payload) [
        | none ↦ msg now (chars "serverhello") suited
        | some proto ↦
            msg now (chars "serverhello") (TagList.insert (chars "alpn_str") proto suited)
      ]

  unfoldable pub handshake_to_message :
      ℕ → List ℕ → Text → HandshakePayload → Run (Option (Message F))
  handshake_to_message now buf version handshake = tag_ip_and_ports buf >>= λ addressed.
      let tags = TagList.insert (chars "tls_version") version addressed in
      elim handshake [
        | client_hello payload ↦ parse_clienthello now payload tags >>= λ m. ok (some m)
        | server_hello payload ↦ ok (some (parse_serverhello now payload tags))
        | other_handshake ↦ ok none
      ]

  unfoldable pub packet_to_message : ℕ → List ℕ → TlsPacket → Run (Option (Message F))
  packet_to_message now buf packet =
      if packet.is_handshake
      then (elim packet.decoded [
        | none ↦ ok none
        | some handshake ↦ handshake_to_message now buf packet.version handshake
      ])
      else ok none

module _ {F : Type 0} ⦃fl : Float F⦄ ⦃utf8 : Utf8⦄ ⦃tls : Rustls⦄ where
  -- the callback of the grain; `now` is what `timestamp_now` reads
  unfoldable pub tls_to_message : ℕ → List ℕ → Run (Option (Message F))
  tls_to_message now buf = tcp_payload_offset buf >>= λ offset. slice_from buf offset >>= λ rest.
      elim (tls.read_bytes rest) [ none ↦ ok none | some packet ↦ packet_to_message now buf packet ]
