-- ===== src/Grains/Tls/Filtered.antt =====
-- The filter of ingraind-probes/src/tls/main.rs and the grain of src/grains/tls.rs on the same
-- frame: what passes the one is read by the other, where the frame is as long as it declares.
use ingraind.Prelude.{
  ℕ, zero, suc, ◌+◌, ◌*◌, ◌/◌, ◌%◌, ◌≤◌, ◌<◌, ◌≡◌, refl, ◌∙◌, Bool, true, false, List, [], ◌∷◌,
  Option, none, some, arith, get_elem?, length, Result, ok, Panic, bind_inv, Returns, Returns-bind,
  Returns-try_map, Text, All, ◌⊎◌, All-weaken, All-retain_self, try_map, join, chars, Option-cases,
  drop, retain, ok_or, if◌then◌else◌, nat_equality, Bool-cases, inl, inr,
}
use ingraind.Grains.Packet.{
  Ipv4Addr, address_at, address_at-ok, parse_ips-ok, parse_tcp_ports-ok, tag_ip_and_ports, at,
  iph_len, tcp_len, tcp_payload_offset,
}
use ingraind.Grains.Tls.{
  ServerName, HandshakePayload, client_hello, server_hello, other_handshake, sni_list, host_name_of,
  ClientHello, TlsPacket, Rustls, parse_clienthello, packet_to_message, handshake_to_message,
  slice_from, tls_to_message,
}
use ingraind.Float.{Float}
use ingraind.Metrics.TagList
use ingraind.Metrics.TagList.{Tags}
use ingraind.Grains.Statsd.Delivery.{Utf8}
use ingraind.Probes.TlsFilter.{
  load, load_failed, SkBuffError, SkBuffAction, send_to_userspace, ignore, tls_offset, tls_content,
  tls_handshake, load_u16,
}

get_elem?-lt : (xs : List ℕ) (i x : ℕ) → get_elem? xs i ≡ some x → i < length xs
get_elem?-lt [] i x h = absurd (ground arith)
get_elem?-lt (y ∷ xs) zero x h = omega arith
get_elem?-lt (y ∷ xs) (suc i) x h = omega (arith, get_elem?-lt xs i x h)

load_inv :
    (skb : List ℕ) (i x : ℕ) → load skb i ≡ ok x → (get_elem? skb i ≡ some x) × (i < length skb)
load_inv skb i x h =
    let e : get_elem? skb i ≡ some x = ok_or_inv (get_elem? skb i) h in (e, get_elem?-lt skb i x e)
  where
    ok_or_inv : (o : Option ℕ) → ok_or o load_failed ≡ ok x → o ≡ some x
    ok_or_inv none e = cc
    ok_or_inv (some y) e = cc

tcp_payload_offset-ok :
    (buf : List ℕ) (first words : ℕ)
    → get_elem? buf 14 ≡ some first
    → get_elem? buf (14 + first % 16 * 4 + 12) ≡ some words
    → tcp_payload_offset buf ≡ ok (14 + first % 16 * 4 + words / 16 * 4)
unfolding tcp_payload_offset tcp_len iph_len
tcp_payload_offset-ok buf first words e e2 = ground arith

-- the offset that the filter finds is the grain's
pub tls_offset_inv :
    (skb : List ℕ) (off : ℕ)
    → tls_offset skb ≡ ok off
    → (tcp_payload_offset skb ≡ ok off)
      × ((first : ℕ) × (at skb 14 ≡ ok first) × (26 + first % 16 * 4 < length skb))
unfolding tls_offset
tls_offset_inv skb off h =
    let (first, e, h2) = bind_inv (load skb 14) _ h in
    let (words, e2, h3) = bind_inv (load skb (14 + first % 16 * 4 + 12)) _ h2 in
    let (g, lt) = load_inv skb 14 first e in
    let (g2, lt2) = load_inv skb _ words e2 in
    let e3 : ◌≡◌ {A = Result Panic ℕ} (ok (14 + first % 16 * 4 + words / 16 * 4)) (ok off) = cc in
    (tcp_payload_offset-ok skb first words g g2 ∙ e3, (first, (rw g refl), (omega (arith, lt2))))

pub tls_content_inv :
    (skb : List ℕ)
    → tls_content skb ≡ ok send_to_userspace
    → (off : ℕ) × (tls_offset skb ≡ ok off) × (off + 2 < length skb)
unfolding tls_content
tls_content_inv skb h =
    let (off, e, h2) = bind_inv (tls_offset skb) _ h in
    let (c, e2, h3) = bind_inv (load skb off) _ h2 in
    let (major, e3, h4) = bind_inv (load skb (off + 1)) _ h3 in
    let (minor, e4, h5) = bind_inv (load skb (off + 2)) _ h4 in
    (off, e, (load_inv skb (off + 2) minor e4).1)

passed :
    (b : Bool) (r : Result SkBuffError SkBuffAction)
    → (if b then r else ok ignore) ≡ ok send_to_userspace
    → r ≡ ok send_to_userspace
passed true r h = h
passed false r h = cc

pub tls_handshake_inv :
    (skb : List ℕ)
    → tls_handshake skb ≡ ok send_to_userspace
    → tls_content skb ≡ ok send_to_userspace
unfolding tls_handshake
tls_handshake_inv skb h =
    let (p, e, h2) = bind_inv (load_u16 skb 12) _ h in
    let (q, e2, h3) = bind_inv (load skb 23) _ h2 in passed _ (tls_content skb) h3

get_elem?-some : (xs : List ℕ) (i : ℕ) → i < length xs → (x : ℕ) × (get_elem? xs i ≡ some x)
get_elem?-some [] i h = absurd (omega arith)
get_elem?-some (y ∷ xs) zero h = (y, refl)
get_elem?-some (y ∷ xs) (suc i) h = get_elem?-some xs i (omega arith)

at-some : (buf : List ℕ) (i : ℕ) → i < length buf → (x : ℕ) × (at buf i ≡ ok x)
at-some buf i h = let (x, e) = get_elem?-some buf i h in (x, (rw e refl))

address_at-some :
    (buf : List ℕ) (i : ℕ) → i + 3 < length buf → (a : Ipv4Addr) × (address_at buf i ≡ ok a)
address_at-some buf i h =
    let (a, ea) = at-some buf i (omega arith) in
    let (b, eb) = at-some buf (i + 1) (omega arith) in
    let (c, ec) = at-some buf (i + 2) (omega arith) in
    let (d, ed) = at-some buf (i + 3) (omega arith) in
    ((a, b, c, d), address_at-ok buf i a b c d ea eb ec ed)

tag_ip_and_ports-Returns :
    (buf : List ℕ) (first : ℕ)
    → at buf 14 ≡ ok first
    → 34 ≤ length buf
    → 26 + first % 16 * 4 < length buf
    → Returns (tag_ip_and_ports buf)
unfolding tag_ip_and_ports
tag_ip_and_ports-Returns buf first e h h2 =
    let i = first % 16 * 4 in
    let (s, es) = address_at-some buf 26 (omega arith) in
    let (d, ed) = address_at-some buf 30 (omega arith) in
    let (a, ea) = at-some buf (14 + i) (omega arith) in
    let (b, eb) = at-some buf (14 + i + 1) (omega arith) in
    let (c, ec) = at-some buf (14 + i + 2) (omega arith) in
    let (g, eg) = at-some buf (14 + i + 3) (omega arith) in
    rw (parse_ips-ok buf s d es ed)
      (rw (parse_tcp_ports-ok buf i a b c g (unfold iph_len in rw e refl) ea eb ec eg) tt)

-- what rustls promises of a server name: one of type `HostName` holds a name
abbrev pub Named : ServerName → Type 0
Named sni = (sni.is_host_name ≡ false) ⊎ ((name : Text) × (sni.host_name ≡ some name))

abbrev pub AllNamed : Option (List ServerName) → Type 0
AllNamed none = Unit
AllNamed (some snis) = All Named snis

abbrev pub NamedPayload : HandshakePayload → Type 0
NamedPayload (client_hello payload) = AllNamed payload.sni_extension
NamedPayload (server_hello payload) = Unit
NamedPayload other_handshake = Unit

abbrev pub NamedDecoded : Option HandshakePayload → Type 0
NamedDecoded none = Unit
NamedDecoded (some handshake) = NamedPayload handshake

abbrev pub NamedPacket : Option TlsPacket → Type 0
NamedPacket none = Unit
NamedPacket (some packet) = NamedDecoded packet.decoded

host_name_of-Returns :
    (sni : ServerName) → Named sni × (sni.is_host_name ≡ true) → Returns (host_name_of sni)
unfolding host_name_of
host_name_of-Returns sni (inl e, t) = absurd (ground arith)
host_name_of-Returns sni (inr (name, e), t) = rw e tt

sni_list-Returns : (snis : List ServerName) → All Named snis → Returns (sni_list snis)
unfolding sni_list
sni_list-Returns snis h =
    let hosts = retain (λ (sni : ServerName). sni.is_host_name) snis in
    Returns-bind (try_map host_name_of hosts) (λ names. ok (join (chars ",") names))
      (Returns-try_map host_name_of hosts (
        All-weaken (λ sni. Named sni × (sni.is_host_name ≡ true))
          (λ sni. Returns (host_name_of sni)) host_name_of-Returns hosts
          (All-retain_self Named (λ sni. sni.is_host_name) snis h)))
      (λ names _. tt)

module _ (F : Type 0) ⦃fl : Float F⦄ ⦃utf8 : Utf8⦄ where
  parse_clienthello-Returns :
      (now : ℕ) (payload : ClientHello) (tags : Tags)
      → AllNamed payload.sni_extension
      → Returns (parse_clienthello {F = F} now payload tags)
  unfolding parse_clienthello
  parse_clienthello-Returns now payload tags h = elim (Option-cases payload.sni_extension) [
    | inl e ↦ rw e tt
    | inr (snis, e) ↦
        rw e (Returns-bind (sni_list snis) _ (sni_list-Returns snis (rw e at h)) (λ names _. tt))
  ]

  handshake-Returns :
      (now : ℕ) (buf : List ℕ) (version : Text) (handshake : HandshakePayload)
      → Returns (tag_ip_and_ports buf)
      → NamedPayload handshake
      → Returns (handshake_to_message {F = F} now buf version handshake)
  unfolding handshake_to_message
  handshake-Returns now buf version (client_hello payload) r h =
      Returns-bind (tag_ip_and_ports buf) _ r (λ tags _.
        Returns-bind
          (parse_clienthello now payload (TagList.insert (chars "tls_version") version tags)) _
          (parse_clienthello-Returns now payload _ h) (λ m _. tt))
  handshake-Returns now buf version (server_hello payload) r h =
      Returns-bind (tag_ip_and_ports buf) _ r (λ tags _. tt)
  handshake-Returns now buf version other_handshake r h =
      Returns-bind (tag_ip_and_ports buf) _ r (λ tags _. tt)

  packet-Returns :
      (now : ℕ) (buf : List ℕ) (packet : TlsPacket)
      → Returns (tag_ip_and_ports buf)
      → NamedDecoded packet.decoded
      → Returns (packet_to_message {F = F} now buf packet)
  unfolding packet_to_message
  packet-Returns now buf packet r h = elim (Bool-cases packet.is_handshake) [
    | inr e ↦ rw e tt
    | inl e ↦ elim (Option-cases packet.decoded) [
      | inl d ↦ rw e (rw d tt)
      | inr (handshake, d) ↦
          rw e (rw d (handshake-Returns now buf packet.version handshake r (rw d at h)))
    ]
  ]

  -- Every frame that the kernel's filter passes, and that has the 34 bytes of an Ethernet and an IP
  -- header, is handled by the grain without a panic, given that rustls holds a name in every server
  -- name of type `HostName`.
  pub tls_handshake-Returns :
      ⦃tls : Rustls⦄ (now : ℕ) (frame : List ℕ)
      → tls_handshake frame ≡ ok send_to_userspace
      → 34 ≤ length frame
      → ((buf : List ℕ) → NamedPacket (tls.read_bytes buf))
      → Returns (tls_to_message {F = F} now frame)
  unfolding tls_to_message
  tls_handshake-Returns ⦃tls⦄ now frame h long named =
      let (off, e, lt) = tls_content_inv frame (tls_handshake_inv frame h) in
      let (offset, (first, ef, lf)) = tls_offset_inv frame off e in
      let rest : slice_from frame off ≡ ok (drop off frame) = unfold slice_from in ground arith in
      rw offset (
        rw rest (elim (Option-cases (tls.read_bytes (drop off frame))) [
          | inl d ↦ rw d tt
          | inr (packet, d) ↦ rw d (
              packet-Returns now frame packet (tag_ip_and_ports-Returns frame first ef long lf)
                (rw d at (named (drop off frame))))
        ]))
