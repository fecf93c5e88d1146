-- ===== src/Grains/Packet.antt =====
-- Numbers and addresses in packets: src/grains/mod.rs, src/grains/protocol/ip.rs and the readers
-- of headers in src/grains/tls.rs. A buffer is the list of its bytes; an index out of range panics.
-- On bytes, `& 0x0F` is the rest by 16, a shift is a product or a quotient by a power of two, and
-- `|` of numbers without a common bit is their sum.
use ingraind.Prelude.{
  ℕ, zero, suc, ◌+◌, ◌*◌, ◌/◌, ◌%◌, ◌^◌, ◌<◌, ◌≡◌, refl, ap, ap₂, ◌∙◌, Text, chars, List, [], ◌∷◌,
  ◌++◌, arith, get_elem?, length, Run, ok, ◌>>=◌, unwrap,
}
use ingraind.Prelude.Number.{to_string}
use ingraind.Metrics.TagList
use ingraind.Metrics.TagList.{Tags}

-- `protocol::ETH_HLEN`
abbrev pub eth_hlen : ℕ
eth_hlen = 14

-- `buf[i]`
abbrev pub at : List ℕ → ℕ → Run ℕ
at buf i = unwrap (get_elem? buf i)

-- the bytes of a `u16` swapped; `i << 8` drops the high byte
unfoldable pub to_le : ℕ → ℕ
to_le i = i / 256 + (i * 256) % 2 ^ 16

abbrev pub Ipv4Addr : Type 0
Ipv4Addr = ℕ × ℕ × ℕ × ℕ

-- the bytes of a `u32`, the lowest first
unfoldable pub to_ipv4 : ℕ → Ipv4Addr
to_ipv4 bytes = (bytes % 256, (bytes / 2 ^ 8) % 256, (bytes / 2 ^ 16) % 256, (bytes / 2 ^ 24) % 256)

-- `to_string` of an address
unfoldable pub show_ip : Ipv4Addr → Text
show_ip (a, b, c, d) =
    to_string a ++ (b'.' ∷ (to_string b ++ (b'.' ∷ (to_string c ++ (b'.' ∷ to_string d)))))

unfoldable pub packet_len : List ℕ → Run ℕ
packet_len buf = do
  high ← at buf (eth_hlen + 2)
  low ← at buf (eth_hlen + 3)
  ok (eth_hlen + (high * 256 + low))

unfoldable pub iph_len : List ℕ → Run ℕ
iph_len buf = do b ← at buf eth_hlen; ok (b % 16 * 4)

unfoldable pub tcp_len : List ℕ → Run ℕ
tcp_len buf = do iph ← iph_len buf; b ← at buf (eth_hlen + iph + 12); ok (b / 16 * 4)

unfoldable pub tcp_payload_offset : List ℕ → Run ℕ
tcp_payload_offset buf = do iph ← iph_len buf; tcp ← tcp_len buf; ok (eth_hlen + iph + tcp)

unfoldable pub address_at : List ℕ → ℕ → Run Ipv4Addr
address_at buf i = do
  a ← at buf i
  b ← at buf (i + 1)
  c ← at buf (i + 2)
  d ← at buf (i + 3)
  ok (a, b, c, d)

-- the destination and the source
unfoldable pub parse_ips : List ℕ → Run (Text × Text)
parse_ips buf = do
  s ← address_at buf (eth_hlen + 12)
  d ← address_at buf (eth_hlen + 16)
  ok (show_ip d, show_ip s)

-- the destination port and the source port
unfoldable pub parse_tcp_ports : List ℕ → Run (ℕ × ℕ)
parse_tcp_ports buf = do
  iph ← iph_len buf
  a ← at buf (eth_hlen + iph)
  b ← at buf (eth_hlen + iph + 1)
  c ← at buf (eth_hlen + iph + 2)
  e ← at buf (eth_hlen + iph + 3)
  ok (c * 256 + e, a * 256 + b)

unfoldable pub tag_ip_and_ports : List ℕ → Run Tags
tag_ip_and_ports buf = do
  ips ← parse_ips buf
  ports ← parse_tcp_ports buf
  ok (
      TagList.insert (chars "s_port") (to_string ports.1) (
        TagList.insert (chars "d_port") (to_string ports.0)
          (TagList.insert (chars "s_ip") ips.1 (TagList.insert (chars "d_ip") ips.0 TagList.new))))

-- Swapping the bytes of a `u16` twice gives it back.
pub to_le_involution : (i : ℕ) → i < 65536 → to_le (to_le i) ≡ i
unfolding to_le
to_le_involution i h = omega arith

-- the number that an address is made of
abbrev pub of_ipv4 : Ipv4Addr → ℕ
of_ipv4 (a, b, c, d) = a + 256 * b + 65536 * c + 16777216 * d

-- The address of a `u32` has its bytes: together they are that number again.
pub to_ipv4-of_ipv4 : (n : ℕ) → n < 4294967296 → of_ipv4 (to_ipv4 n) ≡ n
unfolding to_ipv4
to_ipv4-of_ipv4 n h = omega arith

at-append : (xs ys : List ℕ) (j i : ℕ) → j ≡ length xs + i → at (xs ++ ys) j ≡ at ys i
at-append [] ys j i h = ap (at ys) (omega (arith, h))
at-append (x ∷ xs) ys zero i h = absurd (omega (arith, h))
at-append (x ∷ xs) ys (suc j) i h = at-append xs ys j i (omega (arith, h))

pub address_at-ok :
    (buf : List ℕ) (i a b c d : ℕ)
    → at buf i ≡ ok a
    → at buf (i + 1) ≡ ok b
    → at buf (i + 2) ≡ ok c
    → at buf (i + 3) ≡ ok d
    → address_at buf i ≡ ok (a, b, c, d)
unfolding address_at
address_at-ok buf i a b c d ea eb ec ed = ground arith

pub parse_tcp_ports-ok :
    (buf : List ℕ) (i a b c d : ℕ)
    → iph_len buf ≡ ok i
    → at buf (eth_hlen + i) ≡ ok a
    → at buf (eth_hlen + i + 1) ≡ ok b
    → at buf (eth_hlen + i + 2) ≡ ok c
    → at buf (eth_hlen + i + 3) ≡ ok d
    → parse_tcp_ports buf ≡ ok (c * 256 + d, a * 256 + b)
unfolding parse_tcp_ports
parse_tcp_ports-ok buf i a b c d ei ea eb ec ed = ground arith

-- an Ethernet frame with an IPv4 packet and a TCP header: the 14 bytes in front, the byte with the
-- header's length in words, 11 bytes, the addresses, the options, the ports, and the rest
pub record Frame : Type 0 where
  pub eth : List ℕ
  pub first : ℕ
  pub middle : List ℕ
  pub source : Ipv4Addr
  pub destination : Ipv4Addr
  pub options : List ℕ
  pub source_port : ℕ
  pub destination_port : ℕ
  pub rest : List ℕ

abbrev address_bytes : Ipv4Addr → List ℕ → List ℕ
address_bytes (a, b, c, d) rest = a ∷ b ∷ c ∷ d ∷ rest

abbrev port_bytes : ℕ → List ℕ → List ℕ
port_bytes p rest = (p / 256) ∷ (p % 256) ∷ rest

abbrev pub bytes_of : Frame → List ℕ
bytes_of f =
    f.eth
    ++ f.first
      ∷ (f.middle
          ++ address_bytes f.source (
              address_bytes f.destination
                (f.options ++ port_bytes f.source_port (port_bytes f.destination_port f.rest))))

-- the lengths that the header declares
abbrev pub IsFrame : Frame → Type 0
IsFrame f =
    (length f.eth ≡ 14) × (length f.middle ≡ 11) × (20 + length f.options ≡ f.first % 16 * 4)

-- the bytes behind the first 14
abbrev header : Frame → List ℕ
header f =
    f.first
    ∷ (f.middle
        ++ address_bytes f.source (
            address_bytes f.destination
              (f.options ++ port_bytes f.source_port (port_bytes f.destination_port f.rest))))

-- the bytes behind those of the header
abbrev ports : Frame → List ℕ
ports f = port_bytes f.source_port (port_bytes f.destination_port f.rest)

at-header : (f : Frame) (j i : ℕ) → IsFrame f → j ≡ 14 + i → at (bytes_of f) j ≡ at (header f) i
at-header f j i h e = at-append f.eth (header f) j i (omega (arith, h.0, e))

at-address :
    (f : Frame) (j i : ℕ)
    → IsFrame f
    → j ≡ 26 + i
    → at (bytes_of f) j
      ≡ at (address_bytes f.source (address_bytes f.destination (f.options ++ ports f))) i
at-address f j i h e =
    at-header f j (12 + i) h (omega (arith, e))
    ∙ at-append (f.first ∷ f.middle) _ (12 + i) i (omega (arith, h.1))

at-port :
    (f : Frame) (j i : ℕ)
    → IsFrame f
    → j ≡ 14 + f.first % 16 * 4 + i
    → at (bytes_of f) j ≡ at (ports f) i
at-port f j i h e =
    at-address f j (8 + length f.options + i) h (omega (arith, e, h.2))
    ∙ at-append (address_bytes f.source (address_bytes f.destination f.options)) (ports f)
        (8 + length f.options + i) i (omega arith)

iph_len-bytes_of : (f : Frame) → IsFrame f → iph_len (bytes_of f) ≡ ok (f.first % 16 * 4)
unfolding iph_len
iph_len-bytes_of f h = rw (at-header f 14 0 h (omega arith)) refl

pub parse_ips-ok :
    (buf : List ℕ) (s d : Ipv4Addr)
    → address_at buf 26 ≡ ok s
    → address_at buf 30 ≡ ok d
    → parse_ips buf ≡ ok (show_ip d, show_ip s)
unfolding parse_ips
parse_ips-ok buf s d es ed = ground arith

parse_ips-bytes_of :
    (f : Frame) → IsFrame f → parse_ips (bytes_of f) ≡ ok (show_ip f.destination, show_ip f.source)
parse_ips-bytes_of f h =
    parse_ips-ok (bytes_of f) f.source f.destination
      (address_at-ok (bytes_of f) 26 _ _ _ _ (at-address f 26 0 h (omega arith))
        (at-address f 27 1 h (omega arith)) (at-address f 28 2 h (omega arith))
        (at-address f 29 3 h (omega arith)))
      (address_at-ok (bytes_of f) 30 _ _ _ _ (at-address f 30 4 h (omega arith))
        (at-address f 31 5 h (omega arith)) (at-address f 32 6 h (omega arith))
        (at-address f 33 7 h (omega arith)))

of_bytes : (p : ℕ) → p / 256 * 256 + p % 256 ≡ p
of_bytes p = omega arith

parse_tcp_ports-bytes_of :
    (f : Frame) → IsFrame f → parse_tcp_ports (bytes_of f) ≡ ok (f.destination_port, f.source_port)
parse_tcp_ports-bytes_of f h =
    parse_tcp_ports-ok (bytes_of f) (f.first % 16 * 4) _ _ _ _ (iph_len-bytes_of f h)
      (at-port f _ 0 h (omega arith)) (at-port f _ 1 h (omega arith))
      (at-port f _ 2 h (omega arith)) (at-port f _ 3 h (omega arith))
    ∙ ap₂ (λ d s. ok (d, s)) (of_bytes f.destination_port) (of_bytes f.source_port)

-- From a frame whose header declares the length that it has, options included, the tags are the
-- addresses and the ports of the frame, under the names for the destination and the source.
pub tag_ip_and_ports-bytes_of :
    (f : Frame)
    → IsFrame f
    → tag_ip_and_ports (bytes_of f)
      ≡ ok (
          (chars "d_ip", show_ip f.destination)
          ∷ (chars "s_ip", show_ip f.source)
          ∷ (chars "d_port", to_string f.destination_port)
          ∷ (chars "s_port", to_string f.source_port)
          ∷ [])
unfolding tag_ip_and_ports
tag_ip_and_ports-bytes_of f h =
    unfold TagList.insert in rw (parse_ips-bytes_of f h) (rw (parse_tcp_ports-bytes_of f h) refl)
