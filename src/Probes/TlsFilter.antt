-- ===== src/Probes/TlsFilter.antt =====
-- The socket filter of ingraind-probes/src/tls/main.rs. A buffer is the list of the frame's bytes;
-- `load` reads a number of the network's byte order and fails past the end, which ends the filter
-- with an error. On bytes, `& 0x0F` is the rest by 16 and a shift by four bits the quotient.
use ingraind.Prelude.{
  ℕ, ◌+◌, ◌*◌, ◌/◌, ◌%◌, Bool, ◌&&◌, List, get_elem?, if◌then◌else◌, ◌==◌, nat_equality, leb,
  Result, ok, ◌>>=◌, ok_or,
}

pub data SkBuffError : Type 0 where
  load_failed : SkBuffError

pub data SkBuffAction : Type 0 where
  ignore send_to_userspace : SkBuffAction

-- `size_of::<ethhdr>()`
abbrev pub eth_len : ℕ
eth_len = 14

-- of the kernel's headers
abbrev pub eth_p_ip : ℕ
eth_p_ip = 0x0800

abbrev pub ipproto_tcp : ℕ
ipproto_tcp = 6

-- `load::<u8>`
abbrev pub load : List ℕ → ℕ → Result SkBuffError ℕ
load skb i = ok_or (get_elem? skb i) load_failed

-- `load::<u16>`
unfoldable pub load_u16 : List ℕ → ℕ → Result SkBuffError ℕ
load_u16 skb i = do high ← load skb i; low ← load skb (i + 1); ok (high * 256 + low)

-- where the TLS payload starts
unfoldable pub tls_offset : List ℕ → Result SkBuffError ℕ
tls_offset skb = do
  first ← load skb eth_len
  words ← load skb (eth_len + first % 16 * 4 + 12)
  ok (eth_len + first % 16 * 4 + words / 16 * 4)

-- the content type and the version of a handshake
unfoldable pub is_handshake : ℕ → ℕ → ℕ → Bool
is_handshake content_type major minor = content_type == 0x16 && (leb major 0x03 && leb minor 0x04)

unfoldable pub tls_content : List ℕ → Result SkBuffError SkBuffAction
tls_content skb = do
  tls ← tls_offset skb
  content_type ← load skb tls
  major ← load skb (tls + 1)
  minor ← load skb (tls + 2)
  ok (if is_handshake content_type major minor then send_to_userspace else ignore)

unfoldable pub tls_handshake : List ℕ → Result SkBuffError SkBuffAction
tls_handshake skb = do
  eth_proto ← load_u16 skb 12
  ip_proto ← load skb (eth_len + 9)
  if eth_proto == eth_p_ip && ip_proto == ipproto_tcp then tls_content skb else ok ignore
