-- ===== src/Grains/Tls/Trimmed.antt =====
-- A frame that is longer than its IP header declares: the filter of ingraind-probes/src/tls/main.rs
-- looks at the whole frame, while src/grains/ebpf_io.rs hands the declared length to the callback.
use ingraind.Prelude.{
  ℕ, zero, suc, ◌+◌, ◌*◌, ◌%◌, ◌≤◌, ◌<◌, ◌≡◌, refl, ap, ◌∙◌, Bool, true, false, List, [], ◌∷◌, none,
  arith, get_elem?, length, length-replicate, replicate, take, Result, ok, err, panic, ◌>>=◌,
  unwrap, retain,
}
use ingraind.Float.{Float}
use ingraind.Grains.Statsd.Delivery.{Utf8}
use ingraind.Grains.Packet.{eth_hlen, at, iph_len, tcp_len, tcp_payload_offset, packet_len}
use ingraind.Grains.SocketIo.{
  buffer_len, copy_into, read_frames, read_messages, read_frames-step, take-copy_into,
  packet_len-copy_into, push_some,
}
use ingraind.Grains.Tls.{Rustls, tls_to_message}
use ingraind.Grains.Tls.Filtered.{tls_content_inv, tls_handshake_inv, tls_offset_inv}
use ingraind.Probes.TlsFilter.{SkBuffError, SkBuffAction, send_to_userspace, ignore, tls_handshake}

abbrev pub is_passed : Result SkBuffError SkBuffAction → Bool
is_passed (ok send_to_userspace) = true
is_passed (ok ignore) = false
is_passed (err e) = false

-- the frames that reach the socket: those that the filter sends to user space
unfoldable pub received : List (List ℕ) → List (List ℕ)
received frames = retain (λ frame. is_passed (tls_handshake frame)) frames

get_elem?-take : (n i : ℕ) (xs : List ℕ) → i < n → get_elem? (take n xs) i ≡ get_elem? xs i
get_elem?-take zero i xs h = absurd (omega arith)
get_elem?-take (suc n) i [] h = refl
get_elem?-take (suc n) zero (x ∷ xs) h = refl
get_elem?-take (suc n) (suc i) (x ∷ xs) h = get_elem?-take n i xs (omega arith)

get_elem?-take-none : (n i : ℕ) (xs : List ℕ) → n ≤ i → get_elem? (take n xs) i ≡ none
get_elem?-take-none zero i xs h = refl
get_elem?-take-none (suc n) i [] h = refl
get_elem?-take-none (suc n) zero (x ∷ xs) h = absurd (omega arith)
get_elem?-take-none (suc n) (suc i) (x ∷ xs) h = get_elem?-take-none n i xs (omega arith)

tcp_payload_offset-panic :
    (buf : List ℕ) (first : ℕ)
    → at buf 14 ≡ ok first
    → get_elem? buf (14 + first % 16 * 4 + 12) ≡ none
    → tcp_payload_offset buf ≡ err panic
unfolding tcp_payload_offset tcp_len iph_len
tcp_payload_offset-panic buf first e e2 = ground arith

module _ (F : Type 0) ⦃fl : Float F⦄ ⦃utf8 : Utf8⦄ ⦃tls : Rustls⦄ where
  tls_to_message-panic :
      (now : ℕ) (frame : List ℕ) (first plen : ℕ)
      → at frame 14 ≡ ok first
      → 14 < plen
      → plen ≤ 26 + first % 16 * 4
      → tls_to_message {F = F} now (take plen frame) ≡ err panic
  unfolding tls_to_message
  tls_to_message-panic now frame first plen e l h =
      rw
        (tcp_payload_offset-panic (take plen frame) first
          (ap (λ o. unwrap o) (get_elem?-take plen 14 frame l) ∙ e)
          (get_elem?-take-none plen (14 + first % 16 * 4 + 12) frame (omega (arith, h))))
        refl

  read_trimmed :
      (now : ℕ) (buf head frame : List ℕ) (frames : List (List ℕ)) (first plen : ℕ)
      → length buf ≡ buffer_len
      → length head ≡ 18
      → packet_len frame ≡ ok plen
      → at frame 14 ≡ ok first
      → 14 < plen
      → plen ≤ 26 + first % 16 * 4
      → plen < length frame
      → 18 ≤ length frame
      → read_frames (tls_to_message {F = F} now) buf head (frame ∷ frames) ≡ err panic
  read_trimmed now buf head frame frames first plen lb lh p e l m long whole =
      read_frames-step (tls_to_message now) buf head frame frames plen
        (packet_len-copy_into frame head whole (omega (arith, lh)) ∙ p) (ground (arith, m))
        (ground (arith, long, l))
      ∙ ap
          (λ t. tls_to_message now t >>= λ msg.
            read_frames (tls_to_message now) (copy_into plen frame buf) (copy_into 18 frame head)
              frames
            >>= λ rest. ok (push_some msg rest))
          (take-copy_into plen frame buf (omega arith) (omega (arith, lb, m)))
      ∙ rw (tls_to_message-panic now frame first plen e l m) refl

  -- A frame that passes the filter and declares, in the header of IP, a length that is not zero and ends before the
  -- byte with the length of the TCP header, panics the grain, whatever follows it.
  pub trimmed_frame_panics :
      (now : ℕ) (frame : List ℕ) (frames : List (List ℕ)) (first plen : ℕ)
      → tls_handshake frame ≡ ok send_to_userspace
      → packet_len frame ≡ ok plen
      → at frame 14 ≡ ok first
      → 14 < plen
      → plen ≤ 26 + first % 16 * 4
      → read_messages (tls_to_message {F = F} now) (received (frame ∷ frames)) ≡ err panic
  unfolding received read_messages
  trimmed_frame_panics now frame frames first plen h p e l m =
      let (off, eo, lt) = tls_content_inv frame (tls_handshake_inv frame h) in
      let (offset, (first', ef, lf)) = tls_offset_inv frame off eo in
      let same : first ≡ first' = cc in
      let long : plen < length frame = omega (arith, same, lf, m) in
      rw h (
        read_trimmed now (replicate buffer_len 0) (replicate (eth_hlen + 4) 0) frame
          (retain (λ g. is_passed (tls_handshake g)) frames) first plen
          (length-replicate {A = ℕ} buffer_len 0) (length-replicate {A = ℕ} 18 0) p e l m long
          (omega (arith, lf)))
