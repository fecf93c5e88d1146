-- ===== src/Grains/SocketIo.antt =====
-- src/grains/ebpf_io.rs: how packets and events are read and handed to the grain's callback, and
-- the handler of src/grains/ebpf.rs. A socket is the list of the frames that wait in it: `recv`
-- with MSG_PEEK copies the front of the next frame and leaves it there, `recv` takes it and copies
-- what fits, and an empty socket is an error. What a buffer holds behind the copy stays.
pub mod Polled
pub mod Kept
pub mod Readers
use ingraind.Prelude.{
  ℕ, zero, suc, ◌+◌, ◌*◌, ◌≤◌, ◌<◌, ◌≡◌, refl, ap, ◌∙◌, true, false, Option, none, some, List, [],
  ◌∷◌, ◌++◌, arith, leb, min, length, take, replicate, length-replicate, All, Run, ok, err, panic,
  ◌>>=◌,
}
use ingraind.Backends.{Message}
use ingraind.Grains.Packet.{eth_hlen, packet_len, at}
use ingraind.Grains.Recipients.{do_send}

-- `frame` copied over the front of the `n` first bytes of a buffer
unfoldable pub copy_into : ℕ → List ℕ → List ℕ → List ℕ
copy_into zero frame buf = buf
copy_into (suc n) [] buf = buf
copy_into (suc n) (b ∷ frame) [] = []
copy_into (suc n) (b ∷ frame) (x ∷ buf) = b ∷ copy_into n frame buf

abbrev pub buffer_len : ℕ
buffer_len = 65536

-- a message of the callback put in front of the later ones
abbrev pub push_some : {A : Type 0} → Option A → List A → List A
push_some none rest = rest
push_some (some a) rest = a ∷ rest

module _ {F : Type 0} where
  -- The loop of `SocketMessageStream::read_messages`, with the two buffers. The slice `buf[..plen]`
  -- panics past the buffer's end.
  unfoldable pub read_frames :
      (List ℕ → Run (Option (Message F))) → List ℕ → List ℕ → List (List ℕ) → Run (List (Message F))
  read_frames callback buf headbuf [] = ok []
  read_frames callback buf headbuf (frame ∷ frames) =
      let head = copy_into (eth_hlen + 4) frame headbuf in
      packet_len head >>= λ plen. elim (leb plen buffer_len) [
        | false ↦ err panic
        | true ↦
            let filled = copy_into plen frame buf in
            elim (leb (min (length frame) plen) eth_hlen) [
              | true ↦ ok []
              | false ↦ callback (take plen filled) >>= λ msg.
                  read_frames callback filled head frames >>= λ rest. ok (push_some msg rest)
            ]
      ]

  unfoldable pub read_messages :
      (List ℕ → Run (Option (Message F))) → List (List ℕ) → Run (List (Message F))
  read_messages callback frames =
      read_frames callback (replicate buffer_len 0) (replicate (eth_hlen + 4) 0) frames

-- `redbpf::Event`
pub data Event : Type 0 where
  lost : ℕ → Event
  sample : List ℕ → Event

module _ {F : Type 0} where
  -- the loop of `PerfMessageStream::read_messages`: lost samples are logged
  unfoldable pub read_events :
      (List ℕ → Run (Option (Message F))) → List Event → Run (List (Message F))
  read_events callback [] = ok []
  read_events callback (lost n ∷ events) = read_events callback events
  read_events callback (sample buf ∷ events) =
      callback buf >>= λ msg. read_events callback events >>= λ rest. ok (push_some msg rest)

  -- the stream handler of the actor
  unfoldable pub handle : {R : Type 0} → List R → List (Message F) → List (R × Message F)
  handle recipients [] = []
  handle recipients (message ∷ messages) = do_send recipients message ++ handle recipients messages

-- the length that the header of a frame declares
abbrev pub IsWhole : List ℕ → Type 0
IsWhole frame =
    (packet_len frame ≡ ok (length frame))
    × (eth_hlen + 4 ≤ length frame)
    × (length frame ≤ buffer_len)

pub length-copy_into : (n : ℕ) (frame buf : List ℕ) → length (copy_into n frame buf) ≡ length buf
unfolding copy_into
length-copy_into zero frame buf = refl
length-copy_into (suc n) [] buf = refl
length-copy_into (suc n) (b ∷ frame) [] = refl
length-copy_into (suc n) (b ∷ frame) (x ∷ buf) = ap suc (length-copy_into n frame buf)

pub take-copy_into :
    (n : ℕ) (frame buf : List ℕ)
    → n ≤ length frame
    → n ≤ length buf
    → take n (copy_into n frame buf) ≡ take n frame
unfolding copy_into
take-copy_into zero frame buf h k = refl
take-copy_into (suc n) [] buf h k = absurd (omega arith)
take-copy_into (suc n) (b ∷ frame) [] h k = absurd (omega arith)
take-copy_into (suc n) (b ∷ frame) (x ∷ buf) h k =
    ap (λ t. b ∷ t) (take-copy_into n frame buf (omega arith) (omega arith))

take-all : (xs : List ℕ) → take (length xs) xs ≡ xs
take-all [] = refl
take-all (x ∷ xs) = ap (λ t. x ∷ t) (take-all xs)

at-copy_into :
    (n i : ℕ) (frame buf : List ℕ)
    → i < n
    → n ≤ length frame
    → n ≤ length buf
    → at (copy_into n frame buf) i ≡ at frame i
unfolding copy_into
at-copy_into zero i frame buf l h k = absurd (omega arith)
at-copy_into (suc n) i [] buf l h k = absurd (omega arith)
at-copy_into (suc n) i (b ∷ frame) [] l h k = absurd (omega arith)
at-copy_into (suc n) zero (b ∷ frame) (x ∷ buf) l h k = refl
at-copy_into (suc n) (suc i) (b ∷ frame) (x ∷ buf) l h k =
    at-copy_into n i frame buf (omega arith) (omega arith) (omega arith)

pub packet_len-copy_into :
    (frame buf : List ℕ)
    → 18 ≤ length frame
    → 18 ≤ length buf
    → packet_len (copy_into 18 frame buf) ≡ packet_len frame
packet_len-copy_into frame buf h k =
    unfold packet_len in
    rw (at-copy_into 18 16 frame buf (omega arith) h k) (
      ap (λ (r : Run ℕ). at frame 16 >>= λ high. r >>= λ low. ok (14 + (high * 256 + low)))
        (at-copy_into 18 17 frame buf (omega arith) h k))

module _ {F : Type 0} where
  -- the callback on the frames themselves, one by one
  unfoldable pub read_whole :
      (List ℕ → Run (Option (Message F))) → List (List ℕ) → Run (List (Message F))
  read_whole callback [] = ok []
  read_whole callback (frame ∷ frames) =
      callback frame >>= λ msg. read_whole callback frames >>= λ rest. ok (push_some msg rest)

  pub read_frames-step :
      (callback : List ℕ → Run (Option (Message F))) (buf headbuf : List ℕ) (frame : List ℕ)
      (frames : List (List ℕ)) (plen : ℕ)
      → packet_len (copy_into (eth_hlen + 4) frame headbuf) ≡ ok plen
      → leb plen buffer_len ≡ true
      → leb (min (length frame) plen) eth_hlen ≡ false
      → read_frames callback buf headbuf (frame ∷ frames) ≡ (
          callback (take plen (copy_into plen frame buf)) >>= λ msg.
          read_frames callback (copy_into plen frame buf) (copy_into 18 frame headbuf) frames
          >>= λ rest. ok (push_some msg rest))
  unfolding read_frames
  read_frames-step callback buf headbuf frame frames plen e l m = ground arith

  read_frames-long :
      (callback : List ℕ → Run (Option (Message F))) (buf headbuf : List ℕ) (frame : List ℕ)
      (frames : List (List ℕ)) (plen : ℕ)
      → packet_len (copy_into (eth_hlen + 4) frame headbuf) ≡ ok plen
      → leb plen buffer_len ≡ false
      → read_frames callback buf headbuf (frame ∷ frames) ≡ err panic
  unfolding read_frames
  read_frames-long callback buf headbuf frame frames plen e l = ground arith

  read_frames-whole :
      (callback : List ℕ → Run (Option (Message F))) (buf headbuf : List ℕ) (frame : List ℕ)
      (frames : List (List ℕ))
      → IsWhole frame
      → length buf ≡ buffer_len
      → length headbuf ≡ 18
      → read_frames callback buf headbuf (frame ∷ frames) ≡ (
          callback frame >>= λ msg.
          read_frames callback
            (copy_into (length frame) frame buf)
            (copy_into 18 frame headbuf)
            frames
          >>= λ rest. ok (push_some msg rest))
  read_frames-whole callback buf headbuf frame frames h lb lh =
      read_frames-step callback buf headbuf frame frames (length frame)
        (packet_len-copy_into frame headbuf h.1 (omega (arith, lh)) ∙ h.0) (ground (arith, h.2))
        (ground (arith, h.1))
      ∙ ap
          (λ t. callback t >>= λ msg.
            read_frames callback (copy_into (length frame) frame buf) (copy_into 18 frame headbuf)
              frames
            >>= λ rest. ok (push_some msg rest))
          (take-copy_into (length frame) frame buf (omega arith) (omega (arith, h.2, lb))
            ∙ take-all frame)

  read_frames_lem :
      (callback : List ℕ → Run (Option (Message F))) (frames : List (List ℕ)) (buf headbuf : List ℕ)
      → All IsWhole frames
      → length buf ≡ buffer_len
      → length headbuf ≡ 18
      → read_frames callback buf headbuf frames ≡ read_whole callback frames
  unfolding read_whole
  read_frames_lem callback [] buf headbuf h lb lh = unfold read_frames in refl
  read_frames_lem callback (frame ∷ frames) buf headbuf h lb lh =
      read_frames-whole callback buf headbuf frame frames h.0 lb lh
      ∙ ap
          (λ (r : Run (List (Message F))).
            callback frame >>= λ msg. r >>= λ rest. ok (push_some msg rest))
          (read_frames_lem callback frames _ _ h.1 (length-copy_into (length frame) frame buf ∙ lb)
            (length-copy_into 18 frame headbuf ∙ lh))

  -- If every frame that waits is as long as its header declares and fits the buffer, the callback
  -- gets each of them, whole and in order, and what it makes of them is returned in order.
  pub read_messages_whole :
      (callback : List ℕ → Run (Option (Message F))) (frames : List (List ℕ))
      → All IsWhole frames
      → read_messages callback frames ≡ read_whole callback frames
  unfolding read_messages
  read_messages_whole callback frames h =
      read_frames_lem callback frames (replicate buffer_len 0) (replicate (eth_hlen + 4) 0) h
        (length-replicate {A = ℕ} buffer_len 0) (length-replicate {A = ℕ} (eth_hlen + 4) 0)

  -- A frame with a whole header that declares a length past the buffer's end panics.
  pub read_messages_panics :
      (callback : List ℕ → Run (Option (Message F))) (frame : List ℕ) (frames : List (List ℕ))
      (plen : ℕ)
      → 18 ≤ length frame
      → packet_len frame ≡ ok plen
      → buffer_len < plen
      → read_messages callback (frame ∷ frames) ≡ err panic
  unfolding read_messages
  read_messages_panics callback frame frames plen h e l =
      read_frames-long callback _ _ frame frames plen
        (packet_len-copy_into frame (replicate 18 0) h
            (omega (arith, length-replicate {A = ℕ} 18 0))
          ∙ e)
        (ground arith)
