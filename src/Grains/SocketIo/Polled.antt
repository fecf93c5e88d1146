-- ===== src/Grains/SocketIo/Polled.antt =====
-- The streams of src/grains/ebpf_io.rs as they are polled, and the actor of src/grains/ebpf.rs behind them.
-- What waits in a socket or a map is a queue, to which the kernel appends; when a poll finds it ready
-- is an argument.
use ingraind.Prelude.{
  ℕ, ◌+◌, Bool, true, false, Option, List, [], ◌∷◌, ◌++◌, leb, min, length, replicate, Run, ok, err,
  panic, ◌>>=◌, demand,
}
use ingraind.Backends.{Message}
use ingraind.Grains.Packet.{eth_hlen, packet_len}
use ingraind.Grains.Statsd.Served.{Running, running_stop, running_continue}
use ingraind.Grains.SocketIo.{
  copy_into, buffer_len, Event, lost, sample, read_messages, read_events, handle,
}

-- what `poll_read_ready` gives: an error, that nothing can be read yet, or that something can, with
-- whether `clear_read_ready` succeeds afterwards
pub data Readiness : Type 0 where
  failed not_ready : Readiness
  ready : Bool → Readiness

-- `Poll<Option<Vec<Message>>, io::Error>`; the streams never end
pub data Poll (A : Type 0) : Type 0 where
  poll_error pending : Poll A
  item : A → Poll A

-- `PerfMessageStream` and `SocketMessageStream`: the callback and, of the map or the socket, what
-- waits in it
pub record MessageStream (E F : Type 0) : Type 0 where
  pub callback : List ℕ → Run (Option (Message F))
  pub queue : List E

module _ {E F : Type 0} where
  -- `new`; `registers` tells whether the file descriptor can be registered with the reactor
  unfoldable pub new : Bool → (List ℕ → Run (Option (Message F))) → List E → Run (MessageStream E F)
  new registers callback queue =
      demand registers >>= λ _. ok (record { callback = callback; queue = queue })

-- The frames that the loop of `SocketMessageStream::read_messages` leaves in the socket: those behind
-- the first one of which no more than an Ethernet header is read.
unfoldable pub left_from : List ℕ → List (List ℕ) → Run (List (List ℕ))
left_from headbuf [] = ok []
left_from headbuf (frame ∷ frames) =
    let head = copy_into (eth_hlen + 4) frame headbuf in
    packet_len head >>= λ plen. elim (leb plen buffer_len) [
      | false ↦ err panic
      | true ↦ elim (leb (min (length frame) plen) eth_hlen) [
        | true ↦ ok frames
        | false ↦ left_from head frames
      ]
    ]

-- The events that the loop of `PerfMessageStream::read_messages` leaves in the map: it reads on until
-- none is there.
unfoldable pub left_events : List Event → Run (List Event)
left_events [] = ok []
left_events (lost n ∷ events) = left_events events
left_events (sample buf ∷ events) = left_events events

-- how a stream reads: the messages of what waits, and what then still waits
pub record Reader (E F : Type 0) : Type 0 where
  pub read : (List ℕ → Run (Option (Message F))) → List E → Run (List (Message F))
  pub left : List E → Run (List E)

abbrev pub perf : {F : Type 0} → Reader Event F
perf = record { read = read_events; left = left_events }

abbrev pub socket : {F : Type 0} → Reader (List ℕ) F
socket = record { read = read_messages; left = left_from (replicate (eth_hlen + 4) 0) }

module _ {E F : Type 0} where
  -- `poll` of both streams
  unfoldable pub poll :
      Reader E F → Readiness → MessageStream E F → Run (Poll (List (Message F)) × MessageStream E F)
  poll reader failed stream = ok (poll_error, stream)
  poll reader not_ready stream = ok (pending, stream)
  poll reader (ready clears) stream = do
    messages ← reader.read stream.callback stream.queue
    queue ← reader.left stream.queue
    demand clears >>= λ _. ok (item messages, record stream { queue = queue })

-- what happens to a stream: the kernel appends to what waits, or the stream is polled
pub data Happening (E : Type 0) : Type 0 where
  arrival : E → Happening E
  polled : Readiness → Happening E

-- `EBPFActor::error`
unfoldable pub error : Running
error = running_continue

module _ {E F R : Type 0} where
  -- what the actor makes of a poll, in front of what is sent later
  unfoldable pub respond :
      List R
      → Poll (List (Message F))
      → MessageStream E F
      → Run (List (R × Message F) × MessageStream E F)
      → Run (List (R × Message F) × MessageStream E F)
  respond recipients (item messages) stream later =
      later >>= λ q. ok (handle recipients messages ++ q.0, q.1)
  respond recipients pending stream later = later
  respond recipients poll_error stream later = elim error [
    | running_continue ↦ later
    | running_stop ↦ ok ([], stream)
  ]

  -- what the recipients get of a stream, and the stream behind all that happens
  unfoldable pub serve :
      Reader E F
      → List R
      → MessageStream E F
      → List (Happening E)
      → Run (List (R × Message F) × MessageStream E F)
  unfolding poll respond error
  serve reader recipients stream [] = ok ([], stream)
  serve reader recipients stream (arrival e ∷ rest) =
      serve reader recipients (record stream { queue = stream.queue ++ e ∷ [] }) rest
  serve reader recipients stream (polled r ∷ rest) =
      poll reader r stream >>= λ p. respond recipients p.0 p.1 (serve reader recipients p.1 rest)

-- `PerfMessageStream::poll` and `SocketMessageStream::poll`
module _ {F : Type 0} where
  unfoldable pub poll_perf :
      Readiness → MessageStream Event F → Run (Poll (List (Message F)) × MessageStream Event F)
  unfolding poll
  poll_perf = poll perf

  unfoldable pub poll_socket :
      Readiness
      → MessageStream (List ℕ) F
      → Run (Poll (List (Message F)) × MessageStream (List ℕ) F)
  unfolding poll
  poll_socket = poll socket
