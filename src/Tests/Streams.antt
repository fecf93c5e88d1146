-- ===== src/Tests/Streams.antt =====
-- The streams of the eBPF grains at arrivals and polls in turn, and a frame that ends a loop early.
use ingraind.Prelude.{ℕ, ◌≡◌, refl, true, some, List, [], ◌∷◌, replicate, Option, Run, ok, chars}
use ingraind.Backends.{Message, single}
use ingraind.Metrics
use ingraind.Metrics.Kind
use ingraind.Metrics.Units.{MeasureUnit}
use ingraind.Grains.Packet.{bytes_of, packet_len}
use ingraind.Grains.SocketIo.{Event, lost, sample, copy_into}
use ingraind.Grains.SocketIo.Polled.{
  failed, not_ready, ready, Happening, arrival, polled, left_from,
}
use ingraind.Tests.Grains.{frame}
use ingraind.Tests.Samples.{whole_float}

-- every frame and every sample is a message
abbrev as_message : List ℕ → Run (Option (Message ℕ))
as_message buf =
    ok (some (single (Metrics.new 0 Kind.counter (chars "m") (MeasureUnit.count 1) [])))

abbrev recipients : List ℕ
recipients = 1 ∷ 2 ∷ []

abbrev frames : List (Happening (List ℕ))
frames =
    arrival (bytes_of frame)
    ∷ polled (ready true)
    ∷ polled not_ready
    ∷ arrival (bytes_of frame)
    ∷ polled failed
    ∷ arrival (bytes_of frame)
    ∷ []

abbrev events : List (Happening Event)
events =
    arrival (sample (1 ∷ []))
    ∷ polled (ready true)
    ∷ arrival (lost 3)
    ∷ arrival (sample (2 ∷ []))
    ∷ []

-- a frame of another protocol, where the length of an IP packet would be there are two zeros
abbrev foreign : List ℕ
foreign = replicate 60 0

-- It ends the loop: the frame behind it stays in the socket.
foreign_leaves :
    left_from (replicate 18 0) (foreign ∷ bytes_of frame ∷ []) ≡ ok (bytes_of frame ∷ [])
unfolding left_from copy_into packet_len
foreign_leaves = refl
