-- ===== src/Grains/SocketIo/Readers.antt =====
-- Whatever events and frames reach the streams of src/grains/ebpf_io.rs, and whenever they are polled, the
-- recipients get what the callback makes of each.
use ingraind.Prelude.{ℕ, ◌≡◌, refl, ap, Option, List, [], ◌∷◌, Run, ok, ◌>>=◌}
use ingraind.Backends.{Message}
use ingraind.Grains.SocketIo.{push_some, Event, lost, sample, read_events, read_whole}

-- the samples among the events
abbrev pub samples : List Event → List (List ℕ)
samples [] = []
samples (lost n ∷ events) = samples events
samples (sample buf ∷ events) = buf ∷ samples events

module _ {F : Type 0} (callback : List ℕ → Run (Option (Message F))) where
  -- The loop over the events is the callback on the samples, one by one.
  pub read_events-samples :
      (events : List Event) → read_events callback events ≡ read_whole callback (samples events)
  unfolding read_events read_whole
  read_events-samples [] = refl
  read_events-samples (lost n ∷ events) = read_events-samples events
  read_events-samples (sample buf ∷ events) =
      ap
        (λ (r : Run (List (Message F))).
          callback buf >>= λ msg. r >>= λ rest. ok (push_some msg rest))
        (read_events-samples events)
