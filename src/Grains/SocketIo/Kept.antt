-- ===== src/Grains/SocketIo/Kept.antt =====
-- Nothing that a stream of src/grains/ebpf_io.rs reads is lost or sent twice, however its events and polls
-- alternate.
use ingraind.Prelude.{
  ℕ, ◌≡◌, refl, ap, sym, ◌∙◌, true, Option, List, [], ◌∷◌, ◌++◌, append_assoc, append-nil, All,
  All-append, Run, ok, err, ◌>>=◌,
}
use ingraind.Backends.{Message}
use ingraind.Grains.Recipients.{do_send}
use ingraind.Grains.SocketIo.Polled.{
  failed, not_ready, ready, Poll, item, MessageStream, Reader, poll, Happening, arrival, polled,
  respond, serve, error,
}
use ingraind.Grains.SocketIo.{handle}

-- what arrives
abbrev pub arrivals : {E : Type 0} → List (Happening E) → List E
arrivals [] = []
arrivals (arrival e ∷ rest) = e ∷ arrivals rest
arrivals (polled r ∷ rest) = arrivals rest

-- whenever the stream is ready, the readiness can be cleared
abbrev pub AllClear : {E : Type 0} → List (Happening E) → Type 0
AllClear [] = Unit
AllClear (arrival e ∷ rest) = AllClear rest
AllClear (polled (ready clears) ∷ rest) = (clears ≡ true) × AllClear rest
AllClear (polled not_ready ∷ rest) = AllClear rest
AllClear (polled failed ∷ rest) = AllClear rest

module _ {F R : Type 0} where
  handle-append :
      (recipients : List R) (xs ys : List (Message F))
      → handle recipients (xs ++ ys) ≡ handle recipients xs ++ handle recipients ys
  unfolding handle
  handle-append recipients [] ys = refl
  handle-append recipients (x ∷ xs) ys =
      ap (λ t. do_send recipients x ++ t) (handle-append recipients xs ys)
      ∙ sym (append_assoc (do_send recipients x) (handle recipients xs) (handle recipients ys))

-- a reader for which it makes no difference whether it reads what waits at once or in two parts, and
-- which leaves nothing
pub record IsComplete {E F : Type 0} (Good : E → Type 0) (reader : Reader E F)
    (callback : List ℕ → Run (Option (Message F))) : Type 0 where
  pub read_nil : reader.read callback [] ≡ ok []
  pub read-append :
      (xs ys : List E)
      → All Good xs
      → All Good ys
      → reader.read callback (xs ++ ys)
        ≡ (reader.read callback xs >>= λ a. reader.read callback ys >>= λ b. ok (a ++ b))
  pub left_lem : (xs : List E) → All Good xs → reader.left xs ≡ ok []

module _ {E F R : Type 0} (reader : Reader E F) (recipients : List R) where
  -- what is sent, with what is sent of what still waits
  abbrev pub settled :
      (List ℕ → Run (Option (Message F)))
      → Run (List (R × Message F) × MessageStream E F)
      → Run (List (R × Message F))
  settled callback served = served >>= λ q.
      reader.read callback q.1.queue >>= λ messages. ok (q.0 ++ handle recipients messages)

  settled-respond :
      (callback : List ℕ → Run (Option (Message F))) (messages : List (Message F))
      (stream : MessageStream E F) (served : Run (List (R × Message F) × MessageStream E F))
      → settled callback (respond recipients (item messages) stream served)
        ≡ (settled callback served >>= λ out. ok (handle recipients messages ++ out))
  unfolding respond
  settled-respond callback messages stream (err e) = refl
  settled-respond callback messages stream (ok (out, behind)) =
      waiting (reader.read callback behind.queue)
    where
      waiting :
          (r : Run (List (Message F)))
          → (r >>= λ ms. ok ((handle recipients messages ++ out) ++ handle recipients ms)) ≡ (
              (r >>= λ ms. ok (out ++ handle recipients ms)) >>= λ out.
              ok (handle recipients messages ++ out))
      waiting (ok ms) = ap ok (append_assoc (handle recipients messages) out (handle recipients ms))
      waiting (err e) = refl

  sent-append :
      (messages : List (Message F)) (later : Run (List (Message F)))
      → ((later >>= λ ms. ok (handle recipients ms)) >>= λ out.
          ok (handle recipients messages ++ out))
        ≡ ((later >>= λ ms. ok (messages ++ ms)) >>= λ ms. ok (handle recipients ms))
  sent-append messages (ok ms) = ap ok (sym (handle-append recipients messages ms))
  sent-append messages (err e) = refl

  -- what is sent of a poll that empties the queue, with what is sent later
  settled-item :
      (callback : List ℕ → Run (Option (Message F))) (messages later : Run (List (Message F)))
      (rest : List (Happening E))
      → settled callback (serve reader recipients (record { callback = callback; queue = [] }) rest)
        ≡ (later >>= λ ms. ok (handle recipients ms))
      → settled callback (
          (messages >>= λ ms.
          let p : Poll (List (Message F)) × MessageStream E F =
            (item ms, record { callback = callback; queue = [] }) in
          let r : Run (Poll (List (Message F)) × MessageStream E F) = ok p in r)
          >>= λ p. respond recipients p.0 p.1 (serve reader recipients p.1 rest))
        ≡ ((messages >>= λ a. later >>= λ b. ok (a ++ b)) >>= λ ms. ok (handle recipients ms))
  settled-item callback (err e) later rest same = refl
  settled-item callback (ok ms) later rest same =
      settled-respond callback ms (record { callback = callback; queue = [] })
        (serve reader recipients (record { callback = callback; queue = [] }) rest)
      ∙ ap (λ r. r >>= λ out. ok (handle recipients ms ++ out)) same
      ∙ sent-append ms later

  module _ {Good : E → Type 0} {callback : List ℕ → Run (Option (Message F))}
      (complete : IsComplete Good reader callback) where
    pub serve-settled :
        (queue : List E) (happenings : List (Happening E))
        → All Good queue
        → All Good (arrivals happenings)
        → AllClear happenings
        → settled callback
            (serve reader recipients (record { callback = callback; queue = queue }) happenings)
          ≡ (reader.read callback (queue ++ arrivals happenings) >>= λ messages.
              ok (handle recipients messages))
    unfolding serve poll respond error
    serve-settled queue [] good arriving clear =
        ap (λ q. reader.read callback q >>= λ messages. ok (handle recipients messages))
          (sym (append-nil queue))
    serve-settled queue (arrival e ∷ rest) good arriving clear =
        serve-settled (queue ++ e ∷ []) rest (All-append Good queue (e ∷ []) good (arriving.0, tt))
          arriving.1 clear
        ∙ ap (λ q. reader.read callback q >>= λ messages. ok (handle recipients messages))
            (append_assoc queue (e ∷ []) (arrivals rest))
    serve-settled queue (polled not_ready ∷ rest) good arriving clear =
        serve-settled queue rest good arriving clear
    serve-settled queue (polled failed ∷ rest) good arriving clear =
        serve-settled queue rest good arriving clear
    serve-settled queue (polled (ready clears) ∷ rest) good arriving clear = rw clear.0 (
        rw (complete.left_lem queue good) (
          settled-item callback (reader.read callback queue) (reader.read callback (arrivals rest))
            rest (serve-settled [] rest tt arriving clear.1)
          ∙ ap (λ r. r >>= λ messages. ok (handle recipients messages))
              (sym (complete.read-append queue (arrivals rest) good arriving))))
