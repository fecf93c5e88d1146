-- ===== src/Grains/Dns/Correlated.antt =====
-- What one DNS packet becomes in src/grains/dns.rs: measurements that share an identifier.
use ingraind.Prelude.{
  ℕ, ◌+◌, ◌≡◌, refl, ap, sym, ◌∙◌, true, false, Text, chars, Option, none, some, List, [], ◌∷◌,
  ◌++◌, map, Run, ok, err, panic, ◌>>=◌, try_map, try_map_cons, retain, All, All-append, All-intro,
  All-weaken, All-retain_self, arith, length, length-append, length-map,
}
use ingraind.Float.{Float}
use ingraind.Backends.{list}
use ingraind.Metrics.{Measurement}
use ingraind.Metrics.TagList
use ingraind.Grains.Dns.{
  RData, Packet, DnsParser, MetroHash64, hash_event, data_tags, ip_to_tags, soa_tags, srv_tags,
  from, to_tags, is_known, question, answer, measured, handler, a, aaaa, cname, ns, ptr, mx, soa,
  srv, txt, unknown, counted,
}
use ingraind.Probes.Dns.{Event}

kept_known : (vs : List RData) → All (λ v. is_known v ≡ true) (retain is_known vs)
kept_known vs =
    All-weaken (λ v. Unit {0} × (is_known v ≡ true)) (λ v. is_known v ≡ true) (λ _ h. h.1)
      (retain is_known vs)
      (All-retain_self (λ _. Unit {0}) is_known vs (All-intro (λ _. Unit {0}) (λ _. tt) vs))

-- at a time, and found under an identifier
abbrev pub Carries : {F : Type 0} → ℕ → Text → Measurement F → Type 0
Carries now id m = (m.timestamp ≡ now) × (TagList.get (chars "id") m.tags ≡ some id)

questions_carry :
    (F : Type 0) ⦃fl : Float F⦄ (now : ℕ) (id : Text) (names : List Text)
    → All (Carries now id) (map (question {F = F} now id) names)
unfolding question TagList.get ingraind.Prelude.text_beq
questions_carry F now id [] = tt
questions_carry F now id (name ∷ names) = ((refl, refl), questions_carry F now id names)

module _ {F : Type 0} ⦃fl : Float F⦄ where
  -- a known answer is measured, and carries the identifier
  answer_known :
      (now : ℕ) (id : Text) (v : RData)
      → is_known v ≡ true
      → (m : Measurement F) × (answer now id v ≡ ok m) × Carries now id m
  unfolding answer ip_to_tags data_tags soa_tags srv_tags is_known TagList.insert TagList.get
      ingraind.Prelude.text_beq
  answer_known now id (a addr) h = (_, refl, (refl, refl))
  answer_known now id (aaaa addr) h = (_, refl, (refl, refl))
  answer_known now id (cname name) h = (_, refl, (refl, refl))
  answer_known now id (ns name) h = (_, refl, (refl, refl))
  answer_known now id (ptr name) h = (_, refl, (refl, refl))
  answer_known now id (mx preference exchange) h = (_, refl, (refl, refl))
  answer_known now id (soa s) h = (_, refl, (refl, refl))
  answer_known now id (srv priority weight port target) h = (_, refl, (refl, refl))
  answer_known now id txt h = (_, refl, (refl, refl))
  answer_known now id unknown h = absurd (ground (arith, h))

  answers_known :
      (now : ℕ) (id : Text) (vs : List RData)
      → All (λ v. is_known v ≡ true) vs
      → (ms : List (Measurement F)) × (try_map (answer now id) vs ≡ ok ms)
        × (length ms ≡ length vs)
        × All (Carries now id) ms
  unfolding try_map
  answers_known now id [] h = ([], refl, refl, tt)
  answers_known now id (v ∷ vs) h =
      let (m, e, c) = answer_known now id v h.0 in
      let (ms, es, n, cs) = answers_known now id vs h.1 in
      (m ∷ ms, rw e (rw es refl), omega (arith, n), (c, cs))

  measured-ok :
      (now : ℕ) (id : Text) (event : Event) (packet : Packet) (ms : List (Measurement F))
      → try_map (answer now id) (retain is_known packet.answers) ≡ ok ms
      → measured now id event packet
        ≡ ok (
            counted now (chars "dns.answer") (TagList.insert (chars "id") id (to_tags (from event)))
            ∷ (map (question now id) packet.questions ++ ms))
  unfolding measured
  measured-ok now id event packet ms es = rw es refl

  handler-measured :
      ⦃metro : MetroHash64⦄ ⦃parser : DnsParser⦄ (now : ℕ) (event : Event) (payload : List ℕ)
      (packet : Packet) (ms : List (Measurement F))
      → parser.parse payload ≡ some packet
      → measured now (hash_event event now) event packet ≡ ok ms
      → handler now event payload ≡ ok (some (list ms))
  unfolding handler
  handler-measured now event payload packet ms parsed e = rw (parsed, handler) (rw e refl)

  -- A packet that parses is never a panic: it becomes one measurement of the exchange, one for each
  -- question and one for each answer whose data the parser knows, and all of them carry the time and
  -- the identifier of the packet.
  pub handler-Carries :
      ⦃metro : MetroHash64⦄ ⦃parser : DnsParser⦄ (now : ℕ) (event : Event) (payload : List ℕ)
      (packet : Packet)
      → parser.parse payload ≡ some packet
      → (ms : List (Measurement F)) × (handler now event payload ≡ ok (some (list ms)))
        × (length ms ≡ 1 + length packet.questions + length (retain is_known packet.answers))
        × All (Carries now (hash_event event now)) ms
  unfolding from to_tags TagList.insert TagList.get ingraind.Prelude.text_beq
  handler-Carries now event payload packet parsed =
      let id = hash_event event now in
      let (ms, es, n, cs) =
        answers_known now id (retain is_known packet.answers) (kept_known packet.answers) in
      (
        counted now (chars "dns.answer") (TagList.insert (chars "id") id (to_tags (from event)))
            ∷ (map (question now id) packet.questions ++ ms),
        handler-measured now event payload packet _ parsed (measured-ok now id event packet ms es),
        omega (
          arith,
          n,
          length-append (map (question {F = F} now id) packet.questions) ms,
          length-map packet.questions (question {F = F} now id),
        ),
        (
          (refl, refl),
          All-append (Carries now id) (map (question now id) packet.questions) ms
              (questions_carry F now id packet.questions) cs,
        ),
      )
