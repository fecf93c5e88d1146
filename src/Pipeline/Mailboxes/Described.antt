-- ===== src/Pipeline/Mailboxes/Described.antt =====
-- What the stages of src/aggregations make of the messages on their way to a backend, described by the
-- values that are found under the keys of their tags.
use ingraind.Prelude.{
  ◌≡◌, refl, ap, sym, ◌∙◌, Text, chars, Option, none, some, List, [], ◌∷◌, map, err, if◌then◌else◌,
  Each-then, ◌==◌, text_equality, text_beq_iff, arith, Each,
}
use ingraind.Backends.{Message, single, list, measurements, for_each}
use ingraind.Metrics.{Measurement}
use ingraind.Metrics.TagList.{Tags, get, or_else}
use ingraind.Aggregations.Container as Container
use ingraind.Aggregations.Container.{Cgroups, docker_id, get_docker_container_id}
use ingraind.Aggregations.Regex.{Matcher, rewritten}
use ingraind.Aggregations.Whitelist.{contains}
use ingraind.Pipeline.{
  Stage, system_details_stage, buffer_stage, container_stage, exec_stage, regex_stage,
  whitelist_stage,
}

-- the value under each key
abbrev pub Find : Type 0
Find = Text → Option Text

-- a value that counts only under one key
abbrev pub under : Text → Option Text → Find
under key value k = if key == k then value else none

-- the docker id of a process
abbrev pub id_of : ⦃cg : Cgroups⦄ → Option Text → Option Text
id_of none = none
id_of (some pid) = docker_id ((chars "process_id", pid) ∷ [])

module _ {F H R : Type 0} ⦃re : Matcher R⦄ ⦃cg : Cgroups⦄ where
  -- what is found behind a stage: the host and the kernel, or the docker id of the process, where
  -- there was no such key, the values replaced by the rules, or only what the whitelist allows
  abbrev pub described : Stage F H R → Find → Find
  described (system_details_stage s) f k =
      or_else (or_else (f k) (under (chars "host") (some s.host) k))
        (under (chars "kernel") (some s.kernel) k)
  described (buffer_stage b) f k = f k
  described container_stage f k =
      or_else (f k) (under (chars "docker_id") (id_of (f (chars "process_id"))) k)
  described (exec_stage e) f k = f k
  described (regex_stage rules) f k = rewritten rules k (f k)
  described (whitelist_stage w) f k = if contains w.allowed k then f k else none

  -- behind all stages, from the first on
  abbrev pub described_all : List (Stage F H R) → Find → Find
  described_all [] f = f
  described_all (s ∷ stages) f = described_all stages (described s f)

module _ {F : Type 0} where
  abbrev pub find : Measurement F → Find
  find m k = get k m.tags

  -- the same measurement but for its tags, and of these it has what `look` finds
  abbrev pub Becomes : (Find → Find) → Measurement F → Measurement F → Type 0
  Becomes look m n =
      (find n ≡ look (find m))
      × (◌≡◌ {A = Measurement F} (record n { tags = [] }) (record m { tags = [] }))

  -- a message for each message, with a measurement for each of its measurements
  abbrev pub Arrives : (Find → Find) → Message F → Message F → Type 0
  Arrives look msg out = Each (Becomes look) (measurements msg) (measurements out)

  pub for_each-Arrives :
      (look : Find → Find) (f : Measurement F → Measurement F)
      → ((m : Measurement F) → Becomes look m (f m))
      → (msg : Message F) → Arrives look msg (for_each f msg)
  for_each-Arrives look f each (single m) = (each m, tt)
  for_each-Arrives look f each (list ms) = go ms
    where
      go : (ms : List (Measurement F)) → Each (Becomes look) ms (map f ms)
      go [] = tt
      go (m ∷ ms) = (each m, go ms)

  pub Arrives-same : (msg : Message F) → Arrives (λ f. f) msg msg
  Arrives-same (single m) = ((refl, refl), tt)
  Arrives-same (list ms) = go ms
    where
      go : (ms : List (Measurement F)) → Each (Becomes (λ f. f)) ms ms
      go [] = tt
      go (m ∷ ms) = ((refl, refl), go ms)

  Becomes-then :
      (look next : Find → Find) (l m n : Measurement F)
      → Becomes look l m
      → Becomes next m n
      → Becomes (λ f. next (look f)) l n
  Becomes-then look next l m n a b = (b.0 ∙ ap next a.0, b.1 ∙ a.1)

module _ {F : Type 0} where
  pub Arrives-then :
      (look next : Find → Find) (l m n : Message F)
      → Arrives look l m
      → Arrives next m n
      → Arrives (λ f. next (look f)) l n
  Arrives-then look next l m n a b =
      Each-then (Becomes look) (Becomes next) (Becomes (λ f. next (look f)))
        (Becomes-then look next) (measurements l) (measurements m) (measurements n) a b

-- the docker id depends only on the process id
id-same :
    ⦃cg : Cgroups⦄ (tags others : Tags)
    → get (chars "process_id") tags ≡ get (chars "process_id") others
    → get_docker_container_id tags ≡ get_docker_container_id others
unfolding get_docker_container_id
id-same tags others e = rw e refl

id-none :
    ⦃cg : Cgroups⦄ (tags : Tags)
    → get (chars "process_id") tags ≡ none
    → get_docker_container_id tags ≡ err Container.no_pid
unfolding get_docker_container_id
id-none tags e = rw e refl

get-single : (k v : Text) → get k ((k, v) ∷ []) ≡ some v
unfolding get
get-single k v = ground (arith, text_beq_iff k k)

pub docker_id-id_of :
    ⦃cg : Cgroups⦄ (tags : Tags) → docker_id tags ≡ id_of (get (chars "process_id") tags)
docker_id-id_of ⦃cg = cg⦄ tags = go (get (chars "process_id") tags) refl
  where
    go : (o : Option Text) → get (chars "process_id") tags ≡ o → docker_id tags ≡ id_of ⦃cg = cg⦄ o
    go none e = rw (id-none tags e, docker_id) refl
    go (some pid) e =
        rw
          (
            id-same tags ((chars "process_id", pid) ∷ [])
                (e ∙ sym (get-single (chars "process_id") pid)),
            docker_id,
          )
          refl
