-- ===== src/Aggregations/Container.antt =====
-- src/aggregations/container.rs: the docker id of a measurement's process is added to its tags.
use ingraind.Prelude.{
  ℕ, ◌≡◌, Text, Option, none, some, ◌++◌, map, arith, if◌then◌else◌, ◌==◌, text_equality, chars,
  Result, ok, err, ◌>>=◌, ok_or,
}
use ingraind.Prelude.Number.{parse_unsigned, to_string}
use ingraind.Backends.{Message, for_each, measurements, map-for_each}
use ingraind.Metrics.{Measurement}
use ingraind.Metrics.TagList
use ingraind.Metrics.TagList.{Tags, get, or_else, get-insert}

-- What the step uses of the system: `fs::read_to_string` at its first and at its second call, and
-- the captures of the pattern for the docker id: the first match, if any, with its first group.
pub record Cgroups : Type 0 where
  pub read_to_string : Text → Option Text
  pub read_again : Text → Option Text
  pub captures : Text → Option (Option Text)

abbrev pub u32_max : ℕ
u32_max = 4294967295

-- why there is no docker id
pub data Failure : Type 0 where
  no_pid bad_pid no_file no_container : Failure

module _ ⦃cg : Cgroups⦄ where
  unfoldable pub container_id : Text → Option Text
  container_id cgroup = elim (cg.captures cgroup) [ none ↦ none | some group ↦ group ]

  unfoldable pub read_cgroup : Text → Option Text
  read_cgroup path = elim (cg.read_to_string path) [ none ↦ cg.read_again path | some s ↦ some s ]

  unfoldable pub cgroup_path : ℕ → Text
  cgroup_path pid = chars "/proc/" ++ (to_string pid ++ chars "/cgroup")

  unfoldable pub get_docker_container_id : Tags → Result Failure Text
  get_docker_container_id tags = do
    pid_str ← ok_or (get (chars "process_id") tags) no_pid
    pid ← ok_or (parse_unsigned u32_max pid_str) bad_pid
    cgroup ← ok_or (read_cgroup (cgroup_path pid)) no_file
    ok_or (container_id cgroup) no_container

  unfoldable pub add_docker_id : Result Failure Text → Tags → Tags
  add_docker_id (ok cid) tags = TagList.insert (chars "docker_id") cid tags
  add_docker_id (err e) tags = tags

  unfoldable pub add_tags : {F : Type 0} → Measurement F → Measurement F
  unfolding add_docker_id
  add_tags msg = record msg { tags = add_docker_id (get_docker_container_id msg.tags) msg.tags }

  unfoldable pub handle : {F : Type 0} → Message F → Message F
  handle msg = for_each add_tags msg

  -- the docker id, if every step to it succeeds
  abbrev pub docker_id : Tags → Option Text
  docker_id tags = elim (get_docker_container_id tags) [ ok cid ↦ some cid | err _ ↦ none ]

  get-add_docker_id :
      (r : Result Failure Text) (k : Text) (tags : Tags)
      → get k (add_docker_id r tags)
        ≡ or_else
            (get k tags)
            (if chars "docker_id" == k then (elim r [ ok cid ↦ some cid | err _ ↦ none ]) else none)
  unfolding add_docker_id
  get-add_docker_id (ok cid) k tags = get-insert k (chars "docker_id") cid tags
  get-add_docker_id (err e) k tags = ground arith

  pub get-add_tags :
      {F : Type 0} (k : Text) (m : Measurement F)
      → get k (add_tags m).tags
        ≡ or_else (get k m.tags) (if chars "docker_id" == k then docker_id m.tags else none)
  unfolding add_tags
  get-add_tags k m = get-add_docker_id (get_docker_container_id m.tags) k m.tags

  -- Of every measurement that goes through, in its place, all values are found as before, and the
  -- docker id where there was none, if the measurement has a process id that is a `u32`, the
  -- process's file can be read and the pattern finds an id in it.
  pub docker_tags :
      {F : Type 0} (msg : Message F) (k : Text)
      → map (λ m. get k m.tags) (measurements (handle msg))
        ≡ map
            (λ m.
              or_else (get k m.tags) (if chars "docker_id" == k then docker_id m.tags else none))
            (measurements msg)
  unfolding handle
  docker_tags msg k =
      map-for_each (λ m. get k m.tags) add_tags
        (λ m. or_else (get k m.tags) (if chars "docker_id" == k then docker_id m.tags else none))
        (get-add_tags k) msg
