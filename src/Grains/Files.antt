-- ===== src/Grains/Files.antt =====
-- src/grains/file.rs: which directories are watched, and the measurement made of an access. A
-- segment is read up to its zero, which `bpf_probe_read_str` always writes.
pub mod Watched
pub mod Paths
use ingraind.Prelude.{
  ℕ, ◌≡◌, Bool, Text, chars, Option, none, some, List, [], ◌∷◌, map, reverse, foldl, if◌then◌else◌,
  ◌==◌, nat_equality, text_equality, ltb, join, Run, ok, err, panic, ◌>>=◌, unwrap, bit_or, ◌++◌,
}
use ingraind.Prelude.Number
use ingraind.Float.{Float}
use ingraind.Backends.{Message, single}
use ingraind.Metrics
use ingraind.Metrics.Kind
use ingraind.Metrics.Units.{MeasureUnit}
use ingraind.Metrics.TagList
use ingraind.Metrics.TagList.{Tags}
use ingraind.Grains.CString
use ingraind.Grains.CString.{Lossy, until_zero}
use ingraind.Probes.Bpf.{BpfMap}
use ingraind.Probes.File as Probe
use ingraind.Probes.File.{Access, read, write, PathSegment, PathList}

abbrev pub action_record : ℕ
action_record = 1

-- `FileAccess` of the grain
pub record FileAccess : Type 0 where
  pub id : ℕ
  pub process : Text
  pub path : Text
  pub ino : ℕ
  pub read_size : ℕ
  pub write_size : ℕ

-- the loop over the directories: `metadata` is `None` for one that cannot be read
unfoldable pub watch_all :
    {A : Type 0} ⦃actionlist : BpfMap ℕ ℕ A⦄ → (Text → Option ℕ) → List Text → A → Run A
watch_all metadata [] actions = ok actions
watch_all ⦃actionlist⦄ metadata (dir ∷ dirs) actions = unwrap (metadata dir) >>= λ ino.
    watch_all metadata dirs (actionlist.set ino action_record actions)

-- the first map with a name: `find_map_by_name` of src/grains/mod.rs
unfoldable pub find_map_by_name : {M : Type 0} → List (Text × M) → Text → Run M
find_map_by_name [] needle = err panic
find_map_by_name ((name, m) ∷ maps) needle =
    let rest = find_map_by_name maps needle in if name == needle then ok m else rest

-- `loaded`; `open_map` is `HashMap::new`
unfoldable pub loaded :
    {A M : Type 0} ⦃actionlist : BpfMap ℕ ℕ A⦄
    → (M → Option A)
    → (Text → Option ℕ)
    → List Text
    → List (Text × M)
    → Run A
unfolding watch_all find_map_by_name
loaded open_map metadata dirs maps = find_map_by_name maps (chars "actionlist") >>= λ m.
    unwrap (open_map m) >>= λ actions. watch_all metadata dirs actions

-- `trim_start_matches('/')`
unfoldable pub trim_slashes : Text → Text
trim_slashes [] = []
trim_slashes (c ∷ s) = let rest = trim_slashes s in if c == b'/' then rest else c ∷ s

module _ ⦃lossy : Lossy⦄ where
  abbrev pub segment_text : PathSegment → Text
  segment_text s = lossy.from_utf8_lossy (until_zero s)

  unfoldable pub path_of : PathList → Text
  unfolding trim_slashes until_zero
  path_of segments = trim_slashes (join (chars "/") (map segment_text (reverse segments)))

  -- `FileAccess::from`
  unfoldable pub from : Probe.FileAccess → FileAccess
  unfolding path_of
  from raw = record {
    id = raw.tid;
    process = CString.to_string raw.comm;
    path = path_of raw.paths;
    ino = raw.inode;
    read_size = (elim raw.access [ read s ↦ s | write s ↦ 0 ]);
    write_size = (elim raw.access [ read s ↦ 0 | write s ↦ s ]);
  }

unfoldable pub to_tags : FileAccess → Tags
unfolding TagList.insert
to_tags file = TagList.insert (chars "ino_id") (Number.to_string file.ino) (
    TagList.insert (chars "path_str") file.path (
      TagList.insert (chars "process_str") file.process
        (TagList.insert (chars "process_id") (Number.to_string file.id) TagList.new)))

module _ ⦃lossy : Lossy⦄ {F : Type 0} ⦃fl : Float F⦄ where
  -- the callback of `get_handler`, on the access that `ptr::read` reads
  unfoldable pub handler : ℕ → Probe.FileAccess → Option (Message F)
  unfolding from to_tags
  handler now raw =
      let file = from raw in
      let name = chars "file." ++ (if ltb 0 file.write_size then chars "write" else chars "read") in
      let vol = if ltb 0 file.write_size then file.write_size else file.read_size in
      some (
        single (
          Metrics.new now (bit_or Kind.counter Kind.histogram) name (MeasureUnit.byte vol)
            (to_tags file)))
