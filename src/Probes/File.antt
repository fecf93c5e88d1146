-- ===== src/Probes/File.antt =====
-- ingraind-probes/src/file: the probes on reads and writes of files. A hook is called with the
-- registers, the calling thread, the clock and the kernel's memory at that time; what it sends to
-- the grain is a list. A pointer is a number, and null is 0.
pub mod Lineage
use ingraind.Prelude.{
  ℕ, zero, suc, ◌+◌, ◌%◌, ◌/◌, ◌^◌, ◌≡◌, not, Option, none, some, List, [], ◌∷◌, ◌++◌,
  if◌then◌else◌, ◌==◌, nat_equality, bit_and, drop, length, replicate, Result, ok, err, ◌>>=◌,
  ok_or,
}
use ingraind.Probes.Bpf.{BpfMap, field}

abbrev pub path_segment_len : ℕ
path_segment_len = 32

abbrev pub path_list_len : ℕ
path_list_len = 11

abbrev pub s_ifmt : ℕ
s_ifmt = 0o170000

abbrev pub s_ifreg : ℕ
s_ifreg = 0o100000

-- the fields of a `dentry`, an `inode` and a `file` that are read, each of which may be unreadable;
-- of a name and a path, the pointers in them
pub record Dentry : Type 0 where
  pub d_inode : Option ℕ
  pub d_name : Option ℕ
  pub d_parent : Option ℕ

pub record Inode : Type 0 where
  pub i_ino : Option ℕ
  pub i_mode : Option ℕ

pub record File : Type 0 where
  pub f_path : Option ℕ
  pub f_inode : Option ℕ

-- The kernel's memory. `read_str` is `bpf_probe_read_str`: what it writes of a string into a buffer
-- of a size, unless it fails.
pub record Memory : Type 0 where
  pub dentry : ℕ → Dentry
  pub inode : ℕ → Inode
  pub file : ℕ → File
  pub read_str : ℕ → ℕ → Option (List ℕ)

pub record Context : Type 0 where
  pub parm1 : ℕ
  pub rc : ℕ
  pub pid_tgid : ℕ
  pub ktime : ℕ
  pub comm : List ℕ
  pub memory : Memory

pub data AccessType : Type 0 where
  reading writing : AccessType

-- `Access`
pub data Access : Type 0 where
  read write : ℕ → Access

-- a `PathSegment` and a `PathList`
abbrev pub PathSegment : Type 0
PathSegment = List ℕ

abbrev pub PathList : Type 0
PathList = List PathSegment

pub record FileAccess : Type 0 where
  pub tid : ℕ
  pub access : Access
  pub ts : ℕ
  pub comm : List ℕ
  pub inode : ℕ
  pub paths : PathList

pub data InodePolicy : Type 0 where
  record_it ignore : InodePolicy

pub data Hook : Type 0 where
  trace_read_entry trace_read_exit trace_write_entry trace_write_exit : Hook

abbrev pub no_segment : PathSegment
no_segment = replicate path_segment_len 0

-- the segment at an index after a string is written to its start
abbrev pub write_segment : ℕ → List ℕ → PathList → PathList
write_segment i written [] = []
write_segment zero written (s ∷ paths) = (written ++ drop (length written) s) ∷ paths
write_segment (suc i) written (s ∷ paths) = s ∷ write_segment i written paths

module _ {A : Type 0} ⦃actionlist : BpfMap ℕ ℕ A⦄ where
  unfoldable pub policy_for_inode : ℕ → A → Option InodePolicy
  policy_for_inode inode actions = elim (actionlist.get inode actions) [
    | none ↦ none
    | some action ↦
        if action == 0 then some ignore else if action == 1 then some record_it else none
  ]

  -- the policy that is there, or else that of an inode, which is then read
  unfoldable pub next_policy :
      Memory → ℕ → A → Option InodePolicy → Result (Unit {0}) (Option InodePolicy)
  unfolding policy_for_inode
  next_policy memory inode actions (some policy) = ok (some policy)
  next_policy memory inode actions none =
      field (memory.inode inode).i_ino >>= λ ino. ok (policy_for_inode ino actions)

  -- The loop with so many rounds to go, at an index and a dentry. A policy comes with the path list;
  -- the list is not used where there is none.
  unfoldable pub walk :
      ℕ
      → ℕ
      → ℕ
      → Memory
      → A
      → Option InodePolicy
      → PathList
      → Result (Unit {0}) (InodePolicy × PathList)
  unfolding next_policy
  walk zero i dentry memory actions policy paths = field policy >>= λ p. ok (p, paths)
  walk (suc rounds) i dentry memory actions policy paths = do
    inode ← field (memory.dentry dentry).d_inode
    found ← next_policy memory inode actions policy
    name ← field (memory.dentry dentry).d_name
    written ← field (memory.read_str path_segment_len name)
    tmp ← field (memory.dentry dentry).d_parent
    let filled = write_segment i written paths
    let up = walk rounds (i + 1) tmp memory actions found filled
    if tmp == dentry then (field found >>= λ p. ok (p, filled)) else up

  unfoldable pub dentry_to_path :
      ℕ → Memory → A → PathList → Result (Unit {0}) (InodePolicy × PathList)
  unfolding walk
  dentry_to_path dentry memory actions paths =
      if dentry == 0 then err tt else walk 8 0 dentry memory actions none paths

abbrev pub access_of : AccessType → ℕ → Access
access_of reading size = read size
access_of writing size = write size

module _ {M A : Type 0} ⦃files : BpfMap ℕ ℕ M⦄ ⦃actionlist : BpfMap ℕ ℕ A⦄ where
  -- the event, unless the code returns early or the file is not to be recorded
  unfoldable pub do_track_file_access : Context → AccessType → A → M → Result (Unit {0}) FileAccess
  unfolding dentry_to_path
  do_track_file_access ctx access_type actions m = if ctx.rc == 0 then err tt else (do
    pointer ← field (files.get ctx.pid_tgid m)
    path ← field (ctx.memory.file pointer).f_path
    inode ← field (ctx.memory.file pointer).f_inode
    i_no ← field (ctx.memory.inode inode).i_ino
    mode ← field (ctx.memory.inode inode).i_mode
    if not (bit_and mode s_ifmt == s_ifreg)
        then err tt
        else (dentry_to_path path ctx.memory actions (replicate path_list_len no_segment)
            >>= λ walked. elim walked.0 [
              | ignore ↦ err tt
              | record_it ↦ ok (record {
                tid = (ctx.pid_tgid / 2 ^ 32) % 2 ^ 32;
                access = access_of access_type ctx.rc;
                ts = ctx.ktime;
                comm = ctx.comm;
                inode = i_no;
                paths = walked.1;
              })
            ]))

  unfoldable pub track_file_access : Context → AccessType → A → M → List FileAccess
  unfolding do_track_file_access
  track_file_access ctx access_type actions m =
      elim (do_track_file_access ctx access_type actions m) [ err _ ↦ [] | ok event ↦ event ∷ [] ]

  -- the program of a hook: what it sends to `rw`, and the map of the files
  unfoldable pub step : Hook → Context → A → M → List FileAccess × M
  unfolding track_file_access
  step trace_read_entry ctx actions m = ([], files.set ctx.pid_tgid ctx.parm1 m)
  step trace_read_exit ctx actions m = (track_file_access ctx reading actions m, m)
  step trace_write_entry ctx actions m = ([], files.set ctx.pid_tgid ctx.parm1 m)
  step trace_write_exit ctx actions m = (track_file_access ctx writing actions m, m)
