-- ===== src/Grains/Ebpf.antt =====
-- src/grains/ebpf.rs: how the programs of a module are attached and its maps become streams. `C` is
-- the type of callbacks. What redbpf does to a program is only whether it succeeds; a failure panics.
pub mod Sockets
pub mod Attached
use ingraind.Prelude.{
  ℕ, ◌≡◌, Bool, true, false, Text, Option, none, some, List, [], ◌∷◌, ◌++◌, if◌then◌else◌, ◌==◌,
  nat_equality, Run, ok, err, panic, ◌>>=◌, unwrap, demand, try_map, retain,
}

pub data ProgramKind : Type 0 where
  kprobe kretprobe xdp tracepoint socket_filter : ProgramKind

pub record Program : Type 0 where
  pub name : Text
  pub kind : ProgramKind

-- `Map` of redbpf
pub record KernelMap : Type 0 where
  pub name : Text
  pub kind : ℕ

pub record Module : Type 0 where
  pub programs : List Program
  pub maps : List KernelMap

pub data XdpMode : Type 0 where
  auto skb driver hardware : XdpMode

-- `xdp::Flags` of redbpf, with its default
pub data Flags : Type 0 where
  unset skb_mode drv_mode hw_mode : Flags

unfoldable pub into : XdpMode → Flags
into auto = unset
into skb = skb_mode
into driver = drv_mode
into hardware = hw_mode

abbrev pub default_xdp_mode : XdpMode
default_xdp_mode = auto

-- the calls of redbpf: whether a program is attached, the socket of a socket filter, the processors
-- that are online, and whether a map is bound for one
pub record Redbpf : Type 0 where
  pub attach_probe : Program → Bool
  pub attach_probe_to_name : Program → Text → Bool
  pub attach_xdp : Program → Text → Flags → Bool
  pub attach_tracepoint : Program → Text → Text → Bool
  pub attach_socketfilter : Program → Text → Option ℕ
  pub get_online : Option (List ℕ)
  pub bind : KernelMap → ℕ → Bool

-- `PerfMessageStream` of a map on a processor, and `SocketMessageStream` of a socket
pub data Stream (C : Type 0) : Type 0 where
  perf socket : Text → ℕ → C → Stream C

unfoldable pub is_kprobe : Program → Bool
is_kprobe p = elim p.kind [
  | kprobe ↦ true
  | kretprobe ↦ true
  | xdp ↦ false
  | tracepoint ↦ false
  | socket_filter ↦ false
]

unfoldable pub is_xdp : Program → Bool
is_xdp p = elim p.kind [
  | xdp ↦ true
  | kprobe ↦ false
  | kretprobe ↦ false
  | tracepoint ↦ false
  | socket_filter ↦ false
]

unfoldable pub is_tracepoint : Program → Bool
is_tracepoint p = elim p.kind [
  | tracepoint ↦ true
  | kprobe ↦ false
  | kretprobe ↦ false
  | xdp ↦ false
  | socket_filter ↦ false
]

unfoldable pub is_socket_filter : Program → Bool
is_socket_filter p = elim p.kind [
  | socket_filter ↦ true
  | kprobe ↦ false
  | kretprobe ↦ false
  | xdp ↦ false
  | tracepoint ↦ false
]

unfoldable pub is_perf : KernelMap → Bool
is_perf m = m.kind == 4

-- `zip`
unfoldable pub zip : {A B : Type 0} → List A → List B → List (A × B)
zip (x ∷ xs) (y ∷ ys) = (x, y) ∷ zip xs ys
zip _ _ = []

-- the streams of one list after those of another
unfoldable pub concat : {A : Type 0} → List (List A) → List A
concat [] = []
concat (xs ∷ rest) = xs ++ concat rest

module _ {C : Type 0} ⦃redbpf : Redbpf⦄ where
  unfoldable pub perf_stream : (Text → Run C) → KernelMap → ℕ → Run (Stream C)
  perf_stream get_handler m cpuid = demand (redbpf.bind m cpuid) >>= λ _.
      get_handler m.name >>= λ handler. ok (perf m.name cpuid handler)

  unfoldable pub bind_perf : (Text → Run C) → Module → Run (List (Stream C))
  unfolding perf_stream is_perf concat
  bind_perf get_handler the_module = do
    online_cpus ← unwrap redbpf.get_online
    streams ←
        try_map (λ m. try_map (perf_stream get_handler m) online_cpus)
          (retain is_perf the_module.maps)
    ok (concat streams)

  -- the programs of a kind are attached, one after the other, and then the maps are bound
  unfoldable pub attach :
      (Program → Bool) → (Program → Bool) → (Text → Run C) → Module → Run (List (Stream C))
  unfolding bind_perf
  attach wanted attaching get_handler the_module =
      try_map (λ p. demand (attaching p)) (retain wanted the_module.programs) >>= λ _.
      bind_perf get_handler the_module

  unfoldable pub attach_kprobes : (Text → Run C) → Module → Run (List (Stream C))
  unfolding attach is_kprobe
  attach_kprobes = attach is_kprobe redbpf.attach_probe

  unfoldable pub attach_kprobes_to_names : Text → (Text → Run C) → Module → Run (List (Stream C))
  unfolding attach is_kprobe
  attach_kprobes_to_names name = attach is_kprobe (λ p. redbpf.attach_probe_to_name p name)

  unfoldable pub attach_xdps : Text → Flags → (Text → Run C) → Module → Run (List (Stream C))
  unfolding attach is_xdp
  attach_xdps iface flags = attach is_xdp (λ p. redbpf.attach_xdp p iface flags)

  unfoldable pub attach_tracepoints : Text → Text → (Text → Run C) → Module → Run (List (Stream C))
  unfolding attach is_tracepoint
  attach_tracepoints category name =
      attach is_tracepoint (λ p. redbpf.attach_tracepoint p category name)

  unfoldable pub socket_stream : (Text → Run C) → Program × ℕ → Run (Stream C)
  socket_stream get_handler (prog, fd) =
      get_handler prog.name >>= λ handler. ok (socket prog.name fd handler)

  -- All filters are attached before the first stream is made; then the programs are filtered again.
  unfoldable pub attach_socketfilters : Text → (Text → Run C) → Module → Run (List (Stream C))
  unfolding is_socket_filter zip socket_stream
  attach_socketfilters iface get_handler the_module =
      try_map (λ p. unwrap (redbpf.attach_socketfilter p iface))
        (retain is_socket_filter the_module.programs)
      >>= λ socket_fds.
          try_map (socket_stream get_handler)
            (zip (retain is_socket_filter the_module.programs) socket_fds)
