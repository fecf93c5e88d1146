-- ===== src/Grains/Ebpf/Attached.antt =====
-- Loading a module and attaching the grains: `load` of src/grains/ebpf.rs and the `attach` of
-- src/grains/network.rs, file.rs, dns.rs, tls.rs and syscalls.rs.
use ingraind.Prelude.{
  ℕ, Bool, Text, Option, none, some, List, Run, ok, ◌>>=◌, unwrap, demand, try_map,
}
use ingraind.Grains.Ebpf.{
  Program, Module, Redbpf, Stream, XdpMode, into, concat, attach_kprobes, attach_kprobes_to_names,
  attach_xdps, attach_socketfilters,
}
use ingraind.Grains.Syscalls.{bound_names}

-- `Module::parse` and the loading of a program
pub record ModuleLoader : Type 0 where
  pub parse : List ℕ → Option Module
  pub load_program : Program → Bool

-- The module and what `loaded` makes of it. A module that does not parse is an error, `none`; a program
-- that does not load panics.
unfoldable pub load :
    {N : Type 0} ⦃loader : ModuleLoader⦄ → List ℕ → (Module → Run N) → Run (Option (Module × N))
load ⦃loader⦄ code loaded = elim (loader.parse code) [
  | none ↦ ok none
  | some the_module ↦ try_map (λ p. demand (loader.load_program p)) the_module.programs >>= λ _.
      loaded the_module >>= λ native. ok (some (the_module, native))
]

-- the eBPF grains, with what of their configuration says where they are attached
pub data Native : Type 0 where
  network files : Native
  dns : Text → XdpMode → Native
  tls : Text → Native
  syscall : List Text → Native

module _ {C : Type 0} ⦃redbpf : Redbpf⦄ where
  -- `attach` of a grain; `version` is the kernel's, if it can be read
  unfoldable pub attach_native : Option ℕ → Native → (Text → Run C) → Module → Run (List (Stream C))
  unfolding into concat bound_names
  attach_native version network get_handler the_module = attach_kprobes get_handler the_module
  attach_native version files get_handler the_module = attach_kprobes get_handler the_module
  attach_native version (dns interface xdp_mode) get_handler the_module =
      attach_xdps interface (into xdp_mode) get_handler the_module
  attach_native version (tls interface) get_handler the_module =
      attach_socketfilters interface get_handler the_module
  attach_native version (syscall monitor_syscalls) get_handler the_module = unwrap version >>= λ v.
      try_map (λ name. attach_kprobes_to_names name get_handler the_module)
        (bound_names v monitor_syscalls)
      >>= λ streams. ok (concat streams)

-- `EBPFActor`; its probe is what `attach` of the grain gives
pub record EbpfActor (C R : Type 0) : Type 0 where
  pub probe : Run (List (Stream C))
  pub recipients : List R

module _ {C R : Type 0} where
  unfoldable pub new : Run (List (Stream C)) → List R → EbpfActor C R
  new probe recipients = record { probe = probe; recipients = recipients }

  -- The streams that are added to the context, in order.
  unfoldable pub started : EbpfActor C R → Run (List (Stream C))
  started actor = actor.probe
