-- ===== src/Grains/Syscalls/Own.antt =====
-- The grain of src/grains/syscalls.rs tells the probe of ingraind-probes/src/syscalls which process to
-- leave out: its own.
use ingraind.Prelude.{
  ℕ, ◌/◌, ◌^◌, ◌≡◌, refl, ap, sym, ◌∙◌, Text, Option, List, [], ◌∷◌, if◌then◌else◌, ◌==◌,
  nat_equality, Run, ok, bind_inv,
}
use ingraind.Probes.Bpf.{BpfMap, HasRoom}
use ingraind.Probes.Syscalls.{Context, SyscallTracepoint, syscall_enter}
use ingraind.Grains.Syscalls.{KSyms, loaded, prepared}

-- what is sent of a call
abbrev pub event_of : Context → SyscallTracepoint
event_of ctx = record { id = ctx.pid_tgid / 2 ^ 32; syscall_nr = ctx.ax; comm = ctx.comm }

ok_inj : {A : Type 0} {a b : A} → Path (Run A) (ok a) (ok b) → a ≡ b
ok_inj e = cc

module _ {M : Type 0} ⦃host_pid : BpfMap ℕ ℕ M⦄ where
  syscall_enter-set :
      (room : HasRoom host_pid) (ctx : Context) (pid : ℕ) (before : M)
      → syscall_enter ctx (host_pid.set 1 pid before)
        ≡ (if pid == ctx.pid_tgid / 2 ^ 32 then [] else event_of ctx ∷ [])
  unfolding syscall_enter
  syscall_enter-set room ctx pid before = rw (room.get-set 1 1 pid before, syscall_enter) refl

module _ {M N : Type 0} ⦃host_pid : BpfMap ℕ ℕ M⦄ where
  -- the map behind `loaded` is one in which the process is set
  loaded_inv :
      (read_to_string : Text → Option Text) (open_map : N → Option M) (pid : ℕ)
      (symbol_map : Option Text) (maps : List (Text × N)) (ksyms : KSyms) (m : M)
      → loaded read_to_string open_map pid symbol_map maps ≡ ok (ksyms, m)
      → (before : M) × (m ≡ host_pid.set 1 pid before)
  unfolding loaded
  loaded_inv read_to_string open_map pid symbol_map maps ksyms m done =
      let (p, _, e) =
        bind_inv (prepared read_to_string open_map symbol_map maps)
          (λ p. ok (p.0, host_pid.set 1 pid p.1)) done in
      let same : (p.0, host_pid.set 1 pid p.1) ≡ (ksyms, m) = ok_inj e in
      (p.1, ap (λ q. q.1) (sym same))

  -- Once the grain is loaded, and as long as its map has room, the probe sends nothing of a call that a thread of the grain's own
  -- process makes, and one event of each call of another process.
  pub syscall_enter-loaded :
      (room : HasRoom host_pid) (read_to_string : Text → Option Text) (open_map : N → Option M)
      (pid : ℕ) (symbol_map : Option Text) (maps : List (Text × N)) (ksyms : KSyms) (m : M)
      (ctx : Context)
      → loaded read_to_string open_map pid symbol_map maps ≡ ok (ksyms, m)
      → syscall_enter ctx m ≡ (if pid == ctx.pid_tgid / 2 ^ 32 then [] else event_of ctx ∷ [])
  syscall_enter-loaded room read_to_string open_map pid symbol_map maps ksyms m ctx done =
      let (before, same) = loaded_inv read_to_string open_map pid symbol_map maps ksyms m done in
      ap (syscall_enter ctx) same ∙ syscall_enter-set room ctx pid before
