-- ===== src/Probes/Syscalls.antt =====
-- ingraind-probes/src/syscalls: the probe on a system call, on x86_64.
use ingraind.Prelude.{ℕ, ◌/◌, ◌^◌, none, some, List, [], ◌∷◌, if◌then◌else◌, ◌==◌, nat_equality}
use ingraind.Probes.Bpf.{BpfMap}

pub record SyscallTracepoint : Type 0 where
  pub id : ℕ
  pub syscall_nr : ℕ
  pub comm : List ℕ

-- the register `ax`, the calling thread and the name of its command
pub record Context : Type 0 where
  pub ax : ℕ
  pub pid_tgid : ℕ
  pub comm : List ℕ

module _ {M : Type 0} ⦃host_pid : BpfMap ℕ ℕ M⦄ where
  -- what is sent to `syscall_tp_trigger`
  unfoldable pub syscall_enter : Context → M → List SyscallTracepoint
  syscall_enter ctx m =
      let event : SyscallTracepoint = record {
        id = ctx.pid_tgid / 2 ^ 32;
        syscall_nr = ctx.ax;
        comm = ctx.comm;
      } in
      elim (host_pid.get 1 m) [
        | none ↦ event ∷ []
        | some pid ↦ if pid == ctx.pid_tgid / 2 ^ 32 then [] else event ∷ []
      ]
