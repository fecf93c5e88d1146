-- ===== src/Probes/Network/Calls.antt =====
-- Whole calls of a thread at the hooks of ingraind-probes/src/network/main.rs: the programs at a
-- call of TCP and at its return, and the one program at a call of UDP.
use ingraind.Prelude.{
  ℕ, ◌≡◌, refl, ap, ◌∙◌, Option, none, some, List, [], ◌∷◌, ◌++◌, ◌==◌, nat_equality, retain,
  Result, ok, err, All, Returns,
}
use ingraind.Probes.Bpf.{BpfMap, HasRoom}
use ingraind.Probes.Network.{
  Bindings, Context, Connection, Hook, Output, connect_enter, connect, send_enter, send_exit,
  recv_enter, recv_exit, udp_send_enter, udp_rcv_enter, send, receive, ip_connections, connection,
}
use ingraind.Probes.Network.Threads.{
  thread_step, thread_run, outputs_of, outputs_of-thread_run, volume,
}

-- a call that the thread makes, with what its programs see at the entry and at the return
pub data Call : Type 0 where
  connects sends receives : Context → Context → Call
  udp_sends udp_receives : Context → Call

-- the hooks of a call
unfoldable pub hooks : Call → List (Hook × Context)
hooks (connects enter exit) = (connect_enter, enter) ∷ (connect, exit) ∷ []
hooks (sends enter exit) = (send_enter, enter) ∷ (send_exit, exit) ∷ []
hooks (receives enter exit) = (recv_enter, enter) ∷ (recv_exit, exit) ∷ []
hooks (udp_sends ctx) = (udp_send_enter, ctx) ∷ []
hooks (udp_receives ctx) = (udp_rcv_enter, ctx) ∷ []

unfoldable pub all_hooks : List Call → List (Hook × Context)
all_hooks [] = []
all_hooks (call ∷ calls) = hooks call ++ all_hooks calls

module _ ⦃b : Bindings⦄ where
  -- the connection of the socket that the entry was given, as it is at the return
  abbrev pub ending : Context → Context → Result (Unit {0}) Connection
  ending enter exit = connection exit (exit.memory enter.parm1)

  -- the socket of a call of TCP is readable at the return
  unfoldable pub Readable : Call → Type 0
  Readable (connects enter exit) = Returns (ending enter exit)
  Readable (sends enter exit) = Returns (ending enter exit)
  Readable (receives enter exit) = Returns (ending enter exit)
  Readable (udp_sends ctx) = Unit
  Readable (udp_receives ctx) = Unit

  abbrev one : (Connection → Output) → Result (Unit {0}) Connection → List Output
  one output (ok c) = output c ∷ []
  one output (err _) = []

  -- one output for a call of TCP, none for one of UDP
  unfoldable pub reported : Call → List Output
  reported (connects enter exit) = one ip_connections (ending enter exit)
  reported (sends enter exit) = one (volume exit send) (ending enter exit)
  reported (receives enter exit) = one (volume exit receive) (ending enter exit)
  reported (udp_sends ctx) = []
  reported (udp_receives ctx) = []

  unfoldable pub all_reported : List Call → List Output
  unfolding reported
  all_reported [] = []
  all_reported (call ∷ calls) = reported call ++ all_reported calls

  -- what an exit does with the socket of its entry, and the calls that follow
  after_exit :
      (output : Connection → Output) (read : Result (Unit {0}) Connection) (s : ℕ)
      (later : Option ℕ → List Output) (rest : List Output)
      → Returns read
      → later none ≡ rest
      → (elim read as (λ _. List Output × Option ℕ) [
        | err _ ↦ ([], some s)
        | ok c ↦ (output c ∷ [], none)
      ]).0
          ++ later
              (elim read as (λ _. List Output × Option ℕ) [
                | err _ ↦ ([], some s)
                | ok c ↦ (output c ∷ [], none)
              ]).1
        ≡ one output read ++ rest
  after_exit output (ok c) s later rest readable e = ap (λ r. output c ∷ r) e
  after_exit output (err u) s later rest readable e = absurd readable

  thread_run-reported :
      (calls : List Call)
      → All Readable calls
      → thread_run (all_hooks calls) none ≡ all_reported calls
  unfolding hooks all_hooks Readable all_reported thread_run thread_step
  thread_run-reported [] readable = refl
  thread_run-reported (connects enter exit ∷ calls) readable =
      after_exit ip_connections (ending enter exit) enter.parm1 (thread_run (all_hooks calls))
        (all_reported calls) readable.0 (thread_run-reported calls readable.1)
  thread_run-reported (sends enter exit ∷ calls) readable =
      after_exit (volume exit send) (ending enter exit) enter.parm1 (thread_run (all_hooks calls))
        (all_reported calls) readable.0 (thread_run-reported calls readable.1)
  thread_run-reported (receives enter exit ∷ calls) readable =
      after_exit (volume exit receive) (ending enter exit) enter.parm1
        (thread_run (all_hooks calls)) (all_reported calls) readable.0
        (thread_run-reported calls readable.1)
  thread_run-reported (udp_sends ctx ∷ calls) readable = thread_run-reported calls readable.1
  thread_run-reported (udp_receives ctx ∷ calls) readable = thread_run-reported calls readable.1

module _ {M : Type 0} ⦃b : Bindings⦄ ⦃task_to_socket : BpfMap ℕ ℕ M⦄ where
  -- Whatever the other threads do in between, as long as the map has room: if the hooks of a thread
  -- with no socket in the map are those of whole calls, whose sockets are readable at the return of
  -- the calls of TCP, each call of TCP sends one output, about the socket it was given, and no call
  -- of UDP sends any.
  pub outputs_of-all_reported :
      (room : HasRoom task_to_socket) (t : ℕ) (events : List (Hook × Context)) (m : M)
      (calls : List Call)
      → retain (λ e. e.1.pid_tgid == t) events ≡ all_hooks calls
      → task_to_socket.get t m ≡ none
      → All Readable calls
      → outputs_of t events m ≡ all_reported calls
  outputs_of-all_reported room t events m calls whole fresh readable =
      outputs_of-thread_run room t events m
      ∙ ap (λ es. thread_run es (task_to_socket.get t m)) whole
      ∙ ap (thread_run (all_hooks calls)) fresh
      ∙ thread_run-reported calls readable
