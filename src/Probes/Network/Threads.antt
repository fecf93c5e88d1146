-- ===== src/Probes/Network/Threads.antt =====
-- The map from threads to sockets of ingraind-probes/src/network/main.rs keeps the threads apart:
-- each is served as if it had a place of its own for its socket and were alone.
use ingraind.Prelude.{
  ℕ, ◌≡◌, refl, ap, ap₂, ◌∙◌, sym, Option, none, some, List, [], ◌∷◌, ◌++◌, if◌then◌else◌, ◌==◌,
  nat_equality, nat_beq_iff, Bool-cases, Option-cases, inl, inr, Result-cases, retain, ok, err, ◌%◌,
  ◌^◌,
}
use ingraind.Probes.Bpf.{BpfMap, HasRoom}
use ingraind.Probes.Network.{
  Bindings, Context, Connection, Hook, Output, Volume, connect_enter, connect, send_enter,
  send_exit, recv_enter, recv_exit, udp_send_enter, udp_rcv_enter, send, receive, ip_connections,
  ip_volumes, connection, conn_details, store_socket, trace_message, trace_connect, step,
}

module _ ⦃b : Bindings⦄ where
  -- A thread with a place for a socket: what an exit or a call of UDP reports, and the place behind it.
  abbrev pub report : Context → (Connection → Output) → Option ℕ → List Output × Option ℕ
  report ctx output none = ([], none)
  report ctx output (some s) = elim (connection ctx (ctx.memory s)) [
    | err _ ↦ ([], some s)
    | ok c ↦ (output c ∷ [], none)
  ]

  abbrev pub volume : Context → (Connection → ℕ → Volume) → Connection → Output
  volume ctx direction c = ip_volumes (direction c (ctx.parm3 % 2 ^ 16))

  unfoldable pub thread_step : Hook → Context → Option ℕ → List Output × Option ℕ
  thread_step connect_enter ctx place = ([], some ctx.parm1)
  thread_step connect ctx place = report ctx ip_connections place
  thread_step send_enter ctx place = ([], some ctx.parm1)
  thread_step send_exit ctx place = report ctx (volume ctx send) place
  thread_step recv_enter ctx place = ([], some ctx.parm1)
  thread_step recv_exit ctx place = report ctx (volume ctx receive) place
  thread_step udp_send_enter ctx place = report ctx (volume ctx send) place
  thread_step udp_rcv_enter ctx place = report ctx (volume ctx receive) place

  unfoldable pub thread_run : List (Hook × Context) → Option ℕ → List Output
  thread_run [] place = []
  thread_run ((hook, ctx) ∷ events) place =
      (thread_step hook ctx place).0 ++ thread_run events (thread_step hook ctx place).1

module _ {M : Type 0} ⦃b : Bindings⦄ ⦃task_to_socket : BpfMap ℕ ℕ M⦄ where
  -- what a run sends at the hooks of one thread
  unfoldable pub outputs_of : ℕ → List (Hook × Context) → M → List Output
  outputs_of t [] m = []
  outputs_of t ((hook, ctx) ∷ events) m =
      let rest = outputs_of t events (step hook ctx m).1 in
      if ctx.pid_tgid == t then (step hook ctx m).0 ++ rest else rest

  -- a step of the programs is one of the thread that is running, at its place
  abbrev Follows : Hook → Context → M → Type 0
  Follows hook ctx m =
      ((step hook ctx m).0 ≡ (thread_step hook ctx (task_to_socket.get ctx.pid_tgid m)).0)
      × ((j : ℕ)
          → task_to_socket.get j (step hook ctx m).1 ≡ (
              if ctx.pid_tgid == j
              then (thread_step hook ctx (task_to_socket.get ctx.pid_tgid m)).1
              else task_to_socket.get j m))

  conn_details-none :
      (ctx : Context) (m : M)
      → task_to_socket.get ctx.pid_tgid m ≡ none
      → conn_details ctx m ≡ (none, m)
  unfolding conn_details
  conn_details-none ctx m e = rw (e, conn_details) refl

  conn_details-err :
      (ctx : Context) (m : M) (s : ℕ) (u : Unit {0})
      → task_to_socket.get ctx.pid_tgid m ≡ some s
      → connection ctx (ctx.memory s) ≡ err u
      → conn_details ctx m ≡ (none, m)
  unfolding conn_details
  conn_details-err ctx m s u e f = rw (e, conn_details) (rw f refl)

  conn_details-ok :
      (ctx : Context) (m : M) (s : ℕ) (c : Connection)
      → task_to_socket.get ctx.pid_tgid m ≡ some s
      → connection ctx (ctx.memory s) ≡ ok c
      → conn_details ctx m ≡ (some c, task_to_socket.delete ctx.pid_tgid m)
  unfolding conn_details
  conn_details-ok ctx m s c e f = rw (e, conn_details) (rw f refl)

  -- what a program makes of the details of a connection
  abbrev traced : (Connection → Output) → Option Connection × M → List Output × M
  traced output details = elim details.0 [
    | none ↦ ([], details.1)
    | some c ↦ (output c ∷ [], details.1)
  ]

  -- the outputs and the map are those of the thread's step
  abbrev Reports : Context → (Connection → Output) → M → List Output × M → Type 0
  Reports ctx output m r =
      (r.0 ≡ (report ctx output (task_to_socket.get ctx.pid_tgid m)).0)
      × ((j : ℕ)
          → task_to_socket.get j r.1 ≡ (
              if ctx.pid_tgid == j
              then (report ctx output (task_to_socket.get ctx.pid_tgid m)).1
              else task_to_socket.get j m))

  module _ (room : HasRoom task_to_socket) where
    kept :
        (k j : ℕ) (m : M) (o : Option ℕ)
        → task_to_socket.get k m ≡ o
        → task_to_socket.get j m ≡ (if k == j then o else task_to_socket.get j m)
    kept k j m o e = elim (Bool-cases (k == j)) [
      | inl same ↦ rw same (ap (λ i. task_to_socket.get i m) (sym ((nat_beq_iff k j).0 same)) ∙ e)
      | inr other ↦ rw other refl
    ]

    traced-Reports :
        (ctx : Context) (output : Connection → Output) (m : M)
        → Reports ctx output m (traced output (conn_details ctx m))
    traced-Reports ctx output m = elim (Option-cases (task_to_socket.get ctx.pid_tgid m)) [
      | inl e ↦ rw (conn_details-none ctx m e) (rw e (refl, λ j. kept ctx.pid_tgid j m none e))
      | inr (s, e) ↦ elim (Result-cases (connection ctx (ctx.memory s))) [
        | inl (u, f) ↦
            rw (conn_details-err ctx m s u e f)
              (rw e (rw (f, report) (refl, λ j. kept ctx.pid_tgid j m (some s) e)))
        | inr (c, f) ↦
            rw (conn_details-ok ctx m s c e f)
              (rw e (rw (f, report) (refl, λ j. room.get-delete ctx.pid_tgid j m)))
      ]
    ]

    step-Follows : (hook : Hook) (ctx : Context) (m : M) → Follows hook ctx m
    unfolding step thread_step store_socket trace_message trace_connect
    step-Follows connect_enter ctx m = (refl, λ j. room.get-set ctx.pid_tgid j ctx.parm1 m)
    step-Follows connect ctx m = traced-Reports ctx ip_connections m
    step-Follows send_enter ctx m = (refl, λ j. room.get-set ctx.pid_tgid j ctx.parm1 m)
    step-Follows send_exit ctx m = traced-Reports ctx (volume ctx send) m
    step-Follows recv_enter ctx m = (refl, λ j. room.get-set ctx.pid_tgid j ctx.parm1 m)
    step-Follows recv_exit ctx m = traced-Reports ctx (volume ctx receive) m
    step-Follows udp_send_enter ctx m = traced-Reports ctx (volume ctx send) m
    step-Follows udp_rcv_enter ctx m = traced-Reports ctx (volume ctx receive) m

    -- However the hooks of the threads come one after the other, as long as the map has room, what is
    -- sent at the hooks of a thread is what is sent if the thread is alone and has a place of its own.
    pub outputs_of-thread_run :
        (t : ℕ) (events : List (Hook × Context)) (m : M)
        → outputs_of t events m
          ≡ thread_run (retain (λ e. e.1.pid_tgid == t) events) (task_to_socket.get t m)
    unfolding outputs_of thread_run
    outputs_of-thread_run t [] m = refl
    outputs_of-thread_run t ((hook, ctx) ∷ events) m =
        let (out, post) = step-Follows hook ctx m in
        elim (Bool-cases (ctx.pid_tgid == t)) [
          | inl e ↦
              let same : ctx.pid_tgid ≡ t = (nat_beq_iff ctx.pid_tgid t).0 e in
              rw e (
                ap₂ ◌++◌ (out ∙ ap (λ i. (thread_step hook ctx (task_to_socket.get i m)).0) same) (
                  outputs_of-thread_run t events (step hook ctx m).1
                  ∙ ap (thread_run (retain (λ f. f.1.pid_tgid == t) events)) (
                      post t
                      ∙ rw e (ap (λ i. (thread_step hook ctx (task_to_socket.get i m)).1) same))))
          | inr e ↦ rw e (
              outputs_of-thread_run t events (step hook ctx m).1
              ∙ ap (thread_run (retain (λ f. f.1.pid_tgid == t) events)) (post t ∙ rw e refl))
        ]
