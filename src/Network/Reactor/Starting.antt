-- ===== src/Network/Reactor/Starting.antt =====
-- The reactor up to the start of its thread.
use low_latency_experiments.Common.{
  ℕ, [], ◌≡◌, inl, inr, refl, sym, ap, ◌∙◌, subst, none, some, true, false, Bool, Bool-cases, leb,
  length, get_elem?,
}
use low_latency_experiments.Common.Int.{ℤ, pos}
use low_latency_experiments.Network.System.{Text, tcp, Call, History, Os}
use low_latency_experiments.Network.Socket.Options.{
  Constants, option_value, reuse_address, tcp_disable_nagle,
}
use low_latency_experiments.Network.Socket.{
  Socket, is_zero, is_negative, create, set_socket_option, bind, listen, socket_address,
  set_blocking_mode,
}
use low_latency_experiments.Network.Connection.{create_tcp}
use low_latency_experiments.Network.Listener.{Event, add_file_descriptor}
use low_latency_experiments.Network.Listener
use low_latency_experiments.Network.Server.{Server}
use low_latency_experiments.Network.Server
use low_latency_experiments.Network.Reactor.{
  Reactor, init, start, set_poll_timeout, set_max_poll_events,
}
use low_latency_experiments.Network.Reactor.Kernel.{IsOpen, IsWatched}
use low_latency_experiments.Network.Reactor.Invariant.{Holds, listening, Inv}
use low_latency_experiments.Network.Reactor.Program.{prepared}

-- Nothing is closed, and nothing new is watched.
abbrev Quiet : Os → History → History → Type 0
Quiet os h h' =
    ((fd : ℤ) → IsOpen os fd h → IsOpen os fd h') × ((fd : ℤ) → IsWatched fd h' → IsWatched fd h)

module _ (os : Os) (c : Constants) where
  set_socket_option-Quiet :
      (s : Socket) (h : History) (value : ℤ)
      → Quiet os h (set_socket_option os c s reuse_address value h).1
  unfolding set_socket_option
  set_socket_option-Quiet s h value = elim (Bool-cases (leb (option_value c reuse_address) 0)) [
    | inl e ↦ rw e (λ fd o. o, λ fd w. w)
    | inr e ↦ rw e (λ fd o. o, λ fd w. w)
  ]

  bind-Quiet :
      (s : Socket) (address : Text) (port : ℤ) (h : History)
      → let ((b, s'), h') = bind os c s address port h in
        (s'.descriptor ≡ s.descriptor) × Quiet os h h'
  unfolding bind
  bind-Quiet s address port h =
      elim (Bool-cases
        (is_zero (os.answer h (Call.bind s.descriptor (socket_address os c address port))))) [
          | inl e ↦ rw e (refl, (λ fd o. o, λ fd w. w))
          | inr e ↦ rw e (refl, (λ fd o. o, λ fd w. w))
        ]

  listen-Quiet :
      (s : Socket) (h : History)
      → let ((b, s'), h') = listen os c s h in (s'.descriptor ≡ s.descriptor) × Quiet os h h'
  unfolding listen
  listen-Quiet s h =
      elim (Bool-cases (is_zero (os.answer h (Call.listen s.descriptor s.pending_connections)))) [
        | inl e ↦ rw e (refl, (λ fd o. o, λ fd w. w))
        | inr e ↦ rw e (refl, (λ fd o. o, λ fd w. w))
      ]

  -- `TCPServer::start` touches the listening socket only.
  pub server_start-Quiet :
      (v : Server) (address : Text) (port : ℤ) (h : History)
      → let ((b, v'), h') = Server.start os c v address port h in
        (v'.socket.descriptor ≡ v.socket.descriptor)
        × (v'.peers ≡ v.peers)
        × (v'.flags ≡ v.flags)
        × Quiet os h h'
  unfolding Server.start
  server_start-Quiet v address port h =
      let h1 = (set_socket_option os c v.socket reuse_address (pos 1) h).1 in
      let set_option = set_socket_option-Quiet v.socket h (pos 1) in
      let ((bound, s), h2) = bind os c v.socket address port h1 in
      let bound_facts = bind-Quiet v.socket address port h1 in
      let listen_facts = listen-Quiet s h2 in
      elim (Bool-cases bound) [
        | inl e ↦ rw e (
          listen_facts.0 ∙ bound_facts.0,
          refl,
          refl,
          (
            λ fd o. listen_facts.1.0 fd (bound_facts.1.0 fd (set_option.0 fd o)),
            λ fd w. set_option.1 fd (bound_facts.1.1 fd (listen_facts.1.1 fd w)),
          ),
        )
        | inr e ↦ rw e (
          bound_facts.0,
          refl,
          refl,
          (
            λ fd o. bound_facts.1.0 fd (set_option.0 fd o),
            λ fd w. set_option.1 fd (bound_facts.1.1 fd w),
          ),
        )
      ]

-- A reactor without clients.
pub record IsIdle (os : Os) (fd : ℤ) (r : Reactor) (h : History) : Type 0 where
  pub listener_is : listening r ≡ fd
  pub no_peers : r.server.peers ≡ []
  pub no_flags : r.server.flags ≡ []
  pub empty_table : (d : ℤ) → r.table d ≡ 0
  pub listener_open : IsOpen os fd h
  pub none_watched : (d : ℤ) → IsWatched d h → ⊥

module _ (os : Os) (c : Constants) where
  abbrev pub listening_descriptor : ℤ
  listening_descriptor = os.answer [] (Call.socket tcp)

  pub prepared-IsIdle :
      (r : Reactor) × (h : History) × (prepared os c [] ≡ some (r, h))
      × IsIdle os listening_descriptor r h
  unfolding prepared init Server.init create_tcp create set_socket_option set_poll_timeout
      set_max_poll_events
  prepared-IsIdle = elim (Bool-cases (is_negative listening_descriptor)) [
    | inl e ↦ rw e (
      _,
      _,
      refl,
      record {
        listener_is = refl;
        no_peers = refl;
        no_flags = refl;
        empty_table = λ d. refl;
        listener_open = inl refl;
        none_watched = λ d w. w;
      },
    )
    | inr e ↦ elim (Bool-cases (leb (option_value c tcp_disable_nagle) 0)) [
      | inl f ↦
          rw (e, f)
            (
              _,
              _,
              refl,
              record {
                listener_is = refl;
                no_peers = refl;
                no_flags = refl;
                empty_table = λ d. refl;
                listener_open = inl refl;
                none_watched = λ d w. w;
              },
            )
      | inr f ↦
          rw (e, f)
            (
              _,
              _,
              refl,
              record {
                listener_is = refl;
                no_peers = refl;
                no_flags = refl;
                empty_table = λ d. refl;
                listener_open = inl refl;
                none_watched = λ d w. w;
              },
            )
    ]
  ]

-- What `start` leaves: where it succeeds, a state that the reactor keeps to.
abbrev pub Started : Os → ℤ → Bool → Reactor → History → Type 0
Started os fd true r h = (listening r ≡ fd) × Inv os r h
Started os fd false r h = Unit {0}

nobody : {v : Server} {i : ℕ} {s : Socket} → v.flags ≡ [] → Holds v i s → ⊥
nobody {v} {i} e a =
    let none_is : none ≡ some true = subst (λ l. get_elem? l i ≡ some true) e a.flag in cc none_is

Inv-start :
    {os : Os} {fd : ℤ} {r : Reactor} {h : History}
    → listening r ≡ fd
    → r.server.peers ≡ []
    → r.server.flags ≡ []
    → ((d : ℤ) → r.table d ≡ 0)
    → IsOpen os fd h
    → ((d : ℤ) → IsWatched d h → d ≡ fd)
    → Inv os r h
Inv-start {os} {fd} {r} {h} own peers flags table opened watched = record {
  well_formed = ap length flags ∙ sym (ap length peers);
  found = λ i s a. absurd (nobody flags a);
  peer_open = λ i s a. absurd (nobody flags a);
  listener_apart = λ i s a. absurd (nobody flags a);
  freed = λ i s f g. absurd (gone i f);
  listener_open = subst (λ d. IsOpen os d h) (sym own) opened;
  not_listed = table (listening r);
  watched = λ d w. inl (watched d w ∙ sym own);
}
  where
    gone : (i : ℕ) → get_elem? r.server.flags i ≡ some false → ⊥
    gone i f =
        let none_is : none ≡ some false = subst (λ l. get_elem? l i ≡ some false) flags f in
        cc none_is

module _ (os : Os) (c : Constants) where
  pub start-Started :
      {fd : ℤ} {r : Reactor} {h : History} (address : Text) (port : ℤ)
      → IsIdle os fd r h
      → (b : Bool) × (r' : Reactor) × (h' : History) × (start os c r address port h
          ≡ some ((b, r'), h'))
        × Started os fd b r' h'
  unfolding start set_blocking_mode Listener.start add_file_descriptor
  start-Started {fd} {r} {h} address port idle =
      let ((b, v), h1) = Server.start os c r.server address port h in
      let facts = server_start-Quiet os c r.server address port h in
      elim (Bool-cases b) [
        | inl e ↦ rw e (
          true,
          _,
          _,
          refl,
          (
            facts.0 ∙ idle.listener_is,
            Inv-start (facts.0 ∙ idle.listener_is) (facts.1 ∙ idle.no_peers)
                (facts.2 ∙ idle.no_flags) idle.empty_table (inr (facts.3.0 fd idle.listener_open))
                (λ d w. elim w [
                  | inl f ↦ sym f ∙ facts.0 ∙ idle.listener_is
                  | inr w' ↦ absurd (idle.none_watched d (facts.3.1 d w'))
                ]),
          ),
        )
        | inr e ↦ rw e (false, _, _, refl, tt)
      ]

pub IsIdle-later :
    {os : Os} {fd : ℤ} {r : Reactor} {h : History} (h' : History)
    → ((d : ℤ) → IsOpen os d h → IsOpen os d h')
    → ((d : ℤ) → IsWatched d h' → IsWatched d h)
    → IsIdle os fd r h
    → IsIdle os fd r h'
IsIdle-later {os} {fd} h' o w idle = record {
  listener_is = idle.listener_is;
  no_peers = idle.no_peers;
  no_flags = idle.no_flags;
  empty_table = idle.empty_table;
  listener_open = o fd idle.listener_open;
  none_watched = λ d x. idle.none_watched d (w d x);
}
