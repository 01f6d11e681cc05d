-- ===== src/Network/Automation/Program/Refused.antt =====
-- The program of epoll_vs_multithreaded_io/client_automation.cpp where no server answers.
use low_latency_experiments.Common.{
  ℕ, ◌≡◌, ◌≢◌, ◌<◌, refl, ap, inl, inr, List, [], ◌∷◌, Option, some, true, false, ltb, leb, arith,
  Bool-cases,
}
use low_latency_experiments.Common.Int.{ℤ}
use low_latency_experiments.Common.Threads.{assign-all}
use low_latency_experiments.Network.System.{Text, tcp, SockAddr, Call, History, Os}
use low_latency_experiments.Network.Socket.Options.{Constants, option_value, tcp_disable_nagle}
use low_latency_experiments.Network.Socket.{Socket, is_negative, is_zero, set_socket_option}
use low_latency_experiments.Network.Connection.{connector_connect}
use low_latency_experiments.Network.Reactor.Program.{ip_address, port}
use low_latency_experiments.Network.Automation.{Pc, Client, System, attempt, step_client}
use low_latency_experiments.Network.Automation
use low_latency_experiments.Network.Automation.Program.{
  Main, creating, joining, averaging, returned, Thread, main_thread, client_thread, Program,
  after_join, step_main, created, step, run, launch,
}

-- `connect` always returns an error.
abbrev pub RefusesAll : Os → Type 0
RefusesAll os =
    (fd : ℤ) (address : SockAddr) (h : History)
    → is_zero (os.answer h (Call.connect fd address)) ≡ false

-- Where `main` can stand while it waits for the first thread.
abbrev StillEarly : Main → Type 0
StillEarly (creating k) = Unit {0}
StillEarly (joining k) = k ≡ 0
StillEarly _ = ⊥

module _ (os : Os) (c : Constants) (refuses : RefusesAll os) where
  attempt_fails :
      (s : Socket) (h : History) → (connector_connect os c s ip_address port h).0.0 ≡ false
  unfolding connector_connect set_socket_option
  attempt_fails s h = elim (Bool-cases (is_negative (os.answer h (Call.socket tcp)))) [
    | inl e ↦ rw e (rw (refuses _ _ _) refl)
    | inr e ↦ elim (Bool-cases (leb (option_value c tcp_disable_nagle) 0)) [
      | inl f ↦ rw (e, f) (rw (refuses _ _ _) refl)
      | inr f ↦ rw (e, f) (rw (refuses _ _ _) refl)
    ]
  ]

  record Waits (p : Program) : Type 0 where
    trying : (i : ℕ) → (p.system.clients i).pc ≡ Pc.connecting
    before : StillEarly p.main
    nothing : p.system.message_counter ≡ 0

  record Goes (o : Option Program) : Type 0 where
    program : Program
    ran : o ≡ some program
    waits : Waits program

  found : (p : Program) → Waits p → Goes (some p)
  found p waits = record { program = p; ran = refl; waits = waits }

  module _ (shown : ℕ → Text) (n iterations : ℕ) (some_client : 0 < n) where
    main-Goes :
        (m : Main) (s : System)
        → Waits (record { system = s; main = m })
        → Goes (step n iterations os c shown main_thread (record { system = s; main = m }))
    unfolding step step_main
    main-Goes (creating k) s w = elim (Bool-cases (ltb k n)) [
      | inl e ↦ rw e (found _ (record { trying = w.trying; before = tt; nothing = w.nothing }))
      | inr e ↦ rw e (found _ (record { trying = w.trying; before = refl; nothing = w.nothing }))
    ]
    main-Goes (joining k) s w =
        let more : ltb k n ≡ true = ground (arith, w.before) in
        let waiting = ap (λ pc. after_join k pc) (w.trying k) in
        rw (more, waiting)
          (found _ (record { trying = w.trying; before = w.before; nothing = w.nothing }))
    main-Goes averaging s w = absurd w.before
    main-Goes returned s w = absurd w.before

    client-Goes :
        (i : ℕ) (p : Program) → Waits p → Goes (step n iterations os c shown (client_thread i) p)
    unfolding step Automation.step step_client attempt
    client-Goes i p w = elim (Bool-cases (ltb i (created n iterations p.main))) [
      | inl e ↦
          let fails = attempt_fails (p.system.clients i).socket p.system.history in
          rw (e, w.trying i, fails)
            (found _ (record {
              trying =
                  assign-all (λ (cl : Client). cl.pc ≡ Pc.connecting) p.system.clients i _ refl
                    (λ j ne. w.trying j);
              before = w.before;
              nothing = w.nothing;
            }))
      | inr e ↦ rw e (found p w)
    ]

    run-Goes : (ts : List Thread) (p : Program) → Waits p → Goes (run n iterations os c shown ts p)
    unfolding run
    run-Goes [] p w = found p w
    run-Goes (main_thread ∷ ts) p w =
        let next = main-Goes p.main p.system w in
        let rest = run-Goes ts next.program next.waits in
        record { program = rest.program; ran = rw next.ran rest.ran; waits = rest.waits }
    run-Goes (client_thread i ∷ ts) p w =
        let next = client-Goes i p w in
        let rest = run-Goes ts next.program next.waits in
        record { program = rest.program; ran = rw next.ran rest.ran; waits = rest.waits }

    not_returned : (m : Main) → StillEarly m → m ≢ returned
    not_returned (creating k) e f = cc f
    not_returned (joining k) e f = cc f
    not_returned averaging e f = absurd e
    not_returned returned e f = absurd e

    -- Where every call of `connect` fails and there is a client, the program goes on for ever: on every
    -- schedule each step is defined, every client thread is still in its first loop of attempts, no
    -- message is counted, and `main` has not returned.
    pub never_returns :
        (ts : List Thread)
        → (p : Program) × (run n iterations os c shown ts (launch n iterations []) ≡ some p)
          × (p.main ≢ returned)
          × ((i : ℕ) → (p.system.clients i).pc ≡ Pc.connecting)
          × (p.system.message_counter ≡ 0)
    never_returns ts =
        let goes =
          run-Goes ts (launch n iterations [])
            (record { trying = λ i. refl; before = tt; nothing = refl }) in
        (
          goes.program,
          goes.ran,
          not_returned goes.program.main goes.waits.before,
          goes.waits.trying,
          goes.waits.nothing,
        )
