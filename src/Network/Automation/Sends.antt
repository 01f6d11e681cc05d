-- ===== src/Network/Automation/Sends.antt =====
-- How many messages the clients of epoll_vs_multithreaded_io/client_automation.cpp send.
use low_latency_experiments.Common.{
  ℕ, ◌+◌, ◌*◌, ◌≡◌, ◌≤◌, ◌<◌, refl, ap, subst, inl, inr, List, [], ◌∷◌, some, ltb, arith,
  Bool-cases,
}
use low_latency_experiments.Common.Int.{int_max}
use low_latency_experiments.Common.Threads.{tally, tally_same}
use low_latency_experiments.Network.System.{Text, History, Os}
use low_latency_experiments.Network.Socket.Options.{Constants}
use low_latency_experiments.Network.Reactor.Serving.{ReceivesAtMost}
use low_latency_experiments.Network.Automation.{Pc, System, step, run, start}
use low_latency_experiments.Network.Automation.Balance.{
  sends, in_flight, ended, left, flying, finished, remaining, Balance, Keeps, here,
}
use low_latency_experiments.Network.Automation.Steps.{step_client-Keeps}

pub start-Balance :
    (n iterations : ℕ) (h : History) → sends h ≡ 0 → Balance n iterations (start iterations h)
start-Balance n iterations h none_sent = record {
  sent = omega (
    arith,
    none_sent,
    tally_same flying n 0 (start iterations h).clients (λ i lt. refl),
    tally_same finished n 0 (start iterations h).clients (λ i lt. refl),
  );
  counted =
      omega (arith, tally_same remaining n iterations (start iterations h).clients (λ i lt. refl));
  fits = λ i. tt;
}

-- What the balance says once all threads have ended.
pub totals_of :
    {n iterations : ℕ} {s : System}
    → Balance n iterations s
    → ((i : ℕ) → i < n → (s.clients i).pc ≡ Pc.done)
    → (s.message_counter ≡ n * iterations) × (sends s.history ≡ n * iterations + s.losses + n)
totals_of {n} {iterations} {s} balance done =
    let none_left =
      tally_same remaining n 0 s.clients
        (λ i lt. ap (λ p. left p (s.clients i).rounds) (done i lt)) in
    let none_flying = tally_same flying n 0 s.clients (λ i lt. ap in_flight (done i lt)) in
    let all_ended = tally_same finished n 1 s.clients (λ i lt. ap ended (done i lt)) in
    (
      omega (arith, balance.counted, none_left),
      omega (arith, balance.counted, balance.sent, none_left, none_flying, all_ended),
    )

module _ (os : Os) (c : Constants) (shown : ℕ → Text) (n iterations : ℕ)
    (at_most : ReceivesAtMost os) (few : n * iterations ≤ int_max) where
  step-Keeps :
      (i : ℕ) (s : System) → Balance n iterations s → Keeps n iterations (step os c shown n i s)
  unfolding step
  step-Keeps i s inv = elim (Bool-cases (ltb i n)) [
    | inl e ↦
        let lt : i < n = ground arith in
        rw e (step_client-Keeps os c shown inv lt at_most few (s.clients i).pc refl)
    | inr e ↦ rw e (here s inv)
  ]

  run-Keeps :
      (is : List ℕ) (s : System)
      → Balance n iterations s
      → Keeps n iterations (run os c shown n is s)
  unfolding run
  run-Keeps [] s inv = here s inv
  run-Keeps (i ∷ is) s inv =
      let next = step-Keeps i s inv in
      let rest = run-Keeps is next.system next.balance in
      record { system = rest.system; ran = rw (next.ran) rest.ran; balance = rest.balance }

  -- If `recv` stores no more than it is asked for and all messages together fit an int: on every
  -- schedule of the client threads no step is undefined. The messages counted and those that the
  -- threads are still to count make up all messages, and the calls of `send` together with the
  -- messages that are counted or lost and not sent yet are as many as the messages counted, the
  -- losses of a connection and the threads that have ended.
  pub sends_balanced :
      (is : List ℕ)
      → (s : System) × (run os c shown n is (start iterations []) ≡ some s)
        × (s.message_counter + tally remaining n s.clients ≡ n * iterations)
        × (sends s.history + tally flying n s.clients
            ≡ s.message_counter + s.losses + tally finished n s.clients)
  sends_balanced is =
      let kept = run-Keeps is (start iterations []) (start-Balance n iterations [] refl) in
      (kept.system, kept.ran, kept.balance.counted, kept.balance.sent)

  -- If `recv` stores no more than it is asked for and all messages together fit an int: after every
  -- schedule in which all client threads end, `messageCounter` is the number of clients times the
  -- messages of each, and `send` has been called once for each message, once more for each loss of a
  -- connection, and once by each thread for "quit".
  pub all_sent :
      (is : List ℕ) {s : System}
      → run os c shown n is (start iterations []) ≡ some s
      → ((i : ℕ) → i < n → (s.clients i).pc ≡ Pc.done)
      → (s.message_counter ≡ n * iterations) × (sends s.history ≡ n * iterations + s.losses + n)
  all_sent is {s} ran done =
      let kept = run-Keeps is (start iterations []) (start-Balance n iterations [] refl) in
      let same : kept.system ≡ s = cc (kept.ran, ran) in
      totals_of (subst (Balance n iterations) same kept.balance) done
