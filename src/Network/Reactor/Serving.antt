-- ===== src/Network/Reactor/Serving.antt =====
-- A client is served, or found to have gone.
use low_latency_experiments.Common.{
  ℕ, ◌∷◌, ◌≤◌, ◌≡◌, inl, inr, refl, ◌∙◌, true, false, Bool, Bool-cases, leb, arith,
}
use low_latency_experiments.Common.Int.{ℤ, pos, negsuc, pos_part}
use low_latency_experiments.Network.System.{Text, Call, History, Os}
use low_latency_experiments.Network.Message.{quit, c_string, same_text}
use low_latency_experiments.Network.Socket.Options.{Constants}
use low_latency_experiments.Network.Socket.{Socket, is_connection_lost, is_positive}
use low_latency_experiments.Network.Connection.{send, receive}
use low_latency_experiments.Network.Reactor.{Reactor}
use low_latency_experiments.Network.Reactor.Loop.{
  buffer_room, leave_if, answer_client, missed_client, dispatch_read, handle_client,
}
use low_latency_experiments.Network.Reactor.Invariant.{
  Holds, Inv, Outcome, Inv-later, Inv-set_peer, Holds-kept,
}
use low_latency_experiments.Network.Reactor.Leaving.{on_client_disconnected-Outcome}

-- `recv` stores no more than it is asked for.
abbrev pub ReceivesAtMost : Os → Type 0
ReceivesAtMost os = (fd : ℤ) (n : ℕ) (h : History) → pos_part (os.answer h (Call.recv fd n)) ≤ n

module _ (os : Os) (c : Constants) {r : Reactor} {i : ℕ} where
  leave_if-Outcome :
      (b : Bool) {h : History} {s : Socket}
      → Inv os r h
      → Holds r.server i s
      → Outcome os r s.descriptor (leave_if os c b r i h)
  unfolding leave_if
  leave_if-Outcome true inv a = on_client_disconnected-Outcome os c inv a
  leave_if-Outcome false {h} inv a = record {
    reactor = r;
    history = h;
    ran = refl;
    inv = inv;
    same = refl;
    others = λ d ne l. l;
  }

  answer_client-Outcome :
      {h : History} {s : Socket} (message : Text)
      → Inv os r h
      → Holds r.server i s
      → Outcome os r s.descriptor (answer_client os c r i s message h)
  unfolding answer_client send
  answer_client-Outcome message inv a =
      leave_if-Outcome (same_text message quit) (Inv-later (λ fd o. o) (λ fd w. w) inv) a

lost-descriptor : (s : Socket) (e : ℤ) → (is_connection_lost s e).1.descriptor ≡ s.descriptor
unfolding is_connection_lost
lost-descriptor s (pos n) = ground arith
lost-descriptor s (negsuc n) = refl

module _ (os : Os) (c : Constants) {r : Reactor} {i : ℕ} {h : History} {s : Socket}
    (inv : Inv os r h) (a : Holds r.server i s) where
  missed_client-Outcome : (error : ℤ) → Outcome os r s.descriptor (missed_client os c r i s error h)
  unfolding missed_client
  missed_client-Outcome error =
      let (lost, p) = is_connection_lost s error in
      let same = lost-descriptor s error in
      let (t, b, e) = Holds-kept inv a p same i s a in
      let result = leave_if-Outcome os c lost (Inv-set_peer inv a p same) b in
      record {
        reactor = result.reactor;
        history = result.history;
        ran = result.ran;
        inv = result.inv;
        same = result.same;
        others = λ d ne l.
            let (j, u, k, f) = l in
            let (u', k', f') = Holds-kept inv a p same j u k in
            result.others d (λ g. ne (g ∙ e)) (j, u', k', f' ∙ f);
      }

  dispatch_read-Outcome :
      (read : ℤ) (stored : Text) (error : ℤ)
      → pos_part read ≤ buffer_room
      → Outcome os r s.descriptor (dispatch_read os c r i s read stored error h)
  unfolding dispatch_read
  dispatch_read-Outcome read stored error le = elim (Bool-cases (is_positive read)) [
    | inl e ↦
        let fits : leb (pos_part read) buffer_room ≡ true = ground arith in
        rw (e, fits) (answer_client-Outcome os c (c_string (pos_part read) stored) inv a)
    | inr e ↦ rw e (missed_client-Outcome error)
  ]

module _ (os : Os) (c : Constants) (at_most : ReceivesAtMost os) {r : Reactor} {i : ℕ} {h : History}
    {s : Socket} (inv : Inv os r h) (a : Holds r.server i s) where
  -- Serving a connected client is defined; it may leave, and nobody else does.
  pub handle_client-Outcome : Outcome os r s.descriptor (handle_client os c r i h)
  unfolding handle_client receive
  handle_client-Outcome =
      let now = Call.recv s.descriptor buffer_room ∷ h in
      rw a.peer (
        dispatch_read-Outcome os c (Inv-later (λ fd o. o) (λ fd w. w) inv) a
          (os.answer h (Call.recv s.descriptor buffer_room)) (os.incoming h) (os.errno now)
          (at_most s.descriptor buffer_room h))
