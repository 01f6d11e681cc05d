-- ===== src/Network/Automation/Balance.antt =====
-- What the clients of epoll_vs_multithreaded_io/client_automation.cpp have sent and counted, and what
-- is left to do.
use mathlib.Core.Logic.{ite}
use low_latency_experiments.Common.{
  ℕ, suc, ◌+◌, ◌*◌, ◌≡◌, ◌≤◌, ◌<◌, refl, ap, [], ◌∷◌, Option, some, arith, ℕ_discrete,
}
use low_latency_experiments.Common.Int.{pos_part}
use low_latency_experiments.Common.Threads.{assign, tally, tally-assign}
use low_latency_experiments.Network.System.{Call, History}
use low_latency_experiments.Network.Socket.{Socket}
use low_latency_experiments.Network.Automation.{Pc, Client, System, buffer_room}

-- The calls of `send`.
abbrev pub sends : History → ℕ
sends [] = 0
sends (Call.send fd text ∷ h) = suc (sends h)
sends (_ ∷ h) = sends h

-- A message that is counted, or whose loss is counted, is still to be sent.
abbrev pub in_flight : Pc → ℕ
in_flight (Pc.sending text) = 1
in_flight (Pc.reconnecting text read) = 1
in_flight _ = 0

abbrev pub ended : Pc → ℕ
ended Pc.done = 1
ended _ = 0

-- The messages that the thread is still to count.
abbrev pub left : Pc → ℕ → ℕ
left Pc.locking rounds = suc rounds
left Pc.counting rounds = suc rounds
left Pc.done rounds = 0
left _ rounds = rounds

abbrev pub flying : Client → ℕ
flying cl = in_flight cl.pc

abbrev pub finished : Client → ℕ
finished cl = ended cl.pc

abbrev pub remaining : Client → ℕ
remaining cl = left cl.pc cl.rounds

-- What was read fits the buffer.
abbrev pub Fits : Pc → Type 0
Fits (Pc.received text read error) = pos_part read ≤ buffer_room
Fits _ = Unit {0}

pub record Balance (n iterations : ℕ) (s : System) : Type 0 where
  pub sent :
      sends s.history + tally flying n s.clients
      ≡ s.message_counter + s.losses + tally finished n s.clients
  pub counted : s.message_counter + tally remaining n s.clients ≡ n * iterations
  pub fits : (i : ℕ) → Fits (s.clients i).pc

-- A step that is defined, and keeps the balance.
pub record Keeps (n iterations : ℕ) (o : Option System) : Type 0 where
  pub system : System
  pub ran : o ≡ some system
  pub balance : Balance n iterations system

abbrev pub here :
    {n iterations : ℕ} → (s : System) → Balance n iterations s → Keeps n iterations (some s)
here s balance = record { system = s; ran = refl; balance = balance }

assign-Fits :
    (f : ℕ → Client) (i j : ℕ) (cl : Client)
    → Fits cl.pc
    → ((k : ℕ) → Fits (f k).pc)
    → Fits (assign f i cl j).pc
assign-Fits f i j cl new old = elim (ℕ_discrete j i) as (λ d. Fits (ite d cl (f j)).pc) [
  | yes e ↦ new
  | no ne ↦ old j
]

module _ {n iterations : ℕ} {s : System} (inv : Balance n iterations s) {i : ℕ} (lt : i < n) where
  -- A thread that stands at `pc` moves; what it sends and counts makes up for the change of its
  -- weights.
  pub Balance-move :
      {pc : Pc} (e : (s.clients i).pc ≡ pc) (cl : Client) (counter losses : ℕ) (h : History)
      (owner : Option ℕ)
      → sends h + flying cl + s.message_counter + s.losses + ended pc
        ≡ sends s.history + in_flight pc + counter + losses + finished cl
      → counter + remaining cl ≡ s.message_counter + left pc (s.clients i).rounds
      → Fits cl.pc
      → Balance n iterations (record {
        message_counter = counter;
        owner = owner;
        losses = losses;
        clients = assign s.clients i cl;
        history = h;
      })
  Balance-move e cl counter losses h owner same total fit =
      let here_flying = ap in_flight e in
      let here_ended = ap ended e in
      let here_left = ap (λ p. left p (s.clients i).rounds) e in
      record {
        sent = omega (
          arith,
          inv.sent,
          same,
          here_flying,
          here_ended,
          tally-assign flying n i s.clients cl lt,
          tally-assign finished n i s.clients cl lt,
        );
        counted =
            omega
              (arith, inv.counted, total, here_left, tally-assign remaining n i s.clients cl lt);
        fits = λ j. assign-Fits s.clients i j cl fit inv.fits;
      }

  -- A move that neither counts nor sends.
  pub Balance-quiet :
      {pc : Pc} (e : (s.clients i).pc ≡ pc) (pc' : Pc) (socket : Socket) (h : History)
      (owner : Option ℕ)
      → sends h ≡ sends s.history
      → in_flight pc' + ended pc ≡ in_flight pc + ended pc'
      → left pc' (s.clients i).rounds ≡ left pc (s.clients i).rounds
      → Fits pc'
      → Balance n iterations (record s {
        owner = owner;
        clients = assign s.clients i (record (s.clients i) { pc = pc'; socket = socket });
        history = h;
      })
  Balance-quiet e pc' socket h owner quiet same total fit =
      Balance-move e _ s.message_counter s.losses h owner (omega (arith, quiet, same))
        (omega (arith, total)) fit
