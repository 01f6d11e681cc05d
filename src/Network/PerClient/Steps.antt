-- ===== src/Network/PerClient/Steps.antt =====
-- Each step of each thread of the server keeps what belongs together, and is defined, unless the thread
-- of a new client is ahead of the one that stores it.
use low_latency_experiments.Common.{
  ltb, ◌⊎◌, ◌≢◌, ℕ, zero, suc, List, [], ◌∷◌, Bool, true, false, Option, none, some, ◌≡◌, ◌≤◌, ◌<◌,
  refl, inl, inr, get_elem?, length, arith, leb, length-set, length-append, get_elem?-lt,
  Bool-cases, if◌then◌else◌,
}
use low_latency_experiments.Common.Int.{ℤ, pos_part}
use low_latency_experiments.Network.System.{Text, History, Os}
use low_latency_experiments.Network.Socket.Options.{Constants}
use low_latency_experiments.Network.Socket.{Socket, is_connection_lost, is_positive}
use low_latency_experiments.Network.Connection.{receive}
use low_latency_experiments.Network.Server.{Server, add_peer, remove_peer, place_peer, remove_found}
use low_latency_experiments.Network.Server
use low_latency_experiments.Network.Server.Slots.{add_peer-slot, add_peer-others}
use low_latency_experiments.Network.Reactor.Serving.{ReceivesAtMost}
use low_latency_experiments.Network.PerClient.{
  stored_threads, Acceptor, Client, Thread, main_thread, acceptor_thread, client_thread, System,
  buffer_room, after_message, when_free, step_acceptor, handle_read, remove_step, step_client,
  step_found, step,
}
use low_latency_experiments.Network.PerClient.Invariant.{
  serves, Fits, StandsAt, SlotInv, SlotInv-move, SlotInv-set_peer, SlotInv-remove, SlotInv-add,
}

-- The slots, their flags and the threads belong together.
abbrev pub Good : System → Type 0
Good s = SlotInv s.server.flags s.server.peers s.clients

-- A step that is defined, and keeps that.
pub record Keeps (o : Option System) : Type 0 where
  pub system : System
  pub ran : o ≡ some system
  pub good : Good system

-- Thread `k` is about to look for itself in `m_clientThreads` at an index that is the size, while the
-- thread that accepts has started one thread more and is about to store it there.
abbrev pub TooEarly : ℕ → System → Type 0
TooEarly k s =
    (slot : ℕ) × StandsAt s.clients k slot Client.naming
    × (s.acceptor ≡ Acceptor.storing)
    × (suc slot ≡ length s.clients)

abbrev pub Early : Thread → System → Type 0
Early (client_thread k) s = TooEarly k s
Early _ s = ⊥

late :
    (a : Acceptor) (n slot : ℕ)
    → slot < n
    → ltb slot (stored_threads a n) ≡ false
    → (a ≡ Acceptor.storing) × (suc slot ≡ n)
late Acceptor.storing n slot below e = (refl, ground arith)
late _ n slot below e = absurd (ground arith)

abbrev here : (s : System) → Good s → Keeps (some s)
here s good = record { system = s; ran = refl; good = good }

when_free-Keeps :
    (o : Option Thread) (s t : System) → Good s → Good t → Keeps (some (when_free o s t))
when_free-Keeps none s t good good' = here s good
when_free-Keeps (some owner) s t good good' = here t good'

-- Wherever a message leads, nothing that was read is left.
after_message-Fits : (b : Bool) → Fits (after_message b)
after_message-Fits true = tt
after_message-Fits false = tt

going_on-Fits : (b : Bool) → Fits (if b then Client.ended else Client.locking)
going_on-Fits true = tt
going_on-Fits false = tt

find : {A : Type 0} → (xs : List A) (i : ℕ) → i < length xs → (x : A) × (get_elem? xs i ≡ some x)
find [] i l = absurd (omega arith)
find (x ∷ xs) zero l = (x, refl)
find (x ∷ xs) (suc i) l = find xs i (omega arith)

module _ (os : Os) (c : Constants) where
  place_peer-grows :
      (v : Server) (peer : Socket) (o : Option ℕ) (h : History)
      → length (place_peer os c v peer o h).0.1.peers ≤ suc (length v.peers)
  unfolding place_peer
  place_peer-grows v peer none h = omega (arith, length-append v.peers (peer ∷ []))
  place_peer-grows v peer (some i) h = omega (arith, length-set v.peers i peer)

  add_peer-grows :
      (v : Server) (peer : Socket) (h : History)
      → length (add_peer os c v peer h).0.1.peers ≤ suc (length v.peers)
  unfolding add_peer
  add_peer-grows v peer h = place_peer-grows v peer _ h

  step_acceptor-Keeps : (pc : Acceptor) (s : System) → Good s → Keeps (step_acceptor os c pc s)
  unfolding step_acceptor
  step_acceptor-Keeps Acceptor.checking s good = here _ good
  step_acceptor-Keeps Acceptor.accepting s good = here _ good
  step_acceptor-Keeps (Acceptor.locking peer) s good = when_free-Keeps s.owner _ s good good
  step_acceptor-Keeps (Acceptor.adding peer) s good =
      let (vacant, flagged, stored, same) =
        add_peer-slot os c s.server peer s.history good.well_formed in
      here _ (
        SlotInv-add good (add_peer os c s.server peer s.history).0.0 vacant flagged
          (λ j ne. (add_peer-others os c s.server peer s.history j good.well_formed ne).0) same
          (add_peer-grows s.server peer s.history))
  step_acceptor-Keeps Acceptor.storing s good = here _ good
  step_acceptor-Keeps Acceptor.unlocking s good = here _ good
  step_acceptor-Keeps Acceptor.ended s good = here _ good

  module _ (s : System) (good : Good s) (k slot : ℕ) where
    -- A serving thread finds the peer in its slot.
    peer_there :
        (pc : Client)
        → StandsAt s.clients k slot pc
        → serves pc ≡ true
        → (p : Socket) × (get_elem? s.server.peers slot ≡ some p)
    peer_there pc at serving = find s.server.peers slot (
        omega (
          arith,
          good.well_formed,
          get_elem?-lt s.server.flags slot true (good.in_use k slot pc at serving),
        ))

    handle_read-Keeps :
        (pc : Client) (peer : Socket) (read : ℤ) (stored : Text) (error : ℤ)
        → StandsAt s.clients k slot pc
        → serves pc ≡ true
        → pos_part read ≤ buffer_room
        → Keeps (handle_read os c s k slot peer read stored error)
    unfolding handle_read
    handle_read-Keeps pc peer read stored error at serving le =
        elim (Bool-cases (is_positive read)) [
          | inl e ↦
              let fits : leb (pos_part read) buffer_room ≡ true = ground arith in
              rw (e, fits)
                (here _ (SlotInv-move good k slot pc at _ (λ f. serving) (after_message-Fits _)))
          | inr e ↦
              let (lost, peer') = is_connection_lost peer error in
              rw e (
                here _ (
                  SlotInv-move (SlotInv-set_peer good k slot pc at peer') k slot pc at
                    (after_message lost) (λ f. serving) (after_message-Fits lost)))
        ]

    remove_step-Keeps :
        (o : Option Socket) (h : History)
        → get_elem? s.server.peers slot ≡ o
        → StandsAt s.clients k slot Client.removing
        → Keeps (remove_step os c s k slot (remove_found os c s.server slot o h))
    unfolding remove_step remove_found
    remove_step-Keeps none h e at =
        let (p, found) = peer_there Client.removing at refl in absurd (cc (e, found))
    remove_step-Keeps (some peer) h e at =
        here _ (SlotInv-remove good k slot Client.removing at _ refl)

    naming-Keeps :
        StandsAt s.clients k slot Client.naming
        → Keeps (step_client os c k slot Client.naming s)
          ⊎ ((step_client os c k slot Client.naming s ≡ none)
              × (s.acceptor ≡ Acceptor.storing)
              × (suc slot ≡ length s.clients))
    unfolding step_client
    naming-Keeps at =
        let l = get_elem?-lt s.server.flags slot true (good.in_use k slot Client.naming at refl) in
        let below : slot < length s.clients = omega (arith, good.well_formed, good.threads, l) in
        elim (Bool-cases (ltb slot (stored_threads s.acceptor (length s.clients)))) [
          | inl e ↦ inl (
              rw e
                (here _ (SlotInv-move good k slot Client.naming at Client.checking (λ f. refl) tt)))
          | inr e ↦
              let (storing, last) = late s.acceptor (length s.clients) slot below e in
              inr (rw e refl, storing, last)
        ]

    step_client-Keeps :
        ReceivesAtMost os
        → (pc : Client) → StandsAt s.clients k slot pc
        → (pc ≢ Client.naming)
        → Keeps (step_client os c k slot pc s)
    unfolding step_client receive remove_peer
    step_client-Keeps at_most Client.naming at ne = absurd (ne refl)
    step_client-Keeps at_most Client.checking at ne = here _ (
        SlotInv-move good k slot Client.checking at _ (λ f. refl)
          (going_on-Fits s.server.is_stopping))
    step_client-Keeps at_most Client.locking at ne =
        when_free-Keeps s.owner _ s
          (SlotInv-move good k slot Client.locking at Client.receiving (λ f. refl) tt) good
    step_client-Keeps at_most Client.receiving at ne =
        let (peer, e) = peer_there Client.receiving at refl in
        rw e (
          here _ (
            SlotInv-move good k slot Client.receiving at _ (λ f. refl)
              (at_most peer.descriptor buffer_room s.history)))
    step_client-Keeps at_most (Client.received read stored error) at ne = here _ (
        SlotInv-move good k slot (Client.received read stored error) at
          (Client.handling read stored error) (λ f. refl) (good.fits k slot _ at))
    step_client-Keeps at_most (Client.handling read stored error) at ne =
        let (peer, e) = peer_there (Client.handling read stored error) at refl in
        rw e (
          handle_read-Keeps (Client.handling read stored error) peer read stored error at refl
            (good.fits k slot _ at))
    step_client-Keeps at_most Client.leaving at ne =
        when_free-Keeps s.owner _ s
          (SlotInv-move good k slot Client.leaving at Client.removing (λ f. refl) tt) good
    step_client-Keeps at_most Client.removing at ne =
        remove_step-Keeps (get_elem? s.server.peers slot) s.history refl at
    step_client-Keeps at_most Client.left at ne =
        here _ (SlotInv-move good k slot Client.left at Client.ended (λ f. cc f) tt)
    step_client-Keeps at_most Client.ended at ne = here s good

  step_found-Keeps :
      ReceivesAtMost os
      → (s : System) (k : ℕ) (o : Option (ℕ × Client)) → Good s
      → get_elem? s.clients k ≡ o
      → Keeps (step_found os c k o s) ⊎ ((step_found os c k o s ≡ none) × TooEarly k s)
  unfolding step_found
  step_found-Keeps at_most s k none good e = inl (here s good)
  step_found-Keeps at_most s k (some (slot, Client.naming)) good e =
      elim (naming-Keeps s good k slot e) [
        | inl kept ↦ inl kept
        | inr (undefined, storing, last) ↦ inr (undefined, (slot, e, storing, last))
      ]
  step_found-Keeps at_most s k (some (slot, pc)) good e =
      inl (step_client-Keeps s good k slot at_most pc e (λ f. cc f))

  -- A step of a thread keeps what belongs together, and is defined unless it comes too early.
  pub step-Keeps :
      ReceivesAtMost os
      → (t : Thread) (s : System) → Good s
      → Keeps (step os c t s) ⊎ ((step os c t s ≡ none) × Early t s)
  unfolding step Server.stop
  step-Keeps at_most main_thread s good = inl (here _ good)
  step-Keeps at_most acceptor_thread s good = inl (step_acceptor-Keeps s.acceptor s good)
  step-Keeps at_most (client_thread k) s good =
      step_found-Keeps at_most s k (get_elem? s.clients k) good refl
