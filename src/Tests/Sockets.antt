-- ===== src/Tests/Sockets.antt =====
-- The sockets and the server at concrete inputs.
use low_latency_experiments.Common.{
  ◌+◌, ◌≡◌, ◌≢◌, refl, true, false, [], ◌∷◌, some, none, arith, get_elem?, ◌||◌, if◌then◌else◌,
}
use low_latency_experiments.Common.Int.{ℤ, pos, negsuc}
use low_latency_experiments.Network.System.{Call, Os}
use low_latency_experiments.Network.Socket.Options.{Constants}
use low_latency_experiments.Network.Socket.{init as new_socket}
use low_latency_experiments.Network.Socket.{
  Socket, disconnected, connected, close, connect_within, is_zero, is_positive, is_connection_lost,
}
use low_latency_experiments.Network.Socket.Closing.{close-close, lost_stays_open}
use low_latency_experiments.Network.Socket.Connecting.{
  connect_within_state, connect_within_leak, unblocked, connecting, tried, waiting,
}
use low_latency_experiments.Network.Connection.Attempts.{
  asked_for, closed, connect_loop, attempts_leak,
}
use low_latency_experiments.Network.Server.{Server, add_peer, place_peer}
use low_latency_experiments.Network.Server.Slots.{
  IsWellFormed, add_peer-slot, add_peer-others, add_peer-lowest,
}

-- No connection is made at once, and every descriptor is ready in time.
abbrev demo_answer : Call → ℤ
demo_answer (Call.socket type) = pos 5
demo_answer (Call.connect fd addr) = negsuc 0
demo_answer (Call.select fd read write seconds) = pos 1
demo_answer _ = pos 0

abbrev demo_os : Os
demo_os = record {
  answer = λ h c. demo_answer c;
  peer = λ h. record { port = 80; host = 1 };
  incoming = λ h. [];
  errno = λ h. pos 0;
  getaddrinfo = λ name. none;
  inet_pton = λ name. some 1;
  inet_ntop = λ a. [];
  htons = λ p. 80;
  ntohs = λ p. pos 80;
}

abbrev pub linux : Constants
linux = record {
  so_error = 4;
  so_reuseaddr = 2;
  so_reuseport = 15;
  so_rcvbuf = 8;
  so_rcvtimeo = 20;
  so_sndbuf = 7;
  so_sndtimeo = 21;
  tcp_nodelay = 1;
  tcp_quickack = 12;
  tcp_cork = 3;
  so_priority = 12;
  so_busy_poll = 46;
}

abbrev fresh : Socket
fresh = record new_socket { descriptor = pos 5 }

abbrev joined : Socket
joined = record fresh { state = connected }

close-close_test :
    let (s', h') = close demo_os linux joined [] in
    (s'.state ≡ disconnected) × (close demo_os linux s' h' ≡ (s', h'))
close-close_test = close-close demo_os linux joined []

lost_stays_open_test :
    let (lost, s') = is_connection_lost joined (pos 104) in
    (lost ≡ true) × (s'.state ≡ disconnected) × (close demo_os linux s' [] ≡ (s', []))
lost_stays_open_test = lost_stays_open demo_os linux joined 104 [] (omega arith) (omega arith)

connect_within_state_test :
    let (success, s') = (connect_within demo_os linux fresh [] (pos 80) (pos 3) []).0 in
    let at_once = is_zero (
      demo_os.answer
        (unblocked demo_os linux fresh [])
        (connecting demo_os linux fresh [] [] (pos 80) (pos 3))) in
    (success ≡ (
      at_once
      || is_positive (
          demo_os.answer
            (tried demo_os linux fresh [] [] (pos 80) (pos 3))
            (waiting demo_os linux fresh [] [] (pos 80) (pos 3)))))
    × (s'.state ≡ (if at_once then connected else disconnected))
connect_within_state_test = connect_within_state demo_os linux fresh [] [] (pos 80) (pos 3)

connect_within_leak_test :
    let ((success, s'), h') = connect_within demo_os linux fresh [] (pos 80) (pos 3) [] in
    close demo_os linux s' h' ≡ (s', h')
connect_within_leak_test = connect_within_leak demo_os linux fresh [] [] (pos 80) (pos 3) refl refl

attempts_leak_example :
    let ((success, attempts, s'), h') = connect_loop demo_os linux [] (pos 80) 3 fresh [] in
    (asked_for h' ≡ attempts + asked_for []) × (closed h' ≡ closed [])
attempts_leak_example = attempts_leak demo_os linux [] (pos 80) 3 fresh []

-- The second of three peers has gone.
abbrev server : Server
server = record {
  accept_timeout = pos 5;
  is_stopping = false;
  peers = joined ∷ fresh ∷ joined ∷ [];
  flags = true ∷ false ∷ true ∷ [];
  socket = fresh;
}

abbrev newcomer : Socket
newcomer = record joined { descriptor = pos 9 }

add_peer-slot_example :
    let ((slot, v'), h') = add_peer demo_os linux server newcomer [] in
    (get_elem? server.flags slot ≢ some true)
    × (get_elem? v'.flags slot ≡ some true)
    × (get_elem? v'.peers slot ≡ some newcomer)
    × IsWellFormed v'
add_peer-slot_example = add_peer-slot demo_os linux server newcomer [] refl

add_peer-others_test :
    let ((slot, v'), h') = add_peer demo_os linux server newcomer [] in
    (get_elem? v'.flags 2 ≡ get_elem? server.flags 2)
    × (get_elem? v'.peers 2 ≡ get_elem? server.peers 2)
unfolding add_peer place_peer
add_peer-others_test = add_peer-others demo_os linux server newcomer [] 2 refl (λ e. ground arith)

add_peer-lowest_test : get_elem? server.flags 0 ≡ some true
unfolding add_peer place_peer
add_peer-lowest_test = add_peer-lowest demo_os linux server newcomer [] 0 refl (omega arith)
