-- ===== src/Tests/ReactorEvents.antt =====
-- The events of the reactor at a concrete input: it accepts a client, and an event on that client's
-- descriptor follows.
use low_latency_experiments.Common.{
  Bool, Option, if◌then◌else◌, ◌≡◌, refl, true, false, [], ◌∷◌, some, none, get_elem?,
}
use low_latency_experiments.Common.Int.{pos}
use low_latency_experiments.Network.System.{History}
use low_latency_experiments.Network.Socket.{
  Socket, init as new_socket, create, set_socket_option, bind, listen, socket_address,
  set_blocking_mode, select, accept,
}
use low_latency_experiments.Network.Socket.Options.{option_value}
use low_latency_experiments.Network.Connection.{create_tcp}
use low_latency_experiments.Network.Listener.{is_valid_event, add_file_descriptor, number_of_ready}
use low_latency_experiments.Network.Listener
use low_latency_experiments.Network.Server.{add_peer, place_peer}
use low_latency_experiments.Network.Server
use low_latency_experiments.Network.Reactor.{
  Reactor, init, set_poll_timeout, set_max_poll_events, start, accept_new_connection, add_accepted,
  on_client_connected, on_client_disconnected,
}
use low_latency_experiments.Network.Reactor.Loop.{
  handle_event, handle_events, handle_client, reactor_round, reactor_thread,
}
use low_latency_experiments.Network.Reactor.Program.{prepared, ip_address, port}
use low_latency_experiments.Network.Reactor.Invariant.{Holds}
use low_latency_experiments.Network.Reactor.Safety.{events_reach_peer}
use low_latency_experiments.Tests.Sockets.{linux}
use low_latency_experiments.Tests.ReactorRun.{
  counting_os, readable_on, newest, counting-GivesFresh, counting-ReceivesAtMost,
  newest-EpollContract,
}

abbrev nothing : Reactor
nothing = record {
  server = record {
    accept_timeout = pos 0;
    is_stopping = false;
    peers = [];
    flags = [];
    socket = new_socket;
  };
  listener = Listener.init;
  table = λ fd. 0;
}

abbrev reactor_of : {A : Type 0} → Option (A × History) → A → A × History
reactor_of none a = (a, [])
reactor_of (some x) a = x

-- The server is prepared and started, and the reactor thread goes round once and accepts a client.
unfoldable before_start : Reactor × History
before_start = reactor_of (prepared counting_os linux []) nothing

unfoldable after_start : (Bool × Reactor) × History
after_start =
    reactor_of (start counting_os linux before_start.0 ip_address port before_start.1)
      (false, nothing)

unfoldable after_round : Reactor × History
after_round =
    reactor_of (reactor_thread counting_os linux newest (false ∷ []) after_start.0.1 after_start.1)
      nothing

before_start_lem : prepared counting_os linux [] ≡ some before_start
unfolding before_start prepared init Server.init set_poll_timeout set_max_poll_events start
    Server.start create_tcp create set_socket_option option_value bind listen socket_address
    set_blocking_mode select Listener.start add_file_descriptor reactor_thread reactor_round
    number_of_ready handle_events handle_event is_valid_event accept_new_connection add_accepted
    accept on_client_connected add_peer place_peer Listener.set_timeout Listener.set_max_poll_events
before_start_lem = refl

after_start_lem :
    start counting_os linux before_start.0 ip_address port before_start.1
    ≡ some ((true, after_start.0.1), after_start.1)
unfolding before_start after_start prepared init Server.init set_poll_timeout set_max_poll_events
    start Server.start create_tcp create set_socket_option option_value bind listen socket_address
    set_blocking_mode select Listener.start add_file_descriptor reactor_thread reactor_round
    number_of_ready handle_events handle_event is_valid_event accept_new_connection add_accepted
    accept on_client_connected add_peer place_peer Listener.set_timeout Listener.set_max_poll_events
after_start_lem = refl

after_round_lem :
    reactor_thread counting_os linux newest (false ∷ []) after_start.0.1 after_start.1
    ≡ some after_round
unfolding before_start after_start after_round prepared init Server.init set_poll_timeout
    set_max_poll_events start Server.start create_tcp create set_socket_option option_value bind
    listen socket_address set_blocking_mode select Listener.start add_file_descriptor reactor_thread
    reactor_round number_of_ready handle_events handle_event is_valid_event accept_new_connection
    add_accepted accept on_client_connected add_peer place_peer Listener.set_timeout
    Listener.set_max_poll_events
after_round_lem = refl

abbrev peer_of : Option Socket → Socket
peer_of none = new_socket
peer_of (some s) = s

abbrev accepted_peer : Socket
accepted_peer = peer_of (get_elem? after_round.0.server.peers 0)

accepted_held : Holds after_round.0.server 0 accepted_peer
unfolding before_start after_start after_round prepared init Server.init set_poll_timeout
    set_max_poll_events start Server.start create_tcp create set_socket_option option_value bind
    listen socket_address set_blocking_mode select Listener.start add_file_descriptor reactor_thread
    reactor_round number_of_ready handle_events handle_event is_valid_event accept_new_connection
    add_accepted accept on_client_connected add_peer place_peer Listener.set_timeout
    Listener.set_max_poll_events
accepted_held = record { flag = refl; peer = refl }

events_reach_peer_example :
    handle_event counting_os linux after_round.0
      (readable_on accepted_peer.descriptor)
      after_round.1
    ≡ (if is_valid_event (readable_on accepted_peer.descriptor)
        then handle_client counting_os linux after_round.0 0 after_round.1
        else on_client_disconnected counting_os linux after_round.0 0 after_round.1)
events_reach_peer_example =
    events_reach_peer counting_os linux newest (false ∷ []) counting-GivesFresh
      counting-ReceivesAtMost (newest-EpollContract (pos 3)) (readable_on accepted_peer.descriptor)
      before_start_lem after_start_lem after_round_lem accepted_held refl
