-- ===== src/Network/Server.antt =====
-- `TCPServer` of epoll_vs_multithreaded_io/network/tcp_server.h and tcp_server.cpp: the part that
-- both servers share.
pub mod Slots
use low_latency_experiments.Common.{
  ℕ, suc, List, [], ◌∷◌, ◌++◌, Bool, true, false, Option, none, some, length, get_elem?, set,
  if◌then◌else◌,
}
use low_latency_experiments.Common.Int.{ℤ, pos}
use low_latency_experiments.Network.System.{History, Text, tcp, Call, Os, M, ◌>>=◌, ◌>>◌, pure}
use low_latency_experiments.Network.Socket.Options.{Constants, reuse_address}
use low_latency_experiments.Network.Socket.{Socket, set_socket_option, bind, listen, close}
use low_latency_experiments.Network.Socket.{init as new_socket}
use low_latency_experiments.Network.Connection.{create_tcp}

-- `TCPServer`: `peers` and `flags` are `m_peerSockets` and `m_peerSocketsConnectionFlags`.
pub record Server : Type 0 where
  pub accept_timeout : ℤ
  pub is_stopping : Bool
  pub peers : List Socket
  pub flags : List Bool
  pub socket : Socket

-- `DEFAULT_PENDING_CONNECTION_QUEUE_SIZE` and `DEFAULT_ACCEPT_TIMEOUT`
abbrev pub default_pending_connection_queue_size : ℤ
default_pending_connection_queue_size = pos 32

abbrev pub default_accept_timeout : ℤ
default_accept_timeout = pos 5

-- The loop of `addPeer`: the first slot whose flag is not set.
abbrev pub first_free : List Bool → Option ℕ
first_free [] = none
first_free (false ∷ fs) = some 0
first_free (true ∷ fs) = elim (first_free fs) [ none ↦ none | some i ↦ some (suc i) ]

-- `stop`
unfoldable pub stop : Server → Server
stop v = record v { is_stopping = true }

module _ (os : Os) (c : Constants) where
  -- The constructor; the result of `create` is not looked at.
  unfoldable pub init : (pending_connections_queue_size accept_timeout : ℤ) → M Server
  unfolding create_tcp
  init pending_connections_queue_size accept_timeout = do
    (made, s) ← create_tcp os c new_socket
    pure record {
      accept_timeout = accept_timeout;
      is_stopping = false;
      peers = [];
      flags = [];
      socket = record s { pending_connections = pending_connections_queue_size };
    }

  -- `start`
  unfoldable pub start : Server → Text → ℤ → M (Bool × Server)
  unfolding bind listen
  start v address port = do
    set_socket_option os c v.socket reuse_address (pos 1)
    (bound, s) ← bind os c v.socket address port
    if bound
        then (do (listening, s') ← listen os c s; pure (listening, record v { socket = s' }))
        else pure (false, record v { socket = s })

  -- The old socket in a slot that is used again is destroyed, which closes it.
  unfoldable pub destroy : Option Socket → History → History
  destroy none h = h
  destroy (some old) h = (close os c old h).1

  -- The rest of `addPeer`, after its loop.
  unfoldable pub place_peer : Server → Socket → Option ℕ → M (ℕ × Server)
  place_peer v peer none h = (
    (length v.peers, record v { flags = v.flags ++ (true ∷ []); peers = v.peers ++ (peer ∷ []) }),
    h,
  )
  place_peer v peer (some i) h = (
    (i, record v { peers = set v.peers i peer; flags = set v.flags i true }),
    destroy (get_elem? v.peers i) h,
  )

  -- `addPeer`
  unfoldable pub add_peer : Server → Socket → M (ℕ × Server)
  add_peer v peer = place_peer v peer (first_free v.flags)

  -- What `removePeer` does with the peer that it has found.
  unfoldable pub remove_found : Server → ℕ → Option Socket → M (Option Server)
  remove_found v i none = pure none
  remove_found v i (some peer) = do
    peer' ← close os c peer
    pure (some (record v { flags = set v.flags i false; peers = set v.peers i peer' }))

  -- `removePeer`; without such a peer the behaviour is undefined, here `none`.
  unfoldable pub remove_peer : Server → ℕ → M (Option Server)
  remove_peer v i = remove_found v i (get_elem? v.peers i)
