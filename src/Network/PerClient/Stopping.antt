-- ===== src/Network/PerClient/Stopping.antt =====
-- `stop` of epoll_vs_multithreaded_io/network/tcp_server_thread_per_client.cpp beside the other threads:
-- it sets the flag, joins the thread that accepts, and then the threads of the clients in order.
use low_latency_experiments.Common.{ℕ, suc, List, [], ◌∷◌, Option, none, some, ◌>>=◌, get_elem?}
use low_latency_experiments.Network.System.{Os}
use low_latency_experiments.Network.Socket.Options.{Constants}
use low_latency_experiments.Network.Server
use low_latency_experiments.Network.PerClient.{
  Acceptor, Client, Thread, main_thread, acceptor_thread, client_thread, System,
}
use low_latency_experiments.Network.PerClient

-- Where the main thread stands in `stop`.
pub data Main : Type 0 where
  serving : Main  -- before `TCPServer::stop`
  joining_acceptor : Main  -- before the `join` of the thread that accepts
  joining_client : (next : ℕ) → Main  -- before the `join` of this thread of `m_clientThreads`
  stopped : Main  -- `stop` has returned

pub record Program : Type 0 where
  pub system : System
  pub main : Main

-- A `join` waits until the thread has ended.
abbrev pub after_acceptor : Acceptor → Main
after_acceptor Acceptor.ended = joining_client 0
after_acceptor _ = joining_acceptor

abbrev pub after_client : ℕ → Option (ℕ × Client) → Main
after_client k none = stopped
after_client k (some (slot, Client.ended)) = joining_client (suc k)
after_client k (some (slot, _)) = joining_client k

-- One step of `stop`.
unfoldable pub step_main : Main → System → Program
step_main serving s = record {
  system = record s { server = Server.stop s.server };
  main = joining_acceptor;
}
step_main joining_acceptor s = record { system = s; main = after_acceptor s.acceptor }
step_main (joining_client k) s = record {
  system = s;
  main = after_client k (get_elem? s.clients k);
}
step_main stopped s = record { system = s; main = stopped }

module _ (os : Os) (c : Constants) where
  unfoldable pub step : Thread → Program → Option Program
  step main_thread p = some (step_main p.main p.system)
  step acceptor_thread p = do
    s ← PerClient.step os c acceptor_thread p.system
    some (record p { system = s })
  step (client_thread k) p = do
    s ← PerClient.step os c (client_thread k) p.system
    some (record p { system = s })

  unfoldable pub run : List Thread → Program → Option Program
  run [] p = some p
  run (t ∷ ts) p = do p' ← step t p; run ts p'

-- After `start`, and before `stop`.
abbrev pub begin : System → Program
begin s = record { system = s; main = serving }
