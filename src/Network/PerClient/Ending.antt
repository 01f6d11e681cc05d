-- ===== src/Network/PerClient/Ending.antt =====
-- Once `stop` of epoll_vs_multithreaded_io/network/tcp_server_thread_per_client.cpp has been called, all
-- threads end and are joined.
use low_latency_experiments.Common.{◌++◌, List, ◌∷◌, some, ◌≡◌}
use low_latency_experiments.Network.System.{History, Os}
use low_latency_experiments.Network.Socket.Options.{Constants}
use low_latency_experiments.Network.Server.{Server}
use low_latency_experiments.Network.Server
use low_latency_experiments.Network.Reactor.Serving.{ReceivesAtMost}
use low_latency_experiments.Network.PerClient.{Thread, System, step_found}
use low_latency_experiments.Network.PerClient
use low_latency_experiments.Network.PerClient.Steps.{Early}
use low_latency_experiments.Network.PerClient.Next.{Next}
use low_latency_experiments.Network.PerClient.Safety.{IsEmpty}
use low_latency_experiments.Network.PerClient.Stopping.{joining_acceptor, Program, run}
use low_latency_experiments.Network.PerClient.Awake.{Stopping}

module _ (os : Os) (c : Constants) (at_most : ReceivesAtMost os) (v : Server) (h : History)
    (empty : IsEmpty v) where
  called_stop : System → Program
  called_stop s = record {
    system = record s { server = Server.stop s.server };
    main = joining_acceptor;
  }

  -- On the way along the schedule the thread of a client comes too early.
  abbrev RanEarly : List Thread → Program → Type 0
  RanEarly ts p =
      (before : List Thread) × (t : Thread) × (after : List Thread) × (q : Program) × (ts
        ≡ before ++ t ∷ after)
      × (run os c before p ≡ some q)
      × Early t q.system
