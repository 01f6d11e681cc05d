-- ===== src/Mpmc/Fine/Threads.antt =====
-- fine_grained_vs_coarse_grained/fine_grained/queue_mpmc.hpp with any number of threads: a step is one
-- operation on a mutex or one access to the shared part of the queue, so that `enqueue` under
-- `tail_mutex` and `dequeue` under `head_mutex` interleave.
pub mod Invariant
pub mod Mutexes
pub mod Moves
pub mod Nodes
pub mod Ends
pub mod Runs
pub mod Safety
pub mod Labels
pub mod Holding
pub mod Deadlock
use low_latency_experiments.Common.{ℕ, ◌≡◌, ◌≢◌, List, [], ◌∷◌, ◌++◌, Option, none, some}
use low_latency_experiments.Common.Threads.{assign}
use low_latency_experiments.Mpmc.Heap.{Ptr, null, node, Node, update, set_next, delete}
use low_latency_experiments.Mpmc.Fine.{Queue, init}

-- Where a thread stands.
pub data Pc (V : Type 0) : Type 0 where
  outside : Pc V  -- between two calls
  ready : (new_node : Ptr) (val : V) → Pc V  -- `enqueue`, before the lock of `tail_mutex`
  linking : (new_node : Ptr) (val : V) → Pc V  -- before `tail->next = new_node`
  moving : (new_node : Ptr) → Pc V  -- before `tail = new_node`
  enqueued : Pc V  -- before the guard releases `tail_mutex`
  reading : Pc V  -- `dequeue`, with `head_mutex`, before `current_head->next` is read
  testing : (current_head new_head : Ptr) → Pc V  -- before the test of `new_head`
  swapping : (current_head new_head : Ptr) (val : V) → Pc V  -- before `head = new_head`
  swapped : (current_head : Ptr) → Pc V  -- before `head_mutex.unlock()`
  deleting : (current_head : Ptr) → Pc V  -- before `delete current_head`

-- The queue and the threads. `put` and `taken` are the history: the values linked into the list, and
-- those whose node became the dummy.
pub record System (V : Type 0) : Type 0 where
  pub queue : Queue V
  pub tail_owner : Option ℕ
  pub head_owner : Option ℕ
  pub pc : ℕ → Pc V
  pub put : List V
  pub taken : List V

pub data Step {V : Type 0} (s : System V) : System V → Type 0 where
  -- `new node` returns an address that holds no node; nobody else knows it yet.
  create_node :
      (i : ℕ) (new_node : Ptr) (v : V)
      → s.pc i ≡ outside
      → new_node ≢ null
      → s.queue.heap new_node ≡ none
      → Step s (record s {
        queue = record s.queue { heap = update s.queue.heap new_node (some (node (some v) null)) };
        pc = assign s.pc i (ready new_node v);
      })
  lock_tail :
      (i : ℕ) (new_node : Ptr) (v : V)
      → s.pc i ≡ ready new_node v
      → s.tail_owner ≡ none
      → Step s (record s { tail_owner = some i; pc = assign s.pc i (linking new_node v) })
  link :
      (i : ℕ) (new_node : Ptr) (v : V) (last : Node V)
      → s.pc i ≡ linking new_node v
      → s.queue.heap s.queue.tail ≡ some last
      → Step s (record s {
        queue = record s.queue {
          heap = update s.queue.heap s.queue.tail (some (record last { next = new_node }));
        };
        pc = assign s.pc i (moving new_node);
        put = s.put ++ v ∷ [];
      })
  move_tail :
      (i : ℕ) (new_node : Ptr)
      → s.pc i ≡ moving new_node
      → Step s
          (record s { queue = record s.queue { tail = new_node }; pc = assign s.pc i enqueued })
  unlock_tail :
      (i : ℕ)
      → s.pc i ≡ enqueued
      → Step s (record s { tail_owner = none; pc = assign s.pc i outside })
  lock_head :
      (i : ℕ)
      → s.pc i ≡ outside
      → s.head_owner ≡ none
      → Step s (record s { head_owner = some i; pc = assign s.pc i reading })
  read_next :
      (i : ℕ) (first : Node V)
      → s.pc i ≡ reading
      → s.queue.heap s.queue.head ≡ some first
      → Step s (record s { pc = assign s.pc i (testing s.queue.head first.next) })
  -- `dequeue` returns false.
  find_empty :
      (i : ℕ) (current_head : Ptr)
      → s.pc i ≡ testing current_head null
      → Step s (record s { head_owner = none; pc = assign s.pc i outside })
  read_data :
      (i : ℕ) (current_head new_head next : Ptr) (v : V)
      → s.pc i ≡ testing current_head new_head
      → new_head ≢ null
      → s.queue.heap new_head ≡ some (node (some v) next)
      → Step s (record s { pc = assign s.pc i (swapping current_head new_head v) })
  move_head :
      (i : ℕ) (current_head new_head : Ptr) (v : V)
      → s.pc i ≡ swapping current_head new_head v
      → Step s (record s {
        queue = record s.queue { head = new_head };
        pc = assign s.pc i (swapped current_head);
        taken = s.taken ++ v ∷ [];
      })
  unlock_head :
      (i : ℕ) (current_head : Ptr)
      → s.pc i ≡ swapped current_head
      → Step s (record s { head_owner = none; pc = assign s.pc i (deleting current_head) })
  delete_node :
      (i : ℕ) (current_head : Ptr) (old : Node V)
      → s.pc i ≡ deleting current_head
      → s.queue.heap current_head ≡ some old
      → Step s (record s {
        queue = record s.queue { heap = update s.queue.heap current_head none };
        pc = assign s.pc i outside;
      })

-- The constructor, on an empty heap, with all threads outside.
abbrev pub start : (V : Type 0) → Ptr → System V
start V dummy = record {
  queue = record {
    heap = update (λ a. none) dummy (some (node none null));
    head = dummy;
    tail = dummy;
  };
  tail_owner = none;
  head_owner = none;
  pc = λ i. outside;
  put = [];
  taken = [];
}

pub data Reach {V : Type 0} (dummy : Ptr) : System V → Type 0 where
  here : Reach dummy (start V dummy)
  later : {s t : System V} → Reach dummy s → Step s t → Reach dummy t
