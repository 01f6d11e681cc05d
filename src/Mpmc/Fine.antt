-- ===== src/Mpmc/Fine.antt =====
-- fine_grained_vs_coarse_grained/fine_grained/queue_mpmc.hpp: a linked list with a dummy first node
-- and one mutex for each end. A call runs alone here. `new` does not return null: where it fails it
-- throws.
pub mod Chain
pub mod Refine
pub mod RoundTrip
pub mod Threads
pub mod Program
use low_latency_experiments.Common.{Option, none, some, ◌==◌, if◌then◌else◌, ◌>>=◌}
use low_latency_experiments.Mpmc.Heap.{Ptr, null, node, Heap, update, set_next, set_content, delete}

-- `QueueMPMC<T>` with the heap that it lives in; the mutexes have no state while no call is under way.
pub record Queue {ℓ} (V : Type ℓ) : Type ℓ where
  pub heap : Heap V
  pub head : Ptr
  pub tail : Ptr

module _ {ℓ} {V : Type ℓ} where
  -- `new node`, at the address that `new` returns.
  abbrev pub new_node : Heap V → Ptr → Heap V
  new_node h fresh = update h fresh (some (node none null))

  -- The constructor, with the heap that it finds.
  unfoldable pub init : Heap V → Ptr → Queue V
  init h dummy = record { heap = new_node h dummy; head = dummy; tail = dummy }

  unfoldable pub enqueue : Queue V → Ptr → V → Option (Queue V)
  enqueue q fresh v = do
    h ← set_content (new_node q.heap fresh) fresh v
    h' ← set_next h q.tail fresh
    some (record q { heap = h'; tail = fresh })

  -- `some v` for a call that returns true and puts `v` in `*data`, `none` for one that returns false.
  -- Undefined where a pointer leads to no node, or the data read was never set.
  unfoldable pub dequeue : Queue V → Option (Option V × Queue V)
  dequeue q = do
    current_head ← q.heap q.head
    if current_head.next == null then some (none, q) else do
      new_head ← q.heap current_head.next
      v ← new_head.content
      h ← delete q.heap q.head
      some (some v, record q { heap = h; head = current_head.next })
