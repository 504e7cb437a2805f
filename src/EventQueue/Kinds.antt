-- ===== src/EventQueue/Kinds.antt =====
-- Which events stand in which heap of an `EventQueue`, and that every operation keeps it so.
use maybenot_simv.Base.{Bool, true, false, ◌≡◌, ◌≢◌, refl, All, if◌then◌else◌}
use maybenot_simv.Event.{TriggerEvent}
use maybenot_simv.SimEvent.{SimEvent, sim_event_ord}
use maybenot_simv.BinaryHeap
use maybenot_simv.BinaryHeap.Order.{IsHeap, push-All, push-IsHeap}
use maybenot_simv.EventQueue.{EventQueue, Queue, push_into, push}

abbrev pub IsBase : SimEvent → Type 0
IsBase e = e.event ≡ TriggerEvent.normal_sent

abbrev pub IsTunnel : Bool → SimEvent → Type 0
IsTunnel b e = (e.event ≡ TriggerEvent.tunnel_sent) × (e.bypass ≡ b)

abbrev pub IsInternal : SimEvent → Type 0
IsInternal e = (e.event ≢ TriggerEvent.tunnel_sent) × (e.event ≢ TriggerEvent.normal_sent)

-- Each heap is ordered and holds its own kind of events.
pub record IsWellFormed (q : EventQueue) : Type 0 where
  pub base_heap : IsHeap q.base
  pub blocking_heap : IsHeap q.blocking
  pub bypassable_heap : IsHeap q.bypassable
  pub internal_heap : IsHeap q.internal
  pub base_events : All IsBase q.base
  pub blocking_events : All (IsTunnel false) q.blocking
  pub bypassable_events : All (IsTunnel true) q.bypassable
  pub internal_events : All IsInternal q.internal

push_internal :
    (e : SimEvent) (q : EventQueue)
    → IsInternal e
    → IsWellFormed q
    → IsWellFormed (record q { internal = BinaryHeap.push e q.internal })
push_internal e q k w = record {
  base_heap = w.base_heap;
  blocking_heap = w.blocking_heap;
  bypassable_heap = w.bypassable_heap;
  internal_heap = push-IsHeap e q.internal w.internal_heap;
  base_events = w.base_events;
  blocking_events = w.blocking_events;
  bypassable_events = w.bypassable_events;
  internal_events = push-All IsInternal e q.internal k w.internal_events;
}

push_tunnel :
    (b : Bool) (e : SimEvent) (q : EventQueue)
    → IsTunnel b e
    → IsWellFormed q
    → IsWellFormed (
        if b
        then record q { bypassable = BinaryHeap.push e q.bypassable }
        else record q { blocking = BinaryHeap.push e q.blocking })
push_tunnel true e q k w = record {
  base_heap = w.base_heap;
  blocking_heap = w.blocking_heap;
  bypassable_heap = push-IsHeap e q.bypassable w.bypassable_heap;
  internal_heap = w.internal_heap;
  base_events = w.base_events;
  blocking_events = w.blocking_events;
  bypassable_events = push-All (IsTunnel true) e q.bypassable k w.bypassable_events;
  internal_events = w.internal_events;
}
push_tunnel false e q k w = record {
  base_heap = w.base_heap;
  blocking_heap = push-IsHeap e q.blocking w.blocking_heap;
  bypassable_heap = w.bypassable_heap;
  internal_heap = w.internal_heap;
  base_events = w.base_events;
  blocking_events = push-All (IsTunnel false) e q.blocking k w.blocking_events;
  bypassable_events = w.bypassable_events;
  internal_events = w.internal_events;
}

push_into-IsWellFormed :
    (t : TriggerEvent) (e : SimEvent) (q : EventQueue)
    → e.event ≡ t
    → IsWellFormed q
    → IsWellFormed (push_into t e q)
unfolding push_into
push_into-IsWellFormed TriggerEvent.tunnel_sent e q k w = push_tunnel e.bypass e q (k, refl) w
push_into-IsWellFormed TriggerEvent.normal_sent e q k w = record {
  base_heap = push-IsHeap e q.base w.base_heap;
  blocking_heap = w.blocking_heap;
  bypassable_heap = w.bypassable_heap;
  internal_heap = w.internal_heap;
  base_events = push-All IsBase e q.base k w.base_events;
  blocking_events = w.blocking_events;
  bypassable_events = w.bypassable_events;
  internal_events = w.internal_events;
}
push_into-IsWellFormed _ e q k w = push_internal e q ((λ a. cc), (λ a. cc)) w

-- When every heap of the queue is ordered and holds its own kind of events, this holds after a push.
pub push-IsWellFormed : (e : SimEvent) (q : EventQueue) → IsWellFormed q → IsWellFormed (push e q)
unfolding push
push-IsWellFormed e q w = push_into-IsWellFormed e.event e q refl w

-- The queue that a pop leaves.
abbrev pub popped : Queue → EventQueue → EventQueue
popped Queue.blocking q = record q { blocking = (BinaryHeap.pop q.blocking).1 }
popped Queue.bypassable q = record q { bypassable = (BinaryHeap.pop q.bypassable).1 }
popped Queue.internal q = record q { internal = (BinaryHeap.pop q.internal).1 }
popped Queue.base q = record q { base = (BinaryHeap.pop q.base).1 }
