-- ===== src/EventQueue/Every.antt =====
-- Predicates that hold of every event of an `EventQueue`.
use maybenot_simv.Base.{
  Bool, true, false, List, [], ◌∷◌, some, ◌≡◌, subst, arith, All, if◌then◌else◌,
}
use maybenot_simv.Event.{TriggerEvent}
use maybenot_simv.SimEvent.{SimEvent, sim_event_ord}
use maybenot_simv.BinaryHeap
use maybenot_simv.BinaryHeap.Order.{push-All}
use maybenot_simv.EventQueue
use maybenot_simv.EventQueue.{EventQueue, Queue, push_into, push}
use maybenot_simv.EventQueue.Kinds.{popped}
use maybenot_simv.EventQueue.Peek.{front}

pub record Every (P : SimEvent → Type 0) (q : EventQueue) : Type 0 where
  pub base : All P q.base
  pub blocking : All P q.blocking
  pub bypassable : All P q.bypassable
  pub internal : All P q.internal

module _ (P : SimEvent → Type 0) where
  push_into-Every :
      (t : TriggerEvent) (e : SimEvent) (q : EventQueue)
      → P e
      → Every P q
      → Every P (push_into t e q)
  unfolding push_into
  push_into-Every TriggerEvent.tunnel_sent e q p h = go e.bypass
    where
      go :
          (b : Bool)
          → Every P (
              if b
              then record q { bypassable = BinaryHeap.push e q.bypassable }
              else record q { blocking = BinaryHeap.push e q.blocking })
      go true = record {
        base = h.base;
        blocking = h.blocking;
        bypassable = push-All P e q.bypassable p h.bypassable;
        internal = h.internal;
      }
      go false = record {
        base = h.base;
        blocking = push-All P e q.blocking p h.blocking;
        bypassable = h.bypassable;
        internal = h.internal;
      }
  push_into-Every TriggerEvent.normal_sent e q p h = record {
    base = push-All P e q.base p h.base;
    blocking = h.blocking;
    bypassable = h.bypassable;
    internal = h.internal;
  }
  push_into-Every _ e q p h = record {
    base = h.base;
    blocking = h.blocking;
    bypassable = h.bypassable;
    internal = push-All P e q.internal p h.internal;
  }

  pub push-Every : (e : SimEvent) (q : EventQueue) → P e → Every P q → Every P (push e q)
  unfolding push
  push-Every e q p h = push_into-Every e.event e q p h

  tail-All : (h : List SimEvent) → All P h → All P (BinaryHeap.pop h).1
  tail-All [] h = tt
  tail-All (e ∷ es) h = h.1

  pub popped-Every : (id : Queue) (q : EventQueue) → Every P q → Every P (popped id q)
  popped-Every Queue.base q h = record {
    base = tail-All q.base h.base;
    blocking = h.blocking;
    bypassable = h.bypassable;
    internal = h.internal;
  }
  popped-Every Queue.blocking q h = record {
    base = h.base;
    blocking = tail-All q.blocking h.blocking;
    bypassable = h.bypassable;
    internal = h.internal;
  }
  popped-Every Queue.bypassable q h = record {
    base = h.base;
    blocking = h.blocking;
    bypassable = tail-All q.bypassable h.bypassable;
    internal = h.internal;
  }
  popped-Every Queue.internal q h = record {
    base = h.base;
    blocking = h.blocking;
    bypassable = h.bypassable;
    internal = tail-All q.internal h.internal;
  }

  head-All : (h : List SimEvent) (e : SimEvent) → BinaryHeap.peek h ≡ some e → All P h → P e
  head-All [] e p h = cc
  head-All (x ∷ xs) e p h = subst P (ground arith) h.0

  pub front-Every :
      (id : Queue) (q : EventQueue) (e : SimEvent) → front id q ≡ some e → Every P q → P e
  front-Every Queue.base q e p h = head-All q.base e p h.base
  front-Every Queue.blocking q e p h = head-All q.blocking e p h.blocking
  front-Every Queue.bypassable q e p h = head-All q.bypassable e p h.bypassable
  front-Every Queue.internal q e p h = head-All q.internal e p h.internal

pub new-Every : (P : SimEvent → Type 0) → Every P EventQueue.new
new-Every P = record { base = tt; blocking = tt; bypassable = tt; internal = tt }
