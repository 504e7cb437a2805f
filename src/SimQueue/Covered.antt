-- ===== src/SimQueue/Covered.antt =====
-- The time of an event against its integration delay, which crates/maybenot-simulator/src/network.rs
-- and lib.rs subtract from it.
use maybenot_simv.Base.{
  ℕ, ◌+◌, ◌≤◌, Bool, true, false, List, [], ◌∷◌, Option, none, some, ◌≡◌, refl, arith, All, ◌⊎◌,
  inl, inr, Bool-cases, ◌==◌,
}
use maybenot_simv.Event.{TriggerEvent}
use maybenot_simv.SimEvent.{SimEvent}
use maybenot_simv.EventQueue
use maybenot_simv.EventQueue.{EventQueue, Queue}
use maybenot_simv.EventQueue.Every.{Every, new-Every, push-Every, popped-Every, front-Every}
use maybenot_simv.EventQueue.Kinds.{popped}
use maybenot_simv.EventQueue.Peek.{front, taken}
use maybenot_simv.BinaryHeap
use maybenot_simv.SimQueue
use maybenot_simv.SimQueue.{SimQueue, push_to, push_sim, side, with_side}
use maybenot_simv.Outcome.{IfOk, IfOk-then}

abbrev pub CoversDelay : TriggerEvent → SimEvent → Type 0
CoversDelay TriggerEvent.normal_sent e = e.integration_delay ≤ e.time
CoversDelay TriggerEvent.tunnel_sent e = e.contains_padding ≡ false → e.integration_delay ≤ e.time
CoversDelay TriggerEvent.tunnel_recv e = e.integration_delay ≤ e.time
CoversDelay TriggerEvent.padding_recv e = e.integration_delay ≤ e.time
CoversDelay TriggerEvent.normal_recv e = e.integration_delay ≤ e.time
CoversDelay _ e = Unit {0}

-- An event whose integration delay the simulator subtracts does not lie before that delay.
abbrev pub IsCoveredEvent : SimEvent → Type 0
IsCoveredEvent e = CoversDelay e.event e

pub record IsCovered (sq : SimQueue) : Type 0 where
  pub client : Every IsCoveredEvent sq.client
  pub server : Every IsCoveredEvent sq.server

-- An event that is later by some time.
abbrev pub later : SimEvent → ℕ → SimEvent
later e t = record e { time = t }

CoversDelay-later :
    (k : TriggerEvent) (e : SimEvent) (t : ℕ)
    → e.time ≤ t
    → CoversDelay k e
    → CoversDelay k (later e t)
CoversDelay-later TriggerEvent.normal_sent e t l h = omega arith
CoversDelay-later TriggerEvent.tunnel_sent e t l h = λ p. let q = h p in omega arith
CoversDelay-later TriggerEvent.tunnel_recv e t l h = omega arith
CoversDelay-later TriggerEvent.padding_recv e t l h = omega arith
CoversDelay-later TriggerEvent.normal_recv e t l h = omega arith
CoversDelay-later _ e t l h = tt

pub later-IsCoveredEvent :
    (e : SimEvent) (t : ℕ) → e.time ≤ t → IsCoveredEvent e → IsCoveredEvent (later e t)
later-IsCoveredEvent e t l h = CoversDelay-later e.event e t l h

pub taken-IsCoveredEvent :
    (id : Queue) (d : ℕ) (e : SimEvent) → IsCoveredEvent e → IsCoveredEvent (taken id d e)
taken-IsCoveredEvent Queue.base d e h = later-IsCoveredEvent e (e.time + d) (omega arith) h
taken-IsCoveredEvent Queue.blocking d e h = h
taken-IsCoveredEvent Queue.bypassable d e h = h
taken-IsCoveredEvent Queue.internal d e h = h

CoversDelay-requeued :
    (k : TriggerEvent) (e : SimEvent)
    → CoversDelay k e
    → CoversDelay k (record e { bypass = true; replace = false })
CoversDelay-requeued TriggerEvent.normal_sent e h = h
CoversDelay-requeued TriggerEvent.tunnel_sent e h = h
CoversDelay-requeued TriggerEvent.tunnel_recv e h = h
CoversDelay-requeued TriggerEvent.padding_recv e h = h
CoversDelay-requeued TriggerEvent.normal_recv e h = h
CoversDelay-requeued _ e h = tt

-- A blocked packet that goes back as a bypassable one.
pub requeued-IsCoveredEvent :
    (e : SimEvent) → IsCoveredEvent e → IsCoveredEvent (record e { bypass = true; replace = false })
requeued-IsCoveredEvent e h = CoversDelay-requeued e.event e h

push_to-IsCovered :
    (b : Bool) (e : SimEvent) (sq : SimQueue)
    → IsCoveredEvent e
    → IsCovered sq
    → IsCovered (push_to b e sq)
unfolding push_to
push_to-IsCovered true e sq h s = record {
  client = push-Every IsCoveredEvent e sq.client h s.client;
  server = s.server;
}
push_to-IsCovered false e sq h s = record {
  client = s.client;
  server = push-Every IsCoveredEvent e sq.server h s.server;
}

pub push_sim-IsCovered :
    (e : SimEvent) (sq : SimQueue) → IsCoveredEvent e → IsCovered sq → IsCovered (push_sim e sq)
unfolding push_sim
push_sim-IsCovered e sq h s = push_to-IsCovered e.client e sq h s

abbrev pub CoveredIfSome : Option SimEvent → Type 0
CoveredIfSome none = Unit {0}
CoveredIfSome (some e) = IsCoveredEvent e

pop-All :
    (h : List SimEvent)
    → All IsCoveredEvent h
    → CoveredIfSome (BinaryHeap.pop h).0 × All IsCoveredEvent (BinaryHeap.pop h).1
pop-All [] k = (tt, tt)
pop-All (e ∷ es) k = k

abbrev pub PopIsCovered : Option SimEvent × SimQueue → Type 0
PopIsCovered (o, sq) = CoveredIfSome o × IsCovered sq

abbrev PopIsCoveredOf : Option SimEvent × EventQueue → Type 0
PopIsCoveredOf (o, q) = CoveredIfSome o × Every IsCoveredEvent q

pop-IsCoveredOf :
    (id : Queue) (d : ℕ) (q : EventQueue)
    → Every IsCoveredEvent q
    → IfOk PopIsCoveredOf (EventQueue.pop id d q)
unfolding EventQueue.pop
pop-IsCoveredOf Queue.base d q k = go q.base refl (Bool-cases (d == 0))
  where
    go :
        (h : List SimEvent)
        → q.base ≡ h
        → ((d == 0) ≡ true) ⊎ ((d == 0) ≡ false)
        → IfOk PopIsCoveredOf (EventQueue.pop Queue.base d q)
    go h p (inl t) =
        let r = pop-All q.base k.base in
        rw (t, EventQueue.pop) (r.0, popped-Every IsCoveredEvent Queue.base q k)
    go [] p (inr t) = rw (t, p, EventQueue.pop) tt
    go (e ∷ es) p (inr t) =
        let c : All IsCoveredEvent (e ∷ es) = rw p at k.base in
        rw (t, p, EventQueue.pop)
          (
            taken-IsCoveredEvent Queue.base d e c.0,
            record {
              base = c.1;
              blocking = k.blocking;
              bypassable = k.bypassable;
              internal = k.internal;
            },
          )
pop-IsCoveredOf Queue.blocking d q k =
    let h = pop-All q.blocking k.blocking in (h.0, popped-Every IsCoveredEvent Queue.blocking q k)
pop-IsCoveredOf Queue.bypassable d q k =
    let h = pop-All q.bypassable k.bypassable in
    (h.0, popped-Every IsCoveredEvent Queue.bypassable q k)
pop-IsCoveredOf Queue.internal d q k =
    let h = pop-All q.internal k.internal in (h.0, popped-Every IsCoveredEvent Queue.internal q k)

pub pop-IsCovered :
    (id : Queue) (c : Bool) (d : ℕ) (sq : SimQueue)
    → IsCovered sq
    → IfOk PopIsCovered (SimQueue.pop id c d sq)
unfolding SimQueue.pop
pop-IsCovered id true d sq k =
    IfOk-then PopIsCovered PopIsCoveredOf (EventQueue.pop id d sq.client) _
      (pop-IsCoveredOf id d sq.client k.client)
      (λ r h. (h.0, record { client = h.1; server = k.server }))
pop-IsCovered id false d sq k =
    IfOk-then PopIsCovered PopIsCoveredOf (EventQueue.pop id d sq.server) _
      (pop-IsCoveredOf id d sq.server k.server)
      (λ r h. (h.0, record { client = k.client; server = h.1 }))

pub popped-IsCovered :
    (id : Queue) (c : Bool) (sq : SimQueue)
    → IsCovered sq
    → IsCovered (with_side sq c (popped id (side sq c)))
popped-IsCovered id true sq s = record {
  client = popped-Every IsCoveredEvent id sq.client s.client;
  server = s.server;
}
popped-IsCovered id false sq s = record {
  client = s.client;
  server = popped-Every IsCoveredEvent id sq.server s.server;
}

pub front-IsCoveredEvent :
    (id : Queue) (c : Bool) (sq : SimQueue) (e : SimEvent)
    → front id (side sq c) ≡ some e
    → IsCovered sq
    → IsCoveredEvent e
front-IsCoveredEvent id true sq e h s = front-Every IsCoveredEvent id sq.client e h s.client
front-IsCoveredEvent id false sq e h s = front-Every IsCoveredEvent id sq.server e h s.server

pub new-IsCovered : IsCovered SimQueue.new
new-IsCovered = record { client = new-Every IsCoveredEvent; server = new-Every IsCoveredEvent }
