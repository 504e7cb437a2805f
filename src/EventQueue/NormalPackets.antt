-- ===== src/EventQueue/NormalPackets.antt =====
-- What `no_normal_packets` tests.
use maybenot_simv.Base.{
  Bool, true, false, List, [], ◌∷◌, ◌≡◌, ◌≢◌, ◌↔◌, refl, arith, All, all, is_empty, ◌&&◌,
}
use maybenot_simv.Event.{Event, TriggerEvent, is_event}
use maybenot_simv.SimEvent.{SimEvent}
use maybenot_simv.EventQueue.{EventQueue, no_normal_packets, neither}
use maybenot_simv.EventQueue.Kinds.{IsWellFormed, IsTunnel}

neither_tunnel : (b : Bool) (e : SimEvent) → IsTunnel b e → neither Event.tunnel_sent e ≡ false
neither_tunnel b e h = ground arith

all_tunnel :
    (b : Bool) (h : List SimEvent)
    → All (IsTunnel b) h
    → all (neither Event.tunnel_sent) h ≡ true
    → h ≡ []
all_tunnel b [] k t = refl
all_tunnel b (e ∷ es) k t = ground (arith, neither_tunnel b e k.0)

-- Neither a packet on its way to this side nor a padding event.
abbrev pub IsQuiet : SimEvent → Type 0
IsQuiet e = (e.event ≢ TriggerEvent.tunnel_recv) × (e.contains_padding ≡ false)

neither_recv :
    (t : TriggerEvent) → is_event t Event.tunnel_recv ≡ false → t ≢ TriggerEvent.tunnel_recv
neither_recv t h e = ground arith

recv_neither :
    (t : TriggerEvent) → t ≢ TriggerEvent.tunnel_recv → is_event t Event.tunnel_recv ≡ false
recv_neither TriggerEvent.tunnel_recv h = absurd (h refl)
recv_neither _ h = refl

all_recv : (h : List SimEvent) → (all (neither Event.tunnel_recv) h ≡ true) ↔ All IsQuiet h
all_recv [] = ((λ _. tt), (λ _. refl))
all_recv (e ∷ es) = (
  (λ t. ground (arith, (all_recv es).0, neither_recv e.event)),
  (λ k. ground (arith, (all_recv es).1 k.1, recv_neither e.event k.0.0)),
)

and4 :
    (a b c d : Bool)
    → (a && (b && (c && d))) ≡ true
    → (a ≡ true) × (b ≡ true) × (c ≡ true) × (d ≡ true)
and4 a b c d h = ground arith

empty : (h : List SimEvent) → is_empty h ≡ true → h ≡ []
empty [] t = refl
empty (e ∷ es) t = cc

-- When every heap of the queue is ordered and holds its own kind of events, the test holds exactly
-- when no base event and no packet to be sent is left, and every internal event is neither a packet
-- on its way nor padding.
pub no_normal_packets_iff :
    (q : EventQueue)
    → IsWellFormed q
    → (no_normal_packets q ≡ true)
      ↔ ((q.base ≡ []) × (q.blocking ≡ []) × (q.bypassable ≡ []) × All IsQuiet q.internal)
unfolding no_normal_packets
no_normal_packets_iff q w = (
  (λ t.
      let (base, blocking, bypassable, internal) = and4 _ _ _ _ t in
      (
        empty q.base base,
        all_tunnel false q.blocking w.blocking_events blocking,
        all_tunnel true q.bypassable w.bypassable_events bypassable,
        (all_recv q.internal).0 internal,
      )),
  (λ k. rw (k.0, k.1, k.2, (all_recv q.internal).1 k.3)),
)
