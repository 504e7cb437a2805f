-- ===== src/NetworkStack/Fits.antt =====
-- `sim_network_stack` of crates/maybenot-simulator/src/network.rs returns, and what it puts into
-- the queue stands on its own side and can be handled in turn.
use maybenot_simv.Base.{
  ℕ, ◌-◌, ◌≤◌, Bool, true, false, not, Option, none, some, ◌≡◌, refl, arith, inl, inr, Bool-cases,
  ltb, if◌then◌else◌,
}
use maybenot_simv.Outcome.{ok, Returns, Returns-bind}
use maybenot_simv.Event.{TriggerEvent}
use maybenot_simv.SimEvent.{SimEvent}
use maybenot_simv.EventQueue.{Queue}
use maybenot_simv.SimQueue
use maybenot_simv.SimQueue.{SimQueue, push_sim, side, with_side}
use maybenot_simv.SimQueue.Sides.{IsSided, push_sim-IsSided, popped-IsSided}
use maybenot_simv.SimQueue.Covered.{
  IsCovered, IsCoveredEvent, CoversDelay, push_sim-IsCovered, popped-IsCovered,
  front-IsCoveredEvent, requeued-IsCoveredEvent,
}
use maybenot_simv.SimQueue.Blocked.{pop_blocking-peek_blocking}
use maybenot_simv.EventQueue.Kinds.{popped}
use maybenot_simv.SimState.{Env, SimState, reporting_delay}
use maybenot_simv.SimState.Samples.{CanIntegrate, reporting_delay-Returns}
use maybenot_simv.Network.{NetworkBottleneck, base_delay}
use maybenot_simv.NetworkStack.{
  Net, sub_duration, tunnel_sent_of, tunnel_recv_of, may_replace, requeue_bypassable,
  replace_padding, send_padding, congest, arrival, send_tunnel, network_event, sim_network_stack,
}

-- Each event on its own side, and none before the delay that is subtracted from it.
pub record QueueFits (sq : SimQueue) : Type 0 where
  pub sided : IsSided sq
  pub covered : IsCovered sq

pub push_sim-QueueFits :
    (e : SimEvent) (sq : SimQueue) → IsCoveredEvent e → QueueFits sq → QueueFits (push_sim e sq)
push_sim-QueueFits e sq h k = record {
  sided = push_sim-IsSided e sq k.sided;
  covered = push_sim-IsCovered e sq h k.covered;
}

abbrev NetFits : Net → Type 0
NetFits (sq, network) = QueueFits sq

pub sub_duration-ok : (t d : ℕ) → d ≤ t → (r : ℕ) × (sub_duration t d ≡ ok r)
unfolding sub_duration
sub_duration-ok t d h = let e : ltb t d ≡ false = ground arith in (t - d, rw e refl)

requeue_bypassable-NetFits :
    (next : SimEvent) (sq : SimQueue) (bypassable : Bool) (n : NetworkBottleneck) (now : ℕ)
    (e : SimEvent) (id : Queue)
    → QueueFits sq
    → SimQueue.peek_blocking sq bypassable next.client ≡ (some e, id)
    → Returns NetFits (requeue_bypassable next id bypassable (sq, n) now)
unfolding requeue_bypassable
requeue_bypassable-NetFits next sq bypassable n now e id k h =
    let (held, f, p) =
      pop_blocking-peek_blocking sq bypassable next.client (base_delay n next.client) e id h in
    rw (p, requeue_bypassable)
      (push_sim-QueueFits (record e { bypass = true; replace = false })
        (with_side sq next.client (popped id (side sq next.client)))
        (requeued-IsCoveredEvent e (front-IsCoveredEvent id next.client sq e f k.covered))
        (record {
          sided = popped-IsSided id next.client sq k.sided;
          covered = popped-IsCovered id next.client sq k.covered;
        }))

padding_absurd : (P : Type 0) → true ≡ false → P
padding_absurd P h = cc

replace_padding-NetFits :
    (next : SimEvent) (r : Option SimEvent × Queue) (bypassable : Bool) (sq : SimQueue)
    (n : NetworkBottleneck) (now : ℕ)
    → QueueFits sq
    → SimQueue.peek_blocking sq bypassable next.client ≡ r
    → Returns NetFits (replace_padding next r bypassable (sq, n) now)
unfolding replace_padding
replace_padding-NetFits next (none, id) bypassable sq n now k h =
    push_sim-QueueFits (tunnel_sent_of next true next.bypass next.replace) sq (padding_absurd _) k
replace_padding-NetFits next (some e, id) bypassable sq n now k h =
    elim (Bool-cases (may_replace next e)) [
      | inl t ↦ elim (Bool-cases (not next.bypass)) [
        | inl u ↦ rw (t, u, replace_padding) k
        | inr u ↦
            rw (t, u, replace_padding)
              (requeue_bypassable-NetFits next sq bypassable n now e id k h)
      ]
      | inr t ↦
          rw (t, replace_padding)
            (push_sim-QueueFits (tunnel_sent_of next true next.bypass next.replace) sq
              (padding_absurd _) k)
    ]

send_padding-NetFits :
    (next : SimEvent) (bypassable : Bool) (sq : SimQueue) (n : NetworkBottleneck) (now : ℕ)
    → QueueFits sq
    → Returns NetFits (send_padding next bypassable (sq, n) now)
unfolding send_padding
send_padding-NetFits next bypassable sq n now k = go next.replace
  where
    go :
        (b : Bool)
        → Returns NetFits (
            if b
            then replace_padding next
                (SimQueue.peek_blocking sq bypassable next.client)
                bypassable
                (sq, n)
                now
            else ok (push_sim (tunnel_sent_of next true next.bypass next.replace) sq, n))
    go true =
        replace_padding-NetFits next (SimQueue.peek_blocking sq bypassable next.client) bypassable
          sq n now k refl
    go false =
        push_sim-QueueFits (tunnel_sent_of next true next.bypass next.replace) sq (padding_absurd _)
          k

-- A packet is reported no sooner than the delay of the report.
arrival-Returns :
    (next : SimEvent) (network_delay reporting now : ℕ)
    → (next.contains_padding ≡ false → next.integration_delay ≤ next.time)
    → Returns (λ t. reporting ≤ t) (arrival next network_delay reporting now)
unfolding arrival
arrival-Returns next network_delay reporting now h = elim (Bool-cases next.contains_padding) [
  | inl t ↦ rw (t, arrival) (omega arith)
  | inr t ↦
      let (r, e) = sub_duration-ok next.time next.integration_delay (h t) in
      rw (t, e, arrival) (omega arith)
]

module _ {Fw Bins Rng : Type 0} (env : Env Fw Bins Rng) where
  abbrev SentFits : Net × Rng → Type 0
  SentFits (net, rng) = NetFits net

  abbrev pub StackFits : Bool × Net × Rng → Type 0
  StackFits (activity, net, rng) = NetFits net

  send_tunnel-SentFits :
      (next : SimEvent) (recipient : SimState Fw Bins) (sq : SimQueue) (n : NetworkBottleneck)
      (now : ℕ) (rng : Rng)
      → CanIntegrate env recipient.integration
      → QueueFits sq
      → (next.contains_padding ≡ false → next.integration_delay ≤ next.time)
      → Returns SentFits (send_tunnel env next recipient (sq, n) now rng)
  unfolding send_tunnel
  send_tunnel-SentFits next recipient sq n now rng i k h =
      Returns-bind SentFits _ (reporting_delay env recipient rng) _
        (reporting_delay-Returns env recipient rng i)
        (λ d u.
          Returns-bind SentFits (λ t. d.0 ≤ t) (arrival next (congest next (sq, n) now).0 d.0 now) _
            (arrival-Returns next (congest next (sq, n) now).0 d.0 now h)
            (λ t l. push_sim-QueueFits (tunnel_recv_of next t d.0) sq l k))

  -- When the reporting delay of the recipient can be sampled, with the other delays of its
  -- integration, the events of the queue stand on their own sides, and neither the event nor one of
  -- the queue lies before the delay that is subtracted from it, `sim_network_stack` returns, with
  -- times that have no upper bound: there is a packet to take wherever it takes one, no time comes
  -- before the earliest instant, and the queue is such again.
  pub sim_network_stack-StackFits :
      (next : SimEvent) (state recipient : SimState Fw Bins) (sq : SimQueue) (n : NetworkBottleneck)
      (now : ℕ) (rng : Rng)
      → CanIntegrate env recipient.integration
      → IsCoveredEvent next
      → QueueFits sq
      → Returns StackFits (sim_network_stack env next state recipient (sq, n) now rng)
  unfolding sim_network_stack
  sim_network_stack-StackFits next state recipient sq n now rng i h k = by_event next.event h
    where
      by_event :
          (e : TriggerEvent)
          → CoversDelay e next
          → Returns StackFits (network_event env e next state recipient (sq, n) now rng)
      by_event TriggerEvent.normal_sent c =
          push_sim-QueueFits (tunnel_sent_of next false false false) sq (λ _. c) k
      by_event (TriggerEvent.padding_sent m) c =
          Returns-bind StackFits NetFits (send_padding next state.blocking_bypassable (sq, n) now) _
            (send_padding-NetFits next state.blocking_bypassable sq n now k) (λ r f. f)
      by_event TriggerEvent.tunnel_sent c =
          Returns-bind StackFits SentFits (send_tunnel env next recipient (sq, n) now rng) _
            (send_tunnel-SentFits next recipient sq n now rng i k c) (λ r f. f)
      by_event TriggerEvent.tunnel_recv c = go next.contains_padding
        where
          received : TriggerEvent → SimEvent
          received t = record next { event = t; bypass = false; replace = false }

          go :
              (b : Bool)
              → QueueFits (
                  push_sim
                    (received (if b then TriggerEvent.padding_recv else TriggerEvent.normal_recv))
                    sq)
          go true = push_sim-QueueFits (received TriggerEvent.padding_recv) sq c k
          go false = push_sim-QueueFits (received TriggerEvent.normal_recv) sq c k
      by_event _ c = k
