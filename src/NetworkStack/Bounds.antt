-- ===== src/NetworkStack/Bounds.antt =====
-- How late the events are that `sim_network_stack` of crates/maybenot-simulator/src/network.rs puts
-- into the queue.
use maybenot_simv.Base.{
  ℕ, ◌+◌, ◌-◌, ◌*◌, ◌^◌, ◌%◌, ◌≤◌, Bool, true, false, not, Option, none, some, ◌≡◌, refl, arith,
  inl, inr, Bool-cases, if◌then◌else◌,
}
use maybenot_simv.Outcome.{ok, IfOk, IfOk-then}
use maybenot_simv.Event.{TriggerEvent}
use maybenot_simv.SimEvent.{SimEvent}
use maybenot_simv.EventQueue.{Queue}
use maybenot_simv.EventQueue.Every.{Every, push-Every, popped-Every, front-Every}
use maybenot_simv.EventQueue.Kinds.{popped}
use maybenot_simv.EventQueue.Peek.{front}
use maybenot_simv.SimQueue
use maybenot_simv.SimQueue.{SimQueue, push_sim, push_to, side, with_side}
use maybenot_simv.SimQueue.Blocked.{pop_blocking-peek_blocking}
use maybenot_simv.SimState.{Env, SimState, reporting_delay}
use maybenot_simv.Network
use maybenot_simv.Network.{NetworkBottleneck, base_delay}
use maybenot_simv.NetworkStack.{
  Net, sub_duration, tunnel_sent_of, tunnel_recv_of, may_replace, requeue_bypassable,
  replace_padding, send_padding, congest, arrival, send_tunnel, network_event, sim_network_stack,
}

-- The longest delay that the bottleneck adds to a packet: that of the network, and the added delay
-- for as many packets as a `u32` counts.
abbrev pub longest_delay : NetworkBottleneck → ℕ
longest_delay n = n.network.delay + n.pps_added_delay * (2 ^ 32 - 1)

mul_le : (a b c : ℕ) → b ≤ c → a * b ≤ a * c
mul_le a b c h = grind arith

sample_bound :
    (now : ℕ) (c : Bool) (n : NetworkBottleneck) → (Network.sample now c n).0.0 ≤ longest_delay n
unfolding Network.sample
sample_bound now c n = ground (
  arith,
  mul_le n.pps_added_delay
      (((Network.add now (if c then n.client_window else n.server_window)).0 - n.pps_limit)
        % 2 ^ 32)
      (2 ^ 32 - 1),
)

congest_bound :
    (next : SimEvent) (net : Net) (now : ℕ) → (congest next net now).0 ≤ longest_delay net.1
unfolding congest
congest_bound next (sq, n) now = ground (arith, sample_bound now next.client n)

module _ (latest : ℕ) where
  abbrev pub InTime : SimEvent → Type 0
  InTime e = e.time ≤ latest

  -- No event of either side is later.
  pub record IsInTime (sq : SimQueue) : Type 0 where
    pub client : Every InTime sq.client
    pub server : Every InTime sq.server

  push_to-IsInTime :
      (b : Bool) (e : SimEvent) (sq : SimQueue) → InTime e → IsInTime sq → IsInTime (push_to b e sq)
  unfolding push_to
  push_to-IsInTime true e sq h k = record {
    client = push-Every InTime e sq.client h k.client;
    server = k.server;
  }
  push_to-IsInTime false e sq h k = record {
    client = k.client;
    server = push-Every InTime e sq.server h k.server;
  }

  push_sim-IsInTime :
      (e : SimEvent) (sq : SimQueue) → InTime e → IsInTime sq → IsInTime (push_sim e sq)
  unfolding push_sim
  push_sim-IsInTime e sq h k = push_to-IsInTime e.client e sq h k

  popped-IsInTime :
      (id : Queue) (c : Bool) (sq : SimQueue)
      → IsInTime sq
      → IsInTime (with_side sq c (popped id (side sq c)))
  popped-IsInTime id true sq k = record {
    client = popped-Every InTime id sq.client k.client;
    server = k.server;
  }
  popped-IsInTime id false sq k = record {
    client = k.client;
    server = popped-Every InTime id sq.server k.server;
  }

  front-InTime :
      (id : Queue) (c : Bool) (sq : SimQueue) (e : SimEvent)
      → front id (side sq c) ≡ some e
      → IsInTime sq
      → InTime e
  front-InTime id true sq e h k = front-Every InTime id sq.client e h k.client
  front-InTime id false sq e h k = front-Every InTime id sq.server e h k.server

  abbrev NetInTime : Net → Type 0
  NetInTime (sq, network) = IsInTime sq

  requeue_bypassable-NetInTime :
      (next : SimEvent) (sq : SimQueue) (bypassable : Bool) (n : NetworkBottleneck) (now : ℕ)
      (e : SimEvent) (id : Queue)
      → IsInTime sq
      → SimQueue.peek_blocking sq bypassable next.client ≡ (some e, id)
      → IfOk NetInTime (requeue_bypassable next id bypassable (sq, n) now)
  unfolding requeue_bypassable
  requeue_bypassable-NetInTime next sq bypassable n now e id k h =
      let (held, f, p) =
        pop_blocking-peek_blocking sq bypassable next.client (base_delay n next.client) e id h in
      rw (p, requeue_bypassable)
        (push_sim-IsInTime (record e { bypass = true; replace = false })
          (with_side sq next.client (popped id (side sq next.client)))
          (front-InTime id next.client sq e f k) (popped-IsInTime id next.client sq k))

  replace_padding-NetInTime :
      (next : SimEvent) (r : Option SimEvent × Queue) (bypassable : Bool) (sq : SimQueue)
      (n : NetworkBottleneck) (now : ℕ)
      → InTime next
      → IsInTime sq
      → SimQueue.peek_blocking sq bypassable next.client ≡ r
      → IfOk NetInTime (replace_padding next r bypassable (sq, n) now)
  unfolding replace_padding
  replace_padding-NetInTime next (none, id) bypassable sq n now l k h =
      push_sim-IsInTime (tunnel_sent_of next true next.bypass next.replace) sq l k
  replace_padding-NetInTime next (some e, id) bypassable sq n now l k h =
      elim (Bool-cases (may_replace next e)) [
        | inl t ↦ elim (Bool-cases (not next.bypass)) [
          | inl u ↦ rw (t, u, replace_padding) k
          | inr u ↦
              rw (t, u, replace_padding)
                (requeue_bypassable-NetInTime next sq bypassable n now e id k h)
        ]
        | inr t ↦
            rw (t, replace_padding)
              (push_sim-IsInTime (tunnel_sent_of next true next.bypass next.replace) sq l k)
      ]

  send_padding-NetInTime :
      (next : SimEvent) (bypassable : Bool) (sq : SimQueue) (n : NetworkBottleneck) (now : ℕ)
      → InTime next
      → IsInTime sq
      → IfOk NetInTime (send_padding next bypassable (sq, n) now)
  unfolding send_padding
  send_padding-NetInTime next bypassable sq n now l k = by_flag next.replace
    where
      by_flag :
          (b : Bool)
          → IfOk NetInTime (
              if b
              then replace_padding next
                  (SimQueue.peek_blocking sq bypassable next.client)
                  bypassable
                  (sq, n)
                  now
              else ok (push_sim (tunnel_sent_of next true next.bypass next.replace) sq, n))
      by_flag true =
          replace_padding-NetInTime next (SimQueue.peek_blocking sq bypassable next.client)
            bypassable sq n now l k refl
      by_flag false = push_sim-IsInTime (tunnel_sent_of next true next.bypass next.replace) sq l k

  arrival-InTime :
      (next : SimEvent) (d reporting now : ℕ)
      → now ≤ latest
      → next.time + next.integration_delay + d + reporting ≤ latest
      → IfOk (λ t. t ≤ latest) (arrival next d reporting now)
  unfolding arrival sub_duration
  arrival-InTime next d reporting now l h = ground arith

  module _ {Fw Bins Rng : Type 0} (env : Env Fw Bins Rng) where
    abbrev pub StackInTime : Bool × Net × Rng → Type 0
    StackInTime (activity, net, rng) = NetInTime net

    abbrev SentInTime : Net × Rng → Type 0
    SentInTime (net, rng) = NetInTime net

    send_tunnel-SentInTime :
        (next : SimEvent) (recipient : SimState Fw Bins) (sq : SimQueue) (n : NetworkBottleneck)
        (now reporting : ℕ) (rng : Rng)
        → IsInTime sq
        → now ≤ latest
        → next.time + next.integration_delay + longest_delay n + reporting ≤ latest
        → IfOk (λ d. d.0 ≤ reporting) (reporting_delay env recipient rng)
        → IfOk SentInTime (send_tunnel env next recipient (sq, n) now rng)
    unfolding send_tunnel
    send_tunnel-SentInTime next recipient sq n now reporting rng k l h r =
        let c = congest_bound next (sq, n) now in
        IfOk-then SentInTime (λ d. d.0 ≤ reporting) (reporting_delay env recipient rng) _ r
          (λ d u.
            IfOk-then SentInTime (λ t. t ≤ latest)
              (arrival next (congest next (sq, n) now).0 d.0 now) _
              (arrival-InTime next (congest next (sq, n) now).0 d.0 now l (omega arith))
              (λ t v. push_sim-IsInTime (tunnel_recv_of next t d.0) sq v k))

    -- When no event of the queue is later than a given time, nor is the current time, nor the time
    -- of the event with its integration's delay, the longest delay that the bottleneck adds (the
    -- network's, and the added delay for 2^32 - 1 packets) and a bound on the recipient's
    -- reporting delay, then no event of the queue that `sim_network_stack` leaves, where it
    -- returns, is later than the given time.
    pub sim_network_stack-StackInTime :
        (next : SimEvent) (state recipient : SimState Fw Bins) (sq : SimQueue)
        (n : NetworkBottleneck) (now reporting : ℕ) (rng : Rng)
        → IsInTime sq
        → now ≤ latest
        → next.time + next.integration_delay + longest_delay n + reporting ≤ latest
        → IfOk (λ d. d.0 ≤ reporting) (reporting_delay env recipient rng)
        → IfOk StackInTime (sim_network_stack env next state recipient (sq, n) now rng)
    unfolding sim_network_stack
    sim_network_stack-StackInTime next state recipient sq n now reporting rng k l h r =
        by_event next.event
      where
        own : InTime next
        own = omega arith

        by_event :
            (e : TriggerEvent)
            → IfOk StackInTime (network_event env e next state recipient (sq, n) now rng)
        by_event TriggerEvent.normal_sent =
            push_sim-IsInTime (tunnel_sent_of next false false false) sq own k
        by_event (TriggerEvent.padding_sent m) =
            IfOk-then StackInTime NetInTime
              (send_padding next state.blocking_bypassable (sq, n) now) _
              (send_padding-NetInTime next state.blocking_bypassable sq n now own k) (λ x f. f)
        by_event TriggerEvent.tunnel_sent =
            IfOk-then StackInTime SentInTime (send_tunnel env next recipient (sq, n) now rng) _
              (send_tunnel-SentInTime next recipient sq n now reporting rng k l h r) (λ x f. f)
        by_event TriggerEvent.tunnel_recv = push_sim-IsInTime _ sq own k
        by_event _ = k
