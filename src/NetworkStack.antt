-- ===== src/NetworkStack.antt =====
-- `sim_network_stack` of crates/maybenot-simulator/src/network.rs: what one event puts into the
-- queues of the simulator.
pub mod Fits
pub mod Bounds
use maybenot_simv.Base.{
  ℕ, ◌+◌, ◌-◌, Bool, true, false, not, ◌&&◌, Option, none, some, if◌then◌else◌, ltb, max,
}
use maybenot_simv.Outcome.{Outcome, ok, panic, instant_underflow, unwrap, ◌>>=◌}
use maybenot_simv.Event.{Event, TriggerEvent, is_event}
use maybenot_simv.SimEvent.{SimEvent}
use maybenot_simv.EventQueue.{Queue}
use maybenot_simv.SimQueue
use maybenot_simv.SimQueue.{SimQueue, push_sim}
use maybenot_simv.SimState.{Env, SimState, reporting_delay}
use maybenot_simv.Delay.{agg_delay_on_padding_bypass_replace, should_delayed_packet_prop_agg_delay}
use maybenot_simv.Network
use maybenot_simv.Network.{NetworkBottleneck, push_aggregate_delay, base_delay}

-- `Instant - Duration` panics before the earliest instant.
unfoldable pub sub_duration : ℕ → ℕ → Outcome ℕ
sub_duration t d = if ltb t d then panic instant_underflow else ok (t - d)

-- The event that takes `next` into the tunnel.
abbrev pub tunnel_sent_of : SimEvent → Bool → Bool → Bool → SimEvent
tunnel_sent_of next contains_padding bypass replace = record {
  event = TriggerEvent.tunnel_sent;
  time = next.time;
  integration_delay = next.integration_delay;
  client = next.client;
  contains_padding = contains_padding;
  bypass = bypass;
  replace = replace;
}

-- Its arrival at the other side.
abbrev pub tunnel_recv_of : SimEvent → ℕ → ℕ → SimEvent
tunnel_recv_of next reported reporting = record {
  event = TriggerEvent.tunnel_recv;
  time = reported;
  integration_delay = reporting;
  client = not next.client;
  contains_padding = next.contains_padding;
  bypass = false;
  replace = false;
}

abbrev pub push_delay_if : Option ℕ → ℕ → Bool → NetworkBottleneck → NetworkBottleneck
push_delay_if none now client n = n
push_delay_if (some d) now client n = push_aggregate_delay d now client n

-- The blocked packet that replaces a padding packet is a normal one of the same side.
unfoldable pub may_replace : SimEvent → SimEvent → Bool
may_replace next queued =
    (if queued.client then next.client else not next.client)
    && (is_event queued.event Event.tunnel_sent && not queued.contains_padding)

-- The queues and the network, as the arms of the match leave them.
abbrev pub Net : Type 0
Net = SimQueue × NetworkBottleneck

-- The blocked packet goes back into the queue as a bypassable one.
unfoldable pub requeue_bypassable : SimEvent → Queue → Bool → Net → ℕ → Outcome Net
requeue_bypassable next id bypassable (sq, network) now = do
  r ← SimQueue.pop_blocking id bypassable next.client (base_delay network next.client) sq
  e ← unwrap r.0
  ok (
    push_sim (record e { bypass = true; replace = false }) r.1,
    push_delay_if
        (agg_delay_on_padding_bypass_replace r.1 next.client now
          (record e { bypass = true; replace = false }) (base_delay network next.client))
        now next.client network,
  )

unfoldable pub replace_padding : SimEvent → Option SimEvent × Queue → Bool → Net → ℕ → Outcome Net
replace_padding next (none, id) bypassable (sq, network) now =
    ok (push_sim (tunnel_sent_of next true next.bypass next.replace) sq, network)
replace_padding next (some queued, id) bypassable (sq, network) now =
    if may_replace next queued
    then if not next.bypass
      then ok (sq, network)
      else requeue_bypassable next id bypassable (sq, network) now
    else ok (push_sim (tunnel_sent_of next true next.bypass next.replace) sq, network)

unfoldable pub send_padding : SimEvent → Bool → Net → ℕ → Outcome Net
send_padding next bypassable (sq, network) now =
    if next.replace
    then replace_padding next (SimQueue.peek_blocking sq bypassable next.client) bypassable
        (sq, network) now
    else ok (push_sim (tunnel_sent_of next true next.bypass next.replace) sq, network)

-- The delay of the bottleneck, and whether it goes on to the base trace.
unfoldable pub congest : SimEvent → Net → ℕ → ℕ × NetworkBottleneck
congest next (sq, network) now =
    let ((network_delay, baseline_delay), n) = Network.sample now next.client network in
    elim baseline_delay [
      | none ↦ (network_delay, n)
      | some pps_delay ↦
          if should_delayed_packet_prop_agg_delay sq next.client next n.client_aggregate_base_delay
          then (network_delay, push_aggregate_delay pps_delay now next.client n)
          else (network_delay, n)
    ]

-- When the recipient hears of the packet.
unfoldable pub arrival : SimEvent → ℕ → ℕ → ℕ → Outcome ℕ
arrival next network_delay reporting now =
    if next.contains_padding
    then ok (next.time + next.integration_delay + network_delay + reporting)
    else (do
      t ← sub_duration next.time next.integration_delay
      ok (max (t + network_delay + reporting) now))

module _ {Fw Bins Rng : Type 0} (env : Env Fw Bins Rng) where
  unfoldable pub send_tunnel : SimEvent → SimState Fw Bins → Net → ℕ → Rng → Outcome (Net × Rng)
  send_tunnel next recipient (sq, network) now rng = do
    delay ← reporting_delay env recipient rng
    let (network_delay, n) = congest next (sq, network) now
    reported ← arrival next network_delay delay.0 now
    ok ((push_sim (tunnel_recv_of next reported delay.0) sq, n), delay.1)

  network_event :
      TriggerEvent
      → SimEvent
      → SimState Fw Bins
      → SimState Fw Bins
      → Net
      → ℕ
      → Rng
      → Outcome (Bool × Net × Rng)
  network_event TriggerEvent.normal_sent next state recipient (sq, network) now rng =
      ok (false, (push_sim (tunnel_sent_of next false false false) sq, network), rng)
  network_event (TriggerEvent.padding_sent m) next state recipient net now rng = do
    net' ← send_padding next state.blocking_bypassable net now
    ok (false, net', rng)
  network_event TriggerEvent.tunnel_sent next state recipient net now rng = do
    r ← send_tunnel next recipient net now rng
    ok (true, r.0, r.1)
  network_event TriggerEvent.tunnel_recv next state recipient (sq, network) now rng =
      let event =
        if next.contains_padding then TriggerEvent.padding_recv else TriggerEvent.normal_recv in
      let sq' =
        SimQueue.push event next.client next.contains_padding next.time next.integration_delay sq in
      ok (true, (sq', network), rng)
  network_event _ next state recipient net now rng = ok (false, net, rng)

  -- Whether there was network activity, and what the event leaves.
  unfoldable pub sim_network_stack :
      SimEvent → SimState Fw Bins → SimState Fw Bins → Net → ℕ → Rng → Outcome (Bool × Net × Rng)
  unfolding network_event
  sim_network_stack next state recipient net now rng =
      network_event next.event next state recipient net now rng
