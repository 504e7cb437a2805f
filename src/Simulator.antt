-- ===== src/Simulator.antt =====
-- `sim_advanced` of crates/maybenot-simulator/src/lib.rs: the main loop, the recorded trace and its
-- order. The two frameworks come with the world that the loop starts from.
pub mod Trace
pub mod Sides
pub mod Returns
pub mod Ends
pub mod Start
pub mod Simulated
use maybenot_simv.Base.{
  ℕ, zero, suc, ◌+◌, ◌-◌, Bool, true, false, not, ◌&&◌, ◌||◌, List, [], ◌∷◌, ◌++◌, Option, none,
  some, if◌then◌else◌, ltb, leb, ◌==◌, length, max,
}
use maybenot_simv.Outcome.{Outcome, ok, panic, out_of_fuel, time_backwards, unwrap, ◌>>=◌}
use maybenot_simv.Event.{TriggerEvent}
use maybenot_simv.SimEvent.{SimEvent}
use maybenot_simv.SimQueue
use maybenot_simv.SimQueue.{SimQueue}
use maybenot_simv.SimState.{Env, SimState}
use maybenot_simv.NetworkStack.{Net, sub_duration, sim_network_stack}
use maybenot_simv.TriggerUpdate.{trigger_update}
use maybenot_simv.PickNext.{World, pick_next, pending_work, side_state}

-- The fields of `SimulatorArgs` that the loop reads.
pub record SimulatorArgs : Type 0 where
  pub max_trace_length : ℕ
  pub max_sim_iterations : ℕ
  pub continue_after_all_normal_packets_processed : Bool
  pub only_client_events : Bool
  pub only_network_activity : Bool

-- The time of the event on the wire, without the integration delays.
adjusted_time : TriggerEvent → SimEvent → Outcome ℕ
adjusted_time TriggerEvent.normal_sent e = sub_duration e.time e.integration_delay
adjusted_time (TriggerEvent.padding_sent m) e = ok (e.time + e.integration_delay)
adjusted_time TriggerEvent.tunnel_sent e =
    if e.contains_padding
    then ok (e.time + e.integration_delay)
    else sub_duration e.time e.integration_delay
adjusted_time TriggerEvent.tunnel_recv e = sub_duration e.time e.integration_delay
adjusted_time TriggerEvent.padding_recv e = sub_duration e.time e.integration_delay
adjusted_time TriggerEvent.normal_recv e = sub_duration e.time e.integration_delay
adjusted_time _ e = ok e.time

unfoldable pub adjust : SimEvent → Outcome SimEvent
unfolding adjusted_time
adjust e = do t ← adjusted_time e.event e; ok (record e { time = t })

unfoldable pub record_event :
    SimulatorArgs → Bool → SimEvent → List SimEvent → Outcome (List SimEvent)
record_event args network_activity next trace =
    if (not args.only_network_activity || network_activity)
      && (not args.only_client_events || next.client)
    then (do e ← adjust next; ok (trace ++ e ∷ []))
    else ok trace

-- The three reasons to leave the loop, after `iterations` rounds.
unfoldable pub should_stop : SimulatorArgs → List SimEvent → ℕ → SimQueue → Bool
should_stop args trace iterations sq =
    (ltb 0 args.max_trace_length && leb args.max_trace_length (length trace))
    || ((ltb 0 args.max_sim_iterations && leb args.max_sim_iterations iterations)
        || (not args.continue_after_all_normal_packets_processed && SimQueue.no_normal_packets sq))

-- `trace.sort_by(|a, b| a.time.cmp(&b.time))`, a stable sort.
unfoldable pub insert_by_time : SimEvent → List SimEvent → List SimEvent
insert_by_time e [] = e ∷ []
insert_by_time e (x ∷ xs) = if leb e.time x.time then e ∷ x ∷ xs else x ∷ insert_by_time e xs

unfoldable pub sort_by_time : List SimEvent → List SimEvent
sort_by_time [] = []
sort_by_time (e ∷ es) = insert_by_time e (sort_by_time es)

-- What a round of the loop leaves: the world, the time and the trace.
pub record Progress (Fw Bins Rng : Type 0) : Type 0 where
  pub world : World Fw Bins Rng
  pub now : ℕ
  pub trace : List SimEvent

module _ {Fw Bins Rng : Type 0} where
  abbrev pub with_side_state : World Fw Bins Rng → Bool → SimState Fw Bins → World Fw Bins Rng
  with_side_state w is_client s =
      if is_client then record w { client = s } else record w { server = s }

-- `next.time.cmp(&current_time)`: time must not go backwards.
unfoldable pub advance : SimEvent → ℕ → Outcome ℕ
advance next now = if ltb next.time now then panic time_backwards else ok next.time

module _ {Fw Bins Rng : Type 0} where
  -- The end of a round: the event is recorded.
  abbrev end_round :
      SimulatorArgs
      → SimEvent
      → World Fw Bins Rng
      → List SimEvent
      → ℕ
      → Bool × Net × Rng
      → (SimState Fw Bins × SimQueue) × Rng
      → Outcome (Progress Fw Bins Rng)
  end_round args next w trace now r t = do
    let w' = with_side_state w next.client t.0.0
    trace' ← record_event args r.0 next trace
    ok (record {
      world = record w' { sq = t.0.1; network = r.1.1; rng = t.1 };
      now = now;
      trace = trace';
    })

module _ {Fw Bins Rng : Type 0} (env : Env Fw Bins Rng) where
  -- The framework hears of the event after the network has.
  abbrev trigger_round :
      SimulatorArgs
      → SimEvent
      → World Fw Bins Rng
      → List SimEvent
      → ℕ
      → Bool × Net × Rng
      → Outcome (Progress Fw Bins Rng)
  trigger_round args next w trace now r =
      trigger_update env (side_state w next.client) next now r.1.0 next.client r.2
      >>= end_round args next w trace now r

  abbrev network_round :
      SimulatorArgs
      → SimEvent
      → World Fw Bins Rng
      → List SimEvent
      → ℕ
      → Outcome (Progress Fw Bins Rng)
  network_round args next w trace now =
      sim_network_stack env next (side_state w next.client) (side_state w (not next.client))
        (w.sq, w.network) now w.rng
      >>= trigger_round args next w trace now

  -- The body of the loop, up to the tests that leave it.
  unfoldable pub sim_round :
      SimulatorArgs
      → SimEvent
      → World Fw Bins Rng
      → ℕ
      → List SimEvent
      → Outcome (Progress Fw Bins Rng)
  sim_round args next w current_time trace =
      advance next current_time >>= network_round args next w trace

  -- The `while let` loop; `iterations` counts the rounds that are over.
  unfoldable pub sim_loop :
      ℕ → SimulatorArgs → World Fw Bins Rng → ℕ → List SimEvent → ℕ → Outcome (List SimEvent)
  sim_loop zero args w now trace iterations = out_of_fuel
  sim_loop (suc fuel) args w now trace iterations =
      elim (pick_next env (suc (pending_work w)) w now) [
        | panic b ↦ panic b
        | out_of_fuel ↦ out_of_fuel
        | ok (none, w') ↦ ok trace
        | ok (some next, w') ↦ elim (sim_round args next w' now trace) [
          | panic b ↦ panic b
          | out_of_fuel ↦ out_of_fuel
          | ok p ↦ elim (should_stop args p.trace (suc iterations) p.world.sq) [
            | true ↦ ok p.trace
            | false ↦ sim_loop fuel args p.world p.now p.trace (suc iterations)
          ]
        ]
      ]

  -- The loop from the time of the first event, and the sorted trace.
  unfoldable pub sim_advanced : ℕ → SimulatorArgs → World Fw Bins Rng → Outcome (List SimEvent)
  sim_advanced fuel args w = do
    start ← unwrap (SimQueue.get_first_time w.sq)
    trace ← sim_loop fuel args w start [] 0
    ok (sort_by_time trace)
