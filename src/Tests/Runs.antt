-- ===== src/Tests/Runs.antt =====
-- Runs of the simulator on the worlds of the parent, and the theorems on its results.
use maybenot_simv.Base.{ℕ, ◌≤◌, true, List, [], ◌∷◌, none, some, ◌≡◌, ◌≢◌, ◌<◌, refl, arith, length}
use maybenot_simv.Outcome.{ok}
use maybenot_simv.Event.{TriggerEvent}
use maybenot_simv.BinaryHeap
use maybenot_simv.SimEvent
use maybenot_simv.EventQueue
use maybenot_simv.SimQueue
use maybenot_simv.SimState
use maybenot_simv.QueuePeek
use maybenot_simv.Delay
use maybenot_simv.Network
use maybenot_simv.NetworkStack
use maybenot_simv.Timers
use maybenot_simv.TriggerUpdate
use maybenot_simv.PickNext
use maybenot_simv.Simulator
use maybenot_simv.SimEvent.{SimEvent, duration_max}
use maybenot_simv.EventQueue.{Queue}
use maybenot_simv.EventQueue.Peek.{front}
use maybenot_simv.SimQueue.{side}
use maybenot_simv.QueuePeek.{peek_queue}
use maybenot_simv.QueuePeek.Points.{peek_queue-front}
use maybenot_simv.PickNext.{World, Round, again, pick_next, pick_round, pending_work, count_set}
use maybenot_simv.PickNext.Time.{pick_next-le}
use maybenot_simv.PickNext.Termination.{pick_round_work}
use maybenot_simv.Simulator.{SimulatorArgs, sim_advanced}
use maybenot_simv.Simulator.Trace.{sim_advanced-length}
use maybenot_simv.Tests.{
  event_at, two_sides, client_state, server_state, quiet_env, start, bottleneck, client_queue,
  two_sides-IsSided,
}

looked : peek_queue two_sides client_state server_state 0 0 30 0 ≡ ok (10, Queue.base, true)
unfolding BinaryHeap.push SimEvent.event_to_usize EventQueue.len EventQueue.no_normal_packets
    EventQueue.push EventQueue.before EventQueue.peek_rest EventQueue.peek EventQueue.pop
    EventQueue.peek_non_blocking SimQueue.len SimQueue.push_sim SimQueue.peek_sides SimQueue.peek
    SimQueue.pop SimQueue.peek_blocking SimQueue.pop_blocking SimQueue.peek_non_blocking
    SimQueue.get_first_time SimState.reporting_delay SimState.action_delay SimState.trigger_delay
    QueuePeek.earliest_of QueuePeek.peek_queue_earliest_side QueuePeek.not_blocked
    QueuePeek.peek_queue QueuePeek.earliest_from QueuePeek.peek_scheduled_action
    QueuePeek.peek_scheduled_internal_timer QueuePeek.peek_blocked_exp Delay.tail_of
    Delay.base_within Delay.agg_delay_on_blocking_expire Delay.any_adjacent
    Delay.agg_delay_on_padding_bypass_replace Delay.should_delayed_packet_prop_agg_delay Network.new
    Network.prune Network.add Network.sample Network.peek_aggregate_delay Network.effect_at_client
    Network.effect_at_server Network.push_aggregate_delay Network.pop_aggregate_delay
    Timers.take_timer Timers.take_action Timers.do_internal_timer Timers.start_blocking
    Timers.perform Timers.do_scheduled_action PickNext.nothing_left PickNext.delay_first
    PickNext.expiry_first PickNext.queue_first PickNext.timer_first PickNext.count_set
    PickNext.look_at_queue PickNext.delay_for PickNext.delay_on_expiry PickNext.pick_from_queue
    PickNext.fire_timer PickNext.expire_blocking PickNext.fire_action PickNext.choose
    PickNext.pick_round PickNext.pick_next
looked = refl

-- The pending aggregate delay has moved the client's packet from 10 to 13.
abbrev delayed_packet : SimEvent
delayed_packet = event_at TriggerEvent.normal_sent 13 true

abbrev delayed : World ℕ ℕ ℕ
delayed = record start {
  network = record bottleneck { client_aggregate_base_delay = 3; aggregate_delay_queue = [] };
}

abbrev after_pick : World ℕ ℕ ℕ
after_pick = record delayed { sq = record two_sides { client = record client_queue { base = [] } } }

rounded : pick_round quiet_env start 0 ≡ ok (again delayed)
unfolding BinaryHeap.push SimEvent.event_to_usize EventQueue.len EventQueue.no_normal_packets
    EventQueue.push EventQueue.before EventQueue.peek_rest EventQueue.peek EventQueue.pop
    EventQueue.peek_non_blocking SimQueue.len SimQueue.push_sim SimQueue.peek_sides SimQueue.peek
    SimQueue.pop SimQueue.peek_blocking SimQueue.pop_blocking SimQueue.peek_non_blocking
    SimQueue.get_first_time SimState.reporting_delay SimState.action_delay SimState.trigger_delay
    QueuePeek.earliest_of QueuePeek.peek_queue_earliest_side QueuePeek.not_blocked
    QueuePeek.peek_queue QueuePeek.earliest_from QueuePeek.peek_scheduled_action
    QueuePeek.peek_scheduled_internal_timer QueuePeek.peek_blocked_exp Delay.tail_of
    Delay.base_within Delay.agg_delay_on_blocking_expire Delay.any_adjacent
    Delay.agg_delay_on_padding_bypass_replace Delay.should_delayed_packet_prop_agg_delay Network.new
    Network.prune Network.add Network.sample Network.peek_aggregate_delay Network.effect_at_client
    Network.effect_at_server Network.push_aggregate_delay Network.pop_aggregate_delay
    Timers.take_timer Timers.take_action Timers.do_internal_timer Timers.start_blocking
    Timers.perform Timers.do_scheduled_action PickNext.nothing_left PickNext.delay_first
    PickNext.expiry_first PickNext.queue_first PickNext.timer_first PickNext.count_set
    PickNext.look_at_queue PickNext.delay_for PickNext.delay_on_expiry PickNext.pick_from_queue
    PickNext.fire_timer PickNext.expire_blocking PickNext.fire_action PickNext.choose
    PickNext.pick_round PickNext.pick_next
rounded = refl

picked : pick_next quiet_env 20 start 0 ≡ ok (some delayed_packet, after_pick)
unfolding BinaryHeap.push SimEvent.event_to_usize EventQueue.len EventQueue.no_normal_packets
    EventQueue.push EventQueue.before EventQueue.peek_rest EventQueue.peek EventQueue.pop
    EventQueue.peek_non_blocking SimQueue.len SimQueue.push_sim SimQueue.peek_sides SimQueue.peek
    SimQueue.pop SimQueue.peek_blocking SimQueue.pop_blocking SimQueue.peek_non_blocking
    SimQueue.get_first_time SimState.reporting_delay SimState.action_delay SimState.trigger_delay
    QueuePeek.earliest_of QueuePeek.peek_queue_earliest_side QueuePeek.not_blocked
    QueuePeek.peek_queue QueuePeek.earliest_from QueuePeek.peek_scheduled_action
    QueuePeek.peek_scheduled_internal_timer QueuePeek.peek_blocked_exp Delay.tail_of
    Delay.base_within Delay.agg_delay_on_blocking_expire Delay.any_adjacent
    Delay.agg_delay_on_padding_bypass_replace Delay.should_delayed_packet_prop_agg_delay Network.new
    Network.prune Network.add Network.sample Network.peek_aggregate_delay Network.effect_at_client
    Network.effect_at_server Network.push_aggregate_delay Network.pop_aggregate_delay
    Timers.take_timer Timers.take_action Timers.do_internal_timer Timers.start_blocking
    Timers.perform Timers.do_scheduled_action PickNext.nothing_left PickNext.delay_first
    PickNext.expiry_first PickNext.queue_first PickNext.timer_first PickNext.count_set
    PickNext.look_at_queue PickNext.delay_for PickNext.delay_on_expiry PickNext.pick_from_queue
    PickNext.fire_timer PickNext.expire_blocking PickNext.fire_action PickNext.choose
    PickNext.pick_round PickNext.pick_next
picked = refl

abbrev arguments : SimulatorArgs
arguments = record {
  max_trace_length = 3;
  max_sim_iterations = 10;
  continue_after_all_normal_packets_processed = true;
  only_client_events = true;
  only_network_activity = true;
}

abbrev trace : List SimEvent
trace =
    event_at TriggerEvent.tunnel_sent 15 true
    ∷ event_at TriggerEvent.tunnel_sent 15 true
    ∷ record (event_at TriggerEvent.tunnel_sent 30 true) { contains_padding = true }
    ∷ []

simulated : sim_advanced quiet_env 20 arguments start ≡ ok trace
unfolding BinaryHeap.push SimEvent.event_to_usize EventQueue.len EventQueue.no_normal_packets
    EventQueue.push EventQueue.before EventQueue.peek_rest EventQueue.peek EventQueue.pop
    EventQueue.peek_non_blocking SimQueue.len SimQueue.push_sim SimQueue.peek_sides SimQueue.peek
    SimQueue.pop SimQueue.peek_blocking SimQueue.pop_blocking SimQueue.peek_non_blocking
    SimQueue.get_first_time SimState.reporting_delay SimState.action_delay SimState.trigger_delay
    QueuePeek.earliest_of QueuePeek.peek_queue_earliest_side QueuePeek.not_blocked
    QueuePeek.peek_queue QueuePeek.earliest_from QueuePeek.peek_scheduled_action
    QueuePeek.peek_scheduled_internal_timer QueuePeek.peek_blocked_exp Delay.tail_of
    Delay.base_within Delay.agg_delay_on_blocking_expire Delay.any_adjacent
    Delay.agg_delay_on_padding_bypass_replace Delay.should_delayed_packet_prop_agg_delay Network.new
    Network.prune Network.add Network.sample Network.peek_aggregate_delay Network.effect_at_client
    Network.effect_at_server Network.push_aggregate_delay Network.pop_aggregate_delay
    NetworkStack.sub_duration NetworkStack.may_replace NetworkStack.requeue_bypassable
    NetworkStack.replace_padding NetworkStack.send_padding NetworkStack.congest NetworkStack.arrival
    NetworkStack.send_tunnel NetworkStack.sim_network_stack Timers.take_timer Timers.take_action
    Timers.do_internal_timer Timers.start_blocking Timers.perform Timers.do_scheduled_action
    TriggerUpdate.put TriggerUpdate.cancel_action TriggerUpdate.cancel_timer TriggerUpdate.schedule
    TriggerUpdate.begin_timer TriggerUpdate.set_timer TriggerUpdate.take_up
    TriggerUpdate.take_up_all TriggerUpdate.trigger_update PickNext.nothing_left
    PickNext.delay_first PickNext.expiry_first PickNext.queue_first PickNext.timer_first
    PickNext.count_set PickNext.look_at_queue PickNext.delay_for PickNext.delay_on_expiry
    PickNext.pick_from_queue PickNext.fire_timer PickNext.expire_blocking PickNext.fire_action
    PickNext.choose PickNext.pick_round PickNext.pick_next Simulator.adjust Simulator.record_event
    Simulator.should_stop Simulator.insert_by_time Simulator.sort_by_time Simulator.advance
    Simulator.sim_round Simulator.sim_loop Simulator.sim_advanced
simulated = refl

peek_queue-front_example : front Queue.base (side two_sides true) ≢ none
peek_queue-front_example =
    peek_queue-front two_sides client_state server_state 0 0 30 0 10 Queue.base true
      two_sides-IsSided looked (omega arith)

pick_round_work_example : pending_work delayed < pending_work start
pick_round_work_example = pick_round_work quiet_env start delayed 0 rounded

pick_next-le_example : 0 ≤ 13
pick_next-le_example = pick_next-le quiet_env 20 start after_pick 0 delayed_packet picked

sim_advanced-length_example : length trace ≤ 3
sim_advanced-length_example =
    sim_advanced-length quiet_env 20 arguments start trace (omega arith) simulated
