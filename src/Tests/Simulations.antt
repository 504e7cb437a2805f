-- ===== src/Tests/Simulations.antt =====
-- A whole simulation of one packet with a padding machine on either side.
use maybenot_simv.Base.{ℕ, ◌≤◌, suc, true, false, List, [], ◌∷◌, none, some, ◌≡◌, refl, arith}
use maybenot_simv.Outcome.{ok, Returns, IfOk}
use maybenot_simv.Event.{TriggerEvent}
use maybenot_simv.BinaryHeap
use maybenot_simv.EventQueue
use maybenot_simv.SimQueue
use maybenot_simv.SimQueue.{SimQueue}
use maybenot_simv.Platform.{Platform}
use maybenot_simv.Verdict.{valid}
use maybenot_simv.Dist
use maybenot_simv.Action
use maybenot_simv.State
use maybenot_simv.Machine
use maybenot_simv.Machine.{Machine}
use maybenot_simv.Framework.New.{validate_machines, validate_arguments}
use maybenot_simv.Network
use maybenot_simv.Network.{Network}
use maybenot_simv.Text
use maybenot_simv.Text.{Bytes}
use maybenot_simv.TriggerUpdate.Running.{framework_env}
use maybenot_simv.ParseTrace
use maybenot_simv.ParseTrace.{parse_trace_advanced}
use maybenot_simv.SimState
use maybenot_simv.Simulator.Ends.{IsTrace}
use maybenot_simv.Simulator.Start.{RngSource, thread, xoshiro, Arguments, simulate}
use maybenot_simv.Simulator.Simulated.{AreValid, simulate-IsTrace}
use maybenot_simv.SimState.{Env, SimState, Integration}
use maybenot_simv.SimState.Samples.{CanSample, CanIntegrate}
use maybenot_simv.Integration
use maybenot_simv.Integration.{BinDist}
use maybenot_simv.Integration.Drawn.{sample-IsDrawn}
use maybenot_simv.Tests.Integrations
use maybenot_simv.Tests.Integrations.{delays, bounded, leading-SearchLaws, delays-IsDrawn}
use maybenot_simv.SimEvent.{SimEvent}
use maybenot_simv.EventQueue.{Queue}
use maybenot_simv.EventQueue.Every.{new-Every}
use maybenot_simv.SimQueue.Sides.{IsOf}
use maybenot_simv.SimQueue.Covered.{IsCoveredEvent}
use maybenot_simv.SimQueue.Blocked.{Takes, pop_blocking-peek_blocking}
use maybenot_simv.NetworkStack.{sim_network_stack}
use maybenot_simv.NetworkStack.Fits.{QueueFits, StackFits, sim_network_stack-StackFits}
use maybenot_simv.NetworkStack.Bounds.{InTime, IsInTime, StackInTime, sim_network_stack-StackInTime}
use maybenot_simv.Framework.{Framework}
use maybenot_simv.Tests.{event_at, bottleneck}
use maybenot_simv.Tests.Machines.{platform_of, platform_of-Laws, padding_machine, core_of}

abbrev step : RngSource ℕ ℕ → RngSource ℕ ℕ
step (thread n) = thread (suc n)
step (xoshiro n) = xoshiro (suc n)

abbrev platform : Platform ℕ ℕ (RngSource ℕ ℕ)
platform = platform_of step

-- The delays of an integration, which `BinDist::sample` draws.
abbrev integration : Integration (BinDist ℕ)
integration = record { action_delay = delays; reporting_delay = delays; trigger_delay = delays }

abbrev args : Arguments ℕ (BinDist ℕ)
args = record {
  network = record { delay = 100; pps = none };
  loop = record {
    max_trace_length = 0;
    max_sim_iterations = 8;
    continue_after_all_normal_packets_processed = true;
    only_client_events = true;
    only_network_activity = true;
  };
  max_padding_frac_client = 1;
  max_blocking_frac_client = 1;
  max_padding_frac_server = 1;
  max_blocking_frac_server = 1;
  insecure_rng_seed = some 17;
  client_integration = some integration;
  server_integration = some integration;
}

abbrev env : Env (Framework ℕ ℕ (RngSource ℕ ℕ)) (BinDist ℕ) ℕ
env = framework_env platform (Integration.sample bounded)

abbrev machines : List (Machine ℕ ℕ)
machines = padding_machine ∷ []

-- A packet that the client sends 5 ns after the start.
abbrev text : Bytes
text = b'5' ∷ b',' ∷ b's' ∷ []

abbrev parsed : SimQueue
parsed = record {
  client = record EventQueue.new {
    base =
        record (event_at TriggerEvent.normal_sent 1_001_005 true) { integration_delay = 1_000_000 }
        ∷ [];
  };
  server = EventQueue.new;
  max_pps = some 10;
}

text_is_read :
    parse_trace_advanced env args.network args.client_integration args.server_integration text 1000
      0
    ≡ ok (parsed, 2)
unfolding parse_trace_advanced ParseTrace.take_lines ParseTrace.take_parts ParseTrace.take_packet
    ParseTrace.direction_of Text.strip_return Text.lines_from Text.split Text.trim_start
    Text.trim_end Text.parse_digits Text.parse_u64 Text.is_equal Network.prune Network.add
    SimQueue.push_sim EventQueue.push BinaryHeap.push SimState.sample_or_zero Integration.sample
    Integration.comparisons Integration.sample_bin Integrations.leading
text_is_read = refl

machines_valid : validate_arguments platform machines 1 1 ≡ valid
unfolding Machine.validate Machine.validate_states State.validate State.validate_all
    State.validate_trans State.contains Action.validate_action Dist.validate_type validate_machines
machines_valid = refl

can_sample : CanSample env delays
can_sample rng = sample-IsDrawn bounded leading-SearchLaws delays delays-IsDrawn rng

can_integrate : CanIntegrate env (some integration)
can_integrate = (can_sample, can_sample, can_sample)

are_valid :
    AreValid platform
      (platform_of-Laws step)
      (Integration.sample bounded)
      0
      suc
      machines
      machines
      args
are_valid = record {
  client_arrays = ((refl, tt), tt);
  server_arrays = ((refl, tt), tt);
  client = machines_valid;
  server = machines_valid;
  client_integrates = can_integrate;
  server_integrates = can_integrate;
}

simulate-IsTrace_example :
    Returns
      (IsTrace args.loop)
      (simulate platform (Integration.sample bounded) 0 suc 8 machines machines parsed args 2)
unfolding SimQueue.get_first_time
simulate-IsTrace_example =
    simulate-IsTrace platform (platform_of-Laws step) (Integration.sample bounded) 0 suc machines
      machines args env args.network text 1000 0 (parsed, 2) 8 text_is_read are_valid (λ e. cc)
      (λ e. omega arith) (omega arith) (omega arith)

abbrev padding_side : SimState (Framework ℕ ℕ (RngSource ℕ ℕ)) (BinDist ℕ)
padding_side =
    SimState.new (record { machines = machines; core = core_of (xoshiro 17) }) 1 (some integration)

-- A packet that blocking holds back, and padding that may replace it.
abbrev blocked_packet : SimEvent
blocked_packet = event_at TriggerEvent.tunnel_sent 900 true

abbrev blocked : SimQueue
blocked = record {
  client = record EventQueue.new { blocking = blocked_packet ∷ [] };
  server = EventQueue.new;
  max_pps = none;
}

blocked-QueueFits : QueueFits blocked
blocked-QueueFits = record {
  sided = record {
    client = record { base = tt; blocking = (refl, tt); bypassable = tt; internal = tt };
    server = new-Every (IsOf false);
  };
  covered = record {
    client = record {
      base = tt;
      blocking = ((λ _. omega arith), tt);
      bypassable = tt;
      internal = tt;
    };
    server = new-Every IsCoveredEvent;
  };
}

abbrev replacing : SimEvent
replacing = record (event_at (TriggerEvent.padding_sent 0) 950 true) {
  contains_padding = true;
  bypass = true;
  replace = true;
}

sim_network_stack-StackFits_example :
    Returns
      (StackFits env)
      (sim_network_stack env replacing padding_side padding_side (blocked, bottleneck) 950 0)
sim_network_stack-StackFits_example =
    sim_network_stack-StackFits env replacing padding_side padding_side blocked bottleneck 950 0
      can_integrate tt blocked-QueueFits

pop_blocking-peek_blocking_example : Takes blocked true 3 blocked_packet true Queue.blocking
unfolding SimQueue.peek_blocking
pop_blocking-peek_blocking_example =
    pop_blocking-peek_blocking blocked true true 3 blocked_packet Queue.blocking refl

abbrev sent_packet : SimEvent
sent_packet = event_at TriggerEvent.tunnel_sent 950 true

reported : SimState.reporting_delay env padding_side 0 ≡ ok (1_000_000, 2)
unfolding SimState.reporting_delay Integration.sample Integration.comparisons Integration.sample_bin
    Integrations.leading
reported = refl

reported_soon : IfOk (λ d. d.0 ≤ 1_000_000) (SimState.reporting_delay env padding_side 0)
reported_soon = rw reported (omega arith)

blocked-IsInTime : IsInTime 2_000_000 blocked
blocked-IsInTime = record {
  client = record { base = tt; blocking = (omega arith, tt); bypassable = tt; internal = tt };
  server = new-Every (InTime 2_000_000);
}

sim_network_stack-StackInTime_example :
    IfOk
      (StackInTime 2_000_000 env)
      (sim_network_stack env sent_packet padding_side padding_side (blocked, bottleneck) 950 0)
sim_network_stack-StackInTime_example =
    sim_network_stack-StackInTime 2_000_000 env sent_packet padding_side padding_side blocked
      bottleneck 950 1_000_000 0 blocked-IsInTime (omega arith) (omega arith) reported_soon
