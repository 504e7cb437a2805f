-- ===== src/Tests.antt =====
-- The theorems at concrete worlds: a client with a base packet, a blocked packet, a scheduled action
-- and a timer, and a server with a packet of its own.
pub mod Runs
pub mod Machines
pub mod Texts
pub mod Formats
pub mod Simulations
pub mod Integrations
use maybenot_simv.Base.{
  ℕ, zero, suc, ◌+◌, ◌≤◌, ◌<◌, Bool, true, false, List, [], ◌∷◌, ◌++◌, Option, none, some, ◌≡◌, ◌≢◌,
  ◌↔◌, refl, arith, inl, inr, All, length,
}
use maybenot_simv.Outcome.{Outcome, ok, Returns}
use maybenot_simv.Event.{TriggerEvent, TriggerAction}
use maybenot_simv.SimEvent.{SimEvent, sim_event_ord, duration_since, event_to_usize}
use maybenot_simv.EventQueue.{EventQueue, Queue}
use maybenot_simv.EventQueue
use maybenot_simv.EventQueue.Kinds.{IsWellFormed, push-IsWellFormed, popped}
use maybenot_simv.EventQueue.NormalPackets.{IsQuiet, no_normal_packets_iff}
use maybenot_simv.EventQueue.Peek.{taken, front, Earliest, peek-Earliest}
use maybenot_simv.EventQueue.Every.{Every}
use maybenot_simv.SimQueue.{SimQueue, push_sim}
use maybenot_simv.SimQueue
use maybenot_simv.SimQueue.Sides.{IsSided, StandsAt, push_sim-IsSided, peek-StandsAt}
use maybenot_simv.SimState.{Env, SimState, ScheduledAction}
use maybenot_simv.QueuePeek.{peek_queue, peek_scheduled_action, action_times}
use maybenot_simv.QueuePeek.Points.{peek_queue-front}
use maybenot_simv.QueuePeek.Due.{peek_scheduled_action-le}
use maybenot_simv.Delay.{agg_delay_on_blocking_expire, buffer_window, tail_of, base_within}
use maybenot_simv.Delay.Bounds.{agg_delay_on_blocking_expire_bounds}
use maybenot_simv.Network.{
  NetworkBottleneck, WindowCount, add, prune, push_aggregate_delay, pop_aggregate_delay,
}
use maybenot_simv.Network.Window.{within, add-within}
use maybenot_simv.Network.Aggregate.{total_delay, total_delay-pop, total_delay-push}
use maybenot_simv.PickNext.{World, Round, again, pick_next, pick_round, pending_work, count_set}
use maybenot_simv.PickNext.Time.{pick_next-le}
use maybenot_simv.PickNext.Termination.{pick_round_work}
use maybenot_simv.PickNext.Ready.{IsReady}
use maybenot_simv.PickNext.Total.{ResultIsReady, pick_next-total}

abbrev pub event_at : TriggerEvent → ℕ → Bool → SimEvent
event_at event time client = record {
  event = event;
  time = time;
  integration_delay = 0;
  client = client;
  contains_padding = false;
  bypass = false;
  replace = false;
}

abbrev client_packet : SimEvent
client_packet = event_at TriggerEvent.normal_sent 10 true

abbrev blocked_packet : SimEvent
blocked_packet = event_at TriggerEvent.tunnel_sent 5 true

abbrev server_packet : SimEvent
server_packet = event_at TriggerEvent.normal_sent 20 false

abbrev pub client_queue : EventQueue
client_queue = record {
  base = client_packet ∷ [];
  blocking = blocked_packet ∷ [];
  bypassable = [];
  internal = [];
}

abbrev server_queue : EventQueue
server_queue = record { base = server_packet ∷ []; blocking = []; bypassable = []; internal = [] }

abbrev pub two_sides : SimQueue
two_sides = record { client = client_queue; server = server_queue; max_pps = none }

abbrev padding : TriggerAction
padding = TriggerAction.send_padding 30 false false 0

abbrev pub client_state : SimState ℕ ℕ
client_state = record {
  framework = 0;
  scheduled_action = some (record { action = padding; time = 30 }) ∷ none ∷ [];
  scheduled_internal_timer = none ∷ some 40 ∷ [];
  blocking_until = some 15;
  blocking_bypassable = false;
  integration = none;
}

abbrev pub server_state : SimState ℕ ℕ
server_state = record {
  framework = 0;
  scheduled_action = [];
  scheduled_internal_timer = [];
  blocking_until = none;
  blocking_bypassable = false;
  integration = none;
}

abbrev pub bottleneck : NetworkBottleneck
bottleneck = record {
  client_aggregate_base_delay = 0;
  server_aggregate_base_delay = 0;
  aggregate_delay_queue = record { time = 7; delay = 3; client = true } ∷ [];
  network = record { delay = 100; pps = none };
  client_window = record { window = 1_000; timestamps = [] };
  server_window = record { window = 1_000; timestamps = [] };
  pps_added_delay = 0;
  pps_limit = 50;
}

-- A framework that asks for nothing, and delays that are the random numbers themselves.
abbrev pub quiet_env : Env ℕ ℕ ℕ
quiet_env = record {
  trigger_events = λ fw events now. ok ([], fw);
  sample = λ bins rng. ok (rng, suc rng);
}

abbrev pub start : World ℕ ℕ ℕ
start = record {
  sq = two_sides;
  client = client_state;
  server = server_state;
  network = bottleneck;
  rng = 0;
}

client_queue-IsWellFormed : IsWellFormed client_queue
client_queue-IsWellFormed = record {
  base_heap = (tt, tt);
  blocking_heap = (tt, tt);
  bypassable_heap = tt;
  internal_heap = tt;
  base_events = (refl, tt);
  blocking_events = ((refl, refl), tt);
  bypassable_events = tt;
  internal_events = tt;
}

pub two_sides-IsSided : IsSided two_sides
two_sides-IsSided = record {
  client = record { base = (refl, tt); blocking = (refl, tt); bypassable = tt; internal = tt };
  server = record { base = (refl, tt); blocking = tt; bypassable = tt; internal = tt };
}

start-IsReady : IsReady quiet_env start
start-IsReady = record {
  client = (tt, (tt, tt));
  server = tt;
  sided = two_sides-IsSided;
  client_integrates = tt;
  server_integrates = tt;
}

start-pending_work : pending_work start < 20
unfolding count_set
start-pending_work = omega arith

pick_next-total_example : Returns (ResultIsReady quiet_env) (pick_next quiet_env 20 start 0)
pick_next-total_example = pick_next-total quiet_env 20 start 0 start-pending_work start-IsReady

push-IsWellFormed_example : IsWellFormed (EventQueue.push blocked_packet client_queue)
push-IsWellFormed_example = push-IsWellFormed blocked_packet client_queue client_queue-IsWellFormed

no_normal_packets_iff_example : (EventQueue.no_normal_packets client_queue ≡ true) ↔ (
    (client_queue.base ≡ [])
    × (client_queue.blocking ≡ [])
    × (client_queue.bypassable ≡ [])
    × All IsQuiet client_queue.internal)
no_normal_packets_iff_example = no_normal_packets_iff client_queue client_queue-IsWellFormed

peek-Earliest_example :
    (e : SimEvent) × (id : Queue) × (EventQueue.peek client_queue 0 0
      ≡ ok (some e, id, duration_since (taken id 0 e).time 0))
    × (EventQueue.pop id 0 client_queue ≡ ok (some (taken id 0 e), popped id client_queue))
    × Earliest (taken id 0 e).time 0 client_queue
unfolding EventQueue.len
peek-Earliest_example = peek-Earliest client_queue 0 0 client_queue-IsWellFormed (λ e. cc)

push_sim-IsSided_example : IsSided (push_sim blocked_packet two_sides)
push_sim-IsSided_example = push_sim-IsSided blocked_packet two_sides two_sides-IsSided

two_sides-len : SimQueue.len two_sides ≢ 0
unfolding SimQueue.len EventQueue.len
two_sides-len e = cc

peek-StandsAt_example :
    (r : Option SimEvent × Queue × ℕ) × (SimQueue.peek two_sides 0 0 0 ≡ ok r)
    × StandsAt two_sides r
peek-StandsAt_example = peek-StandsAt two_sides 0 0 0 two_sides-IsSided two_sides-len

abbrev times : List ℕ
times = 10 ∷ 20 ∷ []

abbrev windowed : WindowCount
windowed = record { window = 15; timestamps = times }

add-within_example :
    ((add 30 windowed).1.timestamps ≡ within 15 30 (times ++ 30 ∷ []))
    × ((add 30 windowed).0 ≡ length (within 15 30 (times ++ 30 ∷ [])))
    × ((add 30 windowed).1.window ≡ 15)
add-within_example =
    add-within 30 windowed ((omega arith, tt), (tt, tt)) (omega arith, (omega arith, tt))

total_delay-pop_example :
    total_delay (pop_aggregate_delay bottleneck) true ≡ total_delay bottleneck true
total_delay-pop_example = total_delay-pop bottleneck true

total_delay-push_example :
    total_delay (push_aggregate_delay 5 40 false bottleneck) true ≡ total_delay bottleneck true + 5
total_delay-push_example = total_delay-push 5 40 false true bottleneck

-- Two packets that are held back from 2 and 5 on, at the end of a blocking at 9.
abbrev held_back : SimQueue
held_back = record {
  client = record {
    base = [];
    blocking = event_at TriggerEvent.tunnel_sent 2 true ∷ blocked_packet ∷ [];
    bypassable = [];
    internal = [];
  };
  server = server_queue;
  max_pps = none;
}

held_back_delay :
    agg_delay_on_blocking_expire held_back true 9 (event_at TriggerEvent.tunnel_sent 2 true) 0
    ≡ some 7
unfolding agg_delay_on_blocking_expire base_within tail_of
held_back_delay = refl

agg_delay_on_blocking_expire_bounds_example :
    (7 ≤ duration_since 9 2) × (duration_since 9 2 ≤ 7 + buffer_window)
agg_delay_on_blocking_expire_bounds_example =
    agg_delay_on_blocking_expire_bounds held_back true 9 (event_at TriggerEvent.tunnel_sent 2 true)
      0 7 (omega arith) held_back_delay

abbrev scheduled : List (Option ScheduledAction)
scheduled = client_state.scheduled_action

abbrev timers : List (Option ℕ)
timers = client_state.scheduled_internal_timer

peek_scheduled_action-le_example : peek_scheduled_action scheduled [] 0 ≤ duration_since 30 0
peek_scheduled_action-le_example =
    peek_scheduled_action-le scheduled [] 0 30 (omega arith) (inl (inl refl))
