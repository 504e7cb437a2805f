-- ===== src/Tests/Machines.antt =====
-- The theorems on the framework at a platform of natural numbers, for a machine with one state that
-- pads when a packet is sent.
use maybenot_simv.Base.{
  ℕ, zero, suc, ◌+◌, ◌-◌, ◌/◌, min, max, true, false, List, [], ◌∷◌, Option, none, some, ◌≡◌, ◌≤◌,
  ◌↔◌, ◌⊎◌, inl, refl, arith, ltb, leb, ◌==◌,
}
use maybenot_simv.Outcome.{Outcome, ok, Returns}
use maybenot_simv.Event.{Event, TriggerEvent, to_usize}
use maybenot_simv.SimState.{SimState}
use maybenot_simv.Platform.{Platform}
use maybenot_simv.Verdict.{valid}
use maybenot_simv.Dist
use maybenot_simv.Dist.{Dist, DistType}
use maybenot_simv.Dist.Sampling.{Any, Laws, sample-Returns}
use maybenot_simv.Action
use maybenot_simv.Action.{Action}
use maybenot_simv.State
use maybenot_simv.State.{State, Trans}
use maybenot_simv.State.RoundTrip.{get_transitions-new}
use maybenot_simv.Machine
use maybenot_simv.Machine.{Machine}
use maybenot_simv.Machine.Nan.{validate_nan}
use maybenot_simv.Framework.{Framework, Core, MachineRuntime, ◌+u64◌, below_limit_padding}
use maybenot_simv.Framework.Events.{trigger_events}
use maybenot_simv.Framework.New.{new, validate_machines, validate_arguments}
use maybenot_simv.Framework.Returns.{IsRunning, Triggered, trigger_events-Triggered}
use maybenot_simv.Framework.Created.{IsCreated, new-IsCreated}
use maybenot_simv.Framework.Limits.{CountsNone, IsBelow, below_limit_padding_used}
use maybenot_simv.TriggerUpdate.{trigger_update}
use maybenot_simv.TriggerUpdate.Running.{SideIsReady, framework_env, trigger_update-SideIsReady}
use maybenot_simv.Simulator.Sides.{new_side, new_side-SideIsReady}
use maybenot_simv.Tests.{event_at, two_sides, two_sides-IsSided}

abbrev first_of : {Rng : Type 0} → (Rng → Rng) → ℕ → ℕ → Option (Rng → ℕ × Rng)
first_of next a b = some (λ rng. (a, next rng))

-- Numbers that are natural, and random numbers that a step changes.
abbrev pub platform_of : {Rng : Type 0} → (Rng → Rng) → Platform ℕ ℕ Rng
platform_of next = record {
  decimal = λ m e. m;
  lt = ltb;
  le = leb;
  eq = ◌==◌;
  add = ◌+◌;
  sub = ◌-◌;
  div = ◌/◌;
  max = max;
  min = min;
  round = λ a. a;
  is_nan = λ a. false;
  is_infinite = λ a. false;
  to_u64 = λ a. a;
  of_u64 = λ a. a;
  as_secs = λ a. a;
  zero32 = 0;
  one32 = 1;
  lt32 = ltb;
  le32 = leb;
  add32 = ◌+◌;
  gen_unit = λ rng. (0, next rng);
  gen_range = λ low high rng. ok (low, next rng);
  normal = first_of next;
  log_normal = first_of next;
  pareto = first_of next;
  weibull = first_of next;
  gamma = first_of next;
  beta = first_of next;
  skew_normal = λ a b c. first_of next a b;
  binomial = first_of next;
  geometric = λ a. first_of next a a;
  poisson = λ a. first_of next a a;
}

abbrev pub platform : Platform ℕ ℕ ℕ
platform = platform_of suc

ordered_lem : (a b : ℕ) → (a == b) ≡ false → ltb b a ≡ false → ltb a b ≡ true
ordered_lem a b h k = ground arith

pub platform_of-Laws : {Rng : Type 0} (next : Rng → Rng) → Laws (platform_of next)
platform_of-Laws next = record {
  ordered = λ a b _ _ h k. ordered_lem a b h k;
  in_range = λ low high rng _ _. tt;
}

pub platform-Laws : Laws platform
platform-Laws = platform_of-Laws suc

abbrev ten : Dist ℕ
ten = record { dist = DistType.uniform 10 10; start = 0; max = 0 }

-- The state is entered again when a packet or padding is sent.
abbrev again : Option (List (Trans ℕ))
again = some (record { state = 0; probability = 1 } ∷ [])

abbrev pub padding_state : State ℕ ℕ
padding_state = record {
  action = some (Action.send_padding false false ten (some ten));
  counter = (none, none);
  transitions =
      none ∷ none ∷ none ∷ again ∷ again ∷ none ∷ none ∷ none ∷ none ∷ none ∷ none ∷ none ∷ none
      ∷ [];
}

abbrev pub padding_machine : Machine ℕ ℕ
padding_machine = record {
  allowed_padding_packets = 3;
  max_padding_frac = 0;
  allowed_blocked_microsec = 0;
  max_blocking_frac = 0;
  states = padding_state ∷ [];
}

abbrev idle : MachineRuntime
idle = record {
  current_state = 0;
  state_limit = 0;
  padding_sent = 3;
  normal_sent = 0;
  blocking_duration = 0;
  machine_start = 0;
  allowed_blocked_microsec = 0;
  counter_a = 0;
  counter_b = 0;
}

abbrev pub core_of : {Rng : Type 0} → Rng → Core ℕ Rng
core_of rng = record {
  current_time = 0;
  rng = rng;
  actions = none ∷ [];
  runtime = idle ∷ [];
  max_padding_frac = 1;
  normal_sent_packets = 0;
  padding_sent_packets = 0;
  max_blocking_frac = 1;
  blocking_duration = 0;
  blocking_started = 0;
  blocking_active = false;
  signal_pending = none;
  counter_zeroed_once = (false, false);
  framework_start = 0;
}

abbrev core : Core ℕ ℕ
core = core_of 0

abbrev pub framework : Framework ℕ ℕ ℕ
framework = record { machines = padding_machine ∷ []; core = core }

pub padding_machine_valid : Machine.validate platform padding_machine ≡ valid
unfolding Machine.validate Machine.validate_states State.validate State.validate_all
    State.validate_trans State.contains Action.validate_action Dist.validate_type
padding_machine_valid = refl

pub framework-IsRunning : IsRunning platform framework
framework-IsRunning = record {
  sound = (record { validated = padding_machine_valid; all_events = (refl, tt) }, tt);
  valid = record { runs = (inl (omega arith), tt); owns = (tt, tt); places = refl; signal = tt };
  counting = (omega arith, omega arith);
}

trigger_events-Triggered_example :
    Returns
      (Triggered platform framework (TriggerEvent.normal_sent ∷ []))
      (trigger_events platform framework (TriggerEvent.normal_sent ∷ []) 5)
trigger_events-Triggered_example =
    trigger_events-Triggered platform platform-Laws framework (TriggerEvent.normal_sent ∷ []) 5
      framework-IsRunning

arguments_valid : validate_arguments platform (padding_machine ∷ []) 1 1 ≡ valid
unfolding Machine.validate Machine.validate_states State.validate State.validate_all
    State.validate_trans State.contains Action.validate_action Dist.validate_type validate_machines
arguments_valid = refl

new-IsCreated_example : Returns (IsCreated platform) (new platform (padding_machine ∷ []) 1 1 0 0)
new-IsCreated_example =
    new-IsCreated platform platform-Laws (padding_machine ∷ []) 1 1 0 0 ((refl, tt), tt)
      arguments_valid

new_side-SideIsReady_example :
    Returns
      (λ s. SideIsReady {Bins = ℕ} platform (s, two_sides))
      (new_side platform (padding_machine ∷ []) 0 1 1 none 0)
new_side-SideIsReady_example =
    new_side-SideIsReady platform platform-Laws (padding_machine ∷ []) 0 1 1 none 0 two_sides
      two_sides-IsSided ((refl, tt), tt) arguments_valid

sample-Returns_example : Returns Any (Dist.sample platform ten 0)
unfolding Dist.validate_type
sample-Returns_example = sample-Returns platform platform-Laws ten 0 refl

abbrev one_side : SimState (Framework ℕ ℕ ℕ) ℕ
one_side = record {
  framework = framework;
  scheduled_action = none ∷ [];
  scheduled_internal_timer = none ∷ [];
  blocking_until = none;
  blocking_bypassable = false;
  integration = some (record { action_delay = 1; reporting_delay = 2; trigger_delay = 3 });
}

abbrev pub draw : ℕ → ℕ → Outcome (ℕ × ℕ)
draw bins rng = ok (bins, suc rng)

trigger_update-SideIsReady_example :
    Returns
      (λ r. SideIsReady platform r.0 × (r.0.0.integration ≡ one_side.integration))
      (trigger_update
        (framework_env platform draw)
        one_side
        (event_at TriggerEvent.normal_sent 7 true)
        7
        two_sides
        true
        0)
trigger_update-SideIsReady_example =
    trigger_update-SideIsReady platform platform-Laws draw one_side
      (event_at TriggerEvent.normal_sent 7 true) 7 two_sides true 0
      ((λ rng. tt), (λ rng. tt), (λ rng. tt))
      (record {
        running = framework-IsRunning;
        fits = record {
          integration = refl;
          framework = refl;
          actions = refl;
          timers = refl;
          timed = (tt, tt);
          sided = two_sides-IsSided;
        };
      })

-- Nothing compares with anything.
abbrev incomparable : Platform ℕ ℕ ℕ
incomparable = record platform { lt = λ a b. false }

padding_machine_passes : Machine.validate incomparable padding_machine ≡ valid
unfolding Machine.validate Machine.validate_states State.validate State.validate_all
    State.validate_trans State.contains Action.validate_action Dist.validate_type
padding_machine_passes = refl

validate_nan_example :
    Machine.validate incomparable
      (record padding_machine { max_padding_frac = 17; max_blocking_frac = 17 })
    ≡ valid
validate_nan_example =
    validate_nan incomparable padding_machine 17 (λ x. refl) (λ x. refl) padding_machine_passes

below_limit_padding_used_example :
    (below_limit_padding platform core idle padding_machine ≡ true) ↔ (
      (padding_machine.allowed_padding_packets ≤ idle.padding_sent)
      × (CountsNone platform padding_machine.max_padding_frac
            (idle.normal_sent +u64 idle.padding_sent)
          ⊎ (IsBelow platform padding_machine.max_padding_frac idle.padding_sent
                (idle.normal_sent +u64 idle.padding_sent)
              × CountsNone platform core.max_padding_frac
                  (core.padding_sent_packets +u64 core.normal_sent_packets))))
below_limit_padding_used_example = below_limit_padding_used platform core idle padding_machine refl

abbrev event_at_index : ℕ → Event
event_at_index zero = Event.normal_recv
event_at_index (suc zero) = Event.padding_recv
event_at_index (suc (suc zero)) = Event.tunnel_recv
event_at_index (suc (suc (suc zero))) = Event.normal_sent
event_at_index (suc (suc (suc (suc zero)))) = Event.padding_sent
event_at_index (suc (suc (suc (suc (suc zero))))) = Event.tunnel_sent
event_at_index (suc (suc (suc (suc (suc (suc n)))))) = late n
  where
    late : ℕ → Event
    late zero = Event.blocking_begin
    late (suc zero) = Event.blocking_end
    late (suc (suc zero)) = Event.limit_reached
    late (suc (suc (suc zero))) = Event.counter_zero
    late (suc (suc (suc (suc zero)))) = Event.timer_begin
    late (suc (suc (suc (suc (suc zero))))) = Event.timer_end
    late (suc (suc (suc (suc (suc (suc n)))))) = Event.signal

event_at_index-to_usize : (e : Event) → event_at_index (to_usize e) ≡ e
event_at_index-to_usize Event.normal_recv = refl
event_at_index-to_usize _ = refl

abbrev on_sent : Event → List (Trans ℕ)
on_sent Event.padding_sent = record { state = 0; probability = 1 } ∷ []
on_sent _ = []

get_transitions-new_example :
    State.get_transitions event_at_index (State.new {F64 = ℕ} on_sent) Event.padding_sent
    ≡ record { state = 0; probability = 1 } ∷ []
get_transitions-new_example =
    get_transitions-new on_sent event_at_index event_at_index-to_usize ℕ Event.padding_sent
