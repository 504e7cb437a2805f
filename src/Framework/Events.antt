-- ===== src/Framework/Events.antt =====
-- `process_event` and `trigger_events` of crates/maybenot/src/framework.rs.
use maybenot_simv.Base.{
  ℕ, zero, suc, ◌+◌, Bool, true, false, not, ◌&&◌, List, [], ◌∷◌, Option, none, some, if◌then◌else◌,
  leb, ◌==◌, length, replicate,
}
use maybenot_simv.Outcome.{Outcome, ok, ◌>>=◌}
use maybenot_simv.Event.{Event, TriggerEvent, TriggerAction}
use maybenot_simv.SimEvent.{duration_since}
use maybenot_simv.Platform.{Platform}
use maybenot_simv.State.{state_end}
use maybenot_simv.Machine.{Machine}
use maybenot_simv.Framework.{Core, Framework, MachineRuntime, SignalTarget, at, ◌+u64◌}
use maybenot_simv.Framework.Transition.{set_runtime, is_changed, transit, decrement_limit}

abbrev pub count_normal : MachineRuntime → MachineRuntime
count_normal r = record r { normal_sent = r.normal_sent +u64 1 }

abbrev pub count_padding : MachineRuntime → MachineRuntime
count_padding r = record r { padding_sent = r.padding_sent +u64 1 }

abbrev pub count_blocked : ℕ → MachineRuntime → MachineRuntime
count_blocked blocked r = record r { blocking_duration = r.blocking_duration + blocked }

module _ {F64 Rng : Type 0} where
  -- `for mi in from..from + n { … }`
  unfoldable pub for_machines :
      ℕ → ℕ → (ℕ → Core F64 Rng → Outcome (Core F64 Rng)) → Core F64 Rng → Outcome (Core F64 Rng)
  for_machines zero from body c = ok c
  for_machines (suc n) from body c = body from c >>= for_machines n (suc from) body

  abbrev pub all_machines :
      (ℕ → Core F64 Rng → Outcome (Core F64 Rng)) → Core F64 Rng → Outcome (Core F64 Rng)
  all_machines body c = for_machines (length c.runtime) 0 body c

  unfoldable pub account :
      (MachineRuntime → MachineRuntime) → ℕ → Core F64 Rng → Outcome (Core F64 Rng)
  account count mi c = do r ← at c.runtime mi; ok (set_runtime mi (count r) c)

  abbrev pub begin_blocking : Core F64 Rng → Core F64 Rng
  begin_blocking c =
      if c.blocking_active
      then c
      else record c { blocking_active = true; blocking_started = c.current_time }

  abbrev pub drop_signal : Core F64 Rng → Core F64 Rng
  drop_signal c = record c { signal_pending = none }

  abbrev pub reset : ℕ → Core F64 Rng → Core F64 Rng
  reset current_time c = record c {
    actions = replicate (length c.actions) none;
    counter_zeroed_once = (false, false);
    current_time = current_time;
  }

  -- How long the blocking that ends was active.
  abbrev pub blocked_for : Core F64 Rng → ℕ
  blocked_for c = if c.blocking_active then duration_since c.current_time c.blocking_started else 0

  abbrev pub end_blocking : Core F64 Rng → Core F64 Rng
  end_blocking c = record c {
    blocking_duration = c.blocking_duration + blocked_for c;
    blocking_active = false;
  }

module _ {F64 F32 Rng : Type 0} (pl : Platform F64 F32 Rng)
    (machines : List (Machine F64 F32)) where
  -- The result of the transition is not looked at.
  unfoldable pub transit_only : Event → ℕ → Core F64 Rng → Outcome (Core F64 Rng)
  transit_only event mi c = do (change, c') ← transit pl machines mi event c; ok c'

  abbrev pub decrement_if : Bool → ℕ → Core F64 Rng → Outcome (Core F64 Rng)
  decrement_if false mi c = ok c
  decrement_if true mi c = decrement_limit pl machines mi c

  -- The limit counts when the state did not change, `own` holds and the machine has not ended.
  unfoldable pub transit_and_decrement :
      Event → (ℕ → Bool) → ℕ → Core F64 Rng → Outcome (Core F64 Rng)
  transit_and_decrement event own mi c = do
    (change, c') ← transit pl machines mi event c
    r ← at c'.runtime mi
    decrement_if (not (is_changed change) && (not (r.current_state == state_end) && own mi)) mi c'

  -- `if mi >= self.runtime.len() { return; }`
  abbrev pub if_machine :
      ℕ → (ℕ → Core F64 Rng → Outcome (Core F64 Rng)) → Core F64 Rng → Outcome (Core F64 Rng)
  if_machine mi body c = if leb (length c.runtime) mi then ok c else body mi c

  abbrev pub both :
      (ℕ → Core F64 Rng → Outcome (Core F64 Rng))
      → (ℕ → Core F64 Rng → Outcome (Core F64 Rng))
      → ℕ
      → Core F64 Rng
      → Outcome (Core F64 Rng)
  both first then_do mi c = first mi c >>= then_do mi

  unfoldable pub process_event : TriggerEvent → Core F64 Rng → Outcome (Core F64 Rng)
  process_event TriggerEvent.normal_recv c = all_machines (transit_only Event.normal_recv) c
  process_event TriggerEvent.padding_recv c = all_machines (transit_only Event.padding_recv) c
  process_event TriggerEvent.tunnel_recv c = all_machines (transit_only Event.tunnel_recv) c
  process_event TriggerEvent.normal_sent c =
      all_machines (both (account count_normal) (transit_only Event.normal_sent))
        (record c { normal_sent_packets = c.normal_sent_packets +u64 1 })
  process_event (TriggerEvent.padding_sent machine) c =
      if_machine machine
        (both (account count_padding) (transit_and_decrement Event.padding_sent (λ mi. true)))
        (record c { padding_sent_packets = c.padding_sent_packets +u64 1 })
  process_event TriggerEvent.tunnel_sent c = all_machines (transit_only Event.tunnel_sent) c
  process_event (TriggerEvent.blocking_begin machine) c =
      all_machines (transit_and_decrement Event.blocking_begin (λ mi. mi == machine))
        (begin_blocking c)
  process_event TriggerEvent.blocking_end c =
      all_machines
        (both (account (count_blocked (blocked_for c))) (transit_only Event.blocking_end))
        (end_blocking c)
  process_event (TriggerEvent.timer_begin machine) c =
      if_machine machine (transit_and_decrement Event.timer_begin (λ mi. true)) c
  process_event (TriggerEvent.timer_end machine) c =
      if_machine machine (transit_only Event.timer_end) c

  unfoldable pub process_events : List TriggerEvent → Core F64 Rng → Outcome (Core F64 Rng)
  process_events [] c = ok c
  process_events (e ∷ es) c = process_event e c >>= process_events es

  -- Signal the machine, unless it is the excluded one.
  abbrev pub signal_unless : ℕ → ℕ → Core F64 Rng → Outcome (Core F64 Rng)
  signal_unless excluded mi c = if excluded == mi then ok c else transit_only Event.signal mi c

  -- A signal that came up while the others were signalled reaches the excluded machine.
  abbrev pub signal_excluded : ℕ → Option SignalTarget → Core F64 Rng → Outcome (Core F64 Rng)
  signal_excluded excluded none c = ok c
  signal_excluded excluded (some target) c = transit_only Event.signal excluded c

  unfoldable pub signal_to : Option SignalTarget → Core F64 Rng → Outcome (Core F64 Rng)
  signal_to none c = ok c
  signal_to (some SignalTarget.all) c = do
    c' ← all_machines (transit_only Event.signal) c
    ok (drop_signal c')
  signal_to (some (SignalTarget.all_except excluded)) c = do
    c' ← all_machines (signal_unless excluded) c
    signal_excluded excluded c'.signal_pending (drop_signal c')

  unfoldable pub run_events : List TriggerEvent → ℕ → Core F64 Rng → Outcome (Core F64 Rng)
  run_events events current_time c = do
    c' ← process_events events (reset current_time c)
    signal_to c'.signal_pending (drop_signal c')

-- `filter_map(|action| action.as_ref())`
unfoldable pub present {ℓ} : {A : Type ℓ} → List (Option A) → List A
present [] = []
present (none ∷ rest) = present rest
present (some a ∷ rest) = a ∷ present rest

module _ {F64 F32 Rng : Type 0} (pl : Platform F64 F32 Rng) where
  unfoldable pub trigger_events :
      Framework F64 F32 Rng
      → List TriggerEvent
      → ℕ
      → Outcome (List TriggerAction × Framework F64 F32 Rng)
  trigger_events f events current_time = do
    c ← run_events pl f.machines events current_time f.core
    ok (present c.actions, record f { core = c })
