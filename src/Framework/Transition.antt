-- ===== src/Framework/Transition.antt =====
-- `transition`, `update_counter`, `schedule_action` and `decrement_limit` of
-- crates/maybenot/src/framework.rs. `transition` and `update_counter` call each other: the one takes
-- fuel, and the other the calls of it.
use maybenot_simv.Base.{
  ℕ, zero, suc, ◌+◌, ◌-◌, Bool, true, false, not, ◌&&◌, ◌||◌, List, Option, none, some,
  if◌then◌else◌, ◌==◌, set, min,
}
use maybenot_simv.Outcome.{Outcome, ok, out_of_fuel, ◌>>=◌}
use maybenot_simv.Event.{Event, TriggerAction}
use maybenot_simv.QueuePeek.{is_some}
use maybenot_simv.Platform.{Platform, u64_max}
use maybenot_simv.Action.{
  Action, Counter, Operation, has_limit, state_limit_max, sample_timeout, sample_duration,
  sample_limit, sample_value,
}
use maybenot_simv.State.{state_end, state_signal, sample_state}
use maybenot_simv.Machine.{Machine}
use maybenot_simv.Framework.{
  Core, MachineRuntime, StateChange, SignalTarget, changed, unchanged, at, from_micros,
  below_action_limits,
}

module _ {F64 Rng : Type 0} where
  abbrev pub set_runtime : ℕ → MachineRuntime → Core F64 Rng → Core F64 Rng
  set_runtime mi r c = record c { runtime = set c.runtime mi r }

  abbrev pub set_action : ℕ → Option TriggerAction → Core F64 Rng → Core F64 Rng
  set_action mi a c = record c { actions = set c.actions mi a }

  -- A sample with the generator of the framework.
  abbrev pub drawing {ℓ} :
      {A : Type ℓ} → (Rng → Outcome (A × Rng)) → Core F64 Rng → Outcome (A × Core F64 Rng)
  drawing draw c = do (value, rng') ← draw c.rng; ok (value, record c { rng = rng' })

-- The counter after the operation; `saturating_add` and `saturating_sub` on `u64`.
abbrev pub operate : Operation → ℕ → ℕ → ℕ
operate Operation.increment value change = min (value + change) u64_max
operate Operation.decrement value change = value - change
operate Operation.set value change = change

-- The value was zeroed, and for the first time since the flag was reset.
abbrev pub zeroed : ℕ → ℕ → Bool → Bool
zeroed old_value value flag = not (old_value == 0) && (value == 0 && not flag)

-- The state of a machine signals: the others, or all if there is a signal already.
abbrev pub signal : ℕ → Option SignalTarget → Option SignalTarget
signal mi none = some (SignalTarget.all_except mi)
signal mi (some target) = some SignalTarget.all

-- `actions[mi].is_none()`
abbrev pub is_none {ℓ} : {A : Type ℓ} → Option A → Bool
is_none o = not (is_some o)

abbrev pub is_changed : StateChange → Bool
is_changed changed = true
is_changed unchanged = false

abbrev pub change_if : Bool → StateChange
change_if b = if b then changed else unchanged

module _ {F64 F32 Rng : Type 0} (pl : Platform F64 F32 Rng) where
  unfoldable pub trigger_action :
      ℕ → Option (Action F64) → Rng → Outcome (Option TriggerAction × Rng)
  trigger_action mi none rng = ok (none, rng)
  trigger_action mi (some (Action.cancel timer)) rng =
      ok (some (TriggerAction.cancel mi timer), rng)
  trigger_action mi (some (Action.send_padding bypass replace timeout limit)) rng = do
    (t, rng') ← sample_timeout pl (Action.send_padding bypass replace timeout limit) rng
    ok (some (TriggerAction.send_padding (from_micros t) bypass replace mi), rng')
  trigger_action mi (some (Action.block_outgoing bypass replace timeout duration limit)) rng = do
    (t, rng') ← sample_timeout pl (Action.block_outgoing bypass replace timeout duration limit) rng
    (d, rng'') ←
        sample_duration pl (Action.block_outgoing bypass replace timeout duration limit) rng'
    ok (
      some (TriggerAction.block_outgoing (from_micros t) (from_micros d) bypass replace mi),
      rng'',
    )
  trigger_action mi (some (Action.update_timer replace duration limit)) rng = do
    (d, rng') ← sample_duration pl (Action.update_timer replace duration limit) rng
    ok (some (TriggerAction.update_timer (from_micros d) replace mi), rng')

  unfoldable pub schedule_action : Machine F64 F32 → ℕ → ℕ → Core F64 Rng → Outcome (Core F64 Rng)
  schedule_action m mi state c = do
    s ← at m.states state
    (action, c') ← drawing (trigger_action mi s.action) c
    ok (set_action mi action c')

  -- The limit of a state that is entered.
  abbrev pub sample_state_limit : Option (Action F64) → Rng → Outcome (ℕ × Rng)
  sample_state_limit none rng = ok (state_limit_max, rng)
  sample_state_limit (some action) rng = sample_limit pl action rng

  unfoldable pub enter_state :
      Machine F64 F32 → ℕ → MachineRuntime → ℕ → Core F64 Rng → Outcome (Core F64 Rng)
  enter_state m mi r next_state c = if r.current_state == next_state then ok c else (do
    s ← at m.states next_state
    (limit, c') ← drawing (sample_state_limit s.action) c
    ok (set_runtime mi (record r { current_state = next_state; state_limit = limit }) c'))

  -- What a counter is updated by: the other counter's old value, or a sample.
  abbrev pub change_of : Counter F64 → ℕ → Rng → Outcome (ℕ × Rng)
  change_of counter other rng =
      if counter.copy then ok (other, rng) else sample_value pl counter rng

  -- Counter A, and whether it was zeroed for the first time.
  unfoldable pub update_a :
      ℕ → Option (Counter F64) → MachineRuntime → Core F64 Rng → Outcome (Bool × Core F64 Rng)
  update_a mi none old c = ok (false, c)
  update_a mi (some counter) old c = do
    (change, c') ← drawing (change_of counter old.counter_b) c
    r ← at c'.runtime mi
    let value = operate counter.operation r.counter_a change
    let once = zeroed old.counter_a value c'.counter_zeroed_once.0
    ok (
      once,
      record (set_runtime mi (record r { counter_a = value }) c') {
        counter_zeroed_once = (c'.counter_zeroed_once.0 || once, c'.counter_zeroed_once.1);
      },
    )

  unfoldable pub update_b :
      ℕ → Option (Counter F64) → MachineRuntime → Core F64 Rng → Outcome (Bool × Core F64 Rng)
  update_b mi none old c = ok (false, c)
  update_b mi (some counter) old c = do
    (change, c') ← drawing (change_of counter old.counter_a) c
    r ← at c'.runtime mi
    let value = operate counter.operation r.counter_b change
    let once = zeroed old.counter_b value c'.counter_zeroed_once.1
    ok (
      once,
      record (set_runtime mi (record r { counter_b = value }) c') {
        counter_zeroed_once = (c'.counter_zeroed_once.0, c'.counter_zeroed_once.1 || once);
      },
    )

-- The calls of `transition`, by machine and event.
abbrev pub Calls : Type 0 → Type 0 → Type 0
Calls F64 Rng = ℕ → Event → Core F64 Rng → Outcome (StateChange × Core F64 Rng)

module _ {F64 F32 Rng : Type 0} (pl : Platform F64 F32 Rng) (call : Calls F64 Rng) where
  -- May an action be scheduled, and did the state change?
  abbrev pub after_zero : ℕ → Bool → Core F64 Rng → Outcome ((Bool × Bool) × Core F64 Rng)
  after_zero mi false c = ok ((true, false), c)
  after_zero mi true c = do
    (change, c') ← call mi Event.counter_zero c
    action ← at c'.actions mi
    ok ((is_none action, is_changed change), c')

  unfoldable pub update_counter :
      Machine F64 F32 → ℕ → Core F64 Rng → Outcome ((Bool × Bool) × Core F64 Rng)
  update_counter m mi c = do
    r ← at c.runtime mi
    s ← at m.states r.current_state
    (zeroed_a, c1) ← update_a pl mi s.counter.0 r c
    (zeroed_b, c2) ← update_b pl mi s.counter.1 r c1
    after_zero mi (zeroed_a || zeroed_b) c2

  abbrev pub schedule_if : Bool → Machine F64 F32 → ℕ → ℕ → Core F64 Rng → Outcome (Core F64 Rng)
  schedule_if false m mi next_state c = ok c
  schedule_if true m mi next_state c = schedule_action pl m mi next_state c

  -- A transition to a state of the machine, the same or another.
  unfoldable pub to_state :
      Machine F64 F32 → ℕ → MachineRuntime → ℕ → Core F64 Rng → Outcome (StateChange × Core F64 Rng)
  to_state m mi r next_state c = do
    c1 ← enter_state pl m mi r next_state c
    r1 ← at c1.runtime mi
    below_limits ← below_action_limits pl c1 r1 m
    (counter, c2) ← update_counter m mi c1
    c3 ← schedule_if (counter.0 && below_limits) m mi next_state c2
    r3 ← at c3.runtime mi
    ok (change_if (not (r.current_state == r3.current_state) || counter.1), c3)

  -- `match next_state { … }`
  unfoldable pub act_on :
      Machine F64 F32
      → ℕ
      → MachineRuntime
      → Option ℕ
      → Core F64 Rng
      → Outcome (StateChange × Core F64 Rng)
  act_on m mi r none c = ok (unchanged, c)
  act_on m mi r (some next_state) c =
      if next_state == state_end
      then ok (changed, set_runtime mi (record r { current_state = state_end }) c)
      else if next_state == state_signal
      then ok (unchanged, record c { signal_pending = signal mi c.signal_pending })
      else to_state m mi r next_state c

  unfoldable pub transition_step :
      List (Machine F64 F32) → ℕ → Event → Core F64 Rng → Outcome (StateChange × Core F64 Rng)
  transition_step machines mi event c = at c.runtime mi >>= λ r.
      if r.current_state == state_end then ok (unchanged, c) else (do
        m ← at machines mi
        s ← at m.states r.current_state
        (next_state, c') ← drawing (sample_state pl s event) c
        act_on m mi r next_state c')

module _ {F64 F32 Rng : Type 0} (pl : Platform F64 F32 Rng)
    (machines : List (Machine F64 F32)) where
  unfoldable pub transition : ℕ → Calls F64 Rng
  transition zero mi event c = out_of_fuel
  transition (suc fuel) mi event c = transition_step pl (transition fuel) machines mi event c

  -- A counter is zeroed at most twice in a call of `trigger_events`.
  abbrev pub transit : Calls F64 Rng
  transit = transition 3

  abbrev pub limit_reached : ℕ → Bool → Core F64 Rng → Outcome (Core F64 Rng)
  limit_reached mi false c = ok c
  limit_reached mi true c = do
    (change, c') ← transit mi Event.limit_reached (set_action mi none c)
    ok c'

  -- Is there an action with a limit?
  abbrev pub is_limited : Option (Action F64) → Bool
  is_limited none = false
  is_limited (some action) = has_limit action

  unfoldable pub decrement_limit : ℕ → Core F64 Rng → Outcome (Core F64 Rng)
  decrement_limit mi c = do
    r ← at c.runtime mi
    m ← at machines mi
    s ← at m.states r.current_state
    limit_reached mi (r.state_limit - 1 == 0 && is_limited s.action)
        (set_runtime mi (record r { state_limit = r.state_limit - 1 }) c)
