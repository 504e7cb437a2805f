-- ===== src/Framework.antt =====
-- crates/maybenot/src/framework.rs: the state of an instance of the framework, and the limits on
-- actions. The instance's machines never change and stand beside the state.
pub mod Transition
pub mod Events
pub mod New
pub mod Valid
pub mod Steps
pub mod Terminates
pub mod Total
pub mod Trigger
pub mod Returns
pub mod Created
pub mod Limits
use maybenot_simv.Base.{
  ℕ, ◌+◌, ◌*◌, ◌%◌, ◌^◌, Bool, true, false, not, ◌&&◌, ◌||◌, List, [], ◌∷◌, Option, none, some,
  if◌then◌else◌, ltb, ◌==◌, get_elem?, set,
}
use maybenot_simv.Outcome.{Outcome, ok, or_panic, index_out_of_bounds, ◌>>=◌}
use maybenot_simv.Event.{TriggerAction}
use maybenot_simv.SimEvent.{duration_since}
use maybenot_simv.Platform.{Platform, zero64}
use maybenot_simv.Action.{Action}
use maybenot_simv.State.{State}
use maybenot_simv.Machine.{Machine}

pub record MachineRuntime : Type 0 where
  pub current_state : ℕ
  pub state_limit : ℕ
  pub padding_sent : ℕ
  pub normal_sent : ℕ
  pub blocking_duration : ℕ
  pub machine_start : ℕ
  pub allowed_blocked_microsec : ℕ
  pub counter_a : ℕ
  pub counter_b : ℕ

pub data StateChange : Type 0 where
  changed unchanged : StateChange

pub data SignalTarget : Type 0 where
  all : SignalTarget
  all_except : ℕ → SignalTarget

-- What a call changes of a `Framework`: all but its machines.
pub record Core (F64 Rng : Type 0) : Type 0 where
  pub current_time : ℕ
  pub rng : Rng
  pub actions : List (Option TriggerAction)
  pub runtime : List MachineRuntime
  pub max_padding_frac : F64
  pub normal_sent_packets : ℕ
  pub padding_sent_packets : ℕ
  pub max_blocking_frac : F64
  pub blocking_duration : ℕ
  pub blocking_started : ℕ
  pub blocking_active : Bool
  pub signal_pending : Option SignalTarget
  pub counter_zeroed_once : Bool × Bool
  pub framework_start : ℕ

pub record Framework (F64 F32 Rng : Type 0) : Type 0 where
  pub machines : List (Machine F64 F32)
  pub core : Core F64 Rng

-- `v[i]`
abbrev pub at {ℓ} : {A : Type ℓ} → List A → ℕ → Outcome A
at xs i = or_panic (get_elem? xs i) index_out_of_bounds

-- `u64` addition, as in a release build
abbrev pub ◌+u64◌ : ℕ → ℕ → ℕ
a +u64 b = (a + b) % 2 ^ 64

infixl 65 ◌+u64◌
-- `T::Duration::from_micros`, in nanoseconds
abbrev pub from_micros : ℕ → ℕ
from_micros n = n * 1000

-- The replace flag of a blocking action.
abbrev pub replaces : {F64 : Type 0} → Option (Action F64) → Bool
replaces none = false
replaces (some (Action.cancel timer)) = false
replaces (some (Action.send_padding bypass replace timeout limit)) = false
replaces (some (Action.block_outgoing bypass replace timeout duration limit)) = replace
replaces (some (Action.update_timer replace duration limit)) = false

module _ {F64 F32 Rng : Type 0} (pl : Platform F64 F32 Rng) where
  -- `a.div_duration_f64(b)`
  abbrev pub div_duration : ℕ → ℕ → F64
  div_duration a b = pl.div (pl.as_secs a) (pl.as_secs b)

  abbrev pub above : F64 → F64 → Bool
  above f frac = pl.lt (zero64 pl) frac && pl.le frac f

  -- A blocking duration with the ongoing blocking.
  abbrev pub with_ongoing : Core F64 Rng → ℕ → ℕ
  with_ongoing c d =
      if c.blocking_active then d + duration_since c.current_time c.blocking_started else d

  unfoldable pub below_limit_blocking :
      Core F64 Rng → MachineRuntime → Machine F64 F32 → Option (Action F64) → Bool
  below_limit_blocking c r m action =
      if replaces action && c.blocking_active
      then ltb 0 r.state_limit
      else if ltb (with_ongoing c r.blocking_duration) r.allowed_blocked_microsec
      then ltb 0 r.state_limit
      else if above
          (div_duration (with_ongoing c r.blocking_duration)
            (duration_since c.current_time r.machine_start))
          m.max_blocking_frac
      then false
      else if above
          (div_duration (with_ongoing c c.blocking_duration)
            (duration_since c.current_time c.framework_start))
          c.max_blocking_frac
      then false
      else ltb 0 r.state_limit

  -- `padding as f64 / total as f64 >= frac`
  abbrev pub hits : ℕ → ℕ → F64 → Bool
  hits padding total frac = pl.le frac (pl.div (pl.of_u64 padding) (pl.of_u64 total))

  unfoldable pub below_limit_padding : Core F64 Rng → MachineRuntime → Machine F64 F32 → Bool
  below_limit_padding c r m =
      if ltb r.padding_sent m.allowed_padding_packets
      then ltb 0 r.state_limit
      else if pl.lt (zero64 pl) m.max_padding_frac && r.normal_sent +u64 r.padding_sent == 0
      then true
      else if pl.lt (zero64 pl) m.max_padding_frac
          && hits r.padding_sent (r.normal_sent +u64 r.padding_sent) m.max_padding_frac
      then false
      else if pl.lt (zero64 pl) c.max_padding_frac
          && c.padding_sent_packets +u64 c.normal_sent_packets == 0
      then true
      else if pl.lt (zero64 pl) c.max_padding_frac
          && hits c.padding_sent_packets (c.padding_sent_packets +u64 c.normal_sent_packets)
              c.max_padding_frac
      then false
      else ltb 0 r.state_limit

  unfoldable pub below_limits_of :
      Core F64 Rng → MachineRuntime → Machine F64 F32 → Option (Action F64) → Bool
  below_limits_of c r m none = false
  below_limits_of c r m (some (Action.cancel timer)) = true
  below_limits_of c r m (some (Action.send_padding bypass replace timeout limit)) =
      below_limit_padding c r m
  below_limits_of c r m (some (Action.block_outgoing bypass replace timeout duration limit)) =
      below_limit_blocking c r m
        (some (Action.block_outgoing bypass replace timeout duration limit))
  below_limits_of c r m (some (Action.update_timer replace duration limit)) = ltb 0 r.state_limit

  unfoldable pub below_action_limits :
      Core F64 Rng → MachineRuntime → Machine F64 F32 → Outcome Bool
  below_action_limits c r m = do
    current ← at m.states r.current_state
    ok (below_limits_of c r m current.action)
