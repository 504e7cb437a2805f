-- ===== src/Ffi.antt =====
-- crates/maybenot-ffi/src: the types of lib.rs and error.rs with their conversions, `start` and
-- `on_events` of `MaybenotFramework`.
pub mod Calls
pub mod Started
pub mod Answers
use maybenot_simv.Base.{ℕ, suc, ◌/◌, ◌%◌, ◌^◌, Bool, List, [], ◌∷◌, Option, some}
use maybenot_simv.Attempt.{Attempt, err, ◌>>=◌, lift, map_err}
use maybenot_simv.Text.{Bytes, lines}
use maybenot_simv.Event.{TriggerEvent, TriggerAction, Timer}
use maybenot_simv.Verdict.{Error}
use maybenot_simv.Platform.{Platform}
use maybenot_simv.Machine.{Machine}
use maybenot_simv.Machine.Serial.{Formats, from_str}
use maybenot_simv.Framework
use maybenot_simv.Framework.{Framework}
use maybenot_simv.Framework.New.{Created, created, refused}

pub data MaybenotResult : Type 0 where
  ok machine_string_not_utf8 invalid_machine_string start_framework null_pointer : MaybenotResult

pub data MaybenotEventType : Type 0 where
  normal_recv padding_recv tunnel_recv normal_sent padding_sent tunnel_sent : MaybenotEventType
  blocking_begin blocking_end timer_begin timer_end : MaybenotEventType

pub record MaybenotEvent : Type 0 where
  pub event_type : MaybenotEventType
  pub machine : ℕ

pub record MaybenotDuration : Type 0 where
  pub secs : ℕ
  pub nanos : ℕ

pub data MaybenotTimer : Type 0 where
  action internal all : MaybenotTimer

pub data MaybenotAction : Type 0 where
  -- machine, timer
  cancel : ℕ → MaybenotTimer → MaybenotAction
  -- machine, timeout, replace, bypass
  send_padding : ℕ → MaybenotDuration → Bool → Bool → MaybenotAction
  -- machine, timeout, replace, bypass, duration
  block_outgoing : ℕ → MaybenotDuration → Bool → Bool → MaybenotDuration → MaybenotAction
  -- machine, duration, replace
  update_timer : ℕ → MaybenotDuration → Bool → MaybenotAction

pub record MaybenotFramework (F64 F32 Rng : Type 0) : Type 0 where
  pub framework : Framework F64 F32 Rng
  pub events_buf : List TriggerEvent

unfoldable pub convert_event_type : MaybenotEventType → ℕ → TriggerEvent
convert_event_type MaybenotEventType.normal_recv machine = TriggerEvent.normal_recv
convert_event_type MaybenotEventType.padding_recv machine = TriggerEvent.padding_recv
convert_event_type MaybenotEventType.tunnel_recv machine = TriggerEvent.tunnel_recv
convert_event_type MaybenotEventType.normal_sent machine = TriggerEvent.normal_sent
convert_event_type MaybenotEventType.padding_sent machine = TriggerEvent.padding_sent machine
convert_event_type MaybenotEventType.tunnel_sent machine = TriggerEvent.tunnel_sent
convert_event_type MaybenotEventType.blocking_begin machine = TriggerEvent.blocking_begin machine
convert_event_type MaybenotEventType.blocking_end machine = TriggerEvent.blocking_end
convert_event_type MaybenotEventType.timer_begin machine = TriggerEvent.timer_begin machine
convert_event_type MaybenotEventType.timer_end machine = TriggerEvent.timer_end machine

unfoldable pub convert_event : MaybenotEvent → TriggerEvent
unfolding convert_event_type
convert_event e = convert_event_type e.event_type e.machine

-- `as_secs` and `subsec_nanos` of a duration in nanoseconds
unfoldable pub from_duration : ℕ → MaybenotDuration
from_duration duration = record { secs = duration / 10 ^ 9; nanos = duration % 10 ^ 9 }

unfoldable pub from_timer : Timer → MaybenotTimer
from_timer Timer.action = MaybenotTimer.action
from_timer Timer.internal = MaybenotTimer.internal
from_timer Timer.all = MaybenotTimer.all

unfoldable pub convert_action : TriggerAction → MaybenotAction
convert_action (TriggerAction.cancel machine timer) =
    MaybenotAction.cancel machine (from_timer timer)
convert_action (TriggerAction.send_padding timeout bypass replace machine) =
    MaybenotAction.send_padding machine (from_duration timeout) replace bypass
convert_action (TriggerAction.block_outgoing timeout duration bypass replace machine) =
    MaybenotAction.block_outgoing machine (from_duration timeout) replace bypass
      (from_duration duration)
convert_action (TriggerAction.update_timer duration replace machine) =
    MaybenotAction.update_timer machine (from_duration duration) replace

abbrev pub of_created :
    {F64 F32 Rng : Type 0} → Created F64 F32 Rng → Attempt Error (Framework F64 F32 Rng)
of_created (created framework) = Attempt.ok framework
of_created (refused e) = err e

-- Memory that may be uninitialized: a slot is `none` until it is written.
abbrev pub Slots : Type 0
Slots = List (Option MaybenotAction)

-- `.zip(actions.iter_mut()).map(|(action, out)| out.write(action)).count()`
unfoldable pub write_actions : List TriggerAction → Slots → ℕ × Slots
write_actions [] slots = (0, slots)
write_actions (a ∷ actions) [] = (0, [])
write_actions (a ∷ actions) (slot ∷ slots) =
    let (n, rest) = write_actions actions slots in (suc n, some (convert_action a) ∷ rest)

unfoldable pub convert_events : List MaybenotEvent → List TriggerEvent
convert_events [] = []
convert_events (e ∷ es) = convert_event e ∷ convert_events es

module _ {F64 F32 Rng : Type 0} (pl : Platform F64 F32 Rng) (formats : Formats F64 F32) where
  -- `.map(Machine::from_str).collect::<Result<_, _>>()`, which stops at the first error
  unfoldable pub parse_machines : List Bytes → Attempt Error (List (Machine F64 F32))
  parse_machines [] = Attempt.ok []
  parse_machines (line ∷ rest) = do
    m ← from_str pl formats line
    ms ← parse_machines rest
    Attempt.ok (m ∷ ms)

  unfoldable pub start :
      Bytes → F64 → F64 → ℕ → Rng → Attempt MaybenotResult (MaybenotFramework F64 F32 Rng)
  start machines_str max_padding_frac max_blocking_frac now rng = do
    machines ←
        map_err (λ e. MaybenotResult.invalid_machine_string) (parse_machines (lines machines_str))
    framework ←
        map_err (λ e. MaybenotResult.start_framework)
          (lift (Framework.New.new pl machines max_padding_frac max_blocking_frac now rng)
            >>= of_created)
    Attempt.ok (record { framework = framework; events_buf = [] })
