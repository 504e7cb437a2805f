-- ===== src/Event.antt =====
-- crates/maybenot/src/event.rs, and the types of crates/maybenot/src/action.rs that a user of the
-- framework sees. A `MachineId` is the number that it wraps. Durations are in nanoseconds.
use maybenot_simv.Base.{ℕ, Bool, List, [], ◌∷◌, ◌==◌}

abbrev pub MachineId : Type 0
MachineId = ℕ

pub data Event : Type 0 where
  normal_recv padding_recv tunnel_recv : Event
  normal_sent padding_sent tunnel_sent : Event
  blocking_begin blocking_end : Event
  limit_reached counter_zero : Event
  timer_begin timer_end : Event
  signal : Event

-- `*self as usize`: the discriminants count from 0 in the order of declaration.
abbrev pub to_usize : Event → ℕ
to_usize Event.normal_recv = 0
to_usize Event.padding_recv = 1
to_usize Event.tunnel_recv = 2
to_usize Event.normal_sent = 3
to_usize Event.padding_sent = 4
to_usize Event.tunnel_sent = 5
to_usize Event.blocking_begin = 6
to_usize Event.blocking_end = 7
to_usize Event.limit_reached = 8
to_usize Event.counter_zero = 9
to_usize Event.timer_begin = 10
to_usize Event.timer_end = 11
to_usize Event.signal = 12

-- `Event::iter`, the static array of all events.
abbrev pub iter : List Event
iter =
    Event.normal_recv ∷ Event.padding_recv ∷ Event.tunnel_recv ∷ Event.normal_sent
    ∷ Event.padding_sent ∷ Event.tunnel_sent ∷ Event.blocking_begin ∷ Event.blocking_end
    ∷ Event.limit_reached ∷ Event.counter_zero ∷ Event.timer_begin ∷ Event.timer_end ∷ Event.signal
    ∷ []

pub data TriggerEvent : Type 0 where
  normal_recv padding_recv tunnel_recv normal_sent : TriggerEvent
  padding_sent : MachineId → TriggerEvent
  tunnel_sent : TriggerEvent
  blocking_begin : MachineId → TriggerEvent
  blocking_end : TriggerEvent
  timer_begin timer_end : MachineId → TriggerEvent

-- The event that `is_event` compares with.
abbrev pub event_of : TriggerEvent → Event
event_of TriggerEvent.normal_recv = Event.normal_recv
event_of TriggerEvent.padding_recv = Event.padding_recv
event_of TriggerEvent.tunnel_recv = Event.tunnel_recv
event_of TriggerEvent.normal_sent = Event.normal_sent
event_of (TriggerEvent.padding_sent m) = Event.padding_sent
event_of TriggerEvent.tunnel_sent = Event.tunnel_sent
event_of (TriggerEvent.blocking_begin m) = Event.blocking_begin
event_of TriggerEvent.blocking_end = Event.blocking_end
event_of (TriggerEvent.timer_begin m) = Event.timer_begin
event_of (TriggerEvent.timer_end m) = Event.timer_end

-- The derived `==` of `Event` compares the discriminants.
abbrev pub is_event : TriggerEvent → Event → Bool
is_event t e = to_usize (event_of t) == to_usize e

pub data Timer : Type 0 where
  action internal all : Timer

pub data TriggerAction : Type 0 where
  cancel : MachineId → Timer → TriggerAction
  -- timeout, bypass, replace, machine
  send_padding : ℕ → Bool → Bool → MachineId → TriggerAction
  -- timeout, duration, bypass, replace, machine
  block_outgoing : ℕ → ℕ → Bool → Bool → MachineId → TriggerAction
  -- duration, replace, machine
  update_timer : ℕ → Bool → MachineId → TriggerAction
