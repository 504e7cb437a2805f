-- ===== src/Timers.antt =====
-- `do_internal_timer`, `do_scheduled_action` and `trigger_update` of
-- crates/maybenot-simulator/src/lib.rs: timers of the machines that fire and that are set.
use maybenot_simv.Base.{
  ℕ, suc, ◌+◌, Bool, true, false, ◌||◌, List, [], ◌∷◌, Option, none, some, if◌then◌else◌, ltb, ◌==◌,
}
use maybenot_simv.Outcome.{
  Outcome, ok, panic, no_internal_action, no_action, cancel_scheduled, update_timer_scheduled,
  ◌>>=◌,
}
use maybenot_simv.Event.{MachineId, TriggerEvent, TriggerAction}
use maybenot_simv.SimEvent.{SimEvent}
use maybenot_simv.SimState.{Env, ScheduledAction, SimState, action_delay, reporting_delay}
use maybenot_simv.QueuePeek.{unwrap_or}

-- The first timer that is set to `target`, with its index, and the timers without it.
unfoldable pub take_timer : ℕ → ℕ → List (Option ℕ) → Option MachineId × List (Option ℕ)
take_timer target id [] = (none, [])
take_timer target id (none ∷ ts) =
    let (found, rest) = take_timer target (suc id) ts in (found, none ∷ rest)
take_timer target id (some t ∷ ts) =
    let (found, rest) = take_timer target (suc id) ts in
    if t == target then (some id, none ∷ ts) else (found, some t ∷ rest)

abbrev pub plain_event : TriggerEvent → ℕ → Bool → SimEvent
plain_event event time client = record {
  event = event;
  time = time;
  integration_delay = 0;
  client = client;
  contains_padding = false;
  bypass = false;
  replace = false;
}

-- The first action that is scheduled for `target`, and the actions without it.
unfoldable pub take_action :
    ℕ → List (Option ScheduledAction) → Option ScheduledAction × List (Option ScheduledAction)
take_action target [] = (none, [])
take_action target (none ∷ rest) =
    let (found, left) = take_action target rest in (found, none ∷ left)
take_action target (some a ∷ rest) =
    let (found, left) = take_action target rest in
    if a.time == target then (some a, none ∷ rest) else (found, some a ∷ left)

-- The client's state and the server's.
abbrev pub Sides : Type 0 → Type 0 → Type 0
Sides Fw Bins = SimState Fw Bins × SimState Fw Bins

module _ {Fw Bins : Type 0} where
  abbrev with_timers : SimState Fw Bins → List (Option ℕ) → SimState Fw Bins
  with_timers s ts = record s { scheduled_internal_timer = ts }

  abbrev with_actions : SimState Fw Bins → List (Option ScheduledAction) → SimState Fw Bins
  with_actions s ts = record s { scheduled_action = ts }

  server_timer :
      ℕ → Sides Fw Bins → Option MachineId × List (Option ℕ) → Outcome (SimEvent × Sides Fw Bins)
  server_timer target (client, server) (none, ts) = panic no_internal_action
  server_timer target (client, server) (some m, ts) =
      ok (plain_event (TriggerEvent.timer_end m) target false, (client, with_timers server ts))

  client_timer :
      ℕ → Sides Fw Bins → Option MachineId × List (Option ℕ) → Outcome (SimEvent × Sides Fw Bins)
  client_timer target (client, server) (none, ts) =
      server_timer target (client, server) (take_timer target 0 server.scheduled_internal_timer)
  client_timer target (client, server) (some m, ts) =
      ok (plain_event (TriggerEvent.timer_end m) target true, (with_timers client ts, server))

  -- The first machine of the client, or else of the server, whose internal timer ends at `target`.
  unfoldable pub do_internal_timer : Sides Fw Bins → ℕ → Outcome (SimEvent × Sides Fw Bins)
  unfolding client_timer server_timer
  do_internal_timer (client, server) target =
      client_timer target (client, server) (take_timer target 0 client.scheduled_internal_timer)

abbrev padding_event : ℕ → ℕ → Bool → Bool → Bool → MachineId → SimEvent
padding_event time delay client bypass replace machine = record {
  event = TriggerEvent.padding_sent machine;
  time = time;
  integration_delay = delay;
  client = client;
  contains_padding = true;
  bypass = bypass;
  replace = replace;
}

abbrev blocking_event : ℕ → ℕ → Bool → Bool → MachineId → SimEvent
blocking_event time delay client bypass machine = record {
  event = TriggerEvent.blocking_begin machine;
  time = time;
  integration_delay = delay;
  client = client;
  contains_padding = false;
  bypass = bypass;
  replace = false;
}

module _ {Fw Bins : Type 0} where
  -- `replace || block > blocking_until.unwrap_or(time)`, and then the new blocking.
  unfoldable pub start_blocking : ℕ → ℕ → Bool → Bool → SimState Fw Bins → SimState Fw Bins
  start_blocking time block bypass replace s =
      if replace || ltb (unwrap_or s.blocking_until time) block
      then record s { blocking_until = some block; blocking_bypassable = bypass }
      else s

module _ {Fw Bins Rng : Type 0} (env : Env Fw Bins Rng) where
  -- An action of one side: its event, and the state of the side with the blocking updated.
  unfoldable pub perform :
      TriggerAction
      → ℕ
      → Bool
      → SimState Fw Bins
      → Rng
      → Outcome (SimEvent × SimState Fw Bins × Rng)
  perform (TriggerAction.cancel machine timer) time is_client s rng = panic cancel_scheduled
  perform (TriggerAction.update_timer duration replace machine) time is_client s rng =
      panic update_timer_scheduled
  perform (TriggerAction.send_padding timeout bypass replace machine) time is_client s rng = do
    delay ← action_delay env s rng
    ok (padding_event time delay.0 is_client bypass replace machine, s, delay.1)
  perform (TriggerAction.block_outgoing timeout duration bypass replace machine) time is_client s
        rng =
      do
        action ← action_delay env s rng
        reporting ← reporting_delay env s action.1
        let s' = start_blocking time (time + duration) bypass replace s
        ok (
          blocking_event (time + (action.0 + reporting.0)) (action.0 + reporting.0) is_client
              s'.blocking_bypassable machine,
          s',
          reporting.1,
        )

  server_action :
      Sides Fw Bins
      → Rng
      → Option ScheduledAction × List (Option ScheduledAction)
      → Outcome (SimEvent × Sides Fw Bins × Rng)
  server_action (client, server) rng (none, rest) = panic no_action
  server_action (client, server) rng (some a, rest) = do
    r ← perform a.action a.time false (with_actions server rest) rng
    ok (r.0, (client, r.1), r.2)

  client_action :
      ℕ
      → Sides Fw Bins
      → Rng
      → Option ScheduledAction × List (Option ScheduledAction)
      → Outcome (SimEvent × Sides Fw Bins × Rng)
  client_action target (client, server) rng (none, rest) =
      server_action (client, server) rng (take_action target server.scheduled_action)
  client_action target (client, server) rng (some a, rest) = do
    r ← perform a.action a.time true (with_actions client rest) rng
    ok (r.0, (r.1, server), r.2)

  -- The first machine of the client, or else of the server, whose action is due at `target`.
  unfoldable pub do_scheduled_action :
      Sides Fw Bins → ℕ → Rng → Outcome (SimEvent × Sides Fw Bins × Rng)
  unfolding client_action server_action
  do_scheduled_action (client, server) target rng =
      client_action target (client, server) rng (take_action target client.scheduled_action)
