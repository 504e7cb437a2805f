-- ===== src/TriggerUpdate.antt =====
-- `trigger_update` of crates/maybenot-simulator/src/lib.rs: the framework of one side hears of an
-- event, and its actions set the timers of that side.
pub mod Running
pub mod Covered
use maybenot_simv.Base.{
  ℕ, ◌+◌, Bool, ◌||◌, List, [], ◌∷◌, none, some, if◌then◌else◌, ltb, length, get_elem?, set,
}
use maybenot_simv.Outcome.{Outcome, ok, panic, index_out_of_bounds, or_panic, ◌>>=◌}
use maybenot_simv.Event.{MachineId, TriggerEvent, Timer, TriggerAction}
use maybenot_simv.SimEvent.{SimEvent}
use maybenot_simv.SimQueue.{SimQueue, push_sim}
use maybenot_simv.SimState.{Env, SimState, trigger_delay}
use maybenot_simv.QueuePeek.{unwrap_or}
use maybenot_simv.Timers.{plain_event}

-- `v[i] = x`, which panics out of bounds.
unfoldable pub put {ℓ} : {A : Type ℓ} → List A → ℕ → A → Outcome (List A)
put xs i x = if ltb i (length xs) then ok (set xs i x) else panic index_out_of_bounds

module _ {Fw Bins : Type 0} where
  unfoldable pub cancel_action : MachineId → SimState Fw Bins → Outcome (SimState Fw Bins)
  cancel_action m s = do
    actions ← put s.scheduled_action m none
    ok (record s { scheduled_action = actions })

  unfoldable pub cancel_timer : MachineId → SimState Fw Bins → Outcome (SimState Fw Bins)
  cancel_timer m s = do
    timers ← put s.scheduled_internal_timer m none
    ok (record s { scheduled_internal_timer = timers })

  unfoldable pub schedule :
      MachineId → TriggerAction → ℕ → SimState Fw Bins → Outcome (SimState Fw Bins)
  schedule m action time s = do
    actions ← put s.scheduled_action m (some (record { action = action; time = time }))
    ok (record s { scheduled_action = actions })

  -- Set the timer and report that it begins.
  unfoldable pub begin_timer :
      MachineId → ℕ → ℕ → Bool → SimState Fw Bins × SimQueue → Outcome (SimState Fw Bins × SimQueue)
  begin_timer m end now is_client (s, sq) = do
    timers ← put s.scheduled_internal_timer m (some end)
    ok (
      record s { scheduled_internal_timer = timers },
      push_sim (plain_event (TriggerEvent.timer_begin m) now is_client) sq,
    )

  unfoldable pub set_timer :
      MachineId
      → ℕ
      → Bool
      → ℕ
      → Bool
      → SimState Fw Bins × SimQueue
      → Outcome (SimState Fw Bins × SimQueue)
  set_timer m duration replace now is_client (s, sq) =
      or_panic (get_elem? s.scheduled_internal_timer m) index_out_of_bounds >>= λ timer.
      if replace || ltb (unwrap_or timer now) (now + duration)
      then begin_timer m (now + duration) now is_client (s, sq)
      else ok (s, sq)

  -- One round of the loop over the actions.
  unfoldable pub take_up :
      TriggerAction
      → ℕ
      → ℕ
      → Bool
      → SimState Fw Bins × SimQueue
      → Outcome (SimState Fw Bins × SimQueue)
  take_up (TriggerAction.cancel m Timer.action) now delay is_client (s, sq) = do
    s' ← cancel_action m s
    ok (s', sq)
  take_up (TriggerAction.cancel m Timer.internal) now delay is_client (s, sq) = do
    s' ← cancel_timer m s
    ok (s', sq)
  take_up (TriggerAction.cancel m Timer.all) now delay is_client (s, sq) = do
    s' ← cancel_action m s
    s'' ← cancel_timer m s'
    ok (s'', sq)
  take_up (TriggerAction.send_padding timeout bypass replace m) now delay is_client (s, sq) = do
    s' ← schedule m (TriggerAction.send_padding timeout bypass replace m) (now + timeout + delay) s
    ok (s', sq)
  take_up (TriggerAction.block_outgoing timeout duration bypass replace m) now delay is_client
        (s, sq) =
      do
        s' ←
            schedule m (TriggerAction.block_outgoing timeout duration bypass replace m)
              (now + timeout + delay) s
        ok (s', sq)
  take_up (TriggerAction.update_timer duration replace m) now delay is_client (s, sq) =
      set_timer m duration replace now is_client (s, sq)

  unfoldable pub take_up_all :
      List TriggerAction
      → ℕ
      → ℕ
      → Bool
      → SimState Fw Bins × SimQueue
      → Outcome (SimState Fw Bins × SimQueue)
  take_up_all [] now delay is_client st = ok st
  take_up_all (a ∷ rest) now delay is_client st = do
    st' ← take_up a now delay is_client st
    take_up_all rest now delay is_client st'

module _ {Fw Bins Rng : Type 0} (env : Env Fw Bins Rng) where
  unfoldable pub trigger_update :
      SimState Fw Bins
      → SimEvent
      → ℕ
      → SimQueue
      → Bool
      → Rng
      → Outcome ((SimState Fw Bins × SimQueue) × Rng)
  trigger_update state next now sq is_client rng = do
    delay ← trigger_delay env state rng
    r ← env.trigger_events state.framework (next.event ∷ []) now
    st ← take_up_all r.0 now delay.0 is_client (record state { framework = r.1 }, sq)
    ok (st, delay.1)
