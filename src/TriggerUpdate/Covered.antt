-- ===== src/TriggerUpdate/Covered.antt =====
-- `trigger_update` of crates/maybenot-simulator/src/lib.rs pushes no event that lies before a delay.
use maybenot_simv.Base.{
  ℕ, ◌+◌, Bool, ◌||◌, List, [], ◌∷◌, some, inl, inr, Bool-cases, get_elem?, ltb,
}
use maybenot_simv.Outcome.{index_out_of_bounds, or_panic, IfOk, IfOk-bind, IfOk-then}
use maybenot_simv.Event.{MachineId, TriggerEvent, TriggerAction, Timer}
use maybenot_simv.SimEvent.{SimEvent}
use maybenot_simv.SimQueue.{SimQueue}
use maybenot_simv.SimQueue.Covered.{IsCovered, push_sim-IsCovered}
use maybenot_simv.SimState.{Env, SimState, trigger_delay}
use maybenot_simv.QueuePeek.{unwrap_or}
use maybenot_simv.Timers.{plain_event}
use maybenot_simv.TriggerUpdate.{
  put, cancel_action, cancel_timer, schedule, begin_timer, set_timer, take_up, take_up_all,
  trigger_update,
}

module _ {Fw Bins : Type 0} where
  abbrev SideCovered : SimState Fw Bins × SimQueue → Type 0
  SideCovered (s, sq) = IsCovered sq

  begin_timer-SideCovered :
      (m : MachineId) (end now : ℕ) (c : Bool) (s : SimState Fw Bins) (sq : SimQueue)
      → IsCovered sq
      → IfOk SideCovered (begin_timer m end now c (s, sq))
  unfolding begin_timer
  begin_timer-SideCovered m end now c s sq k =
      IfOk-bind SideCovered (put s.scheduled_internal_timer m (some end)) _
        (λ timers. push_sim-IsCovered (plain_event (TriggerEvent.timer_begin m) now c) sq tt k)

  set_timer-SideCovered :
      (m : MachineId) (d : ℕ) (replace : Bool) (now : ℕ) (c : Bool) (s : SimState Fw Bins)
      (sq : SimQueue)
      → IsCovered sq
      → IfOk SideCovered (set_timer m d replace now c (s, sq))
  unfolding set_timer
  set_timer-SideCovered m d replace now c s sq k =
      IfOk-bind SideCovered (or_panic (get_elem? s.scheduled_internal_timer m) index_out_of_bounds)
        _
        (λ timer. elim (Bool-cases (replace || ltb (unwrap_or timer now) (now + d))) [
          | inl t ↦ rw t (begin_timer-SideCovered m (now + d) now c s sq k)
          | inr t ↦ rw t k
        ])

  take_up-SideCovered :
      (a : TriggerAction) (now delay : ℕ) (c : Bool) (s : SimState Fw Bins) (sq : SimQueue)
      → IsCovered sq
      → IfOk SideCovered (take_up a now delay c (s, sq))
  unfolding take_up
  take_up-SideCovered (TriggerAction.cancel m Timer.action) now delay c s sq k =
      IfOk-bind SideCovered (cancel_action m s) _ (λ s'. k)
  take_up-SideCovered (TriggerAction.cancel m Timer.internal) now delay c s sq k =
      IfOk-bind SideCovered (cancel_timer m s) _ (λ s'. k)
  take_up-SideCovered (TriggerAction.cancel m Timer.all) now delay c s sq k =
      IfOk-bind SideCovered (cancel_action m s) _
        (λ s'. IfOk-bind SideCovered (cancel_timer m s') _ (λ s''. k))
  take_up-SideCovered (TriggerAction.send_padding t b r m) now delay c s sq k =
      IfOk-bind SideCovered (schedule m (TriggerAction.send_padding t b r m) (now + t + delay) s) _
        (λ s'. k)
  take_up-SideCovered (TriggerAction.block_outgoing t d b r m) now delay c s sq k =
      IfOk-bind SideCovered
        (schedule m (TriggerAction.block_outgoing t d b r m) (now + t + delay) s) _ (λ s'. k)
  take_up-SideCovered (TriggerAction.update_timer d r m) now delay c s sq k =
      set_timer-SideCovered m d r now c s sq k

  take_up_all-SideCovered :
      (actions : List TriggerAction) (now delay : ℕ) (c : Bool) (s : SimState Fw Bins)
      (sq : SimQueue)
      → IsCovered sq
      → IfOk SideCovered (take_up_all actions now delay c (s, sq))
  unfolding take_up_all
  take_up_all-SideCovered [] now delay c s sq k = k
  take_up_all-SideCovered (a ∷ rest) now delay c s sq k =
      IfOk-then SideCovered SideCovered (take_up a now delay c (s, sq)) _
        (take_up-SideCovered a now delay c s sq k)
        (λ st h. take_up_all-SideCovered rest now delay c st.0 st.1 h)

module _ {Fw Bins Rng : Type 0} (env : Env Fw Bins Rng) where
  pub trigger_update-IsCovered :
      (s : SimState Fw Bins) (next : SimEvent) (now : ℕ) (sq : SimQueue) (c : Bool) (rng : Rng)
      → IsCovered sq
      → IfOk (λ r. IsCovered r.0.1) (trigger_update env s next now sq c rng)
  unfolding trigger_update
  trigger_update-IsCovered s next now sq c rng k = IfOk-bind _ (trigger_delay env s rng) _ (λ d.
      IfOk-bind _ (env.trigger_events s.framework (next.event ∷ []) now) _ (λ r.
        IfOk-then _ SideCovered (take_up_all r.0 now d.0 c (record s { framework = r.1 }, sq)) _
          (take_up_all-SideCovered r.0 now d.0 c (record s { framework = r.1 }) sq k) (λ st h. h)))
