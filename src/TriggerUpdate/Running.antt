-- ===== src/TriggerUpdate/Running.antt =====
-- `trigger_update` with the framework of crates/maybenot behind its interface.
use maybenot_simv.Base.{
  ℕ, zero, suc, ◌+◌, ◌<◌, Bool, ◌||◌, List, [], ◌∷◌, Option, none, some, ◌≡◌, refl, ◌∙◌, ap, subst,
  sym, arith, length, length-set, set, All, get_elem?-lt, inl, inr, Bool-cases, ltb,
}
use maybenot_simv.Outcome.{Outcome, ok, Returns, Returns-bind}
use maybenot_simv.Event.{TriggerEvent, TriggerAction, Timer}
use maybenot_simv.SimEvent.{SimEvent}
use maybenot_simv.SimQueue.{SimQueue}
use maybenot_simv.SimQueue.Sides.{IsSided, push_sim-IsSided}
use maybenot_simv.SimState.{Env, Integration, SimState, ScheduledAction, trigger_delay}
use maybenot_simv.SimState.Samples.{CanIntegrate, trigger_delay-Returns}
use maybenot_simv.QueuePeek.{unwrap_or}
use maybenot_simv.Timers.{plain_event}
use maybenot_simv.TriggerUpdate.{
  put, cancel_action, cancel_timer, schedule, begin_timer, set_timer, take_up, take_up_all,
  trigger_update,
}
use maybenot_simv.PickNext.Ready.{HasTimeout, IsTimed}
use maybenot_simv.Platform.{Platform}
use maybenot_simv.Dist.Sampling.{Laws}
use maybenot_simv.Framework.{Framework}
use maybenot_simv.Framework.Events.{trigger_events}
use maybenot_simv.Framework.Valid.{machine_of}
use maybenot_simv.Framework.Steps.{at-Returns}
use maybenot_simv.Framework.Returns.{IsRunning, Ascends, Triggered, trigger_events-Triggered}

put-Returns {ℓ} :
    {A : Type ℓ} (xs : List A) (i : ℕ) (x : A) → i < length xs → put xs i x ≡ ok (set xs i x)
unfolding put
put-Returns xs i x h = ground arith

set-IsTimed :
    (xs : List (Option ScheduledAction)) (i : ℕ) (a : Option ScheduledAction)
    → IsTimed a
    → All IsTimed xs
    → All IsTimed (set xs i a)
set-IsTimed [] i a k h = tt
set-IsTimed (x ∷ xs) zero a k h = (k, h.1)
set-IsTimed (x ∷ xs) (suc i) a k h = (h.0, set-IsTimed xs i a k h.1)

-- A side with `n` machines and an integration: a place for an action and for a timer of each machine.
pub record Fits {Fw Bins : Type 0} (n : ℕ) (fw : Fw) (it : Option (Integration Bins))
    (st : SimState Fw Bins × SimQueue) : Type 0 where
  pub integration : st.0.integration ≡ it
  pub framework : st.0.framework ≡ fw
  pub actions : length st.0.scheduled_action ≡ n
  pub timers : length st.0.scheduled_internal_timer ≡ n
  pub timed : All IsTimed st.0.scheduled_action
  pub sided : IsSided st.1

module _ {Fw Bins : Type 0} (n : ℕ) (fw : Fw) (it : Option (Integration Bins)) where
  with_action :
      (s : SimState Fw Bins) (sq : SimQueue) (m : ℕ) (a : Option ScheduledAction)
      → m < n
      → IsTimed a
      → Fits n fw it (s, sq)
      → Returns
          (λ xs. Fits n fw it (record s { scheduled_action = xs }, sq))
          (put s.scheduled_action m a)
  with_action s sq m a l k f =
      rw (put-Returns s.scheduled_action m a (omega (arith, f.actions))) (record {
        integration = f.integration;
        framework = f.framework;
        actions = length-set s.scheduled_action m a ∙ f.actions;
        timers = f.timers;
        timed = set-IsTimed s.scheduled_action m a k f.timed;
        sided = f.sided;
      })

  with_timer :
      (s : SimState Fw Bins) (sq : SimQueue) (m : ℕ) (t : Option ℕ)
      → m < n
      → Fits n fw it (s, sq)
      → Returns
          (λ xs. Fits n fw it (record s { scheduled_internal_timer = xs }, sq))
          (put s.scheduled_internal_timer m t)
  with_timer s sq m t l f =
      rw (put-Returns s.scheduled_internal_timer m t (omega (arith, f.timers))) (record {
        integration = f.integration;
        framework = f.framework;
        actions = f.actions;
        timers = length-set s.scheduled_internal_timer m t ∙ f.timers;
        timed = f.timed;
        sided = f.sided;
      })

  cancel_action-Fits :
      (m : ℕ) (s : SimState Fw Bins) (sq : SimQueue)
      → m < n
      → Fits n fw it (s, sq)
      → Returns (λ s'. Fits n fw it (s', sq)) (cancel_action m s)
  unfolding cancel_action
  cancel_action-Fits m s sq l f =
      Returns-bind _ (λ xs. Fits n fw it (record s { scheduled_action = xs }, sq))
        (put s.scheduled_action m none) _ (with_action s sq m none l tt f) (λ xs g. g)

  cancel_timer-Fits :
      (m : ℕ) (s : SimState Fw Bins) (sq : SimQueue)
      → m < n
      → Fits n fw it (s, sq)
      → Returns (λ s'. Fits n fw it (s', sq)) (cancel_timer m s)
  unfolding cancel_timer
  cancel_timer-Fits m s sq l f =
      Returns-bind _ (λ xs. Fits n fw it (record s { scheduled_internal_timer = xs }, sq))
        (put s.scheduled_internal_timer m none) _ (with_timer s sq m none l f) (λ xs g. g)

  schedule-Fits :
      (m : ℕ) (a : TriggerAction) (t : ℕ) (s : SimState Fw Bins) (sq : SimQueue)
      → m < n
      → HasTimeout a
      → Fits n fw it (s, sq)
      → Returns (λ s'. Fits n fw it (s', sq)) (schedule m a t s)
  unfolding schedule
  schedule-Fits m a t s sq l k f =
      Returns-bind _ (λ xs. Fits n fw it (record s { scheduled_action = xs }, sq))
        (put s.scheduled_action m (some (record { action = a; time = t }))) _
        (with_action s sq m (some (record { action = a; time = t })) l k f) (λ xs g. g)

  begin_timer-Fits :
      (m end now : ℕ) (c : Bool) (s : SimState Fw Bins) (sq : SimQueue)
      → m < n
      → Fits n fw it (s, sq)
      → Returns (Fits n fw it) (begin_timer m end now c (s, sq))
  unfolding begin_timer
  begin_timer-Fits m end now c s sq l f =
      Returns-bind _ (λ xs. Fits n fw it (record s { scheduled_internal_timer = xs }, sq))
        (put s.scheduled_internal_timer m (some end)) _ (with_timer s sq m (some end) l f)
        (λ xs g. record {
          integration = g.integration;
          framework = g.framework;
          actions = g.actions;
          timers = g.timers;
          timed = g.timed;
          sided = push_sim-IsSided (plain_event (TriggerEvent.timer_begin m) now c) sq g.sided;
        })

  set_timer-Fits :
      (m duration : ℕ) (replace : Bool) (now : ℕ) (c : Bool) (s : SimState Fw Bins) (sq : SimQueue)
      → m < n
      → Fits n fw it (s, sq)
      → Returns (Fits n fw it) (set_timer m duration replace now c (s, sq))
  unfolding set_timer
  set_timer-Fits m duration replace now c s sq l f =
      let (t, e) = get_elem?-lt s.scheduled_internal_timer m (omega (arith, f.timers)) in
      at-Returns _ s.scheduled_internal_timer m t _ e
        (elim (Bool-cases (replace || ltb (unwrap_or t now) (now + duration))) [
          | inl b ↦ rw b (begin_timer-Fits m (now + duration) now c s sq l f)
          | inr b ↦ rw b f
        ])

  take_up-Fits :
      (a : TriggerAction) (now delay : ℕ) (c : Bool) (s : SimState Fw Bins) (sq : SimQueue)
      → machine_of a < n
      → Fits n fw it (s, sq)
      → Returns (Fits n fw it) (take_up a now delay c (s, sq))
  unfolding take_up
  take_up-Fits (TriggerAction.cancel m Timer.action) now delay c s sq l f =
      Returns-bind _ _ (cancel_action m s) _ (cancel_action-Fits m s sq l f) (λ s' g. g)
  take_up-Fits (TriggerAction.cancel m Timer.internal) now delay c s sq l f =
      Returns-bind _ _ (cancel_timer m s) _ (cancel_timer-Fits m s sq l f) (λ s' g. g)
  take_up-Fits (TriggerAction.cancel m Timer.all) now delay c s sq l f =
      Returns-bind _ _ (cancel_action m s) _ (cancel_action-Fits m s sq l f) (λ s' g.
        Returns-bind _ _ (cancel_timer m s') _ (cancel_timer-Fits m s' sq l g) (λ s'' h. h))
  take_up-Fits (TriggerAction.send_padding t b r m) now delay c s sq l f =
      Returns-bind _ _ (schedule m (TriggerAction.send_padding t b r m) (now + t + delay) s) _
        (schedule-Fits m (TriggerAction.send_padding t b r m) (now + t + delay) s sq l tt f)
        (λ s' g. g)
  take_up-Fits (TriggerAction.block_outgoing t d b r m) now delay c s sq l f =
      Returns-bind _ _ (schedule m (TriggerAction.block_outgoing t d b r m) (now + t + delay) s) _
        (schedule-Fits m (TriggerAction.block_outgoing t d b r m) (now + t + delay) s sq l tt f)
        (λ s' g. g)
  take_up-Fits (TriggerAction.update_timer d r m) now delay c s sq l f =
      set_timer-Fits m d r now c s sq l f

  take_up_all-Fits :
      (from : ℕ) (xs : List TriggerAction) (now delay : ℕ) (c : Bool)
      (st : SimState Fw Bins × SimQueue)
      → Ascends from n xs
      → Fits n fw it st
      → Returns (Fits n fw it) (take_up_all xs now delay c st)
  unfolding take_up_all
  take_up_all-Fits from [] now delay c st h f = f
  take_up_all-Fits from (a ∷ xs) now delay c st h f =
      Returns-bind _ (Fits n fw it) (take_up a now delay c st) _
        (take_up-Fits a now delay c st.0 st.1 h.1 f)
        (λ st' g. take_up_all-Fits (suc (machine_of a)) xs now delay c st' h.2 g)

-- The framework of crates/maybenot behind the interface of the simulator; its own random numbers are
-- part of its state.
abbrev pub framework_env :
    {F64 F32 Rng Bins Rand : Type 0}
    → Platform F64 F32 Rng
    → (Bins → Rand → Outcome (ℕ × Rand))
    → Env (Framework F64 F32 Rng) Bins Rand
framework_env pl sample = record { trigger_events = trigger_events pl; sample = sample }

-- A side of the simulation whose framework is ready for events, with a place for an action and for a
-- timer of each machine, and with actions that have timeouts.
pub record SideIsReady {F64 F32 Rng Bins : Type 0} (pl : Platform F64 F32 Rng)
    (st : SimState (Framework F64 F32 Rng) Bins × SimQueue) : Type 0 where
  pub running : IsRunning pl st.0.framework
  pub fits : Fits (length st.0.framework.machines) st.0.framework st.0.integration st

with_own :
    {Fw Bins : Type 0} {n : ℕ} {fw : Fw} {it : Option (Integration Bins)}
    {st : SimState Fw Bins × SimQueue}
    → Fits n fw it st
    → Fits n fw st.0.integration st
with_own g = record {
  integration = refl;
  framework = g.framework;
  actions = g.actions;
  timers = g.timers;
  timed = g.timed;
  sided = g.sided;
}

pub ready :
    {F64 F32 Rng Bins : Type 0} {pl : Platform F64 F32 Rng} (n : ℕ) (f : Framework F64 F32 Rng)
    (st : SimState (Framework F64 F32 Rng) Bins × SimQueue)
    → length f.machines ≡ n
    → IsRunning pl f
    → Fits n f st.0.integration st
    → SideIsReady pl st
ready {pl = pl} n f st e k g =
    let m = ap (λ x. length x.machines) g.framework ∙ e in
    record {
      running = subst (IsRunning pl) (sym g.framework) k;
      fits = record {
        integration = refl;
        framework = refl;
        actions = g.actions ∙ sym m;
        timers = g.timers ∙ sym m;
        timed = g.timed;
        sided = g.sided;
      };
    }

module _ {F64 F32 Rng Bins Rand : Type 0} (pl : Platform F64 F32 Rng) (laws : Laws pl)
    (sample : Bins → Rand → Outcome (ℕ × Rand)) where
  -- When the platform keeps its laws, the delays of the side's integration can be sampled, the side
  -- is ready, with a running framework, and the events of the queue stand on their own sides,
  -- `trigger_update` with the framework of crates/maybenot returns: no index is out of bounds, the
  -- side and the queue are such again, and the integration is the same.
  pub trigger_update-SideIsReady :
      (s : SimState (Framework F64 F32 Rng) Bins) (next : SimEvent) (now : ℕ) (sq : SimQueue)
      (c : Bool) (rng : Rand)
      → CanIntegrate (framework_env pl sample) s.integration
      → SideIsReady pl (s, sq)
      → Returns
          (λ r. SideIsReady pl r.0 × (r.0.0.integration ≡ s.integration))
          (trigger_update (framework_env pl sample) s next now sq c rng)
  unfolding trigger_update
  trigger_update-SideIsReady s next now sq c rng i k =
      let n = length s.framework.machines in
      Returns-bind _ _ (trigger_delay (framework_env pl sample) s rng) _
        (trigger_delay-Returns (framework_env pl sample) s rng i)
        (λ d u.
          Returns-bind _ (Triggered pl s.framework (next.event ∷ []))
            (trigger_events pl s.framework (next.event ∷ []) now) _
            (trigger_events-Triggered pl laws s.framework (next.event ∷ []) now k.running)
            (λ r t.
              Returns-bind _ (Fits n r.1 s.integration)
                (take_up_all r.0 now d.0 c (record s { framework = r.1 }, sq)) _
                (take_up_all-Fits n r.1 s.integration 0 r.0 now d.0 c
                  (record s { framework = r.1 }, sq) t.actions
                  (record {
                    integration = refl;
                    framework = refl;
                    actions = k.fits.actions;
                    timers = k.fits.timers;
                    timed = k.fits.timed;
                    sided = k.fits.sided;
                  }))
                (λ st g.
                  (ready n r.1 st (ap length t.machines) t.running (with_own g), g.integration))))
