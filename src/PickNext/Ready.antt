-- ===== src/PickNext/Ready.antt =====
-- The rounds of `pick_next` return: what it picks is there.
use maybenot_simv.Base.{
  ℕ, ◌+◌, Bool, true, false, List, [], ◌∷◌, Option, none, some, ◌≡◌, ◌≢◌, refl, arith, ◌⊎◌, inl,
  inr, Bool-cases, Option-cases, ◌==◌, All, ltb,
}
use maybenot_simv.Outcome.{Returns, Returns-ok, Returns-bind}
use maybenot_simv.Event.{TriggerAction, MachineId}
use maybenot_simv.SimEvent.{SimEvent}
use maybenot_simv.EventQueue.{Queue}
use maybenot_simv.EventQueue.Peek.{front, pop-front}
use maybenot_simv.SimQueue
use maybenot_simv.SimQueue.{SimQueue, side, with_side, push_sim}
use maybenot_simv.SimQueue.Sides.{IsSided, push_sim-IsSided, popped-IsSided}
use maybenot_simv.SimState.{Env, SimState, ScheduledAction, action_delay, reporting_delay}
use maybenot_simv.SimState.Samples.{CanIntegrate, action_delay-Returns, reporting_delay-Returns}
use maybenot_simv.Network.{base_delay}
use maybenot_simv.Timers.{
  take_timer, take_action, perform, start_blocking, do_internal_timer, do_scheduled_action,
}
use maybenot_simv.PickNext.Places.{if-either}
use maybenot_simv.PickNext.{
  World, Round, done, again, pick_from_queue, fire_timer, fire_action, expire_blocking,
}

-- An action with a timeout: `trigger_update` schedules no other.
abbrev pub HasTimeout : TriggerAction → Type 0
HasTimeout (TriggerAction.cancel m t) = ⊥
HasTimeout (TriggerAction.update_timer d r m) = ⊥
HasTimeout (TriggerAction.send_padding t b r m) = Unit {0}
HasTimeout (TriggerAction.block_outgoing t d b r m) = Unit {0}

abbrev pub IsTimed : Option ScheduledAction → Type 0
IsTimed none = Unit {0}
IsTimed (some a) = HasTimeout a.action

-- The scheduled actions have timeouts, the events stand on their own sides, and the delays of both
-- integrations can be sampled.
pub record IsReady {Fw Bins Rng : Type 0} (env : Env Fw Bins Rng) (w : World Fw Bins Rng)
    : Type 0 where
  pub client : All IsTimed w.client.scheduled_action
  pub server : All IsTimed w.server.scheduled_action
  pub sided : IsSided w.sq
  pub client_integrates : CanIntegrate env w.client.integration
  pub server_integrates : CanIntegrate env w.server.integration

take_action-IsTimed :
    (target : ℕ) (actions : List (Option ScheduledAction))
    → All IsTimed actions
    → IsTimed (take_action target actions).0 × All IsTimed (take_action target actions).1
unfolding take_action
take_action-IsTimed target [] h = (tt, tt)
take_action-IsTimed target (none ∷ rest) h =
    let (a, b) = take_action-IsTimed target rest h.1 in (a, (tt, b))
take_action-IsTimed target (some a ∷ rest) h = elim (Bool-cases (a.time == target)) [
  | inl t ↦ rw t (h.0, (tt, h.1))
  | inr t ↦ rw t (let (x, y) = take_action-IsTimed target rest h.1 in (x, (h.0, y)))
]

abbrev pub RoundIsReady : {Fw Bins Rng : Type 0} → Env Fw Bins Rng → Round Fw Bins Rng → Type 0
RoundIsReady env (done e w) = IsReady env w
RoundIsReady env (again w) = IsReady env w

module _ {Fw Bins Rng : Type 0} (env : Env Fw Bins Rng) where
  pub pick_from_queue-IsReady :
      (w : World Fw Bins Rng) (id : Queue) (c : Bool) (target : ℕ)
      → IsReady env w
      → front id (side w.sq c) ≢ none
      → Returns (RoundIsReady env) (pick_from_queue w id c target)
  unfolding pick_from_queue SimQueue.pop
  pick_from_queue-IsReady w id c target k h = elim (Option-cases (front id (side w.sq c))) [
    | inl e ↦ absurd (h e)
    | inr (e, p) ↦
        rw (pop-front id (base_delay w.network c) (side w.sq c) e p, pick_from_queue)
          (record {
            client = k.client;
            server = k.server;
            sided = popped-IsSided id c w.sq k.sided;
            client_integrates = k.client_integrates;
            server_integrates = k.server_integrates;
          })
  ]

  pub fire_timer-IsReady :
      (w : World Fw Bins Rng) (target : ℕ)
      → IsReady env w
      → ((take_timer target 0 w.client.scheduled_internal_timer).0 ≢ none)
        ⊎ ((take_timer target 0 w.server.scheduled_internal_timer).0 ≢ none)
      → Returns (RoundIsReady env) (fire_timer w target)
  unfolding fire_timer do_internal_timer
  fire_timer-IsReady w target k h =
      go (take_timer target 0 w.client.scheduled_internal_timer)
        (take_timer target 0 w.server.scheduled_internal_timer) refl refl
    where
      go :
          (c s : Option MachineId × List (Option ℕ))
          → take_timer target 0 w.client.scheduled_internal_timer ≡ c
          → take_timer target 0 w.server.scheduled_internal_timer ≡ s
          → Returns (RoundIsReady env) (fire_timer w target)
      go (some m, ts) s p q =
          rw (p, fire_timer, do_internal_timer)
            (record {
              client = k.client;
              server = k.server;
              sided = push_sim-IsSided _ w.sq k.sided;
              client_integrates = k.client_integrates;
              server_integrates = k.server_integrates;
            })
      go (none, ts) (some m, ts') p q =
          rw (p, q, fire_timer, do_internal_timer)
            (record {
              client = k.client;
              server = k.server;
              sided = push_sim-IsSided _ w.sq k.sided;
              client_integrates = k.client_integrates;
              server_integrates = k.server_integrates;
            })
      go (none, ts) (none, ts') p q = absurd (ground arith)

module _ {Fw Bins Rng : Type 0} (env : Env Fw Bins Rng) where
  -- The actions that are still scheduled, and the integration.
  abbrev KeepsActions : SimState Fw Bins → SimEvent × SimState Fw Bins × Rng → Type 0
  KeepsActions s (e, s', rng) =
      (s'.scheduled_action ≡ s.scheduled_action) × (s'.integration ≡ s.integration)

  start_blocking_keeps :
      (time block : ℕ) (bypass replace : Bool) (s : SimState Fw Bins)
      → ((start_blocking time block bypass replace s).scheduled_action ≡ s.scheduled_action)
        × ((start_blocking time block bypass replace s).integration ≡ s.integration)
  unfolding start_blocking
  start_blocking_keeps time block bypass replace s = ground arith

  perform-KeepsActions :
      (a : TriggerAction) (time : ℕ) (c : Bool) (s : SimState Fw Bins) (rng : Rng)
      → HasTimeout a
      → CanIntegrate env s.integration
      → Returns (KeepsActions s) (perform env a time c s rng)
  unfolding perform
  perform-KeepsActions (TriggerAction.cancel m t) time c s rng h i = absurd h
  perform-KeepsActions (TriggerAction.update_timer d r m) time c s rng h i = absurd h
  perform-KeepsActions (TriggerAction.send_padding t b r m) time c s rng h i =
      Returns-bind (KeepsActions s) _ (action_delay env s rng) _ (action_delay-Returns env s rng i)
        (λ d u. (refl, refl))
  perform-KeepsActions (TriggerAction.block_outgoing t d b r m) time c s rng h i =
      Returns-bind (KeepsActions s) _ (action_delay env s rng) _ (action_delay-Returns env s rng i)
        (λ x u.
          Returns-bind (KeepsActions s) _ (reporting_delay env s x.1) _
            (reporting_delay-Returns env s x.1 i)
            (λ y v. start_blocking_keeps time (time + d) b r s))

  abbrev without : SimState Fw Bins → List (Option ScheduledAction) → SimState Fw Bins
  without s rest = record s { scheduled_action = rest }

  pub fire_action-IsReady :
      (w : World Fw Bins Rng) (target : ℕ)
      → IsReady env w
      → ((take_action target w.client.scheduled_action).0 ≢ none)
        ⊎ ((take_action target w.server.scheduled_action).0 ≢ none)
      → Returns (RoundIsReady env) (fire_action env w target)
  unfolding fire_action do_scheduled_action
  fire_action-IsReady w target k h =
      go (take_action target w.client.scheduled_action)
        (take_action target w.server.scheduled_action) refl refl
        (take_action-IsTimed target w.client.scheduled_action k.client)
        (take_action-IsTimed target w.server.scheduled_action k.server)
    where
      go :
          (c s : Option ScheduledAction × List (Option ScheduledAction))
          → take_action target w.client.scheduled_action ≡ c
          → take_action target w.server.scheduled_action ≡ s
          → IsTimed (take_action target w.client.scheduled_action).0
            × All IsTimed (take_action target w.client.scheduled_action).1
          → IsTimed (take_action target w.server.scheduled_action).0
            × All IsTimed (take_action target w.server.scheduled_action).1
          → Returns (RoundIsReady env) (fire_action env w target)
      go (some a, rest) s p q tc ts =
          let tc' : HasTimeout a.action × All IsTimed rest = rw p at tc in
          let (r, e, kept) =
            Returns-ok (KeepsActions (without w.client rest))
              (perform env a.action a.time true (without w.client rest) w.rng)
              (perform-KeepsActions a.action a.time true (without w.client rest) w.rng tc'.0
                k.client_integrates) in
          rw (p, e, fire_action, do_scheduled_action)
            (record {
              client = rw kept.0 tc'.1;
              server = k.server;
              sided = push_sim-IsSided r.0 w.sq k.sided;
              client_integrates = rw kept.1 k.client_integrates;
              server_integrates = k.server_integrates;
            })
      go (none, rest) (some a, rest') p q tc ts =
          let ts' : HasTimeout a.action × All IsTimed rest' = rw q at ts in
          let (r, e, kept) =
            Returns-ok (KeepsActions (without w.server rest'))
              (perform env a.action a.time false (without w.server rest') w.rng)
              (perform-KeepsActions a.action a.time false (without w.server rest') w.rng ts'.0
                k.server_integrates) in
          rw (p, q, e, fire_action, do_scheduled_action)
            (record {
              client = k.client;
              server = rw kept.0 ts'.1;
              sided = push_sim-IsSided r.0 w.sq k.sided;
              client_integrates = k.client_integrates;
              server_integrates = rw kept.1 k.server_integrates;
            })
      go (none, rest) (none, rest') p q tc ts = absurd (ground arith)

  pub expire_blocking-IsReady :
      (w : World Fw Bins Rng) (expiry : ℕ) (c : Bool)
      → IsReady env w
      → Returns (RoundIsReady env) (expire_blocking env w expiry c)
  unfolding expire_blocking
  expire_blocking-IsReady w expiry true k =
      Returns-bind (RoundIsReady env) _ (reporting_delay env w.client w.rng) _
        (reporting_delay-Returns env w.client w.rng k.client_integrates)
        (λ d u.
          if-either (RoundIsReady env) (ltb 0 d.0) _ _
            (record {
              client = k.client;
              server = k.server;
              sided = push_sim-IsSided _ w.sq k.sided;
              client_integrates = k.client_integrates;
              server_integrates = k.server_integrates;
            })
            (record {
              client = k.client;
              server = k.server;
              sided = k.sided;
              client_integrates = k.client_integrates;
              server_integrates = k.server_integrates;
            }))
  expire_blocking-IsReady w expiry false k =
      Returns-bind (RoundIsReady env) _ (reporting_delay env w.server w.rng) _
        (reporting_delay-Returns env w.server w.rng k.server_integrates)
        (λ d u.
          if-either (RoundIsReady env) (ltb 0 d.0) _ _
            (record {
              client = k.client;
              server = k.server;
              sided = push_sim-IsSided _ w.sq k.sided;
              client_integrates = k.client_integrates;
              server_integrates = k.server_integrates;
            })
            (record {
              client = k.client;
              server = k.server;
              sided = k.sided;
              client_integrates = k.client_integrates;
              server_integrates = k.server_integrates;
            }))
