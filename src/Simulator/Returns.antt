-- ===== src/Simulator/Returns.antt =====
-- The main loop of `sim_advanced` of crates/maybenot-simulator/src/lib.rs, with the framework of
-- crates/maybenot, never panics, and it ends where the arguments limit the iterations.
use maybenot_simv.Base.{
  ℕ, suc, Bool, true, false, List, Option, ◌≡◌, refl, sym, subst, arith, inl, inr, Bool-cases, All,
  length, not, ◌&&◌, ◌||◌,
}
use maybenot_simv.Outcome.{Outcome, ok, Returns, Returns-bind, Returns-ok, Returns-and, Returns-map}
use maybenot_simv.Event.{TriggerEvent}
use maybenot_simv.SimEvent.{SimEvent}
use maybenot_simv.SimQueue.{SimQueue}
use maybenot_simv.SimQueue.Sides.{IsSided}
use maybenot_simv.SimQueue.Covered.{IsCovered, IsCoveredEvent, CoversDelay, CoveredIfSome}
use maybenot_simv.SimState.{Env, SimState}
use maybenot_simv.SimState.Samples.{CanIntegrate}
use maybenot_simv.Network.{NetworkBottleneck}
use maybenot_simv.NetworkStack.{Net, sim_network_stack}
use maybenot_simv.NetworkStack.Fits.{
  QueueFits, StackFits, sub_duration-ok, sim_network_stack-StackFits,
}
use maybenot_simv.Platform.{Platform}
use maybenot_simv.Dist.Sampling.{Laws, Any}
use maybenot_simv.Framework.{Framework}
use maybenot_simv.TriggerUpdate.{trigger_update}
use maybenot_simv.TriggerUpdate.Running.{
  SideIsReady, ready, framework_env, trigger_update-SideIsReady,
}
use maybenot_simv.TriggerUpdate.Covered.{trigger_update-IsCovered}
use maybenot_simv.PickNext.{World, pick_next, pending_work, side_state}
use maybenot_simv.PickNext.Ready.{IsTimed}
use maybenot_simv.PickNext.Total.{ResultIsReady, pick_next-total}
use maybenot_simv.PickNext.Places.{Slots}
use maybenot_simv.PickNext.Keeps.{ResultHolds, pick_next-Holds}
use maybenot_simv.Simulator.{
  SimulatorArgs, Progress, adjusted_time, adjust, record_event, advance, sim_round, trigger_round,
  end_round, with_side_state,
}

adjusted_time-Returns :
    (k : TriggerEvent) (e : SimEvent) → CoversDelay k e → Returns Any (adjusted_time k e)
unfolding adjusted_time
adjusted_time-Returns TriggerEvent.normal_sent e h =
    let (r, p) = sub_duration-ok e.time e.integration_delay h in rw p tt
adjusted_time-Returns (TriggerEvent.padding_sent m) e h = tt
adjusted_time-Returns TriggerEvent.tunnel_sent e h = elim (Bool-cases e.contains_padding) [
  | inl t ↦ rw t tt
  | inr t ↦ let (r, p) = sub_duration-ok e.time e.integration_delay (h t) in rw (t, p) tt
]
adjusted_time-Returns TriggerEvent.tunnel_recv e h =
    let (r, p) = sub_duration-ok e.time e.integration_delay h in rw p tt
adjusted_time-Returns TriggerEvent.padding_recv e h =
    let (r, p) = sub_duration-ok e.time e.integration_delay h in rw p tt
adjusted_time-Returns TriggerEvent.normal_recv e h =
    let (r, p) = sub_duration-ok e.time e.integration_delay h in rw p tt
adjusted_time-Returns _ e h = tt

record_event-Returns :
    (args : SimulatorArgs) (activity : Bool) (e : SimEvent) (trace : List SimEvent)
    → IsCoveredEvent e
    → Returns Any (record_event args activity e trace)
unfolding record_event adjust
record_event-Returns args activity e trace h =
    elim (Bool-cases
      ((not args.only_network_activity || activity) && (not args.only_client_events || e.client))) [
        | inl t ↦
            let (r, p, _) =
              Returns-ok Any (adjusted_time e.event e) (adjusted_time-Returns e.event e h) in
            rw (t, p, record_event, adjust) tt
        | inr t ↦ rw (t, record_event) tt
      ]

module _ {F64 F32 Rng Bins : Type 0} (pl : Platform F64 F32 Rng) where
  -- A side with its framework and its places is ready beside another queue.
  again_ready :
      (s s' : SimState (Framework F64 F32 Rng) Bins) (sq sq' : SimQueue)
      → SideIsReady pl (s, sq)
      → Slots s.framework (length s.framework.machines) s'
      → All IsTimed s'.scheduled_action
      → IsSided sq'
      → SideIsReady pl (s', sq')
  again_ready s s' sq sq' k h t sided =
      ready (length s.framework.machines) s.framework (s', sq') refl k.running
        (record {
          integration = refl;
          framework = h.0;
          actions = h.1;
          timers = h.2;
          timed = t;
          sided = sided;
        })

  beside :
      (s : SimState (Framework F64 F32 Rng) Bins) (sq sq' : SimQueue)
      → SideIsReady pl (s, sq)
      → IsSided sq'
      → SideIsReady pl (s, sq')
  beside s sq sq' k sided =
      again_ready s s sq sq' k (refl, k.fits.actions, k.fits.timers) k.fits.timed sided

module _ {F64 F32 Rng Bins Rand : Type 0} (pl : Platform F64 F32 Rng)
    (sample : Bins → Rand → Outcome (ℕ × Rand)) where
  -- Both sides are ready, no event lies before the delay that is subtracted from it, and the delays
  -- of both integrations can be sampled.
  pub record WorldIsReady (w : World (Framework F64 F32 Rng) Bins Rand) : Type 0 where
    pub client : SideIsReady pl (w.client, w.sq)
    pub server : SideIsReady pl (w.server, w.sq)
    pub covered : IsCovered w.sq
    pub client_integrates : CanIntegrate (framework_env pl sample) w.client.integration
    pub server_integrates : CanIntegrate (framework_env pl sample) w.server.integration

  side_state-SideIsReady :
      (w : World (Framework F64 F32 Rng) Bins Rand) (c : Bool) (sq : SimQueue)
      → WorldIsReady w
      → IsSided sq
      → SideIsReady pl (side_state w c, sq)
  side_state-SideIsReady w true sq k s = beside pl w.client w.sq sq k.client s
  side_state-SideIsReady w false sq k s = beside pl w.server w.sq sq k.server s

  side_state_integrates :
      (w : World (Framework F64 F32 Rng) Bins Rand) (c : Bool)
      → WorldIsReady w
      → CanIntegrate (framework_env pl sample) (side_state w c).integration
  side_state_integrates w true k = k.client_integrates
  side_state_integrates w false k = k.server_integrates

  with_side_state-WorldIsReady :
      (w : World (Framework F64 F32 Rng) Bins Rand) (c : Bool)
      (s : SimState (Framework F64 F32 Rng) Bins) (sq : SimQueue) (n : NetworkBottleneck)
      (rng : Rand)
      → WorldIsReady w
      → SideIsReady pl (s, sq)
      → IsCovered sq
      → CanIntegrate (framework_env pl sample) s.integration
      → WorldIsReady (record (with_side_state w c s) { sq = sq; network = n; rng = rng })
  with_side_state-WorldIsReady w true s sq n rng k h covered i = record {
    client = h;
    server = beside pl w.server w.sq sq k.server h.fits.sided;
    covered = covered;
    client_integrates = i;
    server_integrates = k.server_integrates;
  }
  with_side_state-WorldIsReady w false s sq n rng k h covered i = record {
    client = beside pl w.client w.sq sq k.client h.fits.sided;
    server = h;
    covered = covered;
    client_integrates = k.client_integrates;
    server_integrates = i;
  }

module _ {F64 F32 Rng Bins Rand : Type 0} (pl : Platform F64 F32 Rng) (laws : Laws pl)
    (sample : Bins → Rand → Outcome (ℕ × Rand)) where
  abbrev pub env : Env (Framework F64 F32 Rng) Bins Rand
  env = framework_env pl sample

  abbrev pub Picked : Option SimEvent × World (Framework F64 F32 Rng) Bins Rand → Type 0
  Picked (e, w) = CoveredIfSome e × WorldIsReady pl sample w

  pub pick_next-Picked :
      (w : World (Framework F64 F32 Rng) Bins Rand) (now : ℕ)
      → WorldIsReady pl sample w
      → Returns Picked (pick_next env (suc (pending_work w)) w now)
  pick_next-Picked w now k =
      let nc = length w.client.framework.machines in
      let ns = length w.server.framework.machines in
      let total = pick_next-total env (suc (pending_work w)) w now (omega arith) (record {
        client = k.client.fits.timed;
        server = k.server.fits.timed;
        sided = k.client.fits.sided;
        client_integrates = k.client_integrates;
        server_integrates = k.server_integrates;
      }) in
      let kept =
        pick_next-Holds env w.client.framework w.server.framework nc ns (suc (pending_work w)) w now
          (record {
            client = (refl, k.client.fits.actions, k.client.fits.timers);
            server = (refl, k.server.fits.actions, k.server.fits.timers);
            covered = k.covered;
          }) in
      let m = pick_next env (suc (pending_work w)) w now in
      Returns-map
        (λ r. ResultIsReady env r × ResultHolds env w.client.framework w.server.framework nc ns r)
        Picked m (Returns-and (ResultIsReady env) _ m total kept)
        (λ (e, v) h. (
          h.1.0,
          record {
            client =
                again_ready pl w.client v.client w.sq v.sq k.client h.1.1.client h.0.client
                  h.0.sided;
            server =
                again_ready pl w.server v.server w.sq v.sq k.server h.1.1.server h.0.server
                  h.0.sided;
            covered = h.1.1.covered;
            client_integrates = h.0.client_integrates;
            server_integrates = h.0.server_integrates;
          },
        ))

  abbrev pub RoundLeaves : Progress (Framework F64 F32 Rng) Bins Rand → Type 0
  RoundLeaves p = WorldIsReady pl sample p.world

  end_round-RoundLeaves :
      (args : SimulatorArgs) (next : SimEvent) (w : World (Framework F64 F32 Rng) Bins Rand)
      (trace : List SimEvent) (now : ℕ) (r : Bool × Net × Rand)
      (t : (SimState (Framework F64 F32 Rng) Bins × SimQueue) × Rand)
      → IsCoveredEvent next
      → WorldIsReady pl sample w
      → SideIsReady pl t.0
      → IsCovered t.0.1
      → CanIntegrate env t.0.0.integration
      → Returns RoundLeaves (end_round args next w trace now r t)
  end_round-RoundLeaves args next w trace now r t h k s c i =
      Returns-bind RoundLeaves Any (record_event args r.0 next trace) _
        (record_event-Returns args r.0 next trace h)
        (λ trace' _.
          with_side_state-WorldIsReady pl sample w next.client t.0.0 t.0.1 r.1.1 t.1 k s c i)

  trigger_round-RoundLeaves :
      (args : SimulatorArgs) (next : SimEvent) (w : World (Framework F64 F32 Rng) Bins Rand)
      (trace : List SimEvent) (now : ℕ) (r : Bool × Net × Rand)
      → IsCoveredEvent next
      → WorldIsReady pl sample w
      → QueueFits r.1.0
      → Returns RoundLeaves (trigger_round env args next w trace now r)
  trigger_round-RoundLeaves args next w trace now r h k q =
      let s = side_state w next.client in
      let m = trigger_update env s next now r.1.0 next.client r.2 in
      Returns-bind RoundLeaves
        (λ t. (SideIsReady pl t.0 × (t.0.0.integration ≡ s.integration)) × IsCovered t.0.1) m _
        (Returns-and _ _ m
          (trigger_update-SideIsReady pl laws sample s next now r.1.0 next.client r.2
            (side_state_integrates pl sample w next.client k)
            (side_state-SideIsReady pl sample w next.client r.1.0 k q.sided))
          (trigger_update-IsCovered env s next now r.1.0 next.client r.2 q.covered))
        (λ t g.
          end_round-RoundLeaves args next w trace now r t h k g.0.0 g.1 (
            subst (CanIntegrate env) (sym g.0.1) (side_state_integrates pl sample w next.client k)))

  pub sim_round-RoundLeaves :
      (args : SimulatorArgs) (next : SimEvent) (w : World (Framework F64 F32 Rng) Bins Rand)
      (now : ℕ) (trace : List SimEvent)
      → IsCoveredEvent next
      → WorldIsReady pl sample w
      → advance next now ≡ ok next.time
      → Returns RoundLeaves (sim_round env args next w now trace)
  unfolding sim_round
  sim_round-RoundLeaves args next w now trace h k a =
      rw (a, sim_round)
        (Returns-bind RoundLeaves (StackFits env)
          (sim_network_stack env next (side_state w next.client) (side_state w (not next.client))
            (w.sq, w.network) next.time w.rng)
          _
          (sim_network_stack-StackFits env next (side_state w next.client)
            (side_state w (not next.client)) w.sq w.network next.time w.rng
            (side_state_integrates pl sample w (not next.client) k) h
            (record { sided = k.client.fits.sided; covered = k.covered }))
          (λ r f. trigger_round-RoundLeaves args next w trace next.time r h k f))
