-- ===== src/PickNext/Work.antt =====
-- The work that is left for `pick_next` falls in every round.
use maybenot_simv.Base.{
  ℕ, suc, ◌+◌, ◌≤◌, ◌<◌, Bool, true, false, List, [], ◌∷◌, Option, none, some, ◌≡◌, ◌≢◌, refl,
  arith, length,
}
use maybenot_simv.Outcome.{ok, >>=-eq-ok}
use maybenot_simv.Event.{TriggerAction}
use maybenot_simv.SimEvent.{SimEvent}
use maybenot_simv.BinaryHeap.Order.{length-push}
use maybenot_simv.SimState.{Env, SimState, ScheduledAction}
use maybenot_simv.Network.{NetworkBottleneck, push_aggregate_delay, base_delay}
use maybenot_simv.SimQueue
use maybenot_simv.NetworkStack.{push_delay_if}
use maybenot_simv.Delay.{agg_delay_on_blocking_expire}
use maybenot_simv.Timers.{
  Sides, take_timer, take_action, start_blocking, perform, do_internal_timer, do_scheduled_action,
}
use maybenot_simv.PickNext.{
  World, count_set, one_if_set, state_work, pending_work, delay_for, delay_on_expiry, fire_timer,
  fire_action, expire_blocking, again, side_state, unblock,
}

length-push_delay :
    (d now : ℕ) (c : Bool) (n : NetworkBottleneck)
    → length (push_aggregate_delay d now c n).aggregate_delay_queue
      ≡ length n.aggregate_delay_queue + 2
unfolding push_aggregate_delay
length-push_delay d now c n = simp length-push (omega arith)

length-push_delay_if :
    (d : Option ℕ) (now : ℕ) (c : Bool) (n : NetworkBottleneck)
    → length (push_delay_if d now c n).aggregate_delay_queue ≤ length n.aggregate_delay_queue + 2
length-push_delay_if none now c n = omega arith
length-push_delay_if (some d) now c n = omega (arith, length-push_delay d now c n)

count-take_timer :
    (target id : ℕ) (ts : List (Option ℕ))
    → count_set (take_timer target id ts).1 + one_if_set (take_timer target id ts).0 ≡ count_set ts
unfolding take_timer count_set
count-take_timer target id [] = omega arith
count-take_timer target id (none ∷ ts) = count-take_timer target (suc id) ts
count-take_timer target id (some t ∷ ts) = ground (arith, count-take_timer target (suc id) ts)

count-take_action :
    (target : ℕ) (actions : List (Option ScheduledAction))
    → count_set (take_action target actions).1 + one_if_set (take_action target actions).0
      ≡ count_set actions
unfolding take_action count_set
count-take_action target [] = omega arith
count-take_action target (none ∷ rest) = count-take_action target rest
count-take_action target (some b ∷ rest) = ground (arith, count-take_action target rest)

module _ {Fw Bins : Type 0} where
  timer_work :
      (client server : SimState Fw Bins) (target : ℕ) (r : SimEvent × Sides Fw Bins)
      → do_internal_timer (client, server) target ≡ ok r
      → state_work r.1.0 + state_work r.1.1 < state_work client + state_work server
  unfolding do_internal_timer
  timer_work client server target r h = ground (
    arith,
    count-take_timer target 0 client.scheduled_internal_timer,
    count-take_timer target 0 server.scheduled_internal_timer,
  )

  blocking_work :
      (time block : ℕ) (bypass replace : Bool) (s : SimState Fw Bins)
      → state_work (start_blocking time block bypass replace s) ≤ state_work s + 3
  unfolding start_blocking
  blocking_work time block bypass replace s = ground arith

module _ {Fw Bins Rng : Type 0} (env : Env Fw Bins Rng) where
  perform_work :
      (a : TriggerAction) (time : ℕ) (c : Bool) (s : SimState Fw Bins) (rng : Rng)
      (r : SimEvent × SimState Fw Bins × Rng)
      → perform env a time c s rng ≡ ok r
      → state_work r.1 ≤ state_work s + 3
  unfolding perform
  perform_work (TriggerAction.cancel m t) time c s rng r h = cc
  perform_work (TriggerAction.update_timer d p m) time c s rng r h = cc
  perform_work (TriggerAction.send_padding t b p m) time c s rng r h = ground arith
  perform_work (TriggerAction.block_outgoing t d b p m) time c s rng r h =
      ground (arith, blocking_work time (time + d) b p s)

  abbrev without : SimState Fw Bins → List (Option ScheduledAction) → SimState Fw Bins
  without s rest = record s { scheduled_action = rest }

  action_work :
      (client server : SimState Fw Bins) (target : ℕ) (rng : Rng)
      (r : SimEvent × Sides Fw Bins × Rng)
      → do_scheduled_action env (client, server) target rng ≡ ok r
      → state_work r.1.0 + state_work r.1.1 < state_work client + state_work server
  unfolding do_scheduled_action
  action_work client server target rng r h =
      go (take_action target client.scheduled_action) (take_action target server.scheduled_action)
        refl refl
    where
      go :
          (c s : Option ScheduledAction × List (Option ScheduledAction))
          → take_action target client.scheduled_action ≡ c
          → take_action target server.scheduled_action ≡ s
          → state_work r.1.0 + state_work r.1.1 < state_work client + state_work server
      go (some a, rest) s p q =
          let (x, e, f) =
            >>=-eq-ok (perform env a.action a.time true (without client rest) rng) _
              (rw (p, do_scheduled_action) at h) in
          ground (
            arith,
            count-take_action target client.scheduled_action,
            perform_work a.action a.time true (without client rest) rng x e,
          )
      go (none, rest) (some a, rest') p q =
          let (x, e, f) =
            >>=-eq-ok (perform env a.action a.time false (without server rest') rng) _
              (rw (p, q, do_scheduled_action) at h) in
          ground (
            arith,
            count-take_action target server.scheduled_action,
            perform_work a.action a.time false (without server rest') rng x e,
          )
      go (none, rest) (none, rest') p q = ground arith

module _ {Fw Bins Rng : Type 0} where
  pub fire_timer_work :
      (w v : World Fw Bins Rng) (target : ℕ)
      → fire_timer w target ≡ ok (again v)
      → pending_work v < pending_work w
  unfolding fire_timer
  fire_timer_work w v target h =
      let (x, e, f) = >>=-eq-ok (do_internal_timer (w.client, w.server) target) _ h in
      ground (arith, timer_work w.client w.server target x e)

  -- A blocking that is over is taken off.
  unblock_work :
      (w : World Fw Bins Rng) (c : Bool)
      → (side_state w c).blocking_until ≢ none
      → state_work (unblock w c).client + state_work (unblock w c).server + 3
        ≡ state_work w.client + state_work w.server
  unblock_work w true h = ground arith
  unblock_work w false h = ground arith

  length-delay_for :
      (w : World Fw Bins Rng) (expiry : ℕ) (c : Bool) (e : Option SimEvent)
      → length (delay_for w expiry c e).aggregate_delay_queue
        ≤ length w.network.aggregate_delay_queue + 2
  unfolding delay_for
  length-delay_for w expiry c none = omega arith
  length-delay_for w expiry c (some e) = ground (
    arith,
    length-push_delay_if (agg_delay_on_blocking_expire w.sq c expiry e (base_delay w.network c))
        expiry c w.network,
  )

  length-delay_on_expiry :
      (w : World Fw Bins Rng) (expiry : ℕ) (c : Bool)
      → length (delay_on_expiry w expiry c).aggregate_delay_queue
        ≤ length w.network.aggregate_delay_queue + 2
  unfolding delay_on_expiry
  length-delay_on_expiry w expiry c =
      length-delay_for w expiry c (SimQueue.peek_blocking w.sq false c).0

module _ {Fw Bins Rng : Type 0} (env : Env Fw Bins Rng) where
  pub fire_action_work :
      (w v : World Fw Bins Rng) (target : ℕ)
      → fire_action env w target ≡ ok (again v)
      → pending_work v < pending_work w
  unfolding fire_action
  fire_action_work w v target h =
      let (x, e, f) = >>=-eq-ok (do_scheduled_action env (w.client, w.server) target w.rng) _ h in
      ground (arith, action_work env w.client w.server target w.rng x e)

  pub expire_blocking_work :
      (w v : World Fw Bins Rng) (expiry : ℕ) (c : Bool)
      → (side_state w c).blocking_until ≢ none
      → expire_blocking env w expiry c ≡ ok (again v)
      → pending_work v < pending_work w
  unfolding expire_blocking
  expire_blocking_work w v expiry true b h =
      ground (arith, length-delay_on_expiry w expiry true, unblock_work w true b)
  expire_blocking_work w v expiry false b h =
      ground (arith, length-delay_on_expiry w expiry false, unblock_work w false b)
