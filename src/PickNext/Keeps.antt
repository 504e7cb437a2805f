-- ===== src/PickNext/Keeps.antt =====
-- What `pick_next` keeps of the world: the frameworks, the places for actions and timers, and that
-- no event lies before the delay that is subtracted from it.
use maybenot_simv.Base.{
  ℕ, zero, suc, ◌+◌, Bool, true, false, List, Option, none, some, ◌≡◌, refl, ◌∙◌, inl, inr,
  Bool-cases, length, ltb,
}
use maybenot_simv.Outcome.{Outcome, ok, panic, out_of_fuel, IfOk, IfOk-bind}
use maybenot_simv.Event.{TriggerAction}
use maybenot_simv.SimEvent.{SimEvent}
use maybenot_simv.EventQueue.{Queue}
use maybenot_simv.SimQueue.Covered.{IsCoveredEvent, CoveredIfSome, push_sim-IsCovered}
use maybenot_simv.SimState.{Env, SimState, ScheduledAction, action_delay, reporting_delay}
use maybenot_simv.QueuePeek.{peek_blocked_exp}
use maybenot_simv.Timers.{take_action, perform, start_blocking, do_scheduled_action}
use maybenot_simv.PickNext.{
  World, Round, done, again, Durations, durations, fire_action, expire_blocking, nothing_left,
  delay_first, expiry_first, queue_first, timer_first, choose, choose_at, look_at_queue, pick_round,
  pick_next,
}
use maybenot_simv.PickNext.Places.{
  Slots, Holds, RoundHolds, if-either, length-take_action, pick_from_queue-Holds, fire_timer-Holds,
}

module _ {Fw Bins Rng : Type 0} (env : Env Fw Bins Rng) where
  -- The event is covered, and the side keeps its places.
  abbrev Performed : Fw → ℕ → SimEvent × SimState Fw Bins × Rng → Type 0
  Performed fw n (e, s, rng) = IsCoveredEvent e × Slots fw n s

  abbrev without : SimState Fw Bins → List (Option ScheduledAction) → SimState Fw Bins
  without s rest = record s { scheduled_action = rest }

  start_blocking-Slots :
      (fw : Fw) (n t b : ℕ) (bypass replace : Bool) (s : SimState Fw Bins)
      → Slots fw n s
      → Slots fw n (start_blocking t b bypass replace s)
  unfolding start_blocking
  start_blocking-Slots fw n t b bypass replace s k = if-either (Slots fw n) _ _ _ k k

  perform-Performed :
      (fw : Fw) (n : ℕ) (a : TriggerAction) (time : ℕ) (c : Bool) (s : SimState Fw Bins) (rng : Rng)
      → Slots fw n s
      → IfOk (Performed fw n) (perform env a time c s rng)
  unfolding perform
  perform-Performed fw n (TriggerAction.cancel m t) time c s rng k = tt
  perform-Performed fw n (TriggerAction.update_timer d r m) time c s rng k = tt
  perform-Performed fw n (TriggerAction.send_padding t b r m) time c s rng k =
      IfOk-bind (Performed fw n) (action_delay env s rng) _ (λ d. (tt, k))
  perform-Performed fw n (TriggerAction.block_outgoing t d b r m) time c s rng k =
      IfOk-bind (Performed fw n) (action_delay env s rng) _ (λ x.
        IfOk-bind (Performed fw n) (reporting_delay env s x.1) _
          (λ y. (tt, start_blocking-Slots fw n time (time + d) b r s k)))

  module _ (fc fs : Fw) (nc ns : ℕ) where
    fire_action-Holds :
        (w : World Fw Bins Rng) (target : ℕ)
        → Holds fc fs nc ns w
        → IfOk (RoundHolds fc fs nc ns) (fire_action env w target)
    unfolding fire_action do_scheduled_action
    fire_action-Holds w target k =
        go (take_action target w.client.scheduled_action)
          (take_action target w.server.scheduled_action) refl refl
          (length-take_action target w.client.scheduled_action)
          (length-take_action target w.server.scheduled_action)
      where
        client_acts :
            (a : ScheduledAction) (rest : List (Option ScheduledAction))
            → take_action target w.client.scheduled_action ≡ (some a, rest)
            → (m : Outcome (SimEvent × SimState Fw Bins × Rng))
            → perform env a.action a.time true (without w.client rest) w.rng ≡ m
            → IfOk (Performed fc nc) m
            → IfOk (RoundHolds fc fs nc ns) (fire_action env w target)
        client_acts a rest p (ok (e, s, rng)) u h =
            rw (p, u, fire_action, do_scheduled_action)
              (record {
                client = h.1;
                server = k.server;
                covered = push_sim-IsCovered e w.sq h.0 k.covered;
              })
        client_acts a rest p (panic b) u h = rw (p, u, fire_action, do_scheduled_action) tt
        client_acts a rest p out_of_fuel u h = rw (p, u, fire_action, do_scheduled_action) tt

        server_acts :
            (a : ScheduledAction) (none_due rest : List (Option ScheduledAction))
            → take_action target w.client.scheduled_action ≡ (none, none_due)
            → take_action target w.server.scheduled_action ≡ (some a, rest)
            → (m : Outcome (SimEvent × SimState Fw Bins × Rng))
            → perform env a.action a.time false (without w.server rest) w.rng ≡ m
            → IfOk (Performed fs ns) m
            → IfOk (RoundHolds fc fs nc ns) (fire_action env w target)
        server_acts a none_due rest p q (ok (e, s, rng)) u h =
            rw (p, q, u, fire_action, do_scheduled_action)
              (record {
                client = k.client;
                server = h.1;
                covered = push_sim-IsCovered e w.sq h.0 k.covered;
              })
        server_acts a none_due rest p q (panic b) u h =
            rw (p, q, u, fire_action, do_scheduled_action) tt
        server_acts a none_due rest p q out_of_fuel u h =
            rw (p, q, u, fire_action, do_scheduled_action) tt

        go :
            (c s : Option ScheduledAction × List (Option ScheduledAction))
            → take_action target w.client.scheduled_action ≡ c
            → take_action target w.server.scheduled_action ≡ s
            → length (take_action target w.client.scheduled_action).1
              ≡ length w.client.scheduled_action
            → length (take_action target w.server.scheduled_action).1
              ≡ length w.server.scheduled_action
            → IfOk (RoundHolds fc fs nc ns) (fire_action env w target)
        go (some a, rest) s p q lc ls =
            let l : length rest ≡ length w.client.scheduled_action = rw p at lc in
            client_acts a rest p _ refl (
              perform-Performed fc nc a.action a.time true (without w.client rest) w.rng
                (k.client.0, l ∙ k.client.1, k.client.2))
        go (none, rest) (some a, rest') p q lc ls =
            let l : length rest' ≡ length w.server.scheduled_action = rw q at ls in
            server_acts a rest rest' p q _ refl (
              perform-Performed fs ns a.action a.time false (without w.server rest') w.rng
                (k.server.0, l ∙ k.server.1, k.server.2))
        go (none, rest) (none, rest') p q lc ls = rw (p, q, fire_action, do_scheduled_action) tt

    expire_blocking-Holds :
        (w : World Fw Bins Rng) (expiry : ℕ) (c : Bool)
        → Holds fc fs nc ns w
        → IfOk (RoundHolds fc fs nc ns) (expire_blocking env w expiry c)
    unfolding expire_blocking
    expire_blocking-Holds w expiry true k =
        IfOk-bind (RoundHolds fc fs nc ns) (reporting_delay env w.client w.rng) _ (λ d.
          if-either (RoundHolds fc fs nc ns) (ltb 0 d.0) _ _
            (record {
              client = k.client;
              server = k.server;
              covered = push_sim-IsCovered _ w.sq tt k.covered;
            })
            (tt, record { client = k.client; server = k.server; covered = k.covered }))
    expire_blocking-Holds w expiry false k =
        IfOk-bind (RoundHolds fc fs nc ns) (reporting_delay env w.server w.rng) _ (λ d.
          if-either (RoundHolds fc fs nc ns) (ltb 0 d.0) _ _
            (record {
              client = k.client;
              server = k.server;
              covered = push_sim-IsCovered _ w.sq tt k.covered;
            })
            (tt, record { client = k.client; server = k.server; covered = k.covered }))

    choose-Holds :
        (w : World Fw Bins Rng) (now : ℕ) (d : Durations) (b : Bool) (id : Queue) (c : Bool)
        → Holds fc fs nc ns w
        → IfOk (RoundHolds fc fs nc ns) (choose env w now d b id c)
    unfolding choose
    choose-Holds w now d b id c k = elim (Bool-cases (nothing_left d)) [
      | inl t ↦ rw (t, choose) (tt, k)
      | inr left ↦ elim (Bool-cases (delay_first d)) [
        | inl t ↦
            rw (left, t, choose)
              (record { client = k.client; server = k.server; covered = k.covered })
        | inr e0 ↦ elim (Bool-cases (expiry_first d)) [
          | inl t ↦ rw (left, e0, t, choose) (expire_blocking-Holds w (now + d.b) b k)
          | inr e1 ↦ elim (Bool-cases (queue_first d)) [
            | inl t ↦
                rw (left, e0, e1, t, choose)
                  (pick_from_queue-Holds fc fs nc ns w id c (now + d.q) k)
            | inr e2 ↦ elim (Bool-cases (timer_first d)) [
              | inl t ↦
                  rw (left, e0, e1, e2, t, choose) (fire_timer-Holds fc fs nc ns w (now + d.i) k)
              | inr e3 ↦ rw (left, e0, e1, e2, e3, choose) (fire_action-Holds w (now + d.s) k)
            ]
          ]
        ]
      ]
    ]

    pick_round-Holds :
        (w : World Fw Bins Rng) (now : ℕ)
        → Holds fc fs nc ns w
        → IfOk (RoundHolds fc fs nc ns) (pick_round env w now)
    unfolding pick_round
    pick_round-Holds w now k =
        IfOk-bind (RoundHolds fc fs nc ns) (look_at_queue w now) (choose_at env w now) (λ r.
          choose-Holds w now (durations w now r.0)
            (peek_blocked_exp w.client.blocking_until w.server.blocking_until now).1 r.1 r.2 k)

    abbrev pub ResultHolds : Option SimEvent × World Fw Bins Rng → Type 0
    ResultHolds (e, w) = CoveredIfSome e × Holds fc fs nc ns w

    pub pick_next-Holds :
        (fuel : ℕ) (w : World Fw Bins Rng) (now : ℕ)
        → Holds fc fs nc ns w
        → IfOk ResultHolds (pick_next env fuel w now)
    unfolding pick_next
    pick_next-Holds zero w now k = tt
    pick_next-Holds (suc fuel) w now k =
        go (λ v h. pick_next-Holds fuel v now h) (pick_round env w now) refl
          (pick_round-Holds w now k)
      where
        go :
            ((v : World Fw Bins Rng)
              → Holds fc fs nc ns v
              → IfOk ResultHolds (pick_next env fuel v now))
            → (r : Outcome (Round Fw Bins Rng)) → pick_round env w now ≡ r
            → IfOk (RoundHolds fc fs nc ns) r
            → IfOk ResultHolds (pick_next env (suc fuel) w now)
        go ih (ok (done x v)) p h = rw (p, pick_next) h
        go ih (ok (again v)) p h = rw (p, pick_next) (ih v h)
        go ih (panic b) p h = rw (p, pick_next) tt
        go ih out_of_fuel p h = rw (p, pick_next) tt
