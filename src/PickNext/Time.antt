-- ===== src/PickNext/Time.antt =====
-- `pick_next` never moves time backwards.
use maybenot_simv.Base.{ℕ, zero, suc, ◌+◌, ◌≤◌, Bool, Option, some, ◌≡◌, ◌≢◌, refl, arith}
use maybenot_simv.Outcome.{Outcome, ok, panic, out_of_fuel, >>=-eq-ok}
use maybenot_simv.SimEvent.{SimEvent}
use maybenot_simv.EventQueue.{Queue}
use maybenot_simv.SimState.{Env}
use maybenot_simv.QueuePeek.{peek_blocked_exp}
use maybenot_simv.PickNext.{
  World, Round, done, again, Durations, pick_from_queue, expire_blocking, fire_timer, fire_action,
  choose, choose_at, durations, look_at_queue, pick_round, pick_next,
}

module _ {Fw Bins Rng : Type 0} where
  pick_from_queue-le :
      (w w' : World Fw Bins Rng) (id : Queue) (is_client : Bool) (now t : ℕ) (e : SimEvent)
      → pick_from_queue w id is_client (now + t) ≡ ok (done (some e) w')
      → now ≤ e.time
  unfolding pick_from_queue
  pick_from_queue-le w w' id is_client now t e h = ground arith

  fire_timer-ne-done :
      (w w' : World Fw Bins Rng) (t : ℕ) (e : Option SimEvent) → fire_timer w t ≢ ok (done e w')
  unfolding fire_timer
  fire_timer-ne-done w w' t e h = ground arith

module _ {Fw Bins Rng : Type 0} (env : Env Fw Bins Rng) where
  expire_blocking-le :
      (w w' : World Fw Bins Rng) (is_client : Bool) (now t : ℕ) (e : SimEvent)
      → expire_blocking env w (now + t) is_client ≡ ok (done (some e) w')
      → now ≤ e.time
  unfolding expire_blocking
  expire_blocking-le w w' is_client now t e h = ground arith

  fire_action-ne-done :
      (w w' : World Fw Bins Rng) (t : ℕ) (e : Option SimEvent)
      → fire_action env w t ≢ ok (done e w')
  unfolding fire_action
  fire_action-ne-done w w' t e h = ground arith

  choose-le :
      (w w' : World Fw Bins Rng) (now : ℕ) (d : Durations) (b : Bool) (id : Queue) (c : Bool)
      (e : SimEvent)
      → choose env w now d b id c ≡ ok (done (some e) w')
      → now ≤ e.time
  unfolding choose
  choose-le w w' now d b id c e h = ground (
    arith,
    pick_from_queue-le w w' id c now d.q e,
    expire_blocking-le w w' b now d.b e,
    fire_timer-ne-done w w' (now + d.i) (some e),
    fire_action-ne-done w w' (now + d.s) (some e),
  )

  pick_round-le :
      (w w' : World Fw Bins Rng) (now : ℕ) (e : SimEvent)
      → pick_round env w now ≡ ok (done (some e) w')
      → now ≤ e.time
  unfolding pick_round
  pick_round-le w w' now e h =
      let (r, _, chosen) = >>=-eq-ok (look_at_queue w now) (choose_at env w now) h in
      choose-le w w' now (durations w now r.0)
        (peek_blocked_exp w.client.blocking_until w.server.blocking_until now).1 r.1 r.2 e chosen

  -- The event that `pick_next` returns does not take place before the current time.
  pub pick_next-le :
      (fuel : ℕ) (w w' : World Fw Bins Rng) (now : ℕ) (e : SimEvent)
      → pick_next env fuel w now ≡ ok (some e, w')
      → now ≤ e.time
  unfolding pick_next
  pick_next-le zero w w' now e h = cc
  pick_next-le (suc fuel) w w' now e h =
      go (λ v. pick_next-le fuel v w' now e) (pick_round env w now) refl
    where
      go :
          ((v : World Fw Bins Rng) → pick_next env fuel v now ≡ ok (some e, w') → now ≤ e.time)
          → (r : Outcome (Round Fw Bins Rng)) → pick_round env w now ≡ r
          → now ≤ e.time
      go ih (ok (done x v)) p = pick_round-le w w' now e (ground arith)
      go ih (ok (again v)) p = ih v (rw (p, pick_next) at h)
      go ih (panic b) p = ground arith
      go ih out_of_fuel p = ground arith
