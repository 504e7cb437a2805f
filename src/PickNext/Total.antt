-- ===== src/PickNext/Total.antt =====
-- `pick_next` returns, and keeps the world ready for the next call.
use maybenot_simv.Base.{
  ℕ, zero, suc, ◌+◌, ◌≤◌, ◌<◌, Bool, Option, ◌≡◌, refl, arith, inl, inr, Bool-cases,
}
use maybenot_simv.Outcome.{Outcome, ok, panic, out_of_fuel, Returns, Returns-ok}
use maybenot_simv.SimEvent.{SimEvent, duration_max}
use maybenot_simv.EventQueue.{Queue}
use maybenot_simv.SimState.{Env}
use maybenot_simv.QueuePeek.{peek_blocked_exp}
use maybenot_simv.QueuePeek.Bounds.{peek_queue-le}
use maybenot_simv.QueuePeek.Points.{Points, peek_queue-Points}
use maybenot_simv.QueuePeek.Due.{peek_scheduled_action_due, peek_scheduled_internal_timer_due}
use maybenot_simv.PickNext.{
  World, Round, done, again, Durations, durations, earliest_other, pending_work, nothing_left,
  delay_first, expiry_first, queue_first, timer_first, choose, choose_at, look_at_queue, pick_round,
  pick_next,
}
use maybenot_simv.PickNext.Peeked.{
  Peeked, durations-Peeked, queue_first-lt, timer_first-lt, action_first-lt,
}
use maybenot_simv.PickNext.Termination.{pick_round_work}
use maybenot_simv.PickNext.Ready.{
  IsReady, RoundIsReady, pick_from_queue-IsReady, fire_timer-IsReady, fire_action-IsReady,
  expire_blocking-IsReady,
}

module _ {Fw Bins Rng : Type 0} (env : Env Fw Bins Rng) where
  choose-IsReady :
      (w : World Fw Bins Rng) (now : ℕ) (r : ℕ × Queue × Bool)
      → IsReady env w
      → r.0 ≤ duration_max
      → Points w.sq r
      → Returns (RoundIsReady env) (choose_at env w now r)
  unfolding choose
  choose-IsReady w now (q, id, c) k l points = elim (Bool-cases (nothing_left d)) [
    | inl t ↦ rw (t, choose) k
    | inr left ↦ elim (Bool-cases (delay_first d)) [
      | inl t ↦
          rw (left, t, choose)
            (record {
              client = k.client;
              server = k.server;
              sided = k.sided;
              client_integrates = k.client_integrates;
              server_integrates = k.server_integrates;
            })
      | inr e0 ↦ elim (Bool-cases (expiry_first d)) [
        | inl t ↦ rw (left, e0, t, choose) (expire_blocking-IsReady env w (now + d.b) b k)
        | inr e1 ↦ elim (Bool-cases (queue_first d)) [
          | inl t ↦
              rw (left, e0, e1, t, choose)
                (pick_from_queue-IsReady env w id c (now + d.q) k
                  (points (queue_first-lt w d b peeked left e0 e1 t)))
          | inr e2 ↦ elim (Bool-cases (timer_first d)) [
            | inl t ↦
                rw (left, e0, e1, e2, t, choose)
                  (fire_timer-IsReady env w (now + d.i) k (
                    peek_scheduled_internal_timer_due w.client.scheduled_internal_timer
                      w.server.scheduled_internal_timer now
                      (timer_first-lt w d b peeked left e0 e1 e2 t)))
            | inr e3 ↦
                rw (left, e0, e1, e2, e3, choose)
                  (fire_action-IsReady env w (now + d.s) k (
                    peek_scheduled_action_due w.client.scheduled_action w.server.scheduled_action
                      now (action_first-lt w d b peeked left e0 e1 e2 e3)))
          ]
        ]
      ]
    ]
  ]
    where
      d : Durations
      d = durations w now q

      b : Bool
      b = (peek_blocked_exp w.client.blocking_until w.server.blocking_until now).1

      peeked : Peeked w d b
      peeked = durations-Peeked w now q l

  pick_round-IsReady :
      (w : World Fw Bins Rng) (now : ℕ)
      → IsReady env w
      → Returns (RoundIsReady env) (pick_round env w now)
  unfolding pick_round look_at_queue
  pick_round-IsReady w now k =
      let (r, looked, points) = Returns-ok (Points w.sq) (look_at_queue w now) (
        peek_queue-Points w.sq w.client w.server w.network.client_aggregate_base_delay
          w.network.server_aggregate_base_delay (earliest_other (durations w now 0)) now k.sided) in
      rw (looked, pick_round)
        (choose-IsReady w now r k
          (peek_queue-le w.sq w.client w.server w.network.client_aggregate_base_delay
            w.network.server_aggregate_base_delay (earliest_other (durations w now 0)) now r looked)
          points)

  abbrev pub ResultIsReady : Option SimEvent × World Fw Bins Rng → Type 0
  ResultIsReady (e, w) = IsReady env w

  -- When the scheduled actions have timeouts, the events stand on their own sides and the delays of
  -- both integrations can be sampled, and with more fuel than there is work pending, `pick_next`
  -- neither panics nor runs out of fuel, with times that have no upper bound, and the world that it
  -- leaves is such a world again.
  pub pick_next-total :
      (fuel : ℕ) (w : World Fw Bins Rng) (now : ℕ)
      → pending_work w < fuel
      → IsReady env w
      → Returns ResultIsReady (pick_next env fuel w now)
  unfolding pick_next
  pick_next-total zero w now l k = absurd (omega arith)
  pick_next-total (suc fuel) w now l k =
      go (λ v h. pick_next-total fuel v now h) (pick_round env w now) refl
        (pick_round-IsReady w now k)
    where
      go :
          ((v : World Fw Bins Rng)
            → pending_work v < fuel
            → IsReady env v
            → Returns ResultIsReady (pick_next env fuel v now))
          → (r : Outcome (Round Fw Bins Rng)) → pick_round env w now ≡ r
          → Returns (RoundIsReady env) r
          → Returns ResultIsReady (pick_next env (suc fuel) w now)
      go ih (ok (done x v)) p h = rw (p, pick_next) h
      go ih (ok (again v)) p h =
          rw (p, pick_next) (ih v (omega (arith, pick_round_work env w v now p)) h)
      go ih (panic b) p h = absurd h
      go ih out_of_fuel p h = absurd h
