-- ===== src/PickNext/Termination.antt =====
-- `pick_next` returns: the rounds that it makes are bounded by the work that is pending.
use maybenot_simv.Base.{ℕ, ◌+◌, ◌<◌, Bool, ◌≡◌, ◌≢◌, arith, [], length, inl, inr, Bool-cases}
use maybenot_simv.Outcome.{ok, >>=-eq-ok}
use maybenot_simv.EventQueue.{Queue}
use maybenot_simv.SimState.{Env}
use maybenot_simv.Network.{NetworkBottleneck, pop_aggregate_delay}
use maybenot_simv.QueuePeek.{peek_blocked_exp}
use maybenot_simv.QueuePeek.Bounds.{peek_queue-le}
use maybenot_simv.PickNext.{
  World, again, Durations, durations, earliest_other, pending_work, nothing_left, delay_first,
  expiry_first, queue_first, timer_first, choose, choose_at, look_at_queue, pick_from_queue,
  pick_round,
}
use maybenot_simv.PickNext.Work.{fire_timer_work, fire_action_work, expire_blocking_work}
use maybenot_simv.PickNext.Peeked.{Peeked, durations-Peeked, delay_first-lt, expiry_first-lt}

pop_work :
    (n : NetworkBottleneck)
    → n.aggregate_delay_queue ≢ []
    → length (pop_aggregate_delay n).aggregate_delay_queue < length n.aggregate_delay_queue
unfolding pop_aggregate_delay
pop_work n h = ground arith

module _ {Fw Bins Rng : Type 0} where
  pick_from_queue-ne-again :
      (w v : World Fw Bins Rng) (id : Queue) (c : Bool) (t : ℕ)
      → pick_from_queue w id c t ≢ ok (again v)
  unfolding pick_from_queue
  pick_from_queue-ne-again w v id c t h = ground arith

module _ {Fw Bins Rng : Type 0} (env : Env Fw Bins Rng) where
  choose_work :
      (w v : World Fw Bins Rng) (now : ℕ) (d : Durations) (b : Bool) (id : Queue) (c : Bool)
      → Peeked w d b
      → choose env w now d b id c ≡ ok (again v)
      → pending_work v < pending_work w
  unfolding choose
  choose_work w v now d b id c k h = elim (Bool-cases (nothing_left d)) [
    | inl none_left ↦ ground arith
    | inr left ↦ elim (Bool-cases (delay_first d)) [
      | inl t ↦ ground (arith, pop_work w.network (k.delayed (delay_first-lt w d b k left t)))
      | inr e0 ↦ elim (Bool-cases (expiry_first d)) [
        | inl t ↦
            expire_blocking_work env w v (now + d.b) b
              (k.blocked (expiry_first-lt w d b k left e0 t)) (ground arith)
        | inr e1 ↦ elim (Bool-cases (queue_first d)) [
          | inl t ↦ absurd (pick_from_queue-ne-again w v id c (now + d.q) (ground arith))
          | inr e2 ↦ elim (Bool-cases (timer_first d)) [
            | inl t ↦ fire_timer_work w v (now + d.i) (ground arith)
            | inr e3 ↦ fire_action_work env w v (now + d.s) (ground arith)
          ]
        ]
      ]
    ]
  ]

  -- A round of `pick_next` that calls it again leaves less work pending.
  pub pick_round_work :
      (w v : World Fw Bins Rng) (now : ℕ)
      → pick_round env w now ≡ ok (again v)
      → pending_work v < pending_work w
  unfolding pick_round look_at_queue
  pick_round_work w v now h =
      let (r, looked, chosen) = >>=-eq-ok (look_at_queue w now) (choose_at env w now) h in
      choose_work w v now (durations w now r.0)
        (peek_blocked_exp w.client.blocking_until w.server.blocking_until now).1 r.1 r.2
        (durations-Peeked w now r.0 (
          peek_queue-le w.sq w.client w.server w.network.client_aggregate_base_delay
            w.network.server_aggregate_base_delay (earliest_other (durations w now 0)) now r
            looked))
        chosen
