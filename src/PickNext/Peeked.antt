-- ===== src/PickNext/Peeked.antt =====
-- What the durations that a round of `pick_next` compares say of the world.
use maybenot_simv.Base.{
  ℕ, ◌≤◌, ◌<◌, Bool, true, false, List, [], Option, none, some, ◌≡◌, ◌≢◌, arith,
}
use maybenot_simv.SimEvent.{duration_max}
use maybenot_simv.QueuePeek.{
  peek_scheduled_action, peek_scheduled_internal_timer, peek_blocked_exp, action_times,
  earliest_from,
}
use maybenot_simv.SimState.{ScheduledAction}
use maybenot_simv.QueuePeek.Bounds.{earliest_from-le, peek_blocked_exp-le}
use maybenot_simv.Network.{peek_aggregate_delay}
use maybenot_simv.PickNext.{
  World, Durations, durations, side_state, nothing_left, delay_first, expiry_first, queue_first,
  timer_first,
}

module _ {Fw Bins Rng : Type 0} where
  -- No duration is beyond `Duration::MAX`, the end of blocking comes with the side that blocks, and
  -- an aggregate delay with an entry of its queue.
  pub record Peeked (w : World Fw Bins Rng) (d : Durations) (b_is_client : Bool) : Type 0 where
    pub s_le : d.s ≤ duration_max
    pub i_le : d.i ≤ duration_max
    pub b_le : d.b ≤ duration_max
    pub n_le : d.n ≤ duration_max
    pub q_le : d.q ≤ duration_max
    pub blocked : d.b < duration_max → (side_state w b_is_client).blocking_until ≢ none
    pub delayed : d.n < duration_max → w.network.aggregate_delay_queue ≢ []

action-le :
    (c s : List (Option ScheduledAction)) (now : ℕ) → peek_scheduled_action c s now ≤ duration_max
unfolding peek_scheduled_action
action-le c s now = omega (
  arith,
  earliest_from-le now (action_times s) (earliest_from now (action_times c) duration_max),
  earliest_from-le now (action_times c) duration_max,
)

timer-le : (c s : List (Option ℕ)) (now : ℕ) → peek_scheduled_internal_timer c s now ≤ duration_max
unfolding peek_scheduled_internal_timer
timer-le c s now = omega (
  arith,
  earliest_from-le now s (earliest_from now c duration_max),
  earliest_from-le now c duration_max,
)

abbrev choose_side {ℓ} : {A : Type ℓ} → Bool → A → A → A
choose_side true c s = c
choose_side false c s = s

blocked_side :
    (c s : Option ℕ) (now : ℕ)
    → (peek_blocked_exp c s now).0 < duration_max
    → choose_side (peek_blocked_exp c s now).1 c s ≢ none
unfolding peek_blocked_exp
blocked_side none none now h = absurd (omega arith)
blocked_side none (some s) now h = λ e. cc
blocked_side (some c) none now h = λ e. cc
blocked_side (some c) (some s) now h = λ e. ground arith

module _ {Fw Bins Rng : Type 0} where
  blocked_of :
      (w : World Fw Bins Rng) (b : Bool)
      → choose_side b w.client.blocking_until w.server.blocking_until ≢ none
      → (side_state w b).blocking_until ≢ none
  blocked_of w true h = h
  blocked_of w false h = h

  delayed_of :
      (w : World Fw Bins Rng) (now : ℕ)
      → peek_aggregate_delay w.network now < duration_max
      → w.network.aggregate_delay_queue ≢ []
  unfolding peek_aggregate_delay
  delayed_of w now h e = ground arith

  delay-le : (w : World Fw Bins Rng) (now : ℕ) → peek_aggregate_delay w.network now ≤ duration_max
  unfolding peek_aggregate_delay
  delay-le w now = ground arith

  -- What each choice says of the durations: the one that is chosen is set.
  module _ (w : World Fw Bins Rng) (d : Durations) (b : Bool) (k : Peeked w d b)
      (some_left : nothing_left d ≡ false) where
    pub delay_first-lt : delay_first d ≡ true → d.n < duration_max
    unfolding nothing_left delay_first
    delay_first-lt h = ground (arith, k.s_le, k.i_le, k.b_le, k.q_le)

    pub expiry_first-lt : delay_first d ≡ false → expiry_first d ≡ true → d.b < duration_max
    unfolding nothing_left delay_first expiry_first
    expiry_first-lt h t = ground (arith, k.s_le, k.i_le, k.b_le, k.n_le, k.q_le)

    pub queue_first-lt :
        delay_first d ≡ false → expiry_first d ≡ false → queue_first d ≡ true → d.q < duration_max
    unfolding nothing_left delay_first expiry_first queue_first
    queue_first-lt h t u = ground (arith, k.s_le, k.i_le, k.b_le, k.n_le, k.q_le)

    pub timer_first-lt :
        delay_first d ≡ false
        → expiry_first d ≡ false
        → queue_first d ≡ false
        → timer_first d ≡ true
        → d.i < duration_max
    unfolding nothing_left delay_first expiry_first queue_first timer_first
    timer_first-lt h t u v = ground (arith, k.s_le, k.i_le, k.b_le, k.n_le, k.q_le)

    pub action_first-lt :
        delay_first d ≡ false
        → expiry_first d ≡ false
        → queue_first d ≡ false
        → timer_first d ≡ false
        → d.s < duration_max
    unfolding nothing_left delay_first expiry_first queue_first timer_first
    action_first-lt h t u v = ground (arith, k.s_le, k.i_le, k.b_le, k.n_le, k.q_le)

  pub durations-Peeked :
      (w : World Fw Bins Rng) (now q : ℕ)
      → q ≤ duration_max
      → Peeked w
          (durations w now q)
          (peek_blocked_exp w.client.blocking_until w.server.blocking_until now).1
  durations-Peeked w now q h = record {
    s_le = action-le w.client.scheduled_action w.server.scheduled_action now;
    i_le = timer-le w.client.scheduled_internal_timer w.server.scheduled_internal_timer now;
    b_le = peek_blocked_exp-le w.client.blocking_until w.server.blocking_until now;
    n_le = delay-le w now;
    q_le = h;
    blocked = λ k.
        blocked_of w (peek_blocked_exp w.client.blocking_until w.server.blocking_until now).1
          (blocked_side w.client.blocking_until w.server.blocking_until now k);
    delayed = delayed_of w now;
  }
