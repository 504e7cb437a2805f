-- ===== src/PickNext.antt =====
-- `pick_next` of crates/maybenot-simulator/src/lib.rs. Its recursion is a loop on fuel; a round
-- either ends with a result or leaves the simulator changed for another round.
pub mod Time
pub mod Total
pub mod Ready
pub mod Peeked
pub mod Termination
pub mod Work
pub mod Keeps
pub mod Places
use maybenot_simv.Base.{
  ℕ, zero, suc, ◌+◌, ◌*◌, Bool, true, false, ◌&&◌, List, [], ◌∷◌, length, Option, none, some,
  if◌then◌else◌, ltb, leb, ◌==◌, min,
}
use maybenot_simv.Outcome.{Outcome, ok, panic, out_of_fuel, unwrap, ◌>>=◌}
use maybenot_simv.Event.{TriggerEvent}
use maybenot_simv.SimEvent.{SimEvent, duration_max}
use maybenot_simv.EventQueue.{Queue}
use maybenot_simv.SimQueue
use maybenot_simv.SimQueue.{SimQueue, push_sim}
use maybenot_simv.SimState.{Env, SimState, reporting_delay}
use maybenot_simv.QueuePeek.{
  peek_queue, peek_scheduled_action, peek_scheduled_internal_timer, peek_blocked_exp,
}
use maybenot_simv.Delay.{agg_delay_on_blocking_expire}
use maybenot_simv.Network.{
  NetworkBottleneck, peek_aggregate_delay, pop_aggregate_delay, push_aggregate_delay, base_delay,
}
use maybenot_simv.NetworkStack.{push_delay_if}
use maybenot_simv.Timers.{do_internal_timer, do_scheduled_action}

-- What `pick_next` is handed by reference, and the thread's random numbers.
pub record World (Fw Bins Rng : Type 0) : Type 0 where
  pub sq : SimQueue
  pub client : SimState Fw Bins
  pub server : SimState Fw Bins
  pub network : NetworkBottleneck
  pub rng : Rng

pub data Round (Fw Bins Rng : Type 0) : Type 0 where
  done : Option SimEvent → World Fw Bins Rng → Round Fw Bins Rng
  again : World Fw Bins Rng → Round Fw Bins Rng

-- The durations until the next scheduled action, internal timer, end of blocking, aggregate delay
-- and queued event.
pub record Durations : Type 0 where
  pub s : ℕ
  pub i : ℕ
  pub b : ℕ
  pub n : ℕ
  pub q : ℕ

-- `s.min(i).min(b).min(n)`
abbrev earliest_other : Durations → ℕ
earliest_other d = min (min (min d.s d.i) d.b) d.n

-- The tests of `pick_next`, in its order.
unfoldable pub nothing_left : Durations → Bool
nothing_left d =
    d.s == duration_max
    && (d.i == duration_max
        && (d.b == duration_max && (d.n == duration_max && d.q == duration_max)))

unfoldable pub delay_first : Durations → Bool
delay_first d = leb d.n d.s && (leb d.n d.i && (leb d.n d.b && leb d.n d.q))

unfoldable pub expiry_first : Durations → Bool
expiry_first d = leb d.b d.s && (leb d.b d.i && leb d.b d.q)

unfoldable pub queue_first : Durations → Bool
queue_first d = leb d.q d.s && leb d.q d.i

unfoldable pub timer_first : Durations → Bool
timer_first d = leb d.i d.s

abbrev pub blocking_end_event : ℕ → ℕ → Bool → SimEvent
blocking_end_event time delay client = record {
  event = TriggerEvent.blocking_end;
  time = time;
  integration_delay = delay;
  client = client;
  contains_padding = false;
  bypass = false;
  replace = false;
}

-- How many of the machines' timers are set.
unfoldable pub count_set {ℓ} : {A : Type ℓ} → List (Option A) → ℕ
count_set [] = 0
count_set (none ∷ rest) = count_set rest
count_set (some a ∷ rest) = suc (count_set rest)

-- One for a blocking that is active.
abbrev pub one_if_set {ℓ} : {A : Type ℓ} → Option A → ℕ
one_if_set none = 0
one_if_set (some a) = 1

module _ {Fw Bins : Type 0} where
  abbrev pub state_work : SimState Fw Bins → ℕ
  state_work s =
      4 * count_set s.scheduled_action
      + count_set s.scheduled_internal_timer
      + 3 * one_if_set s.blocking_until

module _ {Fw Bins Rng : Type 0} where
  -- A bound on the rounds of `pick_next`: an aggregate delay and a timer take a round each, the end
  -- of a blocking one and the two aggregate delays that it may add, and a scheduled action one and
  -- the blocking that it may begin.
  abbrev pub pending_work : World Fw Bins Rng → ℕ
  pending_work w =
      length w.network.aggregate_delay_queue + state_work w.client + state_work w.server

  abbrev pub side_state : World Fw Bins Rng → Bool → SimState Fw Bins
  side_state w is_client = if is_client then w.client else w.server

  abbrev pub unblock : World Fw Bins Rng → Bool → World Fw Bins Rng
  unblock w is_client =
      if is_client
      then record w { client = record w.client { blocking_until = none } }
      else record w { server = record w.server { blocking_until = none } }

  -- What the five peeks return; `q` is the queue's.
  abbrev pub durations : World Fw Bins Rng → ℕ → ℕ → Durations
  durations w now q = record {
    s = peek_scheduled_action w.client.scheduled_action w.server.scheduled_action now;
    i =
        peek_scheduled_internal_timer w.client.scheduled_internal_timer
          w.server.scheduled_internal_timer now;
    b = (peek_blocked_exp w.client.blocking_until w.server.blocking_until now).0;
    n = peek_aggregate_delay w.network now;
    q = q;
  }

  -- The queue is asked last: it need not look further than the earliest of the others.
  unfoldable pub look_at_queue : World Fw Bins Rng → ℕ → Outcome (ℕ × Queue × Bool)
  look_at_queue w now =
      peek_queue w.sq w.client w.server w.network.client_aggregate_base_delay
        w.network.server_aggregate_base_delay (earliest_other (durations w now 0)) now

  unfoldable pub delay_for : World Fw Bins Rng → ℕ → Bool → Option SimEvent → NetworkBottleneck
  delay_for w expiry is_client none = w.network
  delay_for w expiry is_client (some event) =
      if ltb event.time expiry
      then push_delay_if
          (agg_delay_on_blocking_expire w.sq is_client expiry event
            (base_delay w.network is_client))
          expiry is_client w.network
      else w.network

  -- The aggregate delay that the end of the blocking adds, if it held back a packet.
  unfoldable pub delay_on_expiry : World Fw Bins Rng → ℕ → Bool → NetworkBottleneck
  unfolding delay_for
  delay_on_expiry w expiry is_client =
      delay_for w expiry is_client (SimQueue.peek_blocking w.sq false is_client).0

  unfoldable pub pick_from_queue :
      World Fw Bins Rng → Queue → Bool → ℕ → Outcome (Round Fw Bins Rng)
  pick_from_queue w id is_client target = do
    r ← SimQueue.pop id is_client (base_delay w.network is_client) w.sq
    e ← unwrap r.0
    ok (
        done (some (if ltb e.time target then record e { time = target } else e))
          (record w { sq = r.1 }))

  unfoldable pub fire_timer : World Fw Bins Rng → ℕ → Outcome (Round Fw Bins Rng)
  fire_timer w target = do
    r ← do_internal_timer (w.client, w.server) target
    ok (again (record w { sq = push_sim r.0 w.sq; client = r.1.0; server = r.1.1 }))

module _ {Fw Bins Rng : Type 0} (env : Env Fw Bins Rng) where
  unfoldable pub expire_blocking : World Fw Bins Rng → ℕ → Bool → Outcome (Round Fw Bins Rng)
  expire_blocking w expiry is_client = do
    delay ← reporting_delay env (side_state w is_client) w.rng
    let w' =
        unblock (record w { network = delay_on_expiry w expiry is_client; rng = delay.1 }) is_client
    let e = blocking_end_event (expiry + delay.0) delay.0 is_client
    ok (if ltb 0 delay.0 then again (record w' { sq = push_sim e w.sq }) else done (some e) w')

  unfoldable pub fire_action : World Fw Bins Rng → ℕ → Outcome (Round Fw Bins Rng)
  fire_action w target = do
    r ← do_scheduled_action env (w.client, w.server) target w.rng
    ok (again (record w { sq = push_sim r.0 w.sq; client = r.1.0; server = r.1.1; rng = r.2 }))

  -- The choice among the five sources.
  unfoldable pub choose :
      World Fw Bins Rng → ℕ → Durations → Bool → Queue → Bool → Outcome (Round Fw Bins Rng)
  choose w now d b_is_client qid q_is_client =
      if nothing_left d
      then ok (done none w)
      else if delay_first d
      then ok (again (record w { network = pop_aggregate_delay w.network }))
      else if expiry_first d
      then expire_blocking w (now + d.b) b_is_client
      else if queue_first d
      then pick_from_queue w qid q_is_client (now + d.q)
      else if timer_first d
      then fire_timer w (now + d.i)
      else fire_action w (now + d.s)

  abbrev choose_at : World Fw Bins Rng → ℕ → ℕ × Queue × Bool → Outcome (Round Fw Bins Rng)
  choose_at w now (q, qid, q_is_client) =
      choose w now (durations w now q)
        (peek_blocked_exp w.client.blocking_until w.server.blocking_until now).1 qid q_is_client

  unfoldable pub pick_round : World Fw Bins Rng → ℕ → Outcome (Round Fw Bins Rng)
  pick_round w now = look_at_queue w now >>= choose_at w now

  unfoldable pub pick_next :
      ℕ → World Fw Bins Rng → ℕ → Outcome (Option SimEvent × World Fw Bins Rng)
  pick_next zero w now = out_of_fuel
  pick_next (suc fuel) w now = elim (pick_round w now) [
    | ok (done e w') ↦ ok (e, w')
    | ok (again w') ↦ pick_next fuel w' now
    | panic b ↦ panic b
    | out_of_fuel ↦ out_of_fuel
  ]
