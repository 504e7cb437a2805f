-- ===== src/QueuePeek/Bounds.antt =====
-- No peek returns more than `Duration::MAX`.
use maybenot_simv.Base.{
  ℕ, ◌≤◌, Bool, true, false, List, [], ◌∷◌, Option, none, some, ◌≡◌, refl, arith,
}
use maybenot_simv.Outcome.{Outcome, ok, panic, out_of_fuel}
use maybenot_simv.SimEvent.{SimEvent, duration_max, duration_since}
use maybenot_simv.EventQueue
use maybenot_simv.EventQueue.{EventQueue, Queue, before, peek_rest}
use maybenot_simv.SimQueue
use maybenot_simv.SimQueue.{SimQueue, peek_sides}
use maybenot_simv.SimState.{SimState}
use maybenot_simv.QueuePeek.{
  earliest_of, unwrap_or, peek_queue_earliest_side, peek_queue, earliest_from, peek_blocked_exp,
}

pub earliest_from-le : (now : ℕ) (ts : List (Option ℕ)) (e : ℕ) → earliest_from now ts e ≤ e
unfolding earliest_from
earliest_from-le now [] e = omega arith
earliest_from-le now (none ∷ ts) e = earliest_from-le now ts e
earliest_from-le now (some t ∷ ts) e =
    ground (arith, earliest_from-le now ts e, earliest_from-le now ts (duration_since t now))

pub peek_blocked_exp-le : (c s : Option ℕ) (now : ℕ) → (peek_blocked_exp c s now).0 ≤ duration_max
unfolding peek_blocked_exp
peek_blocked_exp-le none none now = omega arith
peek_blocked_exp-le none (some s) now = omega arith
peek_blocked_exp-le (some c) none now = omega arith
peek_blocked_exp-le (some c) (some s) now = ground arith

pub event_peek-le :
    (q : EventQueue) (d now : ℕ) (e : Option SimEvent) (id : Queue) (t : ℕ)
    → EventQueue.peek q d now ≡ ok (e, id, t)
    → t ≤ duration_max
unfolding EventQueue.peek
event_peek-le q d now e id t h = ground arith

peek_sides-le :
    (c s : Option SimEvent × Queue × ℕ)
    → c.2 ≤ duration_max
    → s.2 ≤ duration_max
    → (peek_sides c s).2 ≤ duration_max
unfolding peek_sides
peek_sides-le (some c, cq, cd) (some s, sq, sd) h k = ground arith
peek_sides-le (some c, cq, cd) (none, sq, sd) h k = h
peek_sides-le (none, cq, cd) (some s, sq, sd) h k = k
peek_sides-le (none, cq, cd) (none, sq, sd) h k = omega arith

sim_peek-le :
    (sq : SimQueue) (dc ds now : ℕ) (r : Option SimEvent × Queue × ℕ)
    → SimQueue.peek sq dc ds now ≡ ok r
    → r.2 ≤ duration_max
unfolding SimQueue.peek
sim_peek-le sq dc ds now r h =
    go (EventQueue.peek sq.client dc now) (EventQueue.peek sq.server ds now) refl refl
  where
    go :
        (c s : Outcome (Option SimEvent × Queue × ℕ))
        → EventQueue.peek sq.client dc now ≡ c
        → EventQueue.peek sq.server ds now ≡ s
        → r.2 ≤ duration_max
    go (ok c) (ok s) p q = ground (
      arith,
      peek_sides-le c s,
      event_peek-le sq.client dc now c.0 c.1 c.2,
      event_peek-le sq.server ds now s.0 s.1 s.2,
    )
    go (ok c) _ p q = ground arith
    go (panic b) _ p q = ground arith
    go out_of_fuel _ p q = ground arith

earliest_of-le :
    (b n : Option SimEvent × Queue) (until now delay : ℕ) (c : Bool)
    → (earliest_of b n until now delay c).0 ≤ duration_max
unfolding earliest_of
earliest_of-le (none, bq) (none, nq) until now delay c = omega arith
earliest_of-le (none, bq) (some n, nq) until now delay c = omega arith
earliest_of-le (some b, bq) (none, nq) until now delay c = omega arith
earliest_of-le (some b, bq) (some n, nq) until now delay c = ground arith

side-le :
    (sq : SimQueue) (until : Option ℕ) (bypassable : Bool) (now delay : ℕ) (c : Bool)
    → (peek_queue_earliest_side sq until bypassable now delay c).0 ≤ duration_max
unfolding peek_queue_earliest_side
side-le sq until bypassable now delay c =
    earliest_of-le (SimQueue.peek_blocking sq bypassable c)
      (SimQueue.peek_non_blocking sq bypassable c delay) (unwrap_or until now) now delay c

module _ {Fw Bins : Type 0} where
  pub peek_queue-le :
      (sq : SimQueue) (client server : SimState Fw Bins) (dc ds earliest now : ℕ)
      (r : ℕ × Queue × Bool)
      → peek_queue sq client server dc ds earliest now ≡ ok r
      → r.0 ≤ duration_max
  unfolding peek_queue
  peek_queue-le sq client server dc ds earliest now r h = go (SimQueue.peek sq dc ds now) refl
    where
      go :
          (p : Outcome (Option SimEvent × Queue × ℕ))
          → SimQueue.peek sq dc ds now ≡ p
          → r.0 ≤ duration_max
      go (ok p) e = ground (
        arith,
        sim_peek-le sq dc ds now p,
        side-le sq client.blocking_until client.blocking_bypassable now dc true,
        side-le sq server.blocking_until server.blocking_bypassable now ds false,
      )
      go (panic b) e = ground arith
      go out_of_fuel e = ground arith
