-- ===== src/QueuePeek/Points.antt =====
-- `peek_queue` never panics, and the heap that it names has an event.
use maybenot_simv.Base.{
  ℕ, ◌<◌, Bool, true, false, Option, none, some, ◌≡◌, ◌≢◌, refl, subst, arith, inl, inr, Bool-cases,
  if◌then◌else◌, ltb, max, leb,
}
use native.Mathlib.Decide.{ℕ_discrete}
use maybenot_simv.Outcome.{ok, Returns}
use maybenot_simv.SimEvent.{SimEvent, duration_max, sim_event_ord}
use maybenot_simv.BinaryHeap.{gt_option}
use maybenot_simv.BinaryHeap
use maybenot_simv.EventQueue.{EventQueue, Queue, before}
use maybenot_simv.EventQueue
use maybenot_simv.EventQueue.Peek.{front}
use maybenot_simv.SimQueue
use maybenot_simv.SimQueue.{SimQueue, side}
use maybenot_simv.SimQueue.Sides.{IsSided, StandsAt, peek-StandsAt, nonempty}
use maybenot_simv.SimState.{SimState}
use maybenot_simv.QueuePeek.{
  earliest_of, blocking_first, non_blocking_time, peek_queue_earliest_side, peek_queue, not_blocked,
  unwrap_or,
}

-- The event, if there is one, is the front of the named heap.
abbrev IsFront : EventQueue → Option SimEvent × Queue → Type 0
IsFront q (none, id) = Unit {0}
IsFront q (some e, id) = front id q ≡ some e

IsFront-of :
    (id : Queue) (q : EventQueue) (o : Option SimEvent) → front id q ≡ o → IsFront q (o, id)
IsFront-of id q none e = tt
IsFront-of id q (some x) e = e

front-IsFront : (id : Queue) (q : EventQueue) → IsFront q (front id q, id)
front-IsFront id q = IsFront-of id q (front id q) refl

if-IsFront :
    (q : EventQueue) (b : Bool) (x y : Option SimEvent × Queue)
    → IsFront q x
    → IsFront q y
    → IsFront q (if b then x else y)
if-IsFront q true x y h k = h
if-IsFront q false x y h k = k

pub peek_blocking-IsFront :
    (sq : SimQueue) (b c : Bool) → IsFront (side sq c) (SimQueue.peek_blocking sq b c)
unfolding SimQueue.peek_blocking
peek_blocking-IsFront sq b c =
    let q = side sq c in
    if-IsFront q b _ _ (front-IsFront Queue.blocking q) (
      if-IsFront q (gt_option (BinaryHeap.peek q.blocking) (BinaryHeap.peek q.bypassable)) _ _
        (front-IsFront Queue.blocking q) (front-IsFront Queue.bypassable q))

non_blocking-IsFront : (q : EventQueue) (d : ℕ) → IsFront q (EventQueue.peek_non_blocking q d)
unfolding EventQueue.peek_non_blocking
non_blocking-IsFront q d =
    if-IsFront q (before (BinaryHeap.peek q.base) (BinaryHeap.peek q.internal) d) _ _
      (front-IsFront Queue.base q) (front-IsFront Queue.internal q)

peek_non_blocking-IsFront :
    (sq : SimQueue) (b c : Bool) (d : ℕ) → IsFront (side sq c) (SimQueue.peek_non_blocking sq b c d)
unfolding SimQueue.peek_non_blocking
peek_non_blocking-IsFront sq b c d =
    let q = side sq c in
    if-IsFront q b _ _
      (if-IsFront q (gt_option (BinaryHeap.peek q.bypassable) (EventQueue.peek_non_blocking q d).0)
        _ _ (front-IsFront Queue.bypassable q) (non_blocking-IsFront q d))
      (non_blocking-IsFront q d)

-- A duration below the greatest comes with a heap that has an event.
abbrev pub Points : SimQueue → ℕ × Queue × Bool → Type 0
Points sq (d, id, c) = d < duration_max → front id (side sq c) ≢ none

earliest_of-Points :
    (sq : SimQueue) (c : Bool) (b n : Option SimEvent × Queue) (until now delay : ℕ)
    → IsFront (side sq c) b
    → IsFront (side sq c) n
    → Points sq (earliest_of b n until now delay c)
unfolding earliest_of
earliest_of-Points sq c (none, bq) (none, nq) until now delay h k = λ l. absurd (omega arith)
earliest_of-Points sq c (none, bq) (some n, nq) until now delay h k = λ l e. cc
earliest_of-Points sq c (some b, bq) (none, nq) until now delay h k = λ l e. cc
earliest_of-Points sq c (some b, bq) (some n, nq) until now delay h k =
    elim (Bool-cases (blocking_first (max b.time until) (non_blocking_time nq n delay) nq)) [
      | inl t ↦ rw t (λ l e. cc)
      | inr t ↦ rw t (λ l e. cc)
    ]

side-Points :
    (sq : SimQueue) (until : Option ℕ) (bypassable : Bool) (now delay : ℕ) (c : Bool)
    → Points sq (peek_queue_earliest_side sq until bypassable now delay c)
unfolding peek_queue_earliest_side
side-Points sq until bypassable now delay c =
    earliest_of-Points sq c (SimQueue.peek_blocking sq bypassable c)
      (SimQueue.peek_non_blocking sq bypassable c delay) (unwrap_or until now) now delay
      (peek_blocking-IsFront sq bypassable c) (peek_non_blocking-IsFront sq bypassable c delay)

if-Points :
    (sq : SimQueue) (b : Bool) (x y : ℕ × Queue × Bool)
    → Points sq x
    → Points sq y
    → Points sq (if b then x else y)
if-Points sq true x y h k = h
if-Points sq false x y h k = k

module _ {Fw Bins : Type 0} where
  peek_queue_nonempty :
      (sq : SimQueue) (client server : SimState Fw Bins) (dc ds earliest now : ℕ)
      → SimQueue.len sq ≢ 0
      → (r : Option SimEvent × Queue × ℕ) → SimQueue.peek sq dc ds now ≡ ok r
      → StandsAt sq r
      → Returns (Points sq) (peek_queue sq client server dc ds earliest now)
  unfolding peek_queue
  peek_queue_nonempty sq client server dc ds earliest now h (none, id, t) p k = absurd k
  peek_queue_nonempty sq client server dc ds earliest now h (some e, id, t) p k =
      rw (nonempty sq h, p, peek_queue)
        (if-Points sq (ltb earliest t) _ _ (λ l. absurd (omega arith))
          (if-Points sq (not_blocked client server e) (t, id, e.client) _ (λ l n. cc)
            (if-Points sq (leb c_side.0 s_side.0) c_side s_side
              (side-Points sq client.blocking_until client.blocking_bypassable now dc true)
              (side-Points sq server.blocking_until server.blocking_bypassable now ds false))))
    where
      c_side : ℕ × Queue × Bool
      c_side =
          peek_queue_earliest_side sq client.blocking_until client.blocking_bypassable now dc true

      s_side : ℕ × Queue × Bool
      s_side =
          peek_queue_earliest_side sq server.blocking_until server.blocking_bypassable now ds false

  pub peek_queue-Points :
      (sq : SimQueue) (client server : SimState Fw Bins) (dc ds earliest now : ℕ)
      → IsSided sq
      → Returns (Points sq) (peek_queue sq client server dc ds earliest now)
  unfolding peek_queue
  peek_queue-Points sq client server dc ds earliest now s = elim (ℕ_discrete (SimQueue.len sq) 0) [
    | yes e ↦ rw (e, peek_queue) (λ l. absurd (omega arith))
    | no ne ↦
        let (r, p, k) = peek-StandsAt sq dc ds now s ne in
        peek_queue_nonempty sq client server dc ds earliest now ne r p k
  ]

  -- When the events of the queue stand on their own sides and `peek_queue` returns less than
  -- `Duration::MAX`, the heap of the side that it names has an event to pop.
  pub peek_queue-front :
      (sq : SimQueue) (client server : SimState Fw Bins) (dc ds earliest now d : ℕ) (id : Queue)
      (c : Bool)
      → IsSided sq
      → peek_queue sq client server dc ds earliest now ≡ ok (d, id, c)
      → d < duration_max
      → front id (side sq c) ≢ none
  peek_queue-front sq client server dc ds earliest now d id c s h l =
      subst (Returns (Points sq)) h (peek_queue-Points sq client server dc ds earliest now s) l
