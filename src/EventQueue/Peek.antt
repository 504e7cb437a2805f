-- ===== src/EventQueue/Peek.antt =====
-- What `peek` sees: it never panics, a pop of the heap that it names gives the event that it saw,
-- and no event of the queue is earlier.
use maybenot_simv.Base.{
  ℕ, ◌+◌, ◌≤◌, false, List, [], ◌∷◌, Option, none, some, ◌≡◌, ◌≢◌, refl, sym, ◌∙◌, arith, All,
  All-map, ◌⊎◌, inl, inr, Bool-cases, ◌==◌,
}
use maybenot_simv.Outcome.{ok}
use maybenot_simv.SimEvent.{SimEvent, sim_event_ord, duration_since}
use maybenot_simv.BinaryHeap
use maybenot_simv.BinaryHeap.{gt, is_gt, gt_option}
use maybenot_simv.BinaryHeap.Order.{IsHeap}
use maybenot_simv.EventQueue.{
  EventQueue, Queue, len, before, pick_greater, peek_rest, look_at, peek, pop,
}
use maybenot_simv.EventQueue.Kinds.{IsWellFormed, popped}

-- The event as it leaves the queue: a base event moves by the network delay.
abbrev pub taken : Queue → ℕ → SimEvent → SimEvent
taken Queue.base d e = record e { time = e.time + d }
taken Queue.blocking d e = e
taken Queue.bypassable d e = e
taken Queue.internal d e = e

abbrev front_of :
    Queue → Option SimEvent → Option SimEvent → Option SimEvent → Option SimEvent → Option SimEvent
front_of Queue.base n bb b i = n
front_of Queue.blocking n bb b i = b
front_of Queue.bypassable n bb b i = bb
front_of Queue.internal n bb b i = i

-- An event that moves by `d` is not before `t`.
abbrev NotAfter : ℕ → ℕ → Option SimEvent → Type 0
NotAfter t d none = Unit {0}
NotAfter t d (some x) = t ≤ x.time + d

-- The front of a heap.
abbrev pub front : Queue → EventQueue → Option SimEvent
front Queue.base q = BinaryHeap.peek q.base
front Queue.blocking q = BinaryHeap.peek q.blocking
front Queue.bypassable q = BinaryHeap.peek q.bypassable
front Queue.internal q = BinaryHeap.peek q.internal

-- Among the three heaps that hold no base events: the front of one of them, and no front is greater.
abbrev RestOf :
    Option SimEvent → Option SimEvent → Option SimEvent → Option SimEvent × Queue → Type 0
RestOf bb b i (none, id) = (bb ≡ none) × (b ≡ none) × (i ≡ none)
RestOf bb b i (some e, Queue.bypassable) =
    (bb ≡ some e) × (gt_option b (some e) ≡ false) × (gt_option i (some e) ≡ false)
RestOf bb b i (some e, Queue.blocking) =
    (b ≡ some e) × (gt_option bb (some e) ≡ false) × (gt_option i (some e) ≡ false)
RestOf bb b i (some e, Queue.internal) =
    (i ≡ some e) × (gt_option bb (some e) ≡ false) × (gt_option b (some e) ≡ false)
RestOf bb b i (some e, Queue.base) = ⊥

rest_of :
    (bb b i : Option SimEvent)
    → RestOf bb b i
        (pick_greater i Queue.internal (pick_greater b Queue.blocking (bb, Queue.bypassable)))
rest_of none none none = (refl, refl, refl)
rest_of none none (some i) = ground arith
rest_of none (some b) none = ground arith
rest_of none (some b) (some i) = ground arith
rest_of (some bb) none none = ground arith
rest_of (some bb) none (some i) = ground arith
rest_of (some bb) (some b) none = ground arith
rest_of (some bb) (some b) (some i) = ground arith

-- The event as it would leave the queue, the time to go until then, and no front is earlier.
abbrev LooksAt :
    Option SimEvent
    → Option SimEvent
    → Option SimEvent
    → Option SimEvent
    → ℕ
    → ℕ
    → Option SimEvent × Queue × ℕ
    → Type 0
LooksAt n bb b i d now (none, id, t) = ⊥
LooksAt n bb b i d now (some e, id, t) =
    (front_of id n bb b i ≡ some e)
    × (t ≡ duration_since (taken id d e).time now)
    × NotAfter (taken id d e).time d n
    × NotAfter (taken id d e).time 0 bb
    × NotAfter (taken id d e).time 0 b
    × NotAfter (taken id d e).time 0 i

look_at_lem :
    (n bb b i : Option SimEvent) (r : Option SimEvent × Queue) (d now : ℕ)
    → RestOf bb b i r
    → ((n ≡ none) × (bb ≡ none) × (b ≡ none) × (i ≡ none))
      ⊎ ((x : Option SimEvent × Queue × ℕ) × (look_at r n d now ≡ ok x) × LooksAt n bb b i d now x)
unfolding look_at before
look_at_lem none bb b i (none, id) d now h = inl (refl, h.0, h.1, h.2)
look_at_lem (some n) bb b i (none, id) d now h = inr (_, refl, ground arith)
look_at_lem none bb b i (some e, Queue.bypassable) d now h = inr (_, refl, ground arith)
look_at_lem none bb b i (some e, Queue.blocking) d now h = inr (_, refl, ground arith)
look_at_lem none bb b i (some e, Queue.internal) d now h = inr (_, refl, ground arith)
look_at_lem none bb b i (some e, Queue.base) d now h = absurd h
look_at_lem (some n) bb b i (some e, Queue.base) d now h = absurd h
look_at_lem (some n) bb b i (some e, Queue.bypassable) d now h =
    elim (Bool-cases (before (some n) (some e) d)) [
      | inl t ↦ inr (
        (some n, Queue.base, duration_since (n.time + d) now),
        rw (t, look_at) refl,
        ground arith,
      )
      | inr t ↦ inr (
        (some e, Queue.bypassable, duration_since e.time now),
        rw (t, look_at) refl,
        ground arith,
      )
    ]
look_at_lem (some n) bb b i (some e, Queue.blocking) d now h =
    elim (Bool-cases (before (some n) (some e) d)) [
      | inl t ↦ inr (
        (some n, Queue.base, duration_since (n.time + d) now),
        rw (t, look_at) refl,
        ground arith,
      )
      | inr t ↦
          inr (
            (some e, Queue.blocking, duration_since e.time now),
            rw (t, look_at) refl,
            ground arith,
          )
    ]
look_at_lem (some n) bb b i (some e, Queue.internal) d now h =
    elim (Bool-cases (before (some n) (some e) d)) [
      | inl t ↦ inr (
        (some n, Queue.base, duration_since (n.time + d) now),
        rw (t, look_at) refl,
        ground arith,
      )
      | inr t ↦
          inr (
            (some e, Queue.internal, duration_since e.time now),
            rw (t, look_at) refl,
            ground arith,
          )
    ]

len_nonzero : (q : EventQueue) → len q ≢ 0 → ((len q == 0) ≡ false)
len_nonzero q h = ground arith

fronts_nonempty :
    (q : EventQueue)
    → len q ≢ 0
    → BinaryHeap.peek q.base ≡ none
    → BinaryHeap.peek q.bypassable ≡ none
    → BinaryHeap.peek q.blocking ≡ none
    → BinaryHeap.peek q.internal ≡ none
    → ⊥
unfolding len
fronts_nonempty q h a b c d = ground arith

front-front_of :
    (id : Queue) (q : EventQueue)
    → front_of id
        (BinaryHeap.peek q.base)
        (BinaryHeap.peek q.bypassable)
        (BinaryHeap.peek q.blocking)
        (BinaryHeap.peek q.internal)
      ≡ front id q
front-front_of Queue.base q = refl
front-front_of Queue.blocking q = refl
front-front_of Queue.bypassable q = refl
front-front_of Queue.internal q = refl

-- A pop of a heap with a front gives that front, a base event moved by the network delay.
pub pop-front :
    (id : Queue) (d : ℕ) (q : EventQueue) (e : SimEvent)
    → front id q ≡ some e
    → pop id d q ≡ ok (some (taken id d e), popped id q)
unfolding pop
pop-front Queue.blocking d q e h = ground arith
pop-front Queue.bypassable d q e h = ground arith
pop-front Queue.internal d q e h = ground arith
pop-front Queue.base d q e h = ground arith

gt_false→le : (a b : SimEvent) → gt b a ≡ false → a.time ≤ b.time
gt_false→le a b h = ground arith

heap_bound :
    (t d : ℕ) (h : List SimEvent)
    → IsHeap h
    → NotAfter t d (BinaryHeap.peek h)
    → All (λ x. t ≤ x.time + d) h
heap_bound t d [] s k = tt
heap_bound t d (a ∷ h) s k = (k, All-map h (λ b g. omega (arith, gt_false→le a b g)) s.0)

-- No event of the queue would leave it before `t`.
pub record Earliest (t d : ℕ) (q : EventQueue) : Type 0 where
  pub base : All (λ x. t ≤ x.time + d) q.base
  pub blocking : All (λ x. t ≤ x.time + 0) q.blocking
  pub bypassable : All (λ x. t ≤ x.time + 0) q.bypassable
  pub internal : All (λ x. t ≤ x.time + 0) q.internal

-- What `peek` sees of a queue: the event, the heap that it stands in and the time to go, of an event
-- that a pop of this heap would give and that no event of the queue comes before.
pub record Sees (q : EventQueue) (d now : ℕ) : Type 0 where
  pub event : SimEvent
  pub id : Queue
  pub at_front : front id q ≡ some event
  pub peeks : peek q d now ≡ ok (some event, id, duration_since (taken id d event).time now)
  pub earliest : IsWellFormed q → Earliest (taken id d event).time d q

sees :
    (q : EventQueue) (d now : ℕ) (x : Option SimEvent × Queue × ℕ)
    → peek q d now ≡ ok x
    → LooksAt
        (BinaryHeap.peek q.base)
        (BinaryHeap.peek q.bypassable)
        (BinaryHeap.peek q.blocking)
        (BinaryHeap.peek q.internal)
        d
        now
        x
    → Sees q d now
sees q d now (none, id, t) p l = absurd l
sees q d now (some e, id, t) p l = record {
  event = e;
  id = id;
  at_front = sym (front-front_of id q) ∙ l.0;
  peeks = cc (l.1);
  earliest = λ w. record {
    base = heap_bound _ d q.base w.base_heap l.2;
    blocking = heap_bound _ 0 q.blocking w.blocking_heap l.4;
    bypassable = heap_bound _ 0 q.bypassable w.bypassable_heap l.3;
    internal = heap_bound _ 0 q.internal w.internal_heap l.5;
  };
}

-- Every queue that is not empty has such an event.
pub peek-Sees : (q : EventQueue) (d now : ℕ) → len q ≢ 0 → Sees q d now
unfolding peek
peek-Sees q d now h =
    elim (look_at_lem (BinaryHeap.peek q.base) (BinaryHeap.peek q.bypassable)
      (BinaryHeap.peek q.blocking) (BinaryHeap.peek q.internal) (peek_rest q) d now
      (rest_of (BinaryHeap.peek q.bypassable) (BinaryHeap.peek q.blocking)
        (BinaryHeap.peek q.internal))) [
          | inl (n, bb, b, i) ↦ absurd (fronts_nonempty q h n bb b i)
          | inr (x, p, l) ↦ sees q d now x (rw (len_nonzero q h, peek) p) l
        ]

-- A well-formed queue that is not empty has an event that `peek` returns, with the heap it stands in
-- and the time to go; a pop of that heap gives this event, moved by the network delay if it is a base
-- event; and no event of the queue would leave it at an earlier time.
pub peek-Earliest :
    (q : EventQueue) (d now : ℕ)
    → IsWellFormed q
    → len q ≢ 0
    → (e : SimEvent) × (id : Queue) × (peek q d now
        ≡ ok (some e, id, duration_since (taken id d e).time now))
      × (pop id d q ≡ ok (some (taken id d e), popped id q))
      × Earliest (taken id d e).time d q
peek-Earliest q d now w h =
    let s = peek-Sees q d now h in
    (s.event, s.id, s.peeks, pop-front s.id d q s.event s.at_front, s.earliest w)
