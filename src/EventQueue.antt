-- ===== src/EventQueue.antt =====
-- crates/maybenot-simulator/src/queue_event.rs: the queue of one side, in four heaps.
pub mod Kinds
pub mod Every
pub mod Peek
pub mod NormalPackets
use maybenot_simv.Base.{
  ℕ, ◌+◌, Bool, true, false, not, ◌&&◌, List, [], ◌∷◌, Option, none, some, if◌then◌else◌, ◌==◌,
  length, all, is_empty, compare, Ordering,
}
use maybenot_simv.Outcome.{Outcome, ok, panic, unwrap, ◌>>=◌}
use maybenot_simv.Event.{Event, TriggerEvent, is_event}
use maybenot_simv.SimEvent.{SimEvent, sim_event_ord, event_to_usize, duration_since, then_with}
use maybenot_simv.BinaryHeap
use maybenot_simv.BinaryHeap.{gt_option, is_gt}

pub data Queue : Type 0 where
  blocking bypassable internal base : Queue

pub record EventQueue : Type 0 where
  pub base : List SimEvent
  pub blocking : List SimEvent
  pub bypassable : List SimEvent
  pub internal : List SimEvent

abbrev pub new : EventQueue
new = record { base = []; blocking = []; bypassable = []; internal = [] }

unfoldable pub len : EventQueue → ℕ
len q = length q.blocking + length q.bypassable + length q.internal + length q.base

-- The test of `no_normal_packets` on the entries of a heap.
abbrev neither : Event → SimEvent → Bool
neither v e = not (is_event e.event v) && not e.contains_padding

unfoldable pub no_normal_packets : EventQueue → Bool
no_normal_packets q =
    is_empty q.base
    && (all (neither Event.tunnel_sent) q.blocking
        && (all (neither Event.tunnel_sent) q.bypassable
            && all (neither Event.tunnel_recv) q.internal))

push_into : TriggerEvent → SimEvent → EventQueue → EventQueue
push_into TriggerEvent.tunnel_sent e q =
    if e.bypass
    then record q { bypassable = BinaryHeap.push e q.bypassable }
    else record q { blocking = BinaryHeap.push e q.blocking }
push_into TriggerEvent.normal_sent e q = record q { base = BinaryHeap.push e q.base }
push_into _ e q = record q { internal = BinaryHeap.push e q.internal }

unfoldable pub push : SimEvent → EventQueue → EventQueue
unfolding push_into
push e q = push_into e.event e q

-- Is `a`, moved by the network delay sum, before `b` or at its place?
unfoldable pub before : Option SimEvent → Option SimEvent → ℕ → Bool
before (some a) (some b) delay = not (
    is_gt (
      then_with (compare (a.time + delay) b.time)
        (compare (event_to_usize a.event) (event_to_usize b.event))))
before (some a) none delay = true
before none b delay = false

-- `if n > first { first = n; q = id }`
abbrev pick_greater : Option SimEvent → Queue → Option SimEvent × Queue → Option SimEvent × Queue
pick_greater n id (first, q) = if gt_option n first then (n, id) else (first, q)

-- The first entry of the three heaps that hold no base events, and its heap.
unfoldable pub peek_rest : EventQueue → Option SimEvent × Queue
peek_rest q = pick_greater (BinaryHeap.peek q.internal) Queue.internal (
    pick_greater (BinaryHeap.peek q.blocking) Queue.blocking
      (BinaryHeap.peek q.bypassable, Queue.bypassable))

-- The first of those against the first base event, which counts with the network delay sum.
look_at : Option SimEvent × Queue → Option SimEvent → ℕ → ℕ → Outcome (Option SimEvent × Queue × ℕ)
look_at (first, id) n network_delay_sum current_time =
    if before n first network_delay_sum
    then (do
      e ← unwrap n
      ok (n, Queue.base, duration_since (e.time + network_delay_sum) current_time))
    else (do e ← unwrap first; ok (first, id, duration_since e.time current_time))

unfoldable pub peek : EventQueue → ℕ → ℕ → Outcome (Option SimEvent × Queue × ℕ)
unfolding len peek_rest look_at
peek q network_delay_sum current_time =
    if len q == 0
    then ok (none, Queue.blocking, 0)
    else look_at (peek_rest q) (BinaryHeap.peek q.base) network_delay_sum current_time

pop_base : ℕ → Option SimEvent × List SimEvent → EventQueue → Outcome (Option SimEvent × EventQueue)
pop_base delay (item, rest) q = if delay == 0 then ok (item, record q { base = rest }) else (do
  e ← unwrap item
  ok (some (record e { time = e.time + delay }), record q { base = rest }))

unfoldable pub pop : Queue → ℕ → EventQueue → Outcome (Option SimEvent × EventQueue)
unfolding pop_base
pop Queue.blocking delay q =
    let (item, rest) = BinaryHeap.pop q.blocking in ok (item, record q { blocking = rest })
pop Queue.bypassable delay q =
    let (item, rest) = BinaryHeap.pop q.bypassable in ok (item, record q { bypassable = rest })
pop Queue.internal delay q =
    let (item, rest) = BinaryHeap.pop q.internal in ok (item, record q { internal = rest })
pop Queue.base delay q = pop_base delay (BinaryHeap.pop q.base) q

abbrev pub peek_blocking : EventQueue → Option SimEvent
peek_blocking q = BinaryHeap.peek q.blocking

abbrev pub peek_bypassable : EventQueue → Option SimEvent
peek_bypassable q = BinaryHeap.peek q.bypassable

unfoldable pub peek_non_blocking : EventQueue → ℕ → Option SimEvent × Queue
peek_non_blocking q delay =
    if before (BinaryHeap.peek q.base) (BinaryHeap.peek q.internal) delay
    then (BinaryHeap.peek q.base, Queue.base)
    else (BinaryHeap.peek q.internal, Queue.internal)

abbrev pub get_first_base_time : EventQueue → Option ℕ
get_first_base_time q = elim (BinaryHeap.peek q.base) [ none ↦ none | some e ↦ some e.time ]
