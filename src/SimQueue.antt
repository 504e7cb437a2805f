-- ===== src/SimQueue.antt =====
-- crates/maybenot-simulator/src/queue.rs: the two queues of the simulator, one for each side.
pub mod Sides
pub mod Sound
pub mod Covered
pub mod Blocked
use maybenot_simv.Base.{
  ℕ, ◌+◌, Bool, true, false, ◌&&◌, Option, none, some, if◌then◌else◌, ◌==◌, ltb, compare, Ordering,
  min,
}
use maybenot_simv.Outcome.{Outcome, ok, ◌>>=◌}
use maybenot_simv.Event.{TriggerEvent}
use maybenot_simv.SimEvent.{SimEvent, sim_event_ord, event_to_usize, then_with}
use maybenot_simv.BinaryHeap
use maybenot_simv.BinaryHeap.{gt_option, is_gt}
use maybenot_simv.EventQueue
use maybenot_simv.EventQueue.{EventQueue, Queue}

pub record SimQueue : Type 0 where
  pub client : EventQueue
  pub server : EventQueue
  pub max_pps : Option ℕ

abbrev pub new : SimQueue
new = record { client = EventQueue.new; server = EventQueue.new; max_pps = none }

unfoldable pub len : SimQueue → ℕ
len sq = EventQueue.len sq.client + EventQueue.len sq.server

abbrev pub is_empty : SimQueue → Bool
is_empty sq = len sq == 0

abbrev pub no_normal_packets : SimQueue → Bool
no_normal_packets sq =
    EventQueue.no_normal_packets sq.client && EventQueue.no_normal_packets sq.server

unfoldable pub push_to : Bool → SimEvent → SimQueue → SimQueue
push_to true e sq = record sq { client = EventQueue.push e sq.client }
push_to false e sq = record sq { server = EventQueue.push e sq.server }

unfoldable pub push_sim : SimEvent → SimQueue → SimQueue
unfolding push_to
push_sim e sq = push_to e.client e sq

abbrev pub push : TriggerEvent → Bool → Bool → ℕ → ℕ → SimQueue → SimQueue
push event is_client contains_padding time delay = push_sim (record {
  event = event;
  time = time;
  integration_delay = delay;
  client = is_client;
  contains_padding = contains_padding;
  bypass = false;
  replace = false;
})

-- The queue of one side.
abbrev pub side : SimQueue → Bool → EventQueue
side sq is_client = if is_client then sq.client else sq.server

abbrev pub with_side : SimQueue → Bool → EventQueue → SimQueue
with_side sq is_client q = if is_client then record sq { client = q } else record sq { server = q }

-- The client's event goes first unless the server's duration is smaller, or equal with a smaller
-- event type.
abbrev pub client_first : SimEvent → ℕ → SimEvent → ℕ → Bool
client_first c client_duration s server_duration =
    elim (then_with (compare client_duration server_duration)
      (compare (event_to_usize c.event) (event_to_usize s.event))) [
        | Ordering.gt ↦ false
        | _ ↦ true
      ]

abbrev Peeked : Type 0
Peeked = Option SimEvent × Queue × ℕ

unfoldable pub peek_sides : Peeked → Peeked → Peeked
peek_sides (some c, cq, cd) (some s, sq, sd) =
    if client_first c cd s sd then (some c, cq, cd) else (some s, sq, sd)
peek_sides (some c, cq, cd) (none, sq, sd) = (some c, cq, cd)
peek_sides (none, cq, cd) (some s, sq, sd) = (some s, sq, sd)
peek_sides (none, cq, cd) (none, sq, sd) = (none, Queue.blocking, 0)

unfoldable pub peek : SimQueue → ℕ → ℕ → ℕ → Outcome (Option SimEvent × Queue × ℕ)
unfolding len peek_sides
peek sq client_network_delay_sum server_network_delay_sum current_time =
    if len sq == 0 then ok (none, Queue.blocking, 0) else (do
      c ← EventQueue.peek sq.client client_network_delay_sum current_time
      s ← EventQueue.peek sq.server server_network_delay_sum current_time
      ok (peek_sides c s))

unfoldable pub pop : Queue → Bool → ℕ → SimQueue → Outcome (Option SimEvent × SimQueue)
pop id is_client network_delay_sum sq = do
  r ← EventQueue.pop id network_delay_sum (side sq is_client)
  ok (r.0, with_side sq is_client r.1)

peek_blocking_side : EventQueue → Bool → Option SimEvent × Queue
peek_blocking_side q active_blocking_bypassable =
    let b = EventQueue.peek_blocking q in
    let bb = EventQueue.peek_bypassable q in
    if active_blocking_bypassable
    then (b, Queue.blocking)
    else if gt_option b bb
    then (b, Queue.blocking)
    else (bb, Queue.bypassable)

unfoldable pub peek_blocking : SimQueue → Bool → Bool → Option SimEvent × Queue
unfolding peek_blocking_side
peek_blocking sq active_blocking_bypassable is_client =
    peek_blocking_side (side sq is_client) active_blocking_bypassable

unfoldable pub pop_blocking :
    Queue → Bool → Bool → ℕ → SimQueue → Outcome (Option SimEvent × SimQueue)
pop_blocking id bypassable is_client network_delay_sum sq =
    let q = side sq is_client in
    let (item, rest) = BinaryHeap.pop q.blocking in
    if bypassable
    then ok (item, with_side sq is_client (record q { blocking = rest }))
    else pop id is_client network_delay_sum sq

peek_non_blocking_side : EventQueue → Bool → ℕ → Option SimEvent × Queue
peek_non_blocking_side q bypassable network_delay_sum =
    let bb = EventQueue.peek_bypassable q in
    let (n, nq) = EventQueue.peek_non_blocking q network_delay_sum in
    if bypassable then if gt_option bb n then (bb, Queue.bypassable) else (n, nq) else (n, nq)

unfoldable pub peek_non_blocking : SimQueue → Bool → Bool → ℕ → Option SimEvent × Queue
unfolding peek_non_blocking_side
peek_non_blocking sq bypassable is_client network_delay_sum =
    peek_non_blocking_side (side sq is_client) bypassable network_delay_sum

first_time : Option ℕ → Option ℕ → Option ℕ
first_time (some c) (some s) = some (min c s)
first_time (some c) none = some c
first_time none (some s) = some s
first_time none none = none

unfoldable pub get_first_time : SimQueue → Option ℕ
unfolding first_time
get_first_time sq =
    first_time (EventQueue.get_first_base_time sq.client) (EventQueue.get_first_base_time sq.server)
