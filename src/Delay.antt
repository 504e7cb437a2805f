-- ===== src/Delay.antt =====
-- crates/maybenot-simulator/src/delay.rs: the delay that blocked or congested packets add to the
-- base trace. `Instant - Instant` is `duration_since`.
pub mod Bounds
use maybenot_simv.Base.{
  ℕ, ◌+◌, Bool, true, false, ◌&&◌, List, [], ◌∷◌, ◌++◌, Option, none, some, if◌then◌else◌, ltb, leb,
  ◌==◌, length,
}
use maybenot_simv.SimEvent.{SimEvent, duration_since}
use maybenot_simv.BinaryHeap
use maybenot_simv.EventQueue.{EventQueue}
use maybenot_simv.SimQueue.{SimQueue, side}

-- One and a hundred milliseconds.
abbrev pub base_window : ℕ
base_window = 1_000_000

abbrev pub buffer_window : ℕ
buffer_window = 1_000_000

abbrev pub adjacent_window : ℕ
adjacent_window = 100_000_000

-- `blocking.iter().chain(bypassable.iter())`
abbrev pub buffered : EventQueue → List SimEvent
buffered q = q.blocking ++ q.bypassable

unfoldable pub tail_of : ℕ → List SimEvent → ℕ → ℕ
tail_of head [] tail = tail
tail_of head (e ∷ es) tail =
    tail_of head es
      (if leb (duration_since e.time head) buffer_window && ltb tail e.time then e.time else tail)

-- Is the next base event, with the aggregate delay, within the window after `head`?
unfoldable pub base_within : Option SimEvent → ℕ → ℕ → Bool
base_within none aggregate_base_delay head = false
base_within (some base) aggregate_base_delay head =
    leb (duration_since (base.time + aggregate_base_delay) head) base_window

unfoldable pub agg_delay_on_blocking_expire : SimQueue → Bool → ℕ → SimEvent → ℕ → Option ℕ
agg_delay_on_blocking_expire sq is_client expire_time head aggregate_base_delay =
    let q = side sq is_client in
    let tail =
      if ltb 2 (length q.blocking + length q.bypassable)
      then tail_of head.time (buffered q) head.time
      else head.time in
    if expire_time == tail
    then none
    else if base_within (BinaryHeap.peek q.base) aggregate_base_delay head.time
    then none
    else some (duration_since expire_time tail)

-- `for e in … { if e.time - head.time <= ADJACENT_WINDOW { return … } }`
unfoldable pub any_adjacent : ℕ → List SimEvent → Bool
any_adjacent head [] = false
any_adjacent head (e ∷ es) =
    if leb (duration_since e.time head) adjacent_window then true else any_adjacent head es

unfoldable pub agg_delay_on_padding_bypass_replace : SimQueue → Bool → ℕ → SimEvent → ℕ → Option ℕ
agg_delay_on_padding_bypass_replace sq is_client current_time head aggregate_base_delay =
    let q = side sq is_client in
    if any_adjacent head.time (buffered q)
    then none
    else if base_within (BinaryHeap.peek q.base) aggregate_base_delay head.time
    then none
    else some (duration_since current_time head.time)

unfoldable pub should_delayed_packet_prop_agg_delay : SimQueue → Bool → SimEvent → ℕ → Bool
should_delayed_packet_prop_agg_delay sq is_client packet aggregate_base_delay =
    let q = side sq is_client in
    if any_adjacent packet.time (buffered q)
    then false
    else if base_within (BinaryHeap.peek q.base) aggregate_base_delay packet.time
    then false
    else true
