-- ===== src/SimEvent.antt =====
-- `SimEvent` of crates/maybenot-simulator/src/lib.rs with its order. An `Instant` is the number of
-- nanoseconds since the earliest instant, a `Duration` a number of nanoseconds. `debug_note` is left
-- out: nothing reads it.
use maybenot_simv.Base.{ℕ, ◌-◌, ◌*◌, ◌^◌, min, Bool, Ordering, compare, ◌≡◌, arith}
use maybenot_simv.BinaryHeap.{Ord, is_gt}
use maybenot_simv.Event.{TriggerEvent}

pub record SimEvent : Type 0 where
  pub event : TriggerEvent
  pub time : ℕ
  pub integration_delay : ℕ
  pub client : Bool
  pub contains_padding : Bool
  pub bypass : Bool
  pub replace : Bool

-- `Duration::MAX`: 2^64 - 1 seconds and 999,999,999 nanoseconds.
abbrev pub duration_max : ℕ
duration_max = 2 ^ 64 * 1_000_000_000 - 1

-- `Instant::duration_since`: zero if `earlier` is the later one.
abbrev pub duration_since : ℕ → ℕ → ℕ
duration_since t earlier = min (t - earlier) duration_max

unfoldable pub event_to_usize : TriggerEvent → ℕ
event_to_usize TriggerEvent.tunnel_sent = 0
event_to_usize TriggerEvent.normal_sent = 1
event_to_usize (TriggerEvent.padding_sent m) = 2
event_to_usize TriggerEvent.tunnel_recv = 3
event_to_usize TriggerEvent.normal_recv = 4
event_to_usize TriggerEvent.padding_recv = 5
event_to_usize (TriggerEvent.blocking_begin m) = 6
event_to_usize TriggerEvent.blocking_end = 7
event_to_usize (TriggerEvent.timer_begin m) = 8
event_to_usize (TriggerEvent.timer_end m) = 9

abbrev pub then_with : Ordering → Ordering → Ordering
then_with Ordering.lt p = Ordering.lt
then_with Ordering.eq p = p
then_with Ordering.gt p = Ordering.gt

abbrev pub reverse : Ordering → Ordering
reverse Ordering.lt = Ordering.gt
reverse Ordering.eq = Ordering.eq
reverse Ordering.gt = Ordering.lt

-- The earliest time is the greatest, and then the event that stands first in `event_to_usize`.
abbrev pub cmp : SimEvent → SimEvent → Ordering
cmp a b =
    reverse (
      then_with (compare a.time b.time) (compare (event_to_usize a.event) (event_to_usize b.event)))

pub gt_asym : (a b : SimEvent) → is_gt (cmp a b) ≡ Bool.true → is_gt (cmp b a) ≡ Bool.false
gt_asym a b h = ground arith

pub le_trans :
    (a b c : SimEvent)
    → is_gt (cmp a b) ≡ Bool.false
    → is_gt (cmp b c) ≡ Bool.false
    → is_gt (cmp a c) ≡ Bool.false
le_trans a b c h k = ground arith

instance abbrev pub sim_event_ord : Ord SimEvent
sim_event_ord = record { cmp = cmp; gt_asym = gt_asym; le_trans = le_trans }
