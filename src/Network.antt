-- ===== src/Network.antt =====
-- The network model of crates/maybenot-simulator/src/network.rs: the bottleneck, its window counts
-- and the pending aggregate delays. The network stack is NetworkStack.
pub mod Window
pub mod Aggregate
use maybenot_simv.Base.{
  ℕ, ◌+◌, ◌-◌, ◌*◌, ◌/◌, ◌%◌, ◌^◌, Bool, true, false, List, [], ◌∷◌, ◌++◌, Option, none, some,
  if◌then◌else◌, ltb, ◌==◌, length, compare, ◌≡◌, arith,
}
use maybenot_simv.Outcome.{Outcome, ok, panic, division_by_zero}
use maybenot_simv.SimEvent.{duration_max, duration_since, reverse}
use maybenot_simv.BinaryHeap
use maybenot_simv.BinaryHeap.{Ord, is_gt}
use maybenot_simv.QueuePeek.{unwrap_or}

pub record Network : Type 0 where
  pub delay : ℕ
  pub pps : Option ℕ

pub record PendingAggregateDelay : Type 0 where
  pub time : ℕ
  pub delay : ℕ
  pub client : Bool

pub gt_asym :
    (a b : PendingAggregateDelay)
    → is_gt (reverse (compare a.time b.time)) ≡ true
    → is_gt (reverse (compare b.time a.time)) ≡ false
gt_asym a b h = ground arith

pub le_trans :
    (a b c : PendingAggregateDelay)
    → is_gt (reverse (compare a.time b.time)) ≡ false
    → is_gt (reverse (compare b.time c.time)) ≡ false
    → is_gt (reverse (compare a.time c.time)) ≡ false
le_trans a b c h k = ground arith

instance abbrev pub pending_ord : Ord PendingAggregateDelay
pending_ord = record {
  cmp = λ a b. reverse (compare a.time b.time);
  gt_asym = gt_asym;
  le_trans = le_trans;
}

-- The timestamps stand with the oldest first.
pub record WindowCount : Type 0 where
  pub window : ℕ
  pub timestamps : List ℕ

pub record NetworkBottleneck : Type 0 where
  pub client_aggregate_base_delay : ℕ
  pub server_aggregate_base_delay : ℕ
  pub aggregate_delay_queue : List PendingAggregateDelay
  pub network : Network
  pub client_window : WindowCount
  pub server_window : WindowCount
  pub pps_added_delay : ℕ
  pub pps_limit : ℕ

-- `usize` has 64 bits.
abbrev usize_max : ℕ
usize_max = 2 ^ 64 - 1

abbrev as_u32 : ℕ → ℕ
as_u32 n = n % 2 ^ 32

unfoldable pub new : Network → ℕ → Option ℕ → Outcome NetworkBottleneck
new network window queue_pps =
    let pps = unwrap_or network.pps (unwrap_or queue_pps usize_max) in
    if as_u32 pps == 0
    then panic division_by_zero
    else ok (record {
      client_aggregate_base_delay = 0;
      server_aggregate_base_delay = 0;
      aggregate_delay_queue = [];
      network = network;
      client_window = record { window = window; timestamps = [] };
      server_window = record { window = window; timestamps = [] };
      pps_added_delay = window / as_u32 pps;
      pps_limit = pps;
    })

-- `while let Some(&oldest) = self.timestamps.front() { … }`
unfoldable pub prune : ℕ → ℕ → List ℕ → List ℕ
prune window now [] = []
prune window now (oldest ∷ ts) =
    if ltb window (duration_since now oldest) then prune window now ts else oldest ∷ ts

unfoldable pub add : ℕ → WindowCount → ℕ × WindowCount
add now w =
    let ts = prune w.window now (w.timestamps ++ now ∷ []) in
    (length ts, record w { timestamps = ts })

abbrev window_of : NetworkBottleneck → Bool → WindowCount
window_of n is_client = if is_client then n.client_window else n.server_window

abbrev with_window : NetworkBottleneck → Bool → WindowCount → NetworkBottleneck
with_window n is_client w =
    if is_client then record n { client_window = w } else record n { server_window = w }

unfoldable pub sample : ℕ → Bool → NetworkBottleneck → (ℕ × Option ℕ) × NetworkBottleneck
sample now is_client n =
    let (count, w) = add now (window_of n is_client) in
    let delay =
      if ltb n.pps_limit count then n.pps_added_delay * as_u32 (count - n.pps_limit) else 0 in
    if ltb 0 delay
    then ((delay + n.network.delay, some delay), with_window n is_client w)
    else ((n.network.delay, none), with_window n is_client w)

unfoldable pub peek_aggregate_delay : NetworkBottleneck → ℕ → ℕ
peek_aggregate_delay n now = elim (BinaryHeap.peek n.aggregate_delay_queue) [
  | none ↦ duration_max
  | some d ↦ duration_since d.time now
]

-- `if a > b { a - b } else { 0 }`, which on ℕ is the truncated difference written out.
abbrev excess : ℕ → ℕ → ℕ
excess a b = if ltb b a then a - b else 0

abbrev pub pending : ℕ → ℕ → Bool → PendingAggregateDelay
pending time delay client = record { time = time; delay = delay; client = client }

-- Where the blocking expired decides when the delay takes effect at the client and at the server.
unfoldable pub effect_at_client : ℕ → ℕ → Bool → ℕ
effect_at_client d block_duration client_expiry =
    if client_expiry then excess (4 * d) block_duration else excess d block_duration

unfoldable pub effect_at_server : ℕ → ℕ → Bool → ℕ
effect_at_server d block_duration client_expiry =
    if client_expiry then excess (3 * d) block_duration else excess (4 * d) block_duration

unfoldable pub push_aggregate_delay : ℕ → ℕ → Bool → NetworkBottleneck → NetworkBottleneck
push_aggregate_delay block_duration now client_expiry n =
    let d = n.network.delay in
    let client = effect_at_client d block_duration client_expiry in
    let server = effect_at_server d block_duration client_expiry in
    record n {
      aggregate_delay_queue =
          BinaryHeap.push (pending (now + server) block_duration false)
            (BinaryHeap.push (pending (now + client) block_duration true) n.aggregate_delay_queue);
    }

unfoldable pub pop_aggregate_delay : NetworkBottleneck → NetworkBottleneck
pop_aggregate_delay n = elim n.aggregate_delay_queue [
  | [] ↦ n
  | d ∷ rest ↦
      if d.client
      then record n {
        aggregate_delay_queue = rest;
        client_aggregate_base_delay = n.client_aggregate_base_delay + d.delay;
      }
      else record n {
        aggregate_delay_queue = rest;
        server_aggregate_base_delay = n.server_aggregate_base_delay + d.delay;
      }
]

abbrev pub base_delay : NetworkBottleneck → Bool → ℕ
base_delay n is_client =
    if is_client then n.client_aggregate_base_delay else n.server_aggregate_base_delay
