-- ===== src/ParseTrace.antt =====
-- `parse_trace` and `parse_trace_advanced` of crates/maybenot-simulator/src/lib.rs: a text of lines
-- into the queue that the simulator starts from. `Instant::now()` is a parameter.
pub mod Loaded
pub mod Invariant
use maybenot_simv.Base.{
  ℕ, ◌+◌, ◌-◌, ◌*◌, ◌%◌, ◌^◌, Bool, true, false, List, [], ◌∷◌, ◌++◌, Option, none, some, ltb, ◌||◌,
  max, if◌then◌else◌,
}
use maybenot_simv.Outcome.{Outcome, ok, panic, invalid_direction, instant_underflow, unwrap, ◌>>=◌}
use maybenot_simv.Text.{Bytes, lines, split, trim, parse_u64, is_equal}
use maybenot_simv.Event.{TriggerEvent}
use maybenot_simv.SimState.{Env, Integration, sample_or_zero}
use maybenot_simv.SimQueue
use maybenot_simv.SimQueue.{SimQueue}
use maybenot_simv.Network.{Network, WindowCount, add}

pub data Direction : Type 0 where
  sent received ignored : Direction

-- `match parts[1] { … }`; `none` is the panic
unfoldable pub direction_of : Bytes → Option Direction
direction_of s =
    if is_equal s (b's' ∷ []) || is_equal s (b's' ∷ b'n' ∷ [])
    then some sent
    else if is_equal s (b'r' ∷ []) || is_equal s (b'r' ∷ b'n' ∷ [])
    then some received
    else if is_equal s (b's' ∷ b'p' ∷ []) || is_equal s (b'r' ∷ b'p' ∷ [])
    then some ignored
    else none

abbrev pub direction_or_panic : Option Direction → Outcome Direction
direction_or_panic none = panic invalid_direction
direction_or_panic (some d) = ok d

-- The variables of the loop, with the thread's random numbers.
pub record Parsed (Rng : Type 0) : Type 0 where
  pub sq : SimQueue
  pub sent_window : WindowCount
  pub recv_window : WindowCount
  pub sent_max_pps : ℕ
  pub recv_max_pps : ℕ
  pub rng : Rng

-- `Instant - Duration`
abbrev pub earlier : ℕ → ℕ → Outcome ℕ
earlier time duration = if ltb time duration then panic instant_underflow else ok (time - duration)

-- A packet that is reported to the framework of its side after a delay.
abbrev pub push_sent : Bool → ℕ → ℕ → SimQueue → SimQueue
push_sent is_client time delay =
    SimQueue.push TriggerEvent.normal_sent is_client false (time + delay) delay

-- A window of 100 ms.
abbrev pub no_packets : WindowCount
no_packets = record { window = 100 * 10 ^ 6; timestamps = [] }

module _ {Fw Bins Rng : Type 0} (env : Env Fw Bins Rng) (network : Network)
    (client server : Option (Integration Bins)) where
  abbrev pub delay_of : Option (Integration Bins) → Rng → Outcome (ℕ × Rng)
  delay_of = sample_or_zero env (λ i. i.reporting_delay)

  unfoldable pub take_packet : Direction → ℕ → Parsed Rng → Outcome (Parsed Rng)
  take_packet sent timestamp p = do
    delay ← delay_of client p.rng
    let (m, window) = add timestamp p.sent_window
    ok (record p {
      sq = push_sent true timestamp delay.0 p.sq;
      sent_window = window;
      sent_max_pps = max p.sent_max_pps m;
      rng = delay.1;
    })
  take_packet received timestamp p = do
    sent_at ← earlier timestamp network.delay
    delay ← delay_of server p.rng
    let (m, window) = add timestamp p.recv_window
    ok (record p {
      sq = push_sent false sent_at delay.0 p.sq;
      recv_window = window;
      recv_max_pps = max p.recv_max_pps m;
      rng = delay.1;
    })
  take_packet ignored timestamp p = ok p

  -- A line of less than two parts is passed over.
  unfoldable pub take_parts : ℕ → List Bytes → Parsed Rng → Outcome (Parsed Rng)
  take_parts starting_time (time ∷ direction ∷ rest) p = do
    nanos ← unwrap (parse_u64 (trim time))
    d ← direction_or_panic (direction_of direction)
    take_packet d (starting_time + nanos) p
  take_parts starting_time _ p = ok p

  unfoldable pub take_lines : ℕ → List Bytes → Parsed Rng → Outcome (Parsed Rng)
  take_lines starting_time [] p = ok p
  take_lines starting_time (l ∷ ls) p = do
    p' ← take_parts starting_time (split b',' l) p
    take_lines starting_time ls p'

  abbrev pub unparsed : Rng → Parsed Rng
  unparsed rng = record {
    sq = SimQueue.new;
    sent_window = no_packets;
    recv_window = no_packets;
    sent_max_pps = 0;
    recv_max_pps = 0;
    rng = rng;
  }

  abbrev pub with_max_pps : Parsed Rng → SimQueue × Rng
  with_max_pps p =
      (record p.sq { max_pps = some (max p.sent_max_pps p.recv_max_pps * 10 % 2 ^ 64) }, p.rng)

  unfoldable pub parse_trace_advanced : Bytes → ℕ → Rng → Outcome (SimQueue × Rng)
  parse_trace_advanced trace starting_time rng = do
    p ← take_lines starting_time (lines trace) (unparsed rng)
    ok (with_max_pps p)

module _ {Fw Bins Rng : Type 0} (env : Env Fw Bins Rng) where
  unfoldable pub parse_trace : Bytes → Network → ℕ → Rng → Outcome (SimQueue × Rng)
  parse_trace trace network = parse_trace_advanced env network none none trace
