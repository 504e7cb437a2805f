-- ===== src/ParseTrace/Invariant.antt =====
-- The queue that `parse_trace_advanced` of crates/maybenot-simulator/src/lib.rs returns for any text.
use maybenot_simv.Base.{ℕ, arith, List, [], ◌∷◌, Option}
use maybenot_simv.Outcome.{IfOk, IfOk-bind, IfOk-then, IfOk-map, unwrap}
use maybenot_simv.Text.{Bytes, lines, split, trim, parse_u64}
use maybenot_simv.SimState.{Env, Integration}
use maybenot_simv.SimQueue.Sound.{IsSound, new-IsSound, push_sim-IsSound}
use maybenot_simv.SimQueue.{SimQueue}
use maybenot_simv.SimQueue.Covered.{IsCovered, new-IsCovered, push_sim-IsCovered}
use maybenot_simv.Network.{Network}
use maybenot_simv.ParseTrace.{
  Direction, sent, received, ignored, direction_of, direction_or_panic, Parsed, earlier, delay_of,
  take_packet, take_parts, take_lines, unparsed, parse_trace_advanced,
}

module _ {Fw Bins Rng : Type 0} (env : Env Fw Bins Rng) (network : Network)
    (client server : Option (Integration Bins)) where
  abbrev Keeps : Parsed Rng → Type 0
  Keeps p = IsSound p.sq × IsCovered p.sq

  take_packet-Keeps :
      (d : Direction) (time : ℕ) (p : Parsed Rng)
      → Keeps p
      → IfOk Keeps (take_packet env network client server d time p)
  unfolding take_packet
  take_packet-Keeps sent time p k =
      IfOk-bind Keeps (delay_of env network client server client p.rng) _
        (λ d. (push_sim-IsSound _ p.sq k.0, push_sim-IsCovered _ p.sq (omega arith) k.1))
  take_packet-Keeps received time p k = IfOk-bind Keeps (earlier time network.delay) _ (λ t.
      IfOk-bind Keeps (delay_of env network client server server p.rng) _
        (λ d. (push_sim-IsSound _ p.sq k.0, push_sim-IsCovered _ p.sq (omega arith) k.1)))
  take_packet-Keeps ignored time p k = k

  take_parts-Keeps :
      (start : ℕ) (parts : List Bytes) (p : Parsed Rng)
      → Keeps p
      → IfOk Keeps (take_parts env network client server start parts p)
  unfolding take_parts
  take_parts-Keeps start [] p k = k
  take_parts-Keeps start (a ∷ []) p k = k
  take_parts-Keeps start (time ∷ direction ∷ rest) p k =
      IfOk-bind Keeps (unwrap (parse_u64 (trim time))) _ (λ nanos.
        IfOk-bind Keeps (direction_or_panic (direction_of direction)) _
          (λ d. take_packet-Keeps d _ p k))

  take_lines-Keeps :
      (start : ℕ) (ls : List Bytes) (p : Parsed Rng)
      → Keeps p
      → IfOk Keeps (take_lines env network client server start ls p)
  unfolding take_lines
  take_lines-Keeps start [] p k = k
  take_lines-Keeps start (l ∷ ls) p k =
      IfOk-then Keeps Keeps (take_parts env network client server start (split b',' l) p) _
        (take_parts-Keeps start (split b',' l) p k) (λ p' k'. take_lines-Keeps start ls p' k')

  abbrev Kept : SimQueue × Rng → Type 0
  Kept (sq, rng) = IsSound sq × IsCovered sq

  parse_trace_advanced-Kept :
      (trace : Bytes) (start : ℕ) (rng : Rng)
      → IfOk Kept (parse_trace_advanced env network client server trace start rng)
  unfolding parse_trace_advanced
  parse_trace_advanced-Kept trace start rng =
      let p = unparsed env network client server rng in
      IfOk-then Kept Keeps (take_lines env network client server start (lines trace) p) _
        (take_lines-Keeps start (lines trace) p (new-IsSound, new-IsCovered))
        (λ q k. (
          record {
            sided = record { client = k.0.sided.client; server = k.0.sided.server };
            client = k.0.client;
            server = k.0.server;
          },
          record { client = k.1.client; server = k.1.server },
        ))

  -- Whatever the text, the integrations and the random numbers, a queue that `parse_trace_advanced`
  -- returns has each event on its own side, in the heap of its kind, and every heap in order.
  pub parse_trace_advanced-IsSound :
      (trace : Bytes) (start : ℕ) (rng : Rng)
      → IfOk (λ r. IsSound r.0) (parse_trace_advanced env network client server trace start rng)
  parse_trace_advanced-IsSound trace start rng =
      IfOk-map Kept _ (parse_trace_advanced env network client server trace start rng)
        (parse_trace_advanced-Kept trace start rng) (λ r k. k.0)

  pub parse_trace_advanced-IsCovered :
      (trace : Bytes) (start : ℕ) (rng : Rng)
      → IfOk (λ r. IsCovered r.0) (parse_trace_advanced env network client server trace start rng)
  parse_trace_advanced-IsCovered trace start rng =
      IfOk-map Kept _ (parse_trace_advanced env network client server trace start rng)
        (parse_trace_advanced-Kept trace start rng) (λ r k. k.1)
