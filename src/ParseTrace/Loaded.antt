-- ===== src/ParseTrace/Loaded.antt =====
-- What `parse_trace` of crates/maybenot-simulator/src/lib.rs makes of the text of a trace.
use maybenot_simv.Base.{
  ℕ, ◌+◌, ◌-◌, ◌*◌, ◌%◌, ◌^◌, ◌≤◌, Bool, true, false, List, [], ◌∷◌, ◌++◌, none, some, ◌≡◌, ◌≢◌,
  refl, sym, ap, ◌∙◌, arith, All, All-append, ltb, max, if◌then◌else◌,
}
use mathlib.Core.List.{append_assoc}
use maybenot_simv.Outcome.{ok}
use maybenot_simv.Platform.{u64_max}
use maybenot_simv.Text.{Bytes, lines, lines_from, strip_return, split, is_equal}
use maybenot_simv.Text.Numbers.{
  show, parse_u64-show, trim-show, split-append, split-All, lines_from-append, strip_return-append,
  show-All-ne,
}
use maybenot_simv.SimState.{Env, sample_or_zero}
use maybenot_simv.SimQueue
use maybenot_simv.SimQueue.{SimQueue}
use maybenot_simv.Network.{Network, WindowCount, add}
use maybenot_simv.ParseTrace.{
  Direction, sent, received, direction_of, Parsed, push_sent, take_packet, take_parts, take_lines,
  no_packets, unparsed, parse_trace_advanced, parse_trace,
}

-- A packet of a trace: the nanoseconds since its start, and whether the client sent it.
pub record Packet : Type 0 where
  pub nanos : ℕ
  pub is_sent : Bool

abbrev pub letter : Bool → ℕ
letter true = b's'
letter false = b'r'

-- The line of a packet, and the text of a trace.
abbrev pub show_packet : Packet → Bytes
show_packet p = show p.nanos ++ b',' ∷ letter p.is_sent ∷ []

unfoldable pub show_trace : List Packet → Bytes
show_trace [] = []
show_trace (p ∷ ps) = show_packet p ++ b'\n' ∷ show_trace ps

-- The lines that the text of a trace is read as.
abbrev show_packets : List Packet → List Bytes
show_packets [] = []
show_packets (p ∷ ps) = show_packet p ∷ show_packets ps

letter_ne : (b : Bool) → (letter b ≢ b'\n') × (letter b ≢ b'\r') × (letter b ≢ b',')
letter_ne true = omega arith
letter_ne false = omega arith

show_packet-All : (p : Packet) → All (λ c. c ≢ b'\n') (show_packet p)
show_packet-All p =
    All-append (λ c. c ≢ b'\n') (show p.nanos) (b',' ∷ letter p.is_sent ∷ [])
      (show-All-ne p.nanos b'\n' (omega arith)) (omega arith, ((letter_ne p.is_sent).0, tt))

strip_return-show_packet : (p : Packet) → strip_return (show_packet p) ≡ show_packet p
strip_return-show_packet p =
    ap strip_return (sym (append_assoc (show p.nanos) (b',' ∷ []) (letter p.is_sent ∷ [])))
    ∙ strip_return-append (show p.nanos ++ b',' ∷ []) (letter p.is_sent) (letter_ne p.is_sent).1
    ∙ append_assoc (show p.nanos) (b',' ∷ []) (letter p.is_sent ∷ [])

lines-show_trace : (ps : List Packet) → lines (show_trace ps) ≡ show_packets ps
unfolding show_trace
lines-show_trace [] = unfold lines_from in refl
lines-show_trace (p ∷ ps) =
    lines_from-append (show_packet p) [] (show_trace ps) (show_packet-All p)
    ∙ rw (strip_return-show_packet p, lines-show_trace ps) refl

split-show_packet :
    (p : Packet) → split b',' (show_packet p) ≡ show p.nanos ∷ (letter p.is_sent ∷ []) ∷ []
split-show_packet p =
    split-append b',' (show p.nanos) (letter p.is_sent ∷ [])
      (show-All-ne p.nanos b',' (omega arith))
    ∙ rw (split-All b',' (letter p.is_sent ∷ []) ((letter_ne p.is_sent).2, tt)) refl

abbrev direction : Bool → Direction
direction true = sent
direction false = received

direction_of-letter : (b : Bool) → direction_of (letter b ∷ []) ≡ some (direction b)
unfolding direction_of is_equal
direction_of-letter true = refl
direction_of-letter false = refl

-- What the times of the packets of one direction come to, from a window and a maximum on.
unfoldable pub peak : WindowCount → ℕ → List ℕ → ℕ
peak w m [] = m
peak w m (t ∷ ts) = peak (add t w).1 (max m (add t w).0) ts

module _ (start delay : ℕ) where
  -- The times of the packets of one direction.
  unfoldable pub times : Bool → List Packet → List ℕ
  times b [] = []
  times true (p ∷ ps) = if p.is_sent then (start + p.nanos) ∷ times true ps else times true ps
  times false (p ∷ ps) = if p.is_sent then times false ps else (start + p.nanos) ∷ times false ps

  abbrev queue_one : Bool → ℕ → SimQueue → SimQueue
  queue_one true time = push_sent true time 0
  queue_one false time = push_sent false (time - delay) 0

  -- A packet of the client is sent at its time, and one of the server by the network's delay before.
  unfoldable pub queued : List Packet → SimQueue → SimQueue
  queued [] sq = sq
  queued (p ∷ ps) sq = queued ps (queue_one p.is_sent (start + p.nanos) sq)

module _ {Fw Bins Rng : Type 0} (env : Env Fw Bins Rng) (network : Network) (start : ℕ) where
  abbrev loaded_one : Bool → ℕ → Parsed Rng → Parsed Rng
  loaded_one true time p = record p {
    sq = push_sent true time 0 p.sq;
    sent_window = (add time p.sent_window).1;
    sent_max_pps = max p.sent_max_pps (add time p.sent_window).0;
  }
  loaded_one false time p = record p {
    sq = push_sent false (time - network.delay) 0 p.sq;
    recv_window = (add time p.recv_window).1;
    recv_max_pps = max p.recv_max_pps (add time p.recv_window).0;
  }

  loaded : List Packet → Parsed Rng → Parsed Rng
  loaded [] p = p
  loaded (k ∷ ks) p = loaded ks (loaded_one k.is_sent (start + k.nanos) p)

  take_packet-loaded_one :
      (b : Bool) (time : ℕ) (p : Parsed Rng)
      → network.delay ≤ time
      → take_packet env network none none (direction b) time p ≡ ok (loaded_one b time p)
  unfolding take_packet sample_or_zero
  take_packet-loaded_one true time p h = refl
  take_packet-loaded_one false time p h =
      let e : ltb time network.delay ≡ false = ground arith in rw e refl

  take_parts-show_packet :
      (k : Packet) (p : Parsed Rng)
      → k.nanos ≤ u64_max
      → network.delay ≤ start
      → take_parts env network none none start (split b',' (show_packet k)) p
        ≡ ok (loaded_one k.is_sent (start + k.nanos) p)
  unfolding take_parts
  take_parts-show_packet k p h d =
      rw
        (
          split-show_packet k,
          trim-show k.nanos,
          parse_u64-show k.nanos h,
          direction_of-letter k.is_sent,
        )
        (take_packet-loaded_one k.is_sent (start + k.nanos) p (omega arith))

  take_lines-loaded :
      (ks : List Packet) (p : Parsed Rng)
      → All (λ k. k.nanos ≤ u64_max) ks
      → network.delay ≤ start
      → take_lines env network none none start (show_packets ks) p ≡ ok (loaded ks p)
  unfolding take_lines loaded
  take_lines-loaded [] p h d = refl
  take_lines-loaded (k ∷ ks) p h d =
      rw (take_parts-show_packet k p h.0 d) (take_lines-loaded ks _ h.1 d)

  record IsLoaded (ks : List Packet) (p q : Parsed Rng) : Type 0 where
    sq : q.sq ≡ queued start network.delay ks p.sq
    sent_max :
        q.sent_max_pps ≡ peak p.sent_window p.sent_max_pps (times start network.delay true ks)
    recv_max :
        q.recv_max_pps ≡ peak p.recv_window p.recv_max_pps (times start network.delay false ks)
    rng : q.rng ≡ p.rng

  IsLoaded-cons :
      (b : Bool) (n : ℕ) (ks : List Packet) (p q : Parsed Rng)
      → IsLoaded ks (loaded_one b (start + n) p) q
      → IsLoaded (record { nanos = n; is_sent = b } ∷ ks) p q
  unfolding queued times peak
  IsLoaded-cons true n ks p q i = record {
    sq = i.sq;
    sent_max = i.sent_max;
    recv_max = i.recv_max;
    rng = i.rng;
  }
  IsLoaded-cons false n ks p q i = record {
    sq = i.sq;
    sent_max = i.sent_max;
    recv_max = i.recv_max;
    rng = i.rng;
  }

  loaded-IsLoaded : (ks : List Packet) (p : Parsed Rng) → IsLoaded ks p (loaded ks p)
  unfolding loaded queued times peak
  loaded-IsLoaded [] p = record { sq = refl; sent_max = refl; recv_max = refl; rng = refl }
  loaded-IsLoaded (k ∷ ks) p =
      IsLoaded-cons k.is_sent k.nanos ks p _
        (loaded-IsLoaded ks (loaded_one k.is_sent (start + k.nanos) p))

  -- The queue of a trace, and ten times the most packets of one direction within 100 ms.
  abbrev pub loaded_queue : List Packet → SimQueue
  loaded_queue ps = record (queued start network.delay ps SimQueue.new) {
    max_pps = some (
        max (peak no_packets 0 (times start network.delay true ps))
          (peak no_packets 0 (times start network.delay false ps))
        * 10
        % 2 ^ 64);
  }

  -- When the times of the packets are `u64` and the network's delay is not more than the start's
  -- distance from the earliest instant, `parse_trace` of the text of a trace returns the queue into
  -- which each packet was pushed, in its order and on the side that sends it: a packet of the client
  -- at its time, one of the server by the delay earlier. The maximum of packets per second is ten
  -- times the most packets of one direction that the window counted at once, and no random number is
  -- drawn.
  pub parse_trace-show_trace :
      (ps : List Packet) (rng : Rng)
      → All (λ k. k.nanos ≤ u64_max) ps
      → network.delay ≤ start
      → parse_trace env (show_trace ps) network start rng ≡ ok (loaded_queue ps, rng)
  unfolding parse_trace parse_trace_advanced
  parse_trace-show_trace ps rng h d =
      let i = loaded-IsLoaded ps (unparsed env network none none rng) in
      rw
        (
          lines-show_trace ps,
          take_lines-loaded ps (unparsed env network none none rng) h d,
          i.sq,
          i.sent_max,
          i.recv_max,
          i.rng,
        )
        refl
