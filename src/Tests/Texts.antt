-- ===== src/Tests/Texts.antt =====
-- The theorems on traces at a trace of three packets.
use maybenot_simv.Base.{true, false, List, [], ◌∷◌, none, ◌≡◌, refl, arith}
use maybenot_simv.Outcome.{ok, IfOk}
use maybenot_simv.Network.{Network}
use maybenot_simv.SimQueue.Sound.{IsSound}
use maybenot_simv.ParseTrace.{parse_trace, parse_trace_advanced}
use maybenot_simv.ParseTrace.Loaded.{Packet, show_trace, loaded_queue, parse_trace-show_trace}
use maybenot_simv.ParseTrace.Invariant.{parse_trace_advanced-IsSound}
use maybenot_simv.Text.Numbers.{show_from}
use maybenot_simv.Tests.{quiet_env}

abbrev packets : List Packet
packets =
    record { nanos = 0; is_sent = true }
    ∷ record { nanos = 12; is_sent = false }
    ∷ record { nanos = 305; is_sent = true }
    ∷ []

abbrev slow : Network
slow = record { delay = 100; pps = none }

packets_text :
    show_trace packets
    ≡ b'0' ∷ b',' ∷ b's' ∷ b'\n' ∷ b'1' ∷ b'2' ∷ b',' ∷ b'r' ∷ b'\n' ∷ b'3' ∷ b'0' ∷ b'5' ∷ b','
      ∷ b's' ∷ b'\n' ∷ []
unfolding show_trace show_from
packets_text = refl

parse_trace-show_trace_example :
    parse_trace quiet_env (show_trace packets) slow 1000 7
    ≡ ok (loaded_queue quiet_env slow 1000 packets, 7)
parse_trace-show_trace_example =
    parse_trace-show_trace quiet_env slow 1000 packets 7 (omega arith) (omega arith)

parse_trace_advanced-IsSound_example :
    IfOk
      (λ r. IsSound r.0)
      (parse_trace_advanced quiet_env slow none none (show_trace packets) 1000 7)
parse_trace_advanced-IsSound_example =
    parse_trace_advanced-IsSound quiet_env slow none none (show_trace packets) 1000 7
