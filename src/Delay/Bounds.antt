-- ===== src/Delay/Bounds.antt =====
-- The delays that blocking adds are no longer than the head of the buffer has been blocked.
use maybenot_simv.Base.{ℕ, ◌≤◌, ◌+◌, Bool, List, [], ◌∷◌, some, ◌≡◌, arith}
use maybenot_simv.SimEvent.{SimEvent, duration_since}
use maybenot_simv.SimQueue.{SimQueue, side}
use maybenot_simv.Delay.{tail_of, buffered, buffer_window, agg_delay_on_blocking_expire}

tail_of_bounds :
    (head : ℕ) (es : List SimEvent) (tail : ℕ)
    → head ≤ tail
    → (duration_since tail head ≤ buffer_window)
    → (head ≤ tail_of head es tail) × (duration_since (tail_of head es tail) head ≤ buffer_window)
unfolding tail_of
tail_of_bounds head [] tail h k = (h, k)
tail_of_bounds head (e ∷ es) tail h k =
    ground (arith, tail_of_bounds head es e.time, tail_of_bounds head es tail h k)

-- When the head was sent no later than the end of the blocking, and the end adds a delay, the delay is
-- at most the time that the head was blocked and at least this time less the buffer window.
pub agg_delay_on_blocking_expire_bounds :
    (sq : SimQueue) (c : Bool) (expiry : ℕ) (head : SimEvent) (aggregate d : ℕ)
    → head.time ≤ expiry
    → agg_delay_on_blocking_expire sq c expiry head aggregate ≡ some d
    → (d ≤ duration_since expiry head.time) × (duration_since expiry head.time ≤ d + buffer_window)
unfolding agg_delay_on_blocking_expire
agg_delay_on_blocking_expire_bounds sq c expiry head aggregate d l h =
    ground (arith, tail_of_bounds head.time (buffered (side sq c)) head.time)
