-- ===== src/QueuePeek.antt =====
-- crates/maybenot-simulator/src/queue_peek.rs: when each possible next event would take place.
pub mod Bounds
pub mod Points
pub mod Due
use maybenot_simv.Base.{
  ℕ, ◌+◌, Bool, true, false, not, ◌&&◌, ◌||◌, List, [], ◌∷◌, Option, none, some, if◌then◌else◌, ltb,
  leb, ◌==◌, max, compare, Ordering,
}
use maybenot_simv.Outcome.{Outcome, ok, unwrap, ◌>>=◌}
use maybenot_simv.Event.{Event, is_event}
use maybenot_simv.SimEvent.{SimEvent, duration_max, duration_since}
use maybenot_simv.EventQueue.{Queue}
use maybenot_simv.SimQueue
use maybenot_simv.SimQueue.{SimQueue}
use maybenot_simv.SimState.{SimState, ScheduledAction}

abbrev pub is_some {ℓ} : {A : Type ℓ} → Option A → Bool
is_some none = false
is_some (some a) = true

-- The time of a non-blocking event, with the network delay if it stands in the base queue.
abbrev non_blocking_time : Queue → SimEvent → ℕ → ℕ
non_blocking_time Queue.base e delay = e.time + delay
non_blocking_time Queue.blocking e delay = e.time
non_blocking_time Queue.bypassable e delay = e.time
non_blocking_time Queue.internal e delay = e.time

abbrev is_base : Queue → Bool
is_base Queue.base = true
is_base Queue.blocking = false
is_base Queue.bypassable = false
is_base Queue.internal = false

abbrev blocking_first : ℕ → ℕ → Queue → Bool
blocking_first blocking_time non_blocking_time id = elim (compare blocking_time non_blocking_time) [
  | Ordering.lt ↦ true
  | Ordering.gt ↦ false
  | Ordering.eq ↦ not (is_base id)
]

unfoldable pub earliest_of :
    Option SimEvent × Queue → Option SimEvent × Queue → ℕ → ℕ → ℕ → Bool → ℕ × Queue × Bool
earliest_of (none, bq) (none, nq) until now delay is_client =
    (duration_max, Queue.blocking, is_client)
earliest_of (none, bq) (some n, nq) until now delay is_client =
    (duration_since (non_blocking_time nq n delay) now, nq, is_client)
earliest_of (some b, bq) (none, nq) until now delay is_client =
    (duration_since (max b.time until) now, bq, is_client)
earliest_of (some b, bq) (some n, nq) until now delay is_client =
    if blocking_first (max b.time until) (non_blocking_time nq n delay) nq
    then (duration_since (max b.time until) now, bq, is_client)
    else (duration_since (non_blocking_time nq n delay) now, nq, is_client)

abbrev pub unwrap_or {ℓ} : {A : Type ℓ} → Option A → A → A
unwrap_or none d = d
unwrap_or (some a) d = a

unfoldable pub peek_queue_earliest_side :
    SimQueue → Option ℕ → Bool → ℕ → ℕ → Bool → ℕ × Queue × Bool
unfolding earliest_of
peek_queue_earliest_side sq blocking_until blocking_bypassable current_time delay is_client =
    earliest_of (SimQueue.peek_blocking sq blocking_bypassable is_client)
      (SimQueue.peek_non_blocking sq blocking_bypassable is_client delay)
      (unwrap_or blocking_until current_time) current_time delay is_client

abbrev pub earlier_side : ℕ × Queue × Bool → ℕ × Queue × Bool → ℕ × Queue × Bool
earlier_side (c_d, c_q, c_b) (s_d, s_q, s_b) =
    if leb c_d s_d then (c_d, c_q, c_b) else (s_d, s_q, s_b)

module _ {Fw Bins : Type 0} where
  -- The peeked event may be sent: it is no TunnelSent, or its side does not block, or the blocking
  -- and the event may both be bypassed.
  unfoldable pub not_blocked : SimState Fw Bins → SimState Fw Bins → SimEvent → Bool
  not_blocked client server e =
      let client_blocking = is_some client.blocking_until in
      let server_blocking = is_some server.blocking_until in
      not (is_event e.event Event.tunnel_sent)
      || ((not client_blocking && not server_blocking)
          || (((e.client && not client_blocking) || (not e.client && not server_blocking))
              || ((e.client
                    && (client_blocking
                        && (client.blocking_bypassable
                            && (is_event e.event Event.tunnel_sent && e.bypass))))
                  || (not e.client
                      && (server_blocking
                          && (server.blocking_bypassable
                              && (is_event e.event Event.tunnel_sent && e.bypass)))))))

  unfoldable pub peek_queue :
      SimQueue → SimState Fw Bins → SimState Fw Bins → ℕ → ℕ → ℕ → ℕ → Outcome (ℕ × Queue × Bool)
  unfolding not_blocked
  peek_queue sq client server client_delay server_delay earliest current_time =
      if SimQueue.is_empty sq then ok (duration_max, Queue.blocking, false) else (do
        r ← SimQueue.peek sq client_delay server_delay current_time
        e ← unwrap r.0
        ok (
            if ltb earliest r.2
            then (duration_max, Queue.blocking, false)
            else if not_blocked client server e
            then (r.2, r.1, e.client)
            else earlier_side
                (peek_queue_earliest_side sq client.blocking_until client.blocking_bypassable
                  current_time client_delay true)
                (peek_queue_earliest_side sq server.blocking_until server.blocking_bypassable
                  current_time server_delay false)))

-- `if t >= current_time && t.duration_since(current_time) < earliest { … }` over the entries.
unfoldable pub earliest_from : ℕ → List (Option ℕ) → ℕ → ℕ
earliest_from now [] earliest = earliest
earliest_from now (none ∷ ts) earliest = earliest_from now ts earliest
earliest_from now (some t ∷ ts) earliest =
    earliest_from now ts
      (if leb now t && ltb (duration_since t now) earliest then duration_since t now else earliest)

abbrev pub action_times : List (Option ScheduledAction) → List (Option ℕ)
action_times [] = []
action_times (none ∷ rest) = none ∷ action_times rest
action_times (some a ∷ rest) = some a.time ∷ action_times rest

unfoldable pub peek_scheduled_action :
    List (Option ScheduledAction) → List (Option ScheduledAction) → ℕ → ℕ
peek_scheduled_action scheduled_c scheduled_s now =
    earliest_from now (action_times scheduled_s)
      (earliest_from now (action_times scheduled_c) duration_max)

unfoldable pub peek_scheduled_internal_timer : List (Option ℕ) → List (Option ℕ) → ℕ → ℕ
peek_scheduled_internal_timer internal_c internal_s now =
    earliest_from now internal_s (earliest_from now internal_c duration_max)

unfoldable pub peek_blocked_exp : Option ℕ → Option ℕ → ℕ → ℕ × Bool
peek_blocked_exp (some c) (some s) now =
    if ltb c s then (duration_since c now, true) else (duration_since s now, false)
peek_blocked_exp (some c) none now = (duration_since c now, true)
peek_blocked_exp none (some s) now = (duration_since s now, false)
peek_blocked_exp none none now = (duration_max, true)
