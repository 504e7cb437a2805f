-- ===== src/Framework/Trigger.antt =====
-- The steps of `trigger_events`, crates/maybenot/src/framework.rs, and the counts of events.
use maybenot_simv.Base.{
  ℕ, ◌+◌, ◌%◌, ◌^◌, ◌<◌, true, List, [], ◌∷◌, ◌≡◌, inl, inr, refl, ap, arith, All, Bool-cases, ◌==◌,
}
use maybenot_simv.Outcome.{Returns, Returns-bind, Returns-map}
use maybenot_simv.Event.{Event, TriggerEvent}
use maybenot_simv.Platform.{Platform}
use maybenot_simv.Dist.Sampling.{Laws}
use maybenot_simv.Machine.{Machine}
use maybenot_simv.Machine.Sound.{IsSound}
use maybenot_simv.Framework.{Core, ◌+u64◌}
use maybenot_simv.Framework.Events.{
  account, count_normal, count_padding, count_blocked, blocked_for, begin_blocking, end_blocking,
  transit_only, transit_and_decrement, process_event, process_events,
}
use maybenot_simv.Framework.Valid.{IsValid}
use maybenot_simv.Framework.Total.{
  Since, transit_only-Serves, transit_and_decrement-Serves, account-Serves, both-Serves,
  all_machines-Since, if_machine-Since,
}

module _ {F64 Rng : Type 0} where
  -- What `process_event` accounts for before the machines hear of the event.
  pub accounted : TriggerEvent → Core F64 Rng → Core F64 Rng
  accounted TriggerEvent.normal_sent c = record c {
    normal_sent_packets = c.normal_sent_packets +u64 1;
  }
  accounted (TriggerEvent.padding_sent machine) c = record c {
    padding_sent_packets = c.padding_sent_packets +u64 1;
  }
  accounted (TriggerEvent.blocking_begin machine) c = begin_blocking c
  accounted TriggerEvent.blocking_end c = end_blocking c
  accounted _ c = c

-- How many packets the events report as sent.
pub one_normal : TriggerEvent → ℕ
one_normal TriggerEvent.normal_sent = 1
one_normal _ = 0

pub one_padding : TriggerEvent → ℕ
one_padding (TriggerEvent.padding_sent machine) = 1
one_padding _ = 0

unfoldable pub normal_count : List TriggerEvent → ℕ
unfolding one_normal
normal_count [] = 0
normal_count (e ∷ es) = one_normal e + normal_count es

unfoldable pub padding_count : List TriggerEvent → ℕ
unfolding one_padding
padding_count [] = 0
padding_count (e ∷ es) = one_padding e + padding_count es

-- The counts are `u64`.
abbrev pub IsCounting : {F64 Rng : Type 0} → Core F64 Rng → Type 0
IsCounting c = (c.normal_sent_packets < 2 ^ 64) × (c.padding_sent_packets < 2 ^ 64)

module _ {F64 F32 Rng : Type 0} (pl : Platform F64 F32 Rng) (laws : Laws pl)
    (ms : List (Machine F64 F32)) (sound : All (IsSound pl) ms) where
  accounted-IsValid :
      (e : TriggerEvent) (c : Core F64 Rng) → IsValid ms c → IsValid ms (accounted e c)
  unfolding accounted
  accounted-IsValid (TriggerEvent.blocking_begin machine) c v =
      elim (Bool-cases c.blocking_active) [
        | inl t ↦
            rw t (record { runs = v.runs; owns = v.owns; places = v.places; signal = v.signal })
        | inr t ↦
            rw t (record { runs = v.runs; owns = v.owns; places = v.places; signal = v.signal })
      ]
  accounted-IsValid _ c v = record {
    runs = v.runs;
    owns = v.owns;
    places = v.places;
    signal = v.signal;
  }

  process_event-Since :
      (e : TriggerEvent) (c : Core F64 Rng)
      → IsValid ms c
      → Returns (Since pl laws ms sound (accounted e c)) (process_event pl ms e c)
  unfolding process_event accounted
  process_event-Since TriggerEvent.normal_recv c v =
      all_machines-Since pl laws ms sound _ c
        (transit_only-Serves pl laws ms sound Event.normal_recv) v
  process_event-Since TriggerEvent.padding_recv c v =
      all_machines-Since pl laws ms sound _ c
        (transit_only-Serves pl laws ms sound Event.padding_recv) v
  process_event-Since TriggerEvent.tunnel_recv c v =
      all_machines-Since pl laws ms sound _ c
        (transit_only-Serves pl laws ms sound Event.tunnel_recv) v
  process_event-Since TriggerEvent.normal_sent c v =
      all_machines-Since pl laws ms sound _ _
        (both-Serves pl laws ms sound (account count_normal) (transit_only pl ms Event.normal_sent)
          (account-Serves pl laws ms sound count_normal (λ r. refl))
          (transit_only-Serves pl laws ms sound Event.normal_sent))
        (accounted-IsValid TriggerEvent.normal_sent c v)
  process_event-Since (TriggerEvent.padding_sent machine) c v =
      if_machine-Since pl laws ms sound machine _ _
        (both-Serves pl laws ms sound (account count_padding)
          (transit_and_decrement pl ms Event.padding_sent (λ mi. true))
          (account-Serves pl laws ms sound count_padding (λ r. refl))
          (transit_and_decrement-Serves pl laws ms sound Event.padding_sent (λ mi. true)))
        (accounted-IsValid (TriggerEvent.padding_sent machine) c v)
  process_event-Since TriggerEvent.tunnel_sent c v =
      all_machines-Since pl laws ms sound _ c
        (transit_only-Serves pl laws ms sound Event.tunnel_sent) v
  process_event-Since (TriggerEvent.blocking_begin machine) c v =
      all_machines-Since pl laws ms sound _ _
        (transit_and_decrement-Serves pl laws ms sound Event.blocking_begin (λ mi. mi == machine))
        (accounted-IsValid (TriggerEvent.blocking_begin machine) c v)
  process_event-Since TriggerEvent.blocking_end c v =
      all_machines-Since pl laws ms sound _ _
        (both-Serves pl laws ms sound (account (count_blocked (blocked_for c)))
          (transit_only pl ms Event.blocking_end)
          (account-Serves pl laws ms sound (count_blocked (blocked_for c)) (λ r. refl))
          (transit_only-Serves pl laws ms sound Event.blocking_end))
        (accounted-IsValid TriggerEvent.blocking_end c v)
  process_event-Since (TriggerEvent.timer_begin machine) c v =
      if_machine-Since pl laws ms sound machine _ c
        (transit_and_decrement-Serves pl laws ms sound Event.timer_begin (λ mi. true)) v
  process_event-Since (TriggerEvent.timer_end machine) c v =
      if_machine-Since pl laws ms sound machine _ c
        (transit_only-Serves pl laws ms sound Event.timer_end) v

  -- The invariant, and the packets counted since `c`.
  pub record Processed (es : List TriggerEvent) (c c' : Core F64 Rng) : Type 0 where
    pub valid : IsValid ms c'
    pub normal : c'.normal_sent_packets ≡ (c.normal_sent_packets + normal_count es) % 2 ^ 64
    pub padding : c'.padding_sent_packets ≡ (c.padding_sent_packets + padding_count es) % 2 ^ 64

  accounted_counts :
      (e : TriggerEvent) (c : Core F64 Rng)
      → IsCounting c
      → ((accounted e c).normal_sent_packets ≡ (c.normal_sent_packets + one_normal e) % 2 ^ 64)
        × ((accounted e c).padding_sent_packets ≡ (c.padding_sent_packets + one_padding e) % 2 ^ 64)
  unfolding accounted one_normal one_padding
  accounted_counts (TriggerEvent.blocking_begin machine) c k = ground arith
  accounted_counts _ c k = (omega arith, omega arith)

  pub process_events-Processed :
      (es : List TriggerEvent) (c : Core F64 Rng)
      → IsValid ms c
      → IsCounting c
      → Returns (Processed es c) (process_events pl ms es c)
  unfolding process_events normal_count padding_count
  process_events-Processed [] c v k = record {
    valid = v;
    normal = omega arith;
    padding = omega arith;
  }
  process_events-Processed (e ∷ es) c v k =
      let (n, p) = accounted_counts e c k in
      Returns-bind _ (Since pl laws ms sound (accounted e c)) (process_event pl ms e c) _
        (process_event-Since e c v)
        (λ c1 s.
          let n1 : c1.normal_sent_packets ≡ (accounted e c).normal_sent_packets =
            ap (λ t. t.0) s.kept in
          let p1 : c1.padding_sent_packets ≡ (accounted e c).padding_sent_packets =
            ap (λ t. t.1) s.kept in
          Returns-map (Processed es c1) (Processed (e ∷ es) c) (process_events pl ms es c1)
            (process_events-Processed es c1 s.valid (omega arith, omega arith))
            (λ c2 q. record {
              valid = q.valid;
              normal = omega (arith, q.normal);
              padding = omega (arith, q.padding);
            }))
