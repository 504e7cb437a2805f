-- ===== src/Framework/Returns.antt =====
-- `trigger_events` of crates/maybenot/src/framework.rs, as its callers see it.
use maybenot_simv.Base.{
  ℕ, zero, suc, ◌+◌, ◌%◌, ◌^◌, ◌<◌, ◌≤◌, List, [], ◌∷◌, Option, none, some, ◌≡◌, inl, inr, refl,
  ◌∙◌, ap, arith, length, All, replicate, length-replicate, Bool-cases, ◌==◌, get_elem?-lt,
}
use maybenot_simv.Outcome.{Returns, Returns-bind, Returns-map}
use maybenot_simv.Event.{Event, TriggerEvent, TriggerAction}
use maybenot_simv.Platform.{Platform}
use maybenot_simv.Dist.Sampling.{Laws}
use maybenot_simv.Machine.{Machine}
use maybenot_simv.Machine.Sound.{IsSound}
use maybenot_simv.Framework.{Core, Framework, SignalTarget}
use maybenot_simv.Framework.Events.{
  all_machines, transit_only, process_events, signal_unless, signal_excluded, drop_signal,
  signal_to, reset, run_events, present, trigger_events,
}
use maybenot_simv.Framework.Valid.{IsValid, IsSignal, After-refl, Owns, machine_of}
use maybenot_simv.Framework.Total.{Serves, Since, transit_only-Serves, all_machines-Since}
use maybenot_simv.Framework.Trigger.{
  Processed, process_events-Processed, IsCounting, normal_count, padding_count,
}

-- The machines of the actions ascend, from `from` on and below `n`: a machine has at most one action.
abbrev pub Ascends : ℕ → ℕ → List TriggerAction → Type 0
Ascends from n [] = Unit {0}
Ascends from n (a ∷ rest) =
    (from ≤ machine_of a) × (machine_of a < n) × Ascends (suc (machine_of a)) n rest

Ascends-lower :
    (from to n : ℕ) (xs : List TriggerAction) → from ≤ to → Ascends to n xs → Ascends from n xs
Ascends-lower from to n [] l h = tt
Ascends-lower from to n (a ∷ rest) l h = (omega (arith, h.0), h.1, h.2)

present-Ascends :
    (from n : ℕ) (xs : List (Option TriggerAction))
    → Owns from xs
    → from + length xs ≤ n
    → Ascends from n (present xs)
unfolding present
present-Ascends from n [] h l = tt
present-Ascends from n (none ∷ xs) h l =
    Ascends-lower from (suc from) n (present xs) (omega arith)
      (present-Ascends (suc from) n xs h.1 (omega arith))
present-Ascends from n (some a ∷ xs) h l = (
  omega arith,
  omega arith,
  Ascends-lower (suc (machine_of a)) (suc from) n (present xs) (omega arith)
      (present-Ascends (suc from) n xs h.1 (omega arith)),
)

pub Owns-replicate : (from n : ℕ) → Owns from (replicate n none)
Owns-replicate from zero = tt
Owns-replicate from (suc n) = (tt, Owns-replicate (suc from) n)

module _ {F64 F32 Rng : Type 0} (pl : Platform F64 F32 Rng) (laws : Laws pl)
    (ms : List (Machine F64 F32)) (sound : All (IsSound pl) ms) where
  drop_signal-Since :
      (c c' : Core F64 Rng)
      → Since pl laws ms sound c c'
      → Since pl laws ms sound c (drop_signal c')
  drop_signal-Since c c' s = record {
    valid = record {
      runs = s.valid.runs;
      owns = s.valid.owns;
      places = s.valid.places;
      signal = tt;
    };
    kept = s.kept;
  }

  signal_unless-Serves : (excluded : ℕ) → Serves pl laws ms sound (signal_unless pl ms excluded)
  signal_unless-Serves excluded mi m c got v = elim (Bool-cases (excluded == mi)) [
    | inl t ↦ rw t (After-refl ms mi c v)
    | inr t ↦ rw t (transit_only-Serves pl laws ms sound Event.signal mi m c got v)
  ]

  signal_excluded-Since :
      (excluded : ℕ) (s : Option SignalTarget) (c : Core F64 Rng)
      → excluded < length ms
      → IsValid ms c
      → Returns (Since pl laws ms sound c) (signal_excluded pl ms excluded s c)
  signal_excluded-Since excluded none c l v = record { valid = v; kept = refl }
  signal_excluded-Since excluded (some target) c l v =
      let (m, got) = get_elem?-lt ms excluded l in
      Returns-map _ (Since pl laws ms sound c) (transit_only pl ms Event.signal excluded c)
        (transit_only-Serves pl laws ms sound Event.signal excluded m c got v)
        (λ c' a. record { valid = a.valid; kept = a.kept })

  signal_to-Since :
      (s : Option SignalTarget) (c : Core F64 Rng)
      → IsSignal (length ms) s
      → IsValid ms c
      → Returns (Since pl laws ms sound c) (signal_to pl ms s c)
  unfolding signal_to
  signal_to-Since none c l v = record { valid = v; kept = refl }
  signal_to-Since (some SignalTarget.all) c l v =
      Returns-bind _ (Since pl laws ms sound c) (all_machines (transit_only pl ms Event.signal) c) _
        (all_machines-Since pl laws ms sound _ c (transit_only-Serves pl laws ms sound Event.signal)
          v)
        (λ c' s. drop_signal-Since c c' s)
  signal_to-Since (some (SignalTarget.all_except excluded)) c l v =
      Returns-bind _ (Since pl laws ms sound c) (all_machines (signal_unless pl ms excluded) c) _
        (all_machines-Since pl laws ms sound _ c (signal_unless-Serves excluded) v)
        (λ c' s.
          let d = drop_signal-Since c c' s in
          Returns-map _ (Since pl laws ms sound c)
            (signal_excluded pl ms excluded c'.signal_pending (drop_signal c'))
            (signal_excluded-Since excluded c'.signal_pending (drop_signal c') l d.valid)
            (λ c'' t. record { valid = t.valid; kept = t.kept ∙ d.kept }))

  reset-IsValid : (now : ℕ) (c : Core F64 Rng) → IsValid ms c → IsValid ms (reset now c)
  reset-IsValid now c v = record {
    runs = v.runs;
    owns = Owns-replicate 0 (length c.actions);
    places = length-replicate (length c.actions) none ∙ v.places;
    signal = v.signal;
  }

  pub run_events-Processed :
      (events : List TriggerEvent) (now : ℕ) (c : Core F64 Rng)
      → IsValid ms c
      → IsCounting c
      → Returns (Processed pl laws ms sound events c) (run_events pl ms events now c)
  unfolding run_events
  run_events-Processed events now c v k =
      Returns-bind _ (Processed pl laws ms sound events (reset now c))
        (process_events pl ms events (reset now c)) _
        (process_events-Processed pl laws ms sound events (reset now c) (reset-IsValid now c v) k)
        (λ c1 q.
          let d = drop_signal-Since c1 c1 (record { valid = q.valid; kept = refl }) in
          Returns-map _ (Processed pl laws ms sound events c)
            (signal_to pl ms c1.signal_pending (drop_signal c1))
            (signal_to-Since c1.signal_pending (drop_signal c1) q.valid.signal d.valid)
            (λ c2 s. record {
              valid = s.valid;
              normal = ap (λ t. t.0) s.kept ∙ q.normal;
              padding = ap (λ t. t.1) s.kept ∙ q.padding;
            }))

-- A framework that is ready for events: its machines are sound, and its state fits them.
pub record IsRunning {F64 F32 Rng : Type 0} (pl : Platform F64 F32 Rng) (f : Framework F64 F32 Rng)
    : Type 0 where
  pub sound : All (IsSound pl) f.machines
  pub valid : IsValid f.machines f.core
  pub counting : IsCounting f.core

-- What `trigger_events` returns: actions of the machines, at most one for each, and a framework that
-- is ready for events again, with the same machines and with the packets counted.
pub record Triggered {F64 F32 Rng : Type 0} (pl : Platform F64 F32 Rng) (f : Framework F64 F32 Rng)
    (events : List TriggerEvent) (r : List TriggerAction × Framework F64 F32 Rng) : Type 0 where
  pub running : IsRunning pl r.1
  pub machines : r.1.machines ≡ f.machines
  pub actions : Ascends 0 (length f.machines) r.0
  pub normal :
      r.1.core.normal_sent_packets ≡ (f.core.normal_sent_packets + normal_count events) % 2 ^ 64
  pub padding :
      r.1.core.padding_sent_packets ≡ (f.core.padding_sent_packets + padding_count events) % 2 ^ 64

module _ {F64 F32 Rng : Type 0} (pl : Platform F64 F32 Rng) (laws : Laws pl) where
  -- When the platform keeps its laws, the machines are sound and the state of the framework fits
  -- them, `trigger_events` returns: three calls of `transition` deep are enough, no index is out of
  -- bounds and every distribution can be sampled. The actions are of the machines, at most one for
  -- each and in their order; the counts of sent packets grow by the events that report one, as `u64`;
  -- and the framework that is left has the same machines and is such a framework again.
  pub trigger_events-Triggered :
      (f : Framework F64 F32 Rng) (events : List TriggerEvent) (now : ℕ)
      → IsRunning pl f
      → Returns (Triggered pl f events) (trigger_events pl f events now)
  unfolding trigger_events
  trigger_events-Triggered f events now k =
      Returns-bind _ (Processed pl laws f.machines k.sound events f.core)
        (run_events pl f.machines events now f.core) _
        (run_events-Processed pl laws f.machines k.sound events now f.core k.valid k.counting)
        (λ c p. record {
          running = record {
            sound = k.sound;
            valid = p.valid;
            counting = (omega (arith, p.normal), omega (arith, p.padding));
          };
          machines = refl;
          actions =
              present-Ascends 0 (length f.machines) c.actions p.valid.owns
                (omega (arith, p.valid.places));
          normal = p.normal;
          padding = p.padding;
        })
