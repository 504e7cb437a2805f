-- ===== src/Ffi/Answers.antt =====
-- `maybenot_on_events` of crates/maybenot-ffi/src/ffi.rs: what it writes.
use maybenot_simv.Base.{
  ℕ, zero, suc, ◌-◌, ◌≤◌, List, [], ◌∷◌, ◌++◌, Option, none, some, ◌≡◌, refl, ap, arith, length,
  take, drop, length-take, take-append-drop, le→leb,
}
use maybenot_simv.Outcome.{ok, Returns, Returns-ok}
use maybenot_simv.Event.{TriggerAction}
use maybenot_simv.Platform.{Platform}
use maybenot_simv.Dist.Sampling.{Laws}
use maybenot_simv.Framework.Events.{trigger_events}
use maybenot_simv.Framework.Returns.{Ascends, Triggered, trigger_events-Triggered}
use maybenot_simv.Ffi.{
  MaybenotResult, MaybenotEvent, MaybenotFramework, Slots, convert_events, convert_action,
  write_actions,
}
use maybenot_simv.Ffi.Calls.{
  Memory, num_machines, on_events, write_events, from_raw_parts, on_pointers, maybenot_on_events,
}
use maybenot_simv.Ffi.Started.{Runs}

-- The slots after all the actions are written to the first of them.
abbrev pub filled : List TriggerAction → Slots → Slots
filled [] slots = slots
filled (a ∷ actions) slots = some (convert_action a) ∷ filled actions (drop 1 slots)

write_actions-filled :
    (actions : List TriggerAction) (slots : Slots)
    → length actions ≤ length slots
    → write_actions actions slots ≡ (length actions, filled actions slots)
unfolding write_actions
write_actions-filled [] slots h = refl
write_actions-filled (a ∷ actions) [] h = absurd (omega arith)
write_actions-filled (a ∷ actions) (slot ∷ slots) h =
    rw (write_actions-filled actions slots (omega arith)) refl

filled-take :
    (actions : List TriggerAction) (n : ℕ) (out : Slots)
    → length actions ≤ n
    → n ≤ length out
    → filled actions (take n out) ++ drop n out ≡ filled actions out
filled-take [] n out h k = take-append-drop n out
filled-take (a ∷ actions) zero out h k = absurd (omega arith)
filled-take (a ∷ actions) (suc n) [] h k = absurd (omega arith)
filled-take (a ∷ actions) (suc n) (slot ∷ out) h k =
    ap (λ s. some (convert_action a) ∷ s) (filled-take actions n out (omega arith) (omega arith))

Ascends-length :
    (from n : ℕ) (actions : List TriggerAction) → Ascends from n actions → length actions ≤ n - from
Ascends-length from n [] h = omega arith
Ascends-length from n (a ∷ actions) h = omega (arith, Ascends-length _ n actions h.2, h.0, h.1)

-- What `maybenot_on_events` leaves when no pointer is null: all the actions of the framework, in
-- their order and converted, stand in the first slots, which are of the promised ones, the other
-- slots are as they were, and the count is that of the actions.
pub record Answered {F64 F32 Rng : Type 0} (pl : Platform F64 F32 Rng)
    (this : MaybenotFramework F64 F32 Rng) (events : List MaybenotEvent) (out : Slots) (now : ℕ)
    (r : MaybenotResult × Memory pl) : Type 0 where
  pub actions : List TriggerAction
  pub left : MaybenotFramework F64 F32 Rng
  pub triggered :
      trigger_events pl this.framework (convert_events events) now ≡ ok (actions, left.framework)
  pub running : Runs pl left
  pub machines : num_machines left ≡ num_machines this
  pub fits : length actions ≤ num_machines this
  pub result : r.0 ≡ MaybenotResult.ok
  pub this_left : r.1.this ≡ some left
  pub actions_out : r.1.actions_out ≡ some (filled actions out)
  pub num_actions_out : r.1.num_actions_out ≡ some (length actions)

-- The promises of the caller, when no pointer is null: the framework is one that `maybenot_start`
-- handed out, `events` has `num_events` entries and `actions_out` one for each machine.
abbrev pub IsPromised :
    {F64 F32 Rng : Type 0}
    → Platform F64 F32 Rng
    → ℕ
    → Option (MaybenotFramework F64 F32 Rng)
    → Option (List MaybenotEvent)
    → Option Slots
    → Option ℕ
    → Type 0
IsPromised pl n (some this) (some events) (some out) (some num) =
    Runs pl this × (n ≤ length events) × (num_machines this ≤ length out)
IsPromised pl n _ _ _ _ = Unit {0}

-- The actions are answered when no pointer is null, and nothing is written else.
abbrev pub IsAnswer :
    {F64 F32 Rng : Type 0} (pl : Platform F64 F32 Rng)
    → ℕ
    → ℕ
    → Memory pl
    → Option (MaybenotFramework F64 F32 Rng)
    → Option (List MaybenotEvent)
    → Option Slots
    → Option ℕ
    → MaybenotResult × Memory pl
    → Type 0
IsAnswer pl n now memory (some this) (some events) (some out) (some num) r =
    Answered pl this (take n events) out now r
IsAnswer pl n now memory _ _ _ _ r = r ≡ (MaybenotResult.null_pointer, memory)

module _ {F64 F32 Rng : Type 0} (pl : Platform F64 F32 Rng) (laws : Laws pl) where
  write_events-Answered :
      (this : MaybenotFramework F64 F32 Rng) (out : Slots) (events : List MaybenotEvent) (now : ℕ)
      → Runs pl this
      → num_machines this ≤ length out
      → Returns (Answered pl this events out now) (write_events pl this out events now)
  unfolding from_raw_parts on_events
  write_events-Answered this out events now k l =
      let n = num_machines this in
      let es = convert_events events in
      let (r, e, t) =
        Returns-ok (Triggered pl this.framework es) (trigger_events pl this.framework es now)
          (trigger_events-Triggered pl laws this.framework es now k) in
      let short : length r.0 ≤ n = omega (arith, Ascends-length 0 n r.0 t.actions) in
      rw
        (
          le→leb n (length out) l,
          e,
          write_actions-filled r.0 (take n out) (omega (arith, length-take n out l)),
          filled-take r.0 n out short l,
        )
        (record {
          actions = r.0;
          left = record { framework = r.1; events_buf = es };
          triggered = e;
          running = t.running;
          machines = ap length t.machines;
          fits = short;
          result = refl;
          this_left = refl;
          actions_out = refl;
          num_actions_out = refl;
        })

  on_pointers-IsAnswer :
      (n now : ℕ) (memory : Memory pl) (this : Option (MaybenotFramework F64 F32 Rng))
      (events : Option (List MaybenotEvent)) (out : Option Slots) (num : Option ℕ)
      → IsPromised pl n this events out num
      → Returns
          (IsAnswer pl n now memory this events out num)
          (on_pointers pl n now memory this events out num)
  unfolding on_pointers from_raw_parts
  on_pointers-IsAnswer n now memory (some this) (some events) (some out) (some num) h =
      rw (le→leb n (length events) h.1) (write_events-Answered this out (take n events) now h.0 h.2)
  on_pointers-IsAnswer n now memory none events out num h = refl
  on_pointers-IsAnswer n now memory (some this) none out num h = refl
  on_pointers-IsAnswer n now memory (some this) (some events) none num h = refl
  on_pointers-IsAnswer n now memory (some this) (some events) (some out) none h = refl

  -- When the platform keeps its laws and the caller its promises, `maybenot_on_events` returns,
  -- without a panic. If a pointer is null, the result says so and nothing is written. Else the result
  -- is `Ok`; every action of `trigger_events`, of which there are at most as many as machines, is
  -- written, converted and in order, to the first slots; the other slots are left as they were; the
  -- number written is that of the actions; and the framework is ready for events again, with as many
  -- machines.
  pub maybenot_on_events-IsAnswer :
      (memory : Memory pl) (events : Option (List MaybenotEvent)) (n now : ℕ)
      → IsPromised pl n memory.this events memory.actions_out memory.num_actions_out
      → Returns
          (IsAnswer pl n now memory memory.this events memory.actions_out memory.num_actions_out)
          (maybenot_on_events pl memory events n now)
  unfolding maybenot_on_events
  maybenot_on_events-IsAnswer memory events n now h =
      on_pointers-IsAnswer n now memory memory.this events memory.actions_out memory.num_actions_out
        h
