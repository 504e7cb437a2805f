-- ===== src/Framework/Terminates.antt =====
-- The recursion of `transition` through `update_counter`, crates/maybenot/src/framework.rs, and the
-- flags of the counters.
use maybenot_simv.Base.{
  ℕ, zero, suc, ◌-◌, ◌<◌, Bool, true, false, not, ◌&&◌, ◌||◌, List, Option, none, some, ◌≡◌, inl,
  inr, refl, arith, length, get_elem?, get_elem?-lt, Bool-cases, if◌then◌else◌, ◌==◌,
}
use maybenot_simv.Outcome.{ok, Returns, Returns-bind, Returns-map, ◌>>=◌}
use maybenot_simv.Event.{Event}
use maybenot_simv.Platform.{Platform}
use maybenot_simv.Dist.Sampling.{Any, Laws}
use maybenot_simv.State.{state_end, state_signal, sample_state}
use maybenot_simv.Machine.{Machine}
use maybenot_simv.Machine.Sound.{IsSound, IsTarget, IsTargetOption, sample_state-IsTarget}
use maybenot_simv.Framework.{
  Core, MachineRuntime, SignalTarget, StateChange, unchanged, at, below_action_limits,
}
use maybenot_simv.Framework.Transition.{
  Calls, change_if, after_zero, update_counter, update_a, update_b, schedule_if, enter_state,
  to_state, act_on, drawing, transition_step, transition, set_runtime, set_action, signal, transit,
  limit_reached, is_limited, decrement_limit,
}
use maybenot_simv.Framework.Valid.{
  IsValid, IsSignal, InState, After, After-trans, After-refl, set_runtime-After, set_action-After,
  signal-After, Runs-get, free, get_elem?-lt_length,
}
use maybenot_simv.Framework.Steps.{
  drawing-runtime, at-Returns, state_at, schedule_action-After, Entered, enter_state-Entered,
  Counted, update_a-Counted, update_b-Counted,
}

in_machine :
    (n i : ℕ) → IsTarget n i → (i == state_end) ≡ false → (i == state_signal) ≡ false → i < n
in_machine n i (inl l) p q = l
in_machine n i (inr (inl e)) p q = ground arith
in_machine n i (inr (inr e)) p q = ground arith

pub not_ended :
    {F64 F32 : Type 0} (m : Machine F64 F32) (r : MachineRuntime)
    → InState m r
    → (r.current_state == state_end) ≡ false
    → r.current_state < length m.states
not_ended m r (inl l) p = l
not_ended m r (inr e) p = ground arith

free-lt : {F64 Rng : Type 0} (c : Core F64 Rng) → free c < 3
free-lt c = ground arith

module _ {F64 F32 Rng : Type 0} (pl : Platform F64 F32 Rng) (laws : Laws pl)
    (ms : List (Machine F64 F32)) where
  -- The calls return, for a machine and a state in which fewer than `n` flags are left.
  abbrev Served : ℕ → Calls F64 Rng → Type 0
  Served n call =
      (mi : ℕ) (m : Machine F64 F32) (event : Event) (c : Core F64 Rng)
      → get_elem? ms mi ≡ some m
      → IsSound pl m
      → IsValid ms c
      → free c < n
      → Returns (λ r. After ms mi c r.1) (call mi event c)

  module _ (mi : ℕ) (m : Machine F64 F32) (got : get_elem? ms mi ≡ some m)
      (sound : IsSound pl m) where
    both-Counted :
        (c c1 c2 : Core F64 Rng) (a b : Bool)
        → Counted pl laws mi ms m got sound c (a, c1)
        → Counted pl laws mi ms m got sound c1 (b, c2)
        → Counted pl laws mi ms m got sound c (a || b, c2)
    both-Counted c c1 c2 false false p q = After-trans ms mi c c1 c2 p q
    both-Counted c c1 c2 false true p q = (After-trans ms mi c c1 c2 p q.0, omega (arith, p.fewer))
    both-Counted c c1 c2 true false p q = (After-trans ms mi c c1 c2 p.0 q, omega (arith, q.fewer))
    both-Counted c c1 c2 true true p q =
        (After-trans ms mi c c1 c2 p.0 q.0, omega (arith, q.0.fewer))

    Counted-After :
        (c c' : Core F64 Rng) (z : Bool)
        → Counted pl laws mi ms m got sound c (z, c')
        → After ms mi c c'
    Counted-After c c' true p = p.0
    Counted-After c c' false p = p

    module _ (n : ℕ) (call : Calls F64 Rng) (served : Served n call) where
      after_zero-After :
          (z : Bool) (c c' : Core F64 Rng)
          → Counted pl laws mi ms m got sound c (z, c')
          → free c < suc n
          → Returns (λ r. After ms mi c r.1) (after_zero pl call mi z c')
      after_zero-After false c c' p l = p
      after_zero-After true c c' p l =
          Returns-bind _ (λ r. After ms mi c' r.1) (call mi Event.counter_zero c') _
            (served mi m Event.counter_zero c' got sound p.0.valid (omega (arith, p.1)))
            (λ r q.
              let (a, e) =
                get_elem?-lt r.1.actions mi
                  (omega (arith, q.valid.places, get_elem?-lt_length ms mi m got)) in
              at-Returns _ r.1.actions mi a _ e (After-trans ms mi c c' r.1 p.0 q))

      update_counter-After :
          (r : MachineRuntime) (c : Core F64 Rng)
          → IsValid ms c
          → get_elem? c.runtime mi ≡ some r
          → r.current_state < length m.states
          → free c < suc n
          → Returns (λ x. After ms mi c x.1) (update_counter pl call m mi c)
      unfolding update_counter
      update_counter-After r c v e l f =
          let (s, es, k) = state_at pl laws mi ms m got sound r.current_state l in
          at-Returns _ c.runtime mi r _ e (
            at-Returns _ m.states r.current_state s _ es (
              Returns-bind _ (Counted pl laws mi ms m got sound c) (update_a pl mi s.counter.0 r c)
                _ (update_a-Counted pl laws mi ms m got sound s.counter.0 r c v k.counter_a)
                (λ x p.
                  let a = Counted-After c x.1 x.0 p in
                  Returns-bind _ (Counted pl laws mi ms m got sound x.1)
                    (update_b pl mi s.counter.1 r x.1) _
                    (update_b-Counted pl laws mi ms m got sound s.counter.1 r x.1 a.valid
                      k.counter_b)
                    (λ y q.
                      after_zero-After (x.0 || y.0) c y.1 (both-Counted c x.1 y.1 x.0 y.0 p q) f))))

      schedule_if-After :
          (b : Bool) (state : ℕ) (c : Core F64 Rng)
          → IsValid ms c
          → state < length m.states
          → Returns (After ms mi c) (schedule_if pl call b m mi state c)
      schedule_if-After false state c v l = After-refl ms mi c v
      schedule_if-After true state c v l =
          schedule_action-After pl laws mi ms m got sound state c v l

      below_action_limits-Returns :
          (c : Core F64 Rng) (r : MachineRuntime)
          → r.current_state < length m.states
          → Returns Any (below_action_limits pl c r m)
      unfolding below_action_limits
      below_action_limits-Returns c r l =
          let (s, es, k) = state_at pl laws mi ms m got sound r.current_state l in
          at-Returns _ m.states r.current_state s _ es tt

      -- The end of `to_state`, from the update of the counters on.
      scheduled :
          (r : MachineRuntime) (counter : Bool × Bool) (below_limits : Bool) (state : ℕ)
          (c c1 c2 : Core F64 Rng)
          → state < length m.states
          → After ms mi c c1
          → After ms mi c1 c2
          → Returns {A = StateChange × Core F64 Rng}
              (λ x. After ms mi c x.1)
              (schedule_if pl call (counter.0 && below_limits) m mi state c2 >>= λ c3.
                at c3.runtime mi >>= λ r3.
                ok (change_if (not (r.current_state == r3.current_state) || counter.1), c3))
      scheduled r counter below_limits state c c1 c2 l a q =
          Returns-bind _ (After ms mi c2)
            (schedule_if pl call (counter.0 && below_limits) m mi state c2) _
            (schedule_if-After (counter.0 && below_limits) state c2 q.valid l)
            (λ c3 t.
              let (r3, e3, k3) = Runs-get ms c3.runtime mi m t.valid.runs got in
              at-Returns _ c3.runtime mi r3 _ e3
                (After-trans ms mi c c1 c3 a (After-trans ms mi c1 c2 c3 q t)))

      signal-IsSignal : (s : Option SignalTarget) → IsSignal (length ms) (signal mi s)
      signal-IsSignal none = get_elem?-lt_length ms mi m got
      signal-IsSignal (some target) = tt

      to_state-After :
          (r : MachineRuntime) (state : ℕ) (c : Core F64 Rng)
          → IsValid ms c
          → get_elem? c.runtime mi ≡ some r
          → state < length m.states
          → free c < suc n
          → Returns (λ x. After ms mi c x.1) (to_state pl call m mi r state c)
      unfolding to_state
      to_state-After r state c v e l f =
          Returns-bind _ (Entered pl laws mi ms m got sound c state) (enter_state pl m mi r state c)
            _ (enter_state-Entered pl laws mi ms m got sound r state c v e l)
            (λ c1 (a, (r1, e1, p1)).
              let l1 : r1.current_state < length m.states = omega arith in
              at-Returns _ c1.runtime mi r1 _ e1 (
                Returns-bind _ Any (below_action_limits pl c1 r1 m) _
                  (below_action_limits-Returns c1 r1 l1)
                  (λ b t.
                    Returns-bind _ (λ x. After ms mi c1 x.1) (update_counter pl call m mi c1) _
                      (update_counter-After r1 c1 a.valid e1 l1 (omega (arith, a.fewer)))
                      (λ x q. scheduled r x.0 b state c c1 x.1 l a q))))

      act_on-After :
          (r : MachineRuntime) (next : Option ℕ) (c : Core F64 Rng)
          → IsValid ms c
          → get_elem? c.runtime mi ≡ some r
          → IsTargetOption (length m.states) next
          → free c < suc n
          → Returns (λ x. After ms mi c x.1) (act_on pl call m mi r next c)
      unfolding act_on
      act_on-After r none c v e t f = After-refl ms mi c v
      act_on-After r (some i) c v e t f = elim (Bool-cases (i == state_end)) [
        | inl p ↦
            rw p (
              set_runtime-After ms mi m (record r { current_state = state_end }) c v got (inr refl))
        | inr p ↦ elim (Bool-cases (i == state_signal)) [
          | inl q ↦
              rw (p, q)
                (signal-After ms mi (signal mi c.signal_pending) c v
                  (signal-IsSignal c.signal_pending))
          | inr q ↦ rw (p, q) (to_state-After r i c v e (in_machine (length m.states) i t p q) f)
        ]
      ]

      -- What follows the read of the machine's runtime.
      alive :
          (event : Event) (c : Core F64 Rng) (r : MachineRuntime)
          → IsValid ms c
          → get_elem? c.runtime mi ≡ some r
          → InState m r
          → free c < suc n
          → (ended : Bool) → (r.current_state == state_end) ≡ ended
          → Returns {A = StateChange × Core F64 Rng}
              (λ x. After ms mi c x.1)
              (if ended
                then ok (unchanged, c)
                else (at ms mi >>= λ m'. at m'.states r.current_state >>= λ s.
                    drawing (sample_state pl s event) c >>= λ x. act_on pl call m' mi r x.0 x.1))
      alive event c r v e k f true p = After-refl ms mi c v
      alive event c r v e k f false p =
          let (s, es, ks) =
            state_at pl laws mi ms m got sound r.current_state (not_ended m r k p) in
          at-Returns _ ms mi m _ got (
            at-Returns _ m.states r.current_state s _ es (
              Returns-bind _
                (λ x.
                  IsTargetOption (length m.states) x.0
                  × After ms mi c x.1
                  × (x.1.runtime ≡ c.runtime))
                (drawing (sample_state pl s event) c) _
                (drawing-runtime ms mi (IsTargetOption (length m.states)) (sample_state pl s event)
                  c v (sample_state-IsTarget pl (length m.states) s event c.rng ks))
                (λ x (t, a, same).
                  Returns-map _ _ (act_on pl call m mi r x.0 x.1)
                    (act_on-After r x.0 x.1 a.valid (rw same e) t (omega (arith, a.fewer)))
                    (λ y b. After-trans ms mi c x.1 y.1 a b))))

      transition_step-After :
          (event : Event) (c : Core F64 Rng)
          → IsValid ms c
          → free c < suc n
          → Returns (λ x. After ms mi c x.1) (transition_step pl call ms mi event c)
      unfolding transition_step
      transition_step-After event c v f =
          let (r, e, k) = Runs-get ms c.runtime mi m v.runs got in
          at-Returns _ c.runtime mi r _ e
            (alive event c r v e k f (r.current_state == state_end) refl)

  transition-Served : (n : ℕ) → Served n (transition pl ms n)
  unfolding transition
  transition-Served zero mi m event c got sound v f = absurd (omega arith)
  transition-Served (suc n) mi m event c got sound v f =
      transition_step-After mi m got sound n (transition pl ms n) (transition-Served n) event c v f

  -- Three calls deep is enough: there are two flags.
  pub transit-After :
      (mi : ℕ) (m : Machine F64 F32) (event : Event) (c : Core F64 Rng)
      → get_elem? ms mi ≡ some m
      → IsSound pl m
      → IsValid ms c
      → Returns (λ r. After ms mi c r.1) (transit pl ms mi event c)
  transit-After mi m event c got sound v = transition-Served 3 mi m event c got sound v (free-lt c)

  module _ (mi : ℕ) (m : Machine F64 F32) (got : get_elem? ms mi ≡ some m)
      (sound : IsSound pl m) where
    limit_reached-After :
        (b : Bool) (c : Core F64 Rng)
        → IsValid ms c
        → Returns (After ms mi c) (limit_reached pl ms mi b c)
    limit_reached-After false c v = After-refl ms mi c v
    limit_reached-After true c v =
        let a = set_action-After ms mi none c v tt in
        Returns-bind _ (λ x. After ms mi (set_action mi none c) x.1)
          (transit pl ms mi Event.limit_reached (set_action mi none c)) _
          (transit-After mi m Event.limit_reached (set_action mi none c) got sound a.valid)
          (λ x b. After-trans ms mi c (set_action mi none c) x.1 a b)

    -- The limit of a machine that has not ended is decremented without a panic.
    pub decrement_limit-After :
        (r : MachineRuntime) (c : Core F64 Rng)
        → IsValid ms c
        → get_elem? c.runtime mi ≡ some r
        → r.current_state < length m.states
        → Returns (After ms mi c) (decrement_limit pl ms mi c)
    unfolding decrement_limit
    decrement_limit-After r c v e l =
        let (s, es, k) = state_at pl laws mi ms m got sound r.current_state l in
        let r' = record r { state_limit = r.state_limit - 1 } in
        let a = set_runtime-After ms mi m r' c v got (inl l) in
        at-Returns _ c.runtime mi r _ e (
          at-Returns _ ms mi m _ got (
            at-Returns _ m.states r.current_state s _ es (
              Returns-map (After ms mi (set_runtime mi r' c)) (After ms mi c)
                (limit_reached pl ms mi (r.state_limit - 1 == 0 && is_limited pl ms s.action)
                  (set_runtime mi r' c))
                (limit_reached-After _ (set_runtime mi r' c) a.valid)
                (λ c' b. After-trans ms mi c (set_runtime mi r' c) c' a b))))
