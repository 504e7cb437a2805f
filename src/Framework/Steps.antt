-- ===== src/Framework/Steps.antt =====
-- The steps of a transition of crates/maybenot/src/framework.rs, for sound machines.
use maybenot_simv.Base.{
  ℕ, ◌+◌, ◌<◌, ◌≤◌, Bool, true, false, ◌||◌, List, Option, none, some, ◌≡◌, inl, inr, refl, arith,
  length, get_elem?, get_elem?-lt, get_elem?-set_self, Bool-cases, if◌then◌else◌, ◌==◌,
}
use maybenot_simv.Outcome.{Outcome, Returns, Returns-bind, ◌>>=◌}
use maybenot_simv.Platform.{Platform}
use maybenot_simv.Verdict.{valid}
use maybenot_simv.Dist.Sampling.{Any, Laws}
use maybenot_simv.Action.{
  Action, Counter, validate_action, validate_counter, sample_timeout, sample_duration,
}
use maybenot_simv.State.{State, check_option}
use maybenot_simv.Machine.{Machine}
use maybenot_simv.Machine.Sound.{
  IsSound, IsSoundState, IsSound-states, All-get, sample_timeout-Returns, sample_duration-Returns,
  sample_limit-Returns, sample_value-Returns,
}
use maybenot_simv.Framework.{Core, MachineRuntime, at}
use maybenot_simv.Framework.Transition.{
  drawing, set_runtime, trigger_action, schedule_action, sample_state_limit, enter_state, change_of,
  update_a, update_b, operate, zeroed,
}
use maybenot_simv.Framework.Valid.{
  IsValid, IsOwned, InState, After, After-trans, After-refl, rng-After, set_runtime-After,
  set_action-After, flags-After, Runs-get, free, one_unless, get_elem?-lt_length,
}

module _ {F64 F32 Rng : Type 0} (ms : List (Machine F64 F32)) (mi : ℕ) where
  pub drawing-After :
      {A : Type 0} (P : A → Type 0) (draw : Rng → Outcome (A × Rng)) (c : Core F64 Rng)
      → IsValid ms c
      → Returns (λ r. P r.0) (draw c.rng)
      → Returns (λ r. P r.0 × After ms mi c r.1) (drawing draw c)
  drawing-After P draw c v h =
      Returns-bind _ (λ r. P r.0) (draw c.rng) _ h (λ a p. (p, rng-After ms mi a.1 c v))

  -- And the runtimes stay.
  pub drawing-runtime :
      {A : Type 0} (P : A → Type 0) (draw : Rng → Outcome (A × Rng)) (c : Core F64 Rng)
      → IsValid ms c
      → Returns (λ r. P r.0) (draw c.rng)
      → Returns (λ r. P r.0 × After ms mi c r.1 × (r.1.runtime ≡ c.runtime)) (drawing draw c)
  drawing-runtime P draw c v h =
      Returns-bind _ (λ r. P r.0) (draw c.rng) _ h (λ a p. (p, rng-After ms mi a.1 c v, refl))

abbrev pub one_if : Bool → ℕ
one_if b = if b then 1 else 0

-- A first zeroing sets a flag that was not set.
flag_used :
    (old value : ℕ) (f g : Bool)
    → let once = zeroed old value f in
      (one_if once + (one_unless (f || once) + one_unless g) ≤ one_unless f + one_unless g)
      × (one_if once + (one_unless g + one_unless (f || once)) ≤ one_unless g + one_unless f)
flag_used old value f g = ground arith

-- An index that is there can be read.
pub at-Returns :
    {A B : Type 0} (P : B → Type 0) (xs : List A) (i : ℕ) (x : A) (f : A → Outcome B)
    → get_elem? xs i ≡ some x
    → Returns P (f x)
    → Returns P (at xs i >>= f)
at-Returns P xs i x f e h = rw e h

module _ {F64 F32 Rng : Type 0} (pl : Platform F64 F32 Rng) (laws : Laws pl) (mi : ℕ) where
  trigger_action-IsOwned :
      (a : Option (Action F64)) (rng : Rng)
      → check_option (validate_action pl) a ≡ valid
      → Returns (λ r. IsOwned mi r.0) (trigger_action pl mi a rng)
  unfolding trigger_action
  trigger_action-IsOwned none rng h = tt
  trigger_action-IsOwned (some (Action.cancel timer)) rng h = refl
  trigger_action-IsOwned (some (Action.send_padding b r t l)) rng h =
      Returns-bind _ Any (sample_timeout pl (Action.send_padding b r t l) rng) _
        (sample_timeout-Returns pl laws (Action.send_padding b r t l) rng h) (λ x k. refl)
  trigger_action-IsOwned (some (Action.block_outgoing b r t d l)) rng h =
      Returns-bind _ Any (sample_timeout pl (Action.block_outgoing b r t d l) rng) _
        (sample_timeout-Returns pl laws (Action.block_outgoing b r t d l) rng h)
        (λ x k.
          Returns-bind _ Any (sample_duration pl (Action.block_outgoing b r t d l) x.1) _
            (sample_duration-Returns pl laws (Action.block_outgoing b r t d l) x.1 h)
            (λ y k'. refl))
  trigger_action-IsOwned (some (Action.update_timer r d l)) rng h =
      Returns-bind _ Any (sample_duration pl (Action.update_timer r d l) rng) _
        (sample_duration-Returns pl laws (Action.update_timer r d l) rng h) (λ x k. refl)

  pub sample_state_limit-Returns :
      (a : Option (Action F64)) (rng : Rng)
      → check_option (validate_action pl) a ≡ valid
      → Returns Any (sample_state_limit pl a rng)
  sample_state_limit-Returns none rng h = tt
  sample_state_limit-Returns (some a) rng h = sample_limit-Returns pl laws a rng h

  change_of-Returns :
      (k : Counter F64) (other : ℕ) (rng : Rng)
      → validate_counter pl k ≡ valid
      → Returns Any (change_of pl k other rng)
  change_of-Returns k other rng h = elim (Bool-cases k.copy) [
    | inl e ↦ rw e tt
    | inr e ↦ rw e (sample_value-Returns pl laws k rng h)
  ]

  module _ (ms : List (Machine F64 F32)) (m : Machine F64 F32) (got : get_elem? ms mi ≡ some m)
      (sound : IsSound pl m) where
    -- A state of the machine is there and sound.
    pub state_at :
        (i : ℕ)
        → i < length m.states
        → (s : State F64 F32) × (get_elem? m.states i ≡ some s)
          × IsSoundState pl (length m.states) s
    state_at i l =
        let (s, e) = get_elem?-lt m.states i l in
        let h = (IsSound-states pl m sound).0 in
        (s, e, All-get (IsSoundState pl (length m.states)) m.states i s h e)

    pub schedule_action-After :
        (state : ℕ) (c : Core F64 Rng)
        → IsValid ms c
        → state < length m.states
        → Returns (After ms mi c) (schedule_action pl m mi state c)
    unfolding schedule_action
    schedule_action-After state c v l =
        let (s, e, k) = state_at state l in
        at-Returns _ m.states state s _ e (
          Returns-bind _ (λ r. IsOwned mi r.0 × After ms mi c r.1)
            (drawing (trigger_action pl mi s.action) c) _
            (drawing-After ms mi (IsOwned mi) (trigger_action pl mi s.action) c v
              (trigger_action-IsOwned s.action c.rng k.action))
            (λ r p. After-trans ms mi c r.1 _ p.1 (set_action-After ms mi r.0 r.1 p.1.valid p.0)))

    -- What `enter_state` leaves: the machine in the state.
    abbrev pub Entered : Core F64 Rng → ℕ → Core F64 Rng → Type 0
    Entered c state c' =
        After ms mi c c'
        × ((r : MachineRuntime) × (get_elem? c'.runtime mi ≡ some r) × (r.current_state ≡ state))

    entered :
        (state : ℕ) (c c' : Core F64 Rng) (r : MachineRuntime)
        → r.current_state ≡ state
        → After ms mi c c'
        → state < length m.states
        → Entered c state (set_runtime mi r c')
    entered state c c' r p a l =
        let (r', e, k) = Runs-get ms c'.runtime mi m a.valid.runs got in
        (
          After-trans ms mi c c' _ a
              (set_runtime-After ms mi m r c' a.valid got (inl (omega arith))),
          (r, get_elem?-set_self c'.runtime mi r (get_elem?-lt_length c'.runtime mi r' e), p),
        )

    pub enter_state-Entered :
        (r : MachineRuntime) (state : ℕ) (c : Core F64 Rng)
        → IsValid ms c
        → get_elem? c.runtime mi ≡ some r
        → state < length m.states
        → Returns (Entered c state) (enter_state pl m mi r state c)
    unfolding enter_state
    enter_state-Entered r state c v e l = elim (Bool-cases (r.current_state == state)) [
      | inl t ↦ rw t (After-refl ms mi c v, (r, e, ground arith))
      | inr t ↦
          let (s, es, k) = state_at state l in
          rw t (
            at-Returns _ m.states state s _ es (
              Returns-bind _ (λ x. Any x.0 × After ms mi c x.1)
                (drawing (sample_state_limit pl s.action) c) _
                (drawing-After ms mi Any (sample_state_limit pl s.action) c v
                  (sample_state_limit-Returns s.action c.rng k.action))
                (λ x p.
                  entered state c x.1 (record r { current_state = state; state_limit = x.0 }) refl
                    p.1 l)))
    ]

    -- A counter that was zeroed for the first time has used up a flag.
    abbrev pub Counted : Core F64 Rng → Bool × Core F64 Rng → Type 0
    Counted c (false, c') = After ms mi c c'
    Counted c (true, c') = After ms mi c c' × (free c' < free c)

    counted :
        (once : Bool) (flags : Bool × Bool) (r : MachineRuntime) (c c' : Core F64 Rng)
        → InState m r
        → After ms mi c c'
        → one_if once + (one_unless flags.0 + one_unless flags.1) ≤ free c'
        → Counted c (once, record (set_runtime mi r c') { counter_zeroed_once = flags })
    counted once flags r c c' k a l =
        let b = set_runtime-After ms mi m r c' a.valid got k in
        let d = flags-After ms mi flags (set_runtime mi r c') b.valid (omega arith) in
        let e = After-trans ms mi c c' _ a (After-trans ms mi c' _ _ b d) in go once l e
      where
        go :
            (o : Bool)
            → one_if o + (one_unless flags.0 + one_unless flags.1) ≤ free c'
            → After ms mi c (record (set_runtime mi r c') { counter_zeroed_once = flags })
            → Counted c (o, record (set_runtime mi r c') { counter_zeroed_once = flags })
        go false l' e = e
        go true l' e = (e, omega (arith, a.fewer))

    pub update_a-Counted :
        (k : Option (Counter F64)) (old : MachineRuntime) (c : Core F64 Rng)
        → IsValid ms c
        → check_option (validate_counter pl) k ≡ valid
        → Returns (Counted c) (update_a pl mi k old c)
    unfolding update_a
    update_a-Counted none old c v h = After-refl ms mi c v
    update_a-Counted (some k) old c v h =
        Returns-bind _ (λ x. Any x.0 × After ms mi c x.1) (drawing (change_of pl k old.counter_b) c)
          _
          (drawing-After ms mi Any (change_of pl k old.counter_b) c v
            (change_of-Returns k old.counter_b c.rng h))
          (λ x p.
            let (r, e, i) = Runs-get ms x.1.runtime mi m p.1.valid.runs got in
            at-Returns _ x.1.runtime mi r _ e (
              counted
                (zeroed old.counter_a (operate k.operation r.counter_a x.0)
                  x.1.counter_zeroed_once.0)
                (
                  x.1.counter_zeroed_once.0
                      || zeroed old.counter_a (operate k.operation r.counter_a x.0)
                          x.1.counter_zeroed_once.0,
                  x.1.counter_zeroed_once.1,
                )
                (record r { counter_a = operate k.operation r.counter_a x.0 }) c x.1 i p.1
                (flag_used old.counter_a (operate k.operation r.counter_a x.0)
                  x.1.counter_zeroed_once.0 x.1.counter_zeroed_once.1).0))

    pub update_b-Counted :
        (k : Option (Counter F64)) (old : MachineRuntime) (c : Core F64 Rng)
        → IsValid ms c
        → check_option (validate_counter pl) k ≡ valid
        → Returns (Counted c) (update_b pl mi k old c)
    unfolding update_b
    update_b-Counted none old c v h = After-refl ms mi c v
    update_b-Counted (some k) old c v h =
        Returns-bind _ (λ x. Any x.0 × After ms mi c x.1) (drawing (change_of pl k old.counter_a) c)
          _
          (drawing-After ms mi Any (change_of pl k old.counter_a) c v
            (change_of-Returns k old.counter_a c.rng h))
          (λ x p.
            let (r, e, i) = Runs-get ms x.1.runtime mi m p.1.valid.runs got in
            at-Returns _ x.1.runtime mi r _ e (
              counted
                (zeroed old.counter_b (operate k.operation r.counter_b x.0)
                  x.1.counter_zeroed_once.1)
                (
                  x.1.counter_zeroed_once.0,
                  x.1.counter_zeroed_once.1
                      || zeroed old.counter_b (operate k.operation r.counter_b x.0)
                          x.1.counter_zeroed_once.1,
                )
                (record r { counter_b = operate k.operation r.counter_b x.0 }) c x.1 i p.1
                (flag_used old.counter_b (operate k.operation r.counter_b x.0)
                  x.1.counter_zeroed_once.1 x.1.counter_zeroed_once.0).1))
