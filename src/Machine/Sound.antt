-- ===== src/Machine/Sound.antt =====
-- The samples of validated machines, and the states that they move to: crates/maybenot/src/machine.rs,
-- state.rs and action.rs.
use maybenot_simv.Base.{
  ℕ, zero, suc, ◌<◌, false, not, ◌&&◌, List, [], ◌∷◌, Option, none, some, ◌≡◌, ◌⊎◌, inl, inr, refl,
  arith, length, get_elem?, get_elem?-lt, All, Bool-cases, leb_false→lt, leb, ◌==◌,
}
use maybenot_simv.Outcome.{Returns, Returns-bind}
use maybenot_simv.Event.{Event, to_usize}
use maybenot_simv.Platform.{Platform}
use maybenot_simv.Verdict.{
  valid, >>-valid, refuse_if-valid, state_out_of_bounds, duplicate_state, bad_probability,
  empty_transitions, bad_padding_frac, bad_blocking_frac, no_states, many_states,
}
use maybenot_simv.Dist
use maybenot_simv.Dist.{Dist}
use maybenot_simv.Dist.Sampling.{Any, Laws, sample-Returns}
use maybenot_simv.Action.{
  Action, Counter, sample_micros, sample_timeout, sample_duration, sample_limit, sample_limit_of,
  sample_value, sample_value_of, validate_option, validate_action, validate_counter,
}
use maybenot_simv.State
use maybenot_simv.State.{
  State, Trans, state_end, state_signal, event_num, check_option, validate_trans, validate_all,
  pick_trans, sample_from, sample_state,
}
use maybenot_simv.Machine
use maybenot_simv.Machine.{Machine, validate_states}

-- The target of a transition in a machine with `n` states.
abbrev pub IsTarget : ℕ → ℕ → Type 0
IsTarget n i = (i < n) ⊎ (i ≡ state_end) ⊎ (i ≡ state_signal)

abbrev pub IsTargetOption : ℕ → Option ℕ → Type 0
IsTargetOption n none = Unit {0}
IsTargetOption n (some i) = IsTarget n i

module _ {F64 F32 Rng : Type 0} (pl : Platform F64 F32 Rng) (laws : Laws pl) where
  sample_micros-Returns :
      (d : Dist F64) (rng : Rng) → Dist.validate pl d ≡ valid → Returns Any (sample_micros pl d rng)
  unfolding sample_micros
  sample_micros-Returns d rng h =
      Returns-bind Any Any (Dist.sample pl d rng) _ (sample-Returns pl laws d rng h) (λ a k. tt)

  pub sample_timeout-Returns :
      (a : Action F64) (rng : Rng)
      → validate_action pl a ≡ valid
      → Returns Any (sample_timeout pl a rng)
  unfolding sample_timeout validate_action
  sample_timeout-Returns (Action.cancel t) rng h = tt
  sample_timeout-Returns (Action.send_padding b r t l) rng h =
      sample_micros-Returns t rng (>>-valid (Dist.validate pl t) _ h).0
  sample_timeout-Returns (Action.block_outgoing b r t d l) rng h =
      sample_micros-Returns t rng (>>-valid (Dist.validate pl t) _ h).0
  sample_timeout-Returns (Action.update_timer r d l) rng h = tt

  pub sample_duration-Returns :
      (a : Action F64) (rng : Rng)
      → validate_action pl a ≡ valid
      → Returns Any (sample_duration pl a rng)
  unfolding sample_duration validate_action
  sample_duration-Returns (Action.cancel t) rng h = tt
  sample_duration-Returns (Action.send_padding b r t l) rng h = tt
  sample_duration-Returns (Action.block_outgoing b r t d l) rng h =
      sample_micros-Returns d rng
        (>>-valid (Dist.validate pl d) _ (>>-valid (Dist.validate pl t) _ h).1).0
  sample_duration-Returns (Action.update_timer r d l) rng h =
      sample_micros-Returns d rng (>>-valid (Dist.validate pl d) _ h).0

  sample_limit_of-Returns :
      (l : Option (Dist F64)) (rng : Rng)
      → validate_option pl l ≡ valid
      → Returns Any (sample_limit_of pl l rng)
  unfolding sample_limit_of
  sample_limit_of-Returns none rng h = tt
  sample_limit_of-Returns (some d) rng h =
      Returns-bind Any Any (Dist.sample pl d rng) _ (sample-Returns pl laws d rng h) (λ a k. tt)

  pub sample_limit-Returns :
      (a : Action F64) (rng : Rng)
      → validate_action pl a ≡ valid
      → Returns Any (sample_limit pl a rng)
  unfolding validate_action
  sample_limit-Returns (Action.cancel t) rng h = sample_limit_of-Returns none rng refl
  sample_limit-Returns (Action.send_padding b r t l) rng h =
      sample_limit_of-Returns l rng (>>-valid (Dist.validate pl t) _ h).1
  sample_limit-Returns (Action.block_outgoing b r t d l) rng h =
      sample_limit_of-Returns l rng
        (>>-valid (Dist.validate pl d) _ (>>-valid (Dist.validate pl t) _ h).1).1
  sample_limit-Returns (Action.update_timer r d l) rng h =
      sample_limit_of-Returns l rng (>>-valid (Dist.validate pl d) _ h).1

  sample_value_of-Returns :
      (o : Option (Dist F64)) (rng : Rng)
      → validate_option pl o ≡ valid
      → Returns Any (sample_value_of pl o rng)
  unfolding sample_value_of
  sample_value_of-Returns none rng h = tt
  sample_value_of-Returns (some d) rng h =
      Returns-bind Any Any (Dist.sample pl d rng) _ (sample-Returns pl laws d rng h) (λ a k. tt)

  pub sample_value-Returns :
      (c : Counter F64) (rng : Rng)
      → validate_counter pl c ≡ valid
      → Returns Any (sample_value pl c rng)
  sample_value-Returns c rng h = sample_value_of-Returns c.dist rng h

-- Each transition on an event has a target.
abbrev pub AllTargets : {F32 : Type 0} → ℕ → Option (List (Trans F32)) → Type 0
AllTargets n none = Unit {0}
AllTargets n (some ts) = All (λ t. IsTarget n t.state) ts

IsTarget-of :
    (n i : ℕ)
    → (leb n i && (not (i == state_end) && not (i == state_signal))) ≡ false
    → IsTarget n i
IsTarget-of n i h = elim (Bool-cases (leb n i)) [
  | inr l ↦ inl (leb_false→lt n i l)
  | inl l ↦ elim (Bool-cases (i == state_end)) [
    | inl e ↦ inr (inl (ground arith))
    | inr e ↦ inr (inr (ground arith))
  ]
]

module _ {F64 F32 Rng : Type 0} (pl : Platform F64 F32 Rng) where
  validate_trans-AllTargets :
      (n : ℕ) (ts : List (Trans F32)) (seen : List ℕ) (sum : F32)
      → validate_trans pl n ts seen sum ≡ valid
      → All (λ t. IsTarget n t.state) ts
  unfolding validate_trans
  validate_trans-AllTargets n [] seen sum h = tt
  validate_trans-AllTargets n (t ∷ ts) seen sum h =
      let (a, h1) = refuse_if-valid _ state_out_of_bounds _ h in
      let (b, h2) = refuse_if-valid _ duplicate_state _ h1 in
      let (c, h3) = refuse_if-valid _ bad_probability _ h2 in
      (
        IsTarget-of n t.state a,
        validate_trans-AllTargets n ts (t.state ∷ seen) (pl.add32 sum t.probability) h3,
      )

  validate_all-AllTargets :
      (n : ℕ) (all rest : List (Option (List (Trans F32))))
      → validate_all pl n all rest ≡ valid
      → All (AllTargets n) rest
  unfolding validate_all
  validate_all-AllTargets n all [] h = tt
  validate_all-AllTargets n all (none ∷ rest) h = (tt, validate_all-AllTargets n all rest h)
  validate_all-AllTargets n all (some ts ∷ rest) h =
      let (a, h1) = refuse_if-valid _ empty_transitions _ h in
      let (b, h2) = >>-valid (validate_trans pl n ts [] pl.zero32) _ h1 in
      (validate_trans-AllTargets n ts [] pl.zero32 b, validate_all-AllTargets n all rest h2)

  pick_trans-IsTarget :
      (n : ℕ) (ts : List (Trans F32)) (sum r : F32)
      → All (λ t. IsTarget n t.state) ts
      → IsTargetOption n (pick_trans pl ts sum r)
  unfolding pick_trans
  pick_trans-IsTarget n [] sum r h = tt
  pick_trans-IsTarget n (t ∷ ts) sum r h =
      elim (Bool-cases (pl.lt32 r (pl.add32 sum t.probability))) [
        | inl e ↦ rw e h.0
        | inr e ↦ rw e (pick_trans-IsTarget n ts (pl.add32 sum t.probability) r h.1)
      ]

  sample_from-IsTarget :
      (n : ℕ) (o : Option (List (Trans F32))) (rng : Rng)
      → AllTargets n o
      → IsTargetOption n (sample_from pl o rng).0
  unfolding sample_from
  sample_from-IsTarget n none rng h = tt
  sample_from-IsTarget n (some ts) rng h = pick_trans-IsTarget n ts pl.zero32 (pl.gen_unit rng).0 h

pub All-get {ℓ} :
    {A : Type ℓ} (P : A → Type 0) (xs : List A) (i : ℕ) (x : A)
    → All P xs
    → get_elem? xs i ≡ some x
    → P x
All-get P [] i x h e = absurd (cc e)
All-get P (y ∷ ys) zero x h e = ground (arith, h.0)
All-get P (y ∷ ys) (suc i) x h e = All-get P ys i x h.1 e

to_usize-lt : (e : Event) → to_usize e < event_num
to_usize-lt e = ground arith

-- A state that passed validation, with an array of the length that its type has.
pub record IsSoundState {F64 F32 Rng : Type 0} (pl : Platform F64 F32 Rng) (n : ℕ)
    (s : State F64 F32) : Type 0 where
  pub targets : All (AllTargets n) s.transitions
  pub action : check_option (validate_action pl) s.action ≡ valid
  pub counter_a : check_option (validate_counter pl) s.counter.0 ≡ valid
  pub counter_b : check_option (validate_counter pl) s.counter.1 ≡ valid
  pub all_events : length s.transitions ≡ event_num

-- A machine that passed validation, with arrays of transitions of the length that their type has.
pub record IsSound {F64 F32 Rng : Type 0} (pl : Platform F64 F32 Rng) (m : Machine F64 F32)
    : Type 0 where
  pub validated : Machine.validate pl m ≡ valid
  pub all_events : All (λ s. length s.transitions ≡ event_num) m.states

positive : (n : ℕ) → (n == 0) ≡ false → 0 < n
positive n h = ground arith

module _ {F64 F32 Rng : Type 0} (pl : Platform F64 F32 Rng) where
  validate-IsSoundState :
      (n : ℕ) (s : State F64 F32)
      → State.validate pl s n ≡ valid
      → length s.transitions ≡ event_num
      → IsSoundState pl n s
  unfolding State.validate
  validate-IsSoundState n s h l =
      let (a, h1) = >>-valid (validate_all pl n s.transitions s.transitions) _ h in
      let (b, h2) = >>-valid (check_option (validate_action pl) s.action) _ h1 in
      let (c, d) = >>-valid (check_option (validate_counter pl) s.counter.0) _ h2 in
      record {
        targets = validate_all-AllTargets pl n s.transitions s.transitions a;
        action = b;
        counter_a = c;
        counter_b = d;
        all_events = l;
      }

  validate_states-IsSoundState :
      (n : ℕ) (states : List (State F64 F32))
      → validate_states pl n states ≡ valid
      → All (λ s. length s.transitions ≡ event_num) states
      → All (IsSoundState pl n) states
  unfolding validate_states
  validate_states-IsSoundState n [] h l = tt
  validate_states-IsSoundState n (s ∷ states) h l =
      let (a, b) = >>-valid (State.validate pl s n) _ h in
      (validate-IsSoundState n s a l.0, validate_states-IsSoundState n states b l.1)

  -- The states of a sound machine are sound, and there is one.
  pub IsSound-states :
      (m : Machine F64 F32)
      → IsSound pl m
      → All (IsSoundState pl (length m.states)) m.states × (0 < length m.states)
  unfolding Machine.validate
  IsSound-states m k =
      let (a, h1) = refuse_if-valid _ bad_padding_frac _ k.validated in
      let (b, h2) = refuse_if-valid _ bad_blocking_frac _ h1 in
      let (c, h3) = refuse_if-valid _ no_states _ h2 in
      let (d, h4) = refuse_if-valid _ many_states _ h3 in
      (
        validate_states-IsSoundState (length m.states) m.states h4 k.all_events,
        positive (length m.states) c,
      )

  -- The state that a sound state samples is a target.
  pub sample_state-IsTarget :
      (n : ℕ) (s : State F64 F32) (e : Event) (rng : Rng)
      → IsSoundState pl n s
      → Returns (λ r. IsTargetOption n r.0) (sample_state pl s e rng)
  unfolding sample_state
  sample_state-IsTarget n s e rng k =
      let l = to_usize-lt e in
      let (o, p) = get_elem?-lt s.transitions (to_usize e) (rw k.all_events l) in
      rw p (
        sample_from-IsTarget pl n o rng
          (All-get (AllTargets n) s.transitions (to_usize e) o k.targets p))
