-- ===== src/Framework/Created.antt =====
-- What `Framework::new` of crates/maybenot/src/framework.rs makes.
use maybenot_simv.Base.{
  ℕ, List, [], ◌∷◌, Option, none, some, ◌≡◌, inl, inr, arith, length, All, length-replicate,
  if◌then◌else◌, get_elem?-lt,
}
use maybenot_simv.Outcome.{Returns, Returns-bind}
use maybenot_simv.Platform.{Platform}
use maybenot_simv.Verdict.{valid, invalid, >>-valid, padding_limit, blocking_limit}
use maybenot_simv.Dist.Sampling.{Any, Laws}
use maybenot_simv.Action.{Action, validate_action, sample_limit}
use maybenot_simv.State.{check_option}
use maybenot_simv.Machine
use maybenot_simv.Machine.{Machine}
use maybenot_simv.Machine.Stored.{HasArrays}
use maybenot_simv.Machine.Sound.{
  IsSound, IsSoundState, IsSound-states, All-get, sample_limit-Returns,
}
use maybenot_simv.Framework.{MachineRuntime}
use maybenot_simv.Framework.New.{
  Created, created, refused, validate_machines, validate_arguments, runtimes_of, runtime_of,
  first_limit, first_limit_of, first_limits, initial, is_fraction, new,
}
use maybenot_simv.Framework.Valid.{InState, Runs}
use maybenot_simv.Framework.Steps.{at-Returns}
use maybenot_simv.Framework.Returns.{IsRunning, Owns-replicate}

abbrev pub IsCreated : {F64 F32 Rng : Type 0} → Platform F64 F32 Rng → Created F64 F32 Rng → Type 0
IsCreated pl (created f) = IsRunning pl f
IsCreated pl (refused e) = ⊥

module _ {F64 F32 Rng : Type 0} (pl : Platform F64 F32 Rng) (laws : Laws pl) where
  validate_machines-IsSound :
      (ms : List (Machine F64 F32))
      → validate_machines pl ms ≡ valid
      → All HasArrays ms
      → All (IsSound pl) ms
  unfolding validate_machines
  validate_machines-IsSound [] h a = tt
  validate_machines-IsSound (m ∷ ms) h a =
      let (v, w) = >>-valid (Machine.validate pl m) _ h in
      (record { validated = v; all_events = a.0 }, validate_machines-IsSound ms w a.1)

  first_limit_of-InState :
      (a : Option (Action F64)) (m : Machine F64 F32) (r : MachineRuntime) (rng : Rng)
      → check_option (validate_action pl) a ≡ valid
      → InState m r
      → Returns (λ x. InState m x.0) (first_limit_of pl a r rng)
  first_limit_of-InState none m r rng h k = k
  first_limit_of-InState (some a) m r rng h (inl k) =
      Returns-bind _ Any (sample_limit pl a rng) _ (sample_limit-Returns pl laws a rng h)
        (λ x t. inl k)
  first_limit_of-InState (some a) m r rng h (inr k) =
      Returns-bind _ Any (sample_limit pl a rng) _ (sample_limit-Returns pl laws a rng h)
        (λ x t. inr k)

  first_limit-InState :
      (m : Machine F64 F32) (now : ℕ) (rng : Rng)
      → IsSound pl m
      → Returns (λ x. InState m x.0) (first_limit pl m (runtime_of pl now m) rng)
  unfolding first_limit
  first_limit-InState m now rng k =
      let (states, l) = IsSound-states pl m k in
      let (s, e) = get_elem?-lt m.states 0 l in
      let t = All-get (IsSoundState pl (length m.states)) m.states 0 s states e in
      at-Returns _ m.states 0 s _ e
        (first_limit_of-InState s.action m (runtime_of pl now m) rng t.action (inl l))

  first_limits-Runs :
      (ms : List (Machine F64 F32)) (now : ℕ) (rng : Rng)
      → All (IsSound pl) ms
      → Returns (λ x. Runs ms x.0) (first_limits pl ms (runtimes_of pl now ms) rng)
  unfolding first_limits runtimes_of
  first_limits-Runs [] now rng k = tt
  first_limits-Runs (m ∷ ms) now rng k =
      Returns-bind _ (λ x. InState m x.0) (first_limit pl m (runtime_of pl now m) rng) _
        (first_limit-InState m now rng k.0)
        (λ x s.
          Returns-bind _ (λ y. Runs ms y.0) (first_limits pl ms (runtimes_of pl now ms) x.1) _
            (first_limits-Runs ms now x.1 k.1) (λ y t. (s, t)))

  -- When the limits are fractions, the machines pass validation and each state has one entry for
  -- each event, `Framework::new` returns a framework, without a panic, whose machines are sound and
  -- whose state fits them.
  pub new-IsCreated :
      (ms : List (Machine F64 F32)) (max_padding_frac max_blocking_frac : F64) (now : ℕ) (rng : Rng)
      → All HasArrays ms
      → validate_arguments pl ms max_padding_frac max_blocking_frac ≡ valid
      → Returns (IsCreated pl) (new pl ms max_padding_frac max_blocking_frac now rng)
  unfolding new initial
  new-IsCreated ms p b now rng a h =
      let (_, h1) = >>-valid (if is_fraction pl p then valid else invalid padding_limit) _ h in
      let (_, h2) = >>-valid (if is_fraction pl b then valid else invalid blocking_limit) _ h1 in
      let k = validate_machines-IsSound ms h2 a in
      rw h (
        Returns-bind _ (λ f. IsRunning pl f) (initial pl ms p b now rng) _
          (Returns-bind _ (λ x. Runs ms x.0) (first_limits pl ms (runtimes_of pl now ms) rng) _
            (first_limits-Runs ms now rng k)
            (λ x r. record {
              sound = k;
              valid = record {
                runs = r;
                owns = Owns-replicate 0 (length ms);
                places = length-replicate (length ms) none;
                signal = tt;
              };
              counting = (omega arith, omega arith);
            }))
          (λ f i. i))
