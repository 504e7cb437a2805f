-- ===== src/Simulator/Sides.antt =====
-- `SimState::new` of crates/maybenot-simulator/src/lib.rs with the framework of crates/maybenot, which
-- `sim_advanced` calls for either side.
use maybenot_simv.Base.{
  ℕ, zero, suc, List, Option, none, ◌≡◌, refl, ap, ◌∙◌, sym, subst, length, All, replicate,
  length-replicate,
}
use maybenot_simv.Outcome.{
  Outcome, ok, panic, out_of_fuel, unwrap_none, Returns, Returns-ok, Returns-map, >>=-eq-ok, ◌>>=◌,
}
use maybenot_simv.Platform.{Platform}
use maybenot_simv.Verdict.{Verdict, valid, invalid}
use maybenot_simv.Dist.Sampling.{Laws}
use maybenot_simv.SimQueue.{SimQueue}
use maybenot_simv.SimQueue.Sides.{IsSided}
use maybenot_simv.SimState
use maybenot_simv.SimState.{SimState, Integration, ScheduledAction}
use maybenot_simv.PickNext.Ready.{IsTimed}
use maybenot_simv.Machine.{Machine}
use maybenot_simv.Machine.Stored.{HasArrays}
use maybenot_simv.Framework.{Framework}
use maybenot_simv.Framework.New.{
  Created, created, refused, initial, first_limits, runtimes_of, create_if, new, validate_arguments,
}
use maybenot_simv.Framework.Created.{IsCreated, new-IsCreated}
use maybenot_simv.TriggerUpdate.Running.{SideIsReady}

-- `.unwrap()` on what `Framework::new` returns
abbrev pub unwrap_created :
    {F64 F32 Rng : Type 0} → Created F64 F32 Rng → Outcome (Framework F64 F32 Rng)
unwrap_created (created framework) = ok framework
unwrap_created (refused e) = panic unwrap_none

module _ {F64 F32 Rng Bins : Type 0} (pl : Platform F64 F32 Rng) where
  unfoldable pub new_side :
      List (Machine F64 F32)
      → ℕ
      → F64
      → F64
      → Option (Integration Bins)
      → Rng
      → Outcome (SimState (Framework F64 F32 Rng) Bins)
  new_side machines current_time max_padding_frac max_blocking_frac integration rng = do
    c ← new pl machines max_padding_frac max_blocking_frac current_time rng
    framework ← unwrap_created c
    ok (SimState.new framework (length machines) integration)

ok_injective : {A : Type 0} {a b : A} → ◌≡◌ {A = Outcome A} (ok a) (ok b) → a ≡ b
ok_injective h = cc

module _ {F64 F32 Rng : Type 0} (pl : Platform F64 F32 Rng) where
  Has : List (Machine F64 F32) → Created F64 F32 Rng → Type 0
  Has ms (created f) = f.machines ≡ ms
  Has ms (refused e) = Unit {0}

  machines_or : List (Machine F64 F32) → Outcome (Framework F64 F32 Rng) → List (Machine F64 F32)
  machines_or ms (ok f) = f.machines
  machines_or ms (panic b) = ms
  machines_or ms out_of_fuel = ms

  initial-machines :
      (ms : List (Machine F64 F32)) (p b : F64) (now : ℕ) (rng : Rng) {f : Framework F64 F32 Rng}
      → initial pl ms p b now rng ≡ ok f
      → f.machines ≡ ms
  unfolding initial machines_or
  initial-machines ms p b now rng h =
      let (x, e, k) = >>=-eq-ok (first_limits pl ms (runtimes_of pl now ms) rng) _ h in
      sym (ap (machines_or ms) k)

  create_if-Has :
      (ms : List (Machine F64 F32)) (v : Verdict) (m : Outcome (Framework F64 F32 Rng))
      {c : Created F64 F32 Rng}
      → ((f : Framework F64 F32 Rng) → m ≡ ok f → f.machines ≡ ms)
      → create_if pl v m ≡ ok c
      → Has ms c
  unfolding Has
  create_if-Has ms (invalid e) m h k = subst (Has ms) (ok_injective k) tt
  create_if-Has ms valid m h k =
      let (f, e, q) = >>=-eq-ok m _ k in subst (Has ms) (ok_injective q) (h f e)

IsTimed-replicate : (n : ℕ) → All IsTimed (replicate {A = Option ScheduledAction} n none)
IsTimed-replicate zero = tt
IsTimed-replicate (suc n) = (tt, IsTimed-replicate n)

module _ {F64 F32 Rng Bins : Type 0} (pl : Platform F64 F32 Rng) (laws : Laws pl) where
  unwrap_created-SideIsReady :
      (ms : List (Machine F64 F32)) (i : Option (Integration Bins)) (sq : SimQueue)
      (c : Created F64 F32 Rng)
      → IsSided sq
      → IsCreated pl c
      → Has pl ms c
      → Returns
          (λ s. SideIsReady pl (s, sq) × (s.integration ≡ i))
          (unwrap_created c >>= λ framework. ok (SimState.new framework (length ms) i))
  unfolding Has
  unwrap_created-SideIsReady ms i sq (created f) s k e = (
    record {
      running = k;
      fits = record {
        integration = refl;
        framework = refl;
        actions = length-replicate (length ms) none ∙ sym (ap length e);
        timers = length-replicate (length ms) none ∙ sym (ap length e);
        timed = IsTimed-replicate (length ms);
        sided = s;
      };
    },
    refl,
  )
  unwrap_created-SideIsReady ms i sq (refused x) s k e = absurd k

  -- The side has the integration, too.
  pub new_side_ready :
      (ms : List (Machine F64 F32)) (now : ℕ) (p b : F64) (i : Option (Integration Bins))
      (rng : Rng) (sq : SimQueue)
      → IsSided sq
      → All HasArrays ms
      → validate_arguments pl ms p b ≡ valid
      → Returns (λ s. SideIsReady pl (s, sq) × (s.integration ≡ i)) (new_side pl ms now p b i rng)
  unfolding new_side
  new_side_ready ms now p b i rng sq s a h =
      let (c, e, k) =
        Returns-ok (IsCreated pl) (new pl ms p b now rng)
          (new-IsCreated pl laws ms p b now rng a h) in
      rw e (
        unwrap_created-SideIsReady ms i sq c s k (
          create_if-Has pl ms (validate_arguments pl ms p b) (initial pl ms p b now rng)
            (λ f q. initial-machines pl ms p b now rng q) (unfold new in e)))

  -- When the platform keeps its laws, the limits are fractions, the machines pass validation and each
  -- of their states has one entry for each event, `SimState::new` returns, without a panic, a side
  -- that is ready beside any queue whose events stand on their own sides.
  pub new_side-SideIsReady :
      (ms : List (Machine F64 F32)) (now : ℕ) (p b : F64) (i : Option (Integration Bins))
      (rng : Rng) (sq : SimQueue)
      → IsSided sq
      → All HasArrays ms
      → validate_arguments pl ms p b ≡ valid
      → Returns (λ s. SideIsReady pl (s, sq)) (new_side pl ms now p b i rng)
  new_side-SideIsReady ms now p b i rng sq s a h =
      Returns-map _ (λ s. SideIsReady pl (s, sq)) (new_side pl ms now p b i rng)
        (new_side_ready ms now p b i rng sq s a h) (λ s k. k.0)
