-- ===== src/Framework/New.antt =====
-- `Framework::new` of crates/maybenot/src/framework.rs.
use maybenot_simv.Base.{
  ℕ, Bool, false, ◌&&◌, List, [], ◌∷◌, Option, none, some, length, replicate, if◌then◌else◌,
}
use maybenot_simv.Outcome.{Outcome, ok, ◌>>=◌}
use maybenot_simv.Platform.{Platform, zero64, one64}
use maybenot_simv.Verdict.{Error, Verdict, valid, invalid, padding_limit, blocking_limit, ◌>>◌}
use maybenot_simv.Machine
use maybenot_simv.Machine.{Machine}
use maybenot_simv.Framework.{Framework, MachineRuntime, at, from_micros}
use maybenot_simv.Action.{Action, sample_limit}

-- `Result<Framework, Error>`
pub data Created (F64 F32 Rng : Type 0) : Type 0 where
  created : Framework F64 F32 Rng → Created F64 F32 Rng
  refused : Error → Created F64 F32 Rng

module _ {F64 F32 Rng : Type 0} (pl : Platform F64 F32 Rng) where
  -- `(0.0..=1.0).contains(&frac)`
  abbrev pub is_fraction : F64 → Bool
  is_fraction frac = pl.le (zero64 pl) frac && pl.le frac (one64 pl)

  unfoldable pub validate_machines : List (Machine F64 F32) → Verdict
  validate_machines [] = valid
  validate_machines (m ∷ ms) = Machine.validate pl m >> validate_machines ms

  abbrev pub validate_arguments : List (Machine F64 F32) → F64 → F64 → Verdict
  validate_arguments machines max_padding_frac max_blocking_frac = do
    if is_fraction max_padding_frac then valid else invalid padding_limit
    if is_fraction max_blocking_frac then valid else invalid blocking_limit
    validate_machines machines

  abbrev pub runtime_of : ℕ → Machine F64 F32 → MachineRuntime
  runtime_of current_time m = record {
    current_state = 0;
    state_limit = 0;
    padding_sent = 0;
    normal_sent = 0;
    blocking_duration = 0;
    machine_start = current_time;
    allowed_blocked_microsec = from_micros m.allowed_blocked_microsec;
    counter_a = 0;
    counter_b = 0;
  }

  unfoldable pub runtimes_of : ℕ → List (Machine F64 F32) → List MachineRuntime
  runtimes_of current_time [] = []
  runtimes_of current_time (m ∷ ms) = runtime_of current_time m ∷ runtimes_of current_time ms

  abbrev pub first_limit_of :
      Option (Action F64) → MachineRuntime → Rng → Outcome (MachineRuntime × Rng)
  first_limit_of none r rng = ok (r, rng)
  first_limit_of (some action) r rng = do
    (limit, rng') ← sample_limit pl action rng
    ok (record r { state_limit = limit }, rng')

  -- The limit of the first state, which is drawn only if it has an action.
  unfoldable pub first_limit :
      Machine F64 F32 → MachineRuntime → Rng → Outcome (MachineRuntime × Rng)
  first_limit m r rng = do s ← at m.states 0; first_limit_of s.action r rng

  -- `for (runtime, machine) in s.runtime.iter_mut().zip(…)`
  unfoldable pub first_limits :
      List (Machine F64 F32) → List MachineRuntime → Rng → Outcome (List MachineRuntime × Rng)
  first_limits (m ∷ ms) (r ∷ rs) rng = do
    (r', rng') ← first_limit m r rng
    (rs', rng'') ← first_limits ms rs rng'
    ok (r' ∷ rs', rng'')
  first_limits [] rs rng = ok (rs, rng)
  first_limits (m ∷ ms) [] rng = ok ([], rng)

  unfoldable pub initial :
      List (Machine F64 F32) → F64 → F64 → ℕ → Rng → Outcome (Framework F64 F32 Rng)
  initial machines max_padding_frac max_blocking_frac current_time rng = do
    (runtime, rng') ← first_limits machines (runtimes_of current_time machines) rng
    ok (record {
      machines = machines;
      core = record {
        current_time = current_time;
        rng = rng';
        actions = replicate (length machines) none;
        runtime = runtime;
        max_padding_frac = max_padding_frac;
        normal_sent_packets = 0;
        padding_sent_packets = 0;
        max_blocking_frac = max_blocking_frac;
        blocking_duration = 0;
        blocking_started = current_time;
        blocking_active = false;
        signal_pending = none;
        counter_zeroed_once = (false, false);
        framework_start = current_time;
      };
    })

  abbrev pub create_if : Verdict → Outcome (Framework F64 F32 Rng) → Outcome (Created F64 F32 Rng)
  create_if (invalid e) f = ok (refused e)
  create_if valid f = f >>= λ framework. ok (created framework)

  unfoldable pub new : List (Machine F64 F32) → F64 → F64 → ℕ → Rng → Outcome (Created F64 F32 Rng)
  new machines max_padding_frac max_blocking_frac current_time rng =
      create_if (validate_arguments machines max_padding_frac max_blocking_frac)
        (initial machines max_padding_frac max_blocking_frac current_time rng)
