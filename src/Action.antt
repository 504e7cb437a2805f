-- ===== src/Action.antt =====
-- crates/maybenot/src/action.rs: the actions of a machine's states, as far as the framework reads
-- them, and crates/maybenot/src/counter.rs.
use maybenot_simv.Base.{ℕ, Bool, Option, none, some}
use maybenot_simv.Outcome.{Outcome, ok, ◌>>=◌}
use maybenot_simv.Event.{Timer}
use maybenot_simv.Platform.{Platform, u64_max, day}
use maybenot_simv.Verdict.{Verdict, valid, ◌>>◌}
use maybenot_simv.Dist
use maybenot_simv.Dist.{Dist}
use maybenot_simv.QueuePeek.{is_some}

pub data Action (F64 : Type 0) : Type 0 where
  cancel : Timer → Action F64
  -- bypass, replace, timeout, limit
  send_padding : Bool → Bool → Dist F64 → Option (Dist F64) → Action F64
  -- bypass, replace, timeout, duration, limit
  block_outgoing : Bool → Bool → Dist F64 → Dist F64 → Option (Dist F64) → Action F64
  -- replace, duration, limit
  update_timer : Bool → Dist F64 → Option (Dist F64) → Action F64

-- `STATE_LIMIT_MAX`
abbrev pub state_limit_max : ℕ
state_limit_max = u64_max

pub data Operation : Type 0 where
  increment decrement set : Operation

pub record Counter (F64 : Type 0) : Type 0 where
  pub operation : Operation
  pub dist : Option (Dist F64)
  pub copy : Bool

module _ {F64 : Type 0} where
  abbrev pub limit_of : Action F64 → Option (Dist F64)
  limit_of (Action.cancel timer) = none
  limit_of (Action.send_padding bypass replace timeout limit) = limit
  limit_of (Action.block_outgoing bypass replace timeout duration limit) = limit
  limit_of (Action.update_timer replace duration limit) = limit

  abbrev pub has_limit : Action F64 → Bool
  has_limit a = is_some (limit_of a)

module _ {F64 F32 Rng : Type 0} (pl : Platform F64 F32 Rng) where
  -- A sample of at most a day, in whole microseconds.
  unfoldable pub sample_micros : Dist F64 → Rng → Outcome (ℕ × Rng)
  sample_micros d rng = do
    (value, rng') ← Dist.sample pl d rng
    ok (pl.to_u64 (pl.round (pl.min value (day pl))), rng')

  unfoldable pub sample_timeout : Action F64 → Rng → Outcome (ℕ × Rng)
  sample_timeout (Action.send_padding bypass replace timeout limit) rng = sample_micros timeout rng
  sample_timeout (Action.block_outgoing bypass replace timeout duration limit) rng =
      sample_micros timeout rng
  sample_timeout (Action.cancel timer) rng = ok (0, rng)
  sample_timeout (Action.update_timer replace duration limit) rng = ok (0, rng)

  unfoldable pub sample_duration : Action F64 → Rng → Outcome (ℕ × Rng)
  sample_duration (Action.block_outgoing bypass replace timeout duration limit) rng =
      sample_micros duration rng
  sample_duration (Action.update_timer replace duration limit) rng = sample_micros duration rng
  sample_duration (Action.cancel timer) rng = ok (0, rng)
  sample_duration (Action.send_padding bypass replace timeout limit) rng = ok (0, rng)

  unfoldable pub sample_limit_of : Option (Dist F64) → Rng → Outcome (ℕ × Rng)
  sample_limit_of none rng = ok (state_limit_max, rng)
  sample_limit_of (some limit) rng = do
    (value, rng') ← Dist.sample pl limit rng
    ok (pl.to_u64 (pl.round value), rng')

  abbrev pub sample_limit : Action F64 → Rng → Outcome (ℕ × Rng)
  sample_limit a = sample_limit_of (limit_of a)

  abbrev pub validate_option : Option (Dist F64) → Verdict
  validate_option none = valid
  validate_option (some d) = Dist.validate pl d

  unfoldable pub validate_action : Action F64 → Verdict
  validate_action (Action.send_padding bypass replace timeout limit) = do
    Dist.validate pl timeout
    validate_option limit
  validate_action (Action.block_outgoing bypass replace timeout duration limit) = do
    Dist.validate pl timeout
    Dist.validate pl duration
    validate_option limit
  validate_action (Action.update_timer replace duration limit) = do
    Dist.validate pl duration
    validate_option limit
  validate_action (Action.cancel timer) = valid

  unfoldable pub sample_value_of : Option (Dist F64) → Rng → Outcome (ℕ × Rng)
  sample_value_of none rng = ok (1, rng)
  sample_value_of (some dist) rng = do
    (value, rng') ← Dist.sample pl dist rng
    ok (pl.to_u64 value, rng')

  abbrev pub sample_value : Counter F64 → Rng → Outcome (ℕ × Rng)
  sample_value c = sample_value_of c.dist

  abbrev pub validate_counter : Counter F64 → Verdict
  validate_counter c = validate_option c.dist
