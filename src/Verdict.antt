-- ===== src/Verdict.antt =====
-- crates/maybenot/src/error.rs, and the results of the `validate` functions, `Result<(), Error>`.
-- For the text of `Error::Machine` stands the reason that it words.
use maybenot_simv.Base.{◌≡◌, refl, Bool, true, false, Option, none, some, if◌then◌else◌}

pub data Reason : Type 0 where
  -- dist.rs
  nan_bounds infinite_bounds low_over_high range_overflow : Reason
  low_probability many_trials high_lambda bad_parameters : Reason
  -- state.rs
  empty_transitions state_out_of_bounds duplicate_state bad_probability bad_total : Reason
  -- machine.rs
  bad_padding_frac bad_blocking_frac no_states many_states : Reason
  string_too_short not_ascii version_mismatch bad_base64 bad_zlib bad_bincode : Reason
  -- parsing.rs
  bad_hex no_version unsupported_version short_machine wrong_length too_small : Reason
  missing_duration invalid_state : Reason

pub data Error : Type 0 where
  padding_limit blocking_limit : Error
  machine : Reason → Error

pub data Verdict : Type 0 where
  valid : Verdict
  invalid : Error → Verdict

-- `if c { Err(Error::Machine(…))?; }`
abbrev pub refuse_if : Bool → Reason → Verdict
refuse_if c r = if c then invalid (machine r) else valid

-- `first?; then`
infixl 5 ◌>>◌
abbrev pub ◌>>◌ : Verdict → Verdict → Verdict
valid >> next = next
invalid e >> next = invalid e

-- `.map_err(…)?` on what a constructor of rand_distr returns
abbrev pub accepted {ℓ} : {A : Type ℓ} → Option A → Verdict
accepted none = invalid (machine bad_parameters)
accepted (some a) = valid

pub >>-valid : (a b : Verdict) → a >> b ≡ valid → (a ≡ valid) × (b ≡ valid)
>>-valid valid b h = (refl, h)
>>-valid (invalid e) b h = cc

pub refuse_if-valid :
    (b : Bool) (r : Reason) (next : Verdict)
    → refuse_if b r >> next ≡ valid
    → (b ≡ false) × (next ≡ valid)
refuse_if-valid true r next h = absurd (cc h)
refuse_if-valid false r next h = (refl, h)
