-- ===== src/Machine.antt =====
-- crates/maybenot/src/machine.rs: the machines. Their serialization is left to other crates.
pub mod Sound
pub mod Nan
pub mod Serial
pub mod Stored
use maybenot_simv.Base.{ℕ, Bool, true, false, ◌||◌, List, [], ◌∷◌, length, ltb, ◌==◌, zero, suc}
use maybenot_simv.Platform.{Platform, zero64, one64}
use maybenot_simv.Verdict.{
  Verdict, valid, refuse_if, ◌>>◌, bad_padding_frac, bad_blocking_frac, no_states, many_states,
}
use maybenot_simv.State
use maybenot_simv.State.{State, state_max}

pub record Machine (F64 F32 : Type 0) : Type 0 where
  pub allowed_padding_packets : ℕ
  pub max_padding_frac : F64
  pub allowed_blocked_microsec : ℕ
  pub max_blocking_frac : F64
  pub states : List (State F64 F32)

module _ {F64 F32 Rng : Type 0} (pl : Platform F64 F32 Rng) where
  -- `frac < 0.0 || frac > 1.0`
  abbrev pub is_no_fraction : F64 → Bool
  is_no_fraction frac = pl.lt frac (zero64 pl) || pl.lt (one64 pl) frac

  unfoldable pub validate_states : ℕ → List (State F64 F32) → Verdict
  validate_states num_states [] = valid
  validate_states num_states (s ∷ rest) = do
    State.validate pl s num_states
    validate_states num_states rest

  unfoldable pub validate : Machine F64 F32 → Verdict
  validate m = do
    refuse_if (is_no_fraction m.max_padding_frac) bad_padding_frac
    refuse_if (is_no_fraction m.max_blocking_frac) bad_blocking_frac
    refuse_if (length m.states == 0) no_states
    refuse_if (ltb state_max (length m.states)) many_states
    validate_states (length m.states) m.states
