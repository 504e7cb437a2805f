-- ===== src/Machine/Nan.antt =====
-- The validation of machines, crates/maybenot/src/machine.rs, and limits that are no numbers.
use maybenot_simv.Base.{false, ◌≡◌}
use maybenot_simv.Platform.{Platform}
use maybenot_simv.Verdict.{valid, refuse_if-valid, bad_padding_frac, bad_blocking_frac}
use maybenot_simv.Machine.{Machine, is_no_fraction, validate}

module _ {F64 F32 Rng : Type 0} (pl : Platform F64 F32 Rng) where
  -- When comparisons with a value are false, as with NaN, a machine that passes validation passes it
  -- with this value for both of its limits, too.
  pub validate_nan :
      (m : Machine F64 F32) (nan : F64)
      → ((x : F64) → pl.lt nan x ≡ false)
      → ((x : F64) → pl.lt x nan ≡ false)
      → validate pl m ≡ valid
      → validate pl (record m { max_padding_frac = nan; max_blocking_frac = nan }) ≡ valid
  unfolding validate
  validate_nan m nan below above h =
      let (a, h1) = refuse_if-valid (is_no_fraction pl m.max_padding_frac) bad_padding_frac _ h in
      let (b, h2) =
        refuse_if-valid (is_no_fraction pl m.max_blocking_frac) bad_blocking_frac _ h1 in
      rw (below (pl.decimal 0 0), above (pl.decimal 1 0)) h2
