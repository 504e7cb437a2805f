-- ===== src/Dist.antt =====
-- crates/maybenot/src/dist.rs: the distributions, their validation and their sampling.
pub mod Sampling
use maybenot_simv.Base.{ℕ, Bool, true, false, not, ◌&&◌, if◌then◌else◌, ltb, ◌^◌, ◌||◌}
use maybenot_simv.Outcome.{Outcome, ok, unwrap, ◌>>=◌}
use maybenot_simv.Platform.{Platform, zero64}
use maybenot_simv.Verdict.{
  Verdict, valid, refuse_if, accepted, ◌>>◌, nan_bounds, infinite_bounds, low_over_high,
  range_overflow, low_probability, many_trials, high_lambda,
}

pub data DistType (F64 : Type 0) : Type 0 where
  -- low, high
  uniform : F64 → F64 → DistType F64
  -- mean, stdev
  normal : F64 → F64 → DistType F64
  -- location, scale, shape
  skew_normal : F64 → F64 → F64 → DistType F64
  -- mu, sigma
  log_normal : F64 → F64 → DistType F64
  -- trials, probability
  binomial : ℕ → F64 → DistType F64
  -- probability
  geometric : F64 → DistType F64
  -- scale, shape
  pareto : F64 → F64 → DistType F64
  -- lambda
  poisson : F64 → DistType F64
  -- scale, shape
  weibull : F64 → F64 → DistType F64
  -- scale, shape
  gamma : F64 → F64 → DistType F64
  -- alpha, beta
  beta : F64 → F64 → DistType F64

pub record Dist (F64 : Type 0) : Type 0 where
  pub dist : DistType F64
  pub start : F64
  pub max : F64

module _ {F64 F32 Rng : Type 0} (pl : Platform F64 F32 Rng) where
  -- Neither zero nor at least `DIST_MIN_PROBABILITY`, 1e-9.
  abbrev pub is_slow : F64 → Bool
  is_slow probability = not (pl.eq probability (zero64 pl)) && pl.lt probability (pl.decimal 1 9)

  unfoldable pub validate_type : DistType F64 → Verdict
  validate_type (DistType.uniform low high) = do
    refuse_if (pl.is_nan low || pl.is_nan high) nan_bounds
    refuse_if (pl.is_infinite low || pl.is_infinite high) infinite_bounds
    refuse_if (pl.lt high low) low_over_high
    refuse_if (pl.is_infinite (pl.sub high low)) range_overflow
  validate_type (DistType.normal mean stdev) = accepted (pl.normal mean stdev)
  validate_type (DistType.skew_normal location scale shape) =
      accepted (pl.skew_normal location scale shape)
  validate_type (DistType.log_normal mu sigma) = accepted (pl.log_normal mu sigma)
  validate_type (DistType.binomial trials probability) = do
    refuse_if (is_slow probability) low_probability
    refuse_if (ltb 1_000_000_000 trials) many_trials
    accepted (pl.binomial trials probability)
  validate_type (DistType.geometric probability) = do
    refuse_if (is_slow probability) low_probability
    accepted (pl.geometric probability)
  validate_type (DistType.pareto scale shape) = accepted (pl.pareto scale shape)
  validate_type (DistType.poisson lambda) = do
    refuse_if (pl.lt (pl.decimal (10 ^ 42) 0) lambda) high_lambda
    accepted (pl.poisson lambda)
  validate_type (DistType.weibull scale shape) = accepted (pl.weibull scale shape)
  validate_type (DistType.gamma scale shape) = accepted (pl.gamma shape scale)
  validate_type (DistType.beta alpha b) = accepted (pl.beta alpha b)

  abbrev pub validate : Dist F64 → Verdict
  validate d = validate_type d.dist

  -- `as f64` on a sample of whole numbers
  abbrev whole : ℕ × Rng → F64 × Rng
  whole (n, rng) = (pl.of_u64 n, rng)

  unfoldable pub dist_sample : DistType F64 → Rng → Outcome (F64 × Rng)
  dist_sample (DistType.uniform low high) rng =
      if pl.eq low high then ok (low, rng) else pl.gen_range low high rng
  dist_sample (DistType.normal mean stdev) rng = do
    draw ← unwrap (pl.normal mean stdev)
    ok (draw rng)
  dist_sample (DistType.skew_normal location scale shape) rng = do
    draw ← unwrap (pl.skew_normal location scale shape)
    ok (draw rng)
  dist_sample (DistType.log_normal mu sigma) rng = do
    draw ← unwrap (pl.log_normal mu sigma)
    ok (draw rng)
  dist_sample (DistType.binomial trials probability) rng = do
    draw ← unwrap (pl.binomial trials probability)
    ok (whole (draw rng))
  dist_sample (DistType.geometric probability) rng = do
    draw ← unwrap (pl.geometric probability)
    ok (whole (draw rng))
  dist_sample (DistType.pareto scale shape) rng = do
    draw ← unwrap (pl.pareto scale shape)
    ok (draw rng)
  dist_sample (DistType.poisson lambda) rng = do draw ← unwrap (pl.poisson lambda); ok (draw rng)
  dist_sample (DistType.weibull scale shape) rng = do
    draw ← unwrap (pl.weibull scale shape)
    ok (draw rng)
  dist_sample (DistType.gamma scale shape) rng = do
    draw ← unwrap (pl.gamma shape scale)
    ok (draw rng)
  dist_sample (DistType.beta alpha b) rng = do draw ← unwrap (pl.beta alpha b); ok (draw rng)

  -- The sample and `start` together, at least zero and at most `max` where that is positive.
  abbrev pub clamp : Dist F64 → F64 → F64
  clamp d value =
      let r = pl.max (zero64 pl) (pl.add value d.start) in
      if pl.lt (zero64 pl) d.max then pl.min r d.max else r

  unfoldable pub sample : Dist F64 → Rng → Outcome (F64 × Rng)
  sample d rng = do (value, rng') ← dist_sample d.dist rng; ok (clamp d value, rng')
