-- ===== src/Dist/Sampling.antt =====
-- The sampling of validated distributions, crates/maybenot/src/dist.rs.
use maybenot_simv.Base.{true, false, ◌≡◌, arith, Option, none, some}
use maybenot_simv.Outcome.{ok, Returns, Returns-bind, unwrap, ◌>>=◌}
use maybenot_simv.Platform.{Platform}
use maybenot_simv.Verdict.{valid, accepted, >>-valid}
use maybenot_simv.Dist.{DistType, Dist, validate, validate_type, dist_sample, sample}

-- No property of the value: the call returns.
abbrev pub Any {ℓ} : {A : Type ℓ} → A → Type 0
Any a = Unit {0}

-- What is documented of `f64` and of `gen_range`: two numbers are ordered or equal, and a range is
-- sampled unless it is empty or its length is no finite number.
pub record Laws {F64 F32 Rng : Type 0} (pl : Platform F64 F32 Rng) : Type 0 where
  pub ordered :
      (a b : F64)
      → pl.is_nan a ≡ false
      → pl.is_nan b ≡ false
      → pl.eq a b ≡ false
      → pl.lt b a ≡ false
      → pl.lt a b ≡ true
  pub in_range :
      (low high : F64) (rng : Rng)
      → pl.lt low high ≡ true
      → pl.is_infinite (pl.sub high low) ≡ false
      → Returns Any (pl.gen_range low high rng)

drawn {ℓ κ} :
    {A : Type ℓ} {B : Type κ} (o : Option A) (f : A → B)
    → accepted o ≡ valid
    → Returns Any (unwrap o >>= λ a. ok (f a))
drawn none f h = absurd (cc h)
drawn (some a) f h = tt

module _ {F64 F32 Rng : Type 0} (pl : Platform F64 F32 Rng) (laws : Laws pl) where
  uniform_returns :
      (low high : F64) (rng : Rng)
      → validate_type pl (DistType.uniform low high) ≡ valid
      → Returns Any (dist_sample pl (DistType.uniform low high) rng)
  unfolding validate_type dist_sample
  uniform_returns low high rng h = ground (arith, laws.ordered low high, laws.in_range low high rng)

  dist_sample-Returns :
      (d : DistType F64) (rng : Rng)
      → validate_type pl d ≡ valid
      → Returns Any (dist_sample pl d rng)
  unfolding validate_type dist_sample
  dist_sample-Returns (DistType.uniform low high) rng h = uniform_returns low high rng h
  dist_sample-Returns (DistType.normal a b) rng h = drawn (pl.normal a b) (λ f. f rng) h
  dist_sample-Returns (DistType.skew_normal a b c) rng h =
      drawn (pl.skew_normal a b c) (λ f. f rng) h
  dist_sample-Returns (DistType.log_normal a b) rng h = drawn (pl.log_normal a b) (λ f. f rng) h
  dist_sample-Returns (DistType.binomial a b) rng h =
      drawn (pl.binomial a b) _ (>>-valid _ (accepted (pl.binomial a b)) (>>-valid _ _ h).1).1
  dist_sample-Returns (DistType.geometric a) rng h =
      drawn (pl.geometric a) _ (>>-valid _ (accepted (pl.geometric a)) h).1
  dist_sample-Returns (DistType.pareto a b) rng h = drawn (pl.pareto a b) (λ f. f rng) h
  dist_sample-Returns (DistType.poisson a) rng h =
      drawn (pl.poisson a) (λ f. f rng) (>>-valid _ (accepted (pl.poisson a)) h).1
  dist_sample-Returns (DistType.weibull a b) rng h = drawn (pl.weibull a b) (λ f. f rng) h
  dist_sample-Returns (DistType.gamma a b) rng h = drawn (pl.gamma b a) (λ f. f rng) h
  dist_sample-Returns (DistType.beta a b) rng h = drawn (pl.beta a b) (λ f. f rng) h

  -- When the platform keeps its laws, a distribution that passes validation is sampled without a
  -- panic.
  pub sample-Returns :
      (d : Dist F64) (rng : Rng) → validate pl d ≡ valid → Returns Any (sample pl d rng)
  unfolding sample
  sample-Returns d rng h =
      Returns-bind Any Any (dist_sample pl d.dist rng) _ (dist_sample-Returns d.dist rng h)
        (λ a k. tt)
