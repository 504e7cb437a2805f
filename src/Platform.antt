-- ===== src/Platform.antt =====
-- What crates/maybenot takes from the machine and from other crates: `f64` and `f32`, the generator
-- of random numbers, and the distributions of the crate rand_distr. All of it is a parameter.
use maybenot_simv.Base.{ℕ, ◌*◌, ◌-◌, ◌^◌, Bool, Option}
use maybenot_simv.Outcome.{Outcome}

pub record Platform (F64 F32 Rng : Type 0) : Type 0 where
  -- The `f64` nearest to a number over a power of ten.
  pub decimal : ℕ → ℕ → F64
  pub lt : F64 → F64 → Bool
  pub le : F64 → F64 → Bool
  pub eq : F64 → F64 → Bool
  pub add : F64 → F64 → F64
  pub sub : F64 → F64 → F64
  pub div : F64 → F64 → F64
  pub max : F64 → F64 → F64
  pub min : F64 → F64 → F64
  pub round : F64 → F64
  pub is_nan : F64 → Bool
  pub is_infinite : F64 → Bool
  -- `as u64` and `as f64`, and `Duration::as_secs_f64` of a number of nanoseconds
  pub to_u64 : F64 → ℕ
  pub of_u64 : ℕ → F64
  pub as_secs : ℕ → F64
  pub zero32 : F32
  pub one32 : F32
  pub lt32 : F32 → F32 → Bool
  pub le32 : F32 → F32 → Bool
  pub add32 : F32 → F32 → F32
  -- `rng.gen_range(0.0..1.0)` on `f32`, and `rng.gen_range(low..high)` on `f64`, which may panic
  pub gen_unit : Rng → F32 × Rng
  pub gen_range : F64 → F64 → Rng → Outcome (F64 × Rng)
  -- The constructors of rand_distr, which refuse some arguments, with the sampling of the result.
  pub normal : F64 → F64 → Option (Rng → F64 × Rng)
  pub log_normal : F64 → F64 → Option (Rng → F64 × Rng)
  pub pareto : F64 → F64 → Option (Rng → F64 × Rng)
  pub weibull : F64 → F64 → Option (Rng → F64 × Rng)
  pub gamma : F64 → F64 → Option (Rng → F64 × Rng)
  pub beta : F64 → F64 → Option (Rng → F64 × Rng)
  pub skew_normal : F64 → F64 → F64 → Option (Rng → F64 × Rng)
  pub binomial : ℕ → F64 → Option (Rng → ℕ × Rng)
  pub geometric : F64 → Option (Rng → ℕ × Rng)
  pub poisson : F64 → Option (Rng → F64 × Rng)

-- `u64::MAX`
abbrev pub u64_max : ℕ
u64_max = 2 ^ 64 - 1

module _ {F64 F32 Rng : Type 0} (pl : Platform F64 F32 Rng) where
  abbrev pub zero64 : F64
  zero64 = pl.decimal 0 0

  abbrev pub one64 : F64
  one64 = pl.decimal 1 0

  -- A day in microseconds.
  abbrev pub day : F64
  day = pl.decimal (24 * 60 * 60 * 1000 * 1000) 0
