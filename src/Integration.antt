-- ===== src/Integration.antt =====
-- `BinDist` of crates/maybenot-simulator/src/integration.rs and its sampling. The floating point
-- numbers, the random numbers and the binary search of the standard library are parameters.
pub mod Sampled
pub mod Drawn
pub mod New
use maybenot_simv.Base.{
  ℕ, ◌*◌, List, [], ◌∷◌, Option, none, some, Bool, get_elem?, Ordering, if◌then◌else◌,
}
use maybenot_simv.Outcome.{Outcome, ok, panic, index_out_of_bounds, unwrap, or_panic, ◌>>=◌}

-- What the sampling takes from `f64` and from rand; `binary_search` is the index of either result of
-- `binary_search_by`, given how the elements compare with the target.
pub record Numbers (F64 Rng : Type 0) : Type 0 where
  pub gen : Rng → F64 × Rng
  pub partial_cmp : F64 → F64 → Option Ordering
  pub eq : F64 → F64 → Bool
  pub gen_range : F64 → F64 → Rng → Outcome (F64 × Rng)
  -- `(x * 1000.0) as u64`, and the duration of so many microseconds
  pub thousandfold : F64 → ℕ
  pub binary_search : List Ordering → ℕ

pub record BinDist (F64 : Type 0) : Type 0 where
  pub bins : List (F64 × F64)
  pub cumulative_probabilities : List F64

module _ {F64 Rng : Type 0} (num : Numbers F64 Rng) where
  -- How the elements compare with a number: `partial_cmp(…).unwrap()`.
  unfoldable pub comparisons : F64 → List F64 → Outcome (List Ordering)
  comparisons p [] = ok []
  comparisons p (c ∷ cs) = do o ← unwrap (num.partial_cmp c p); os ← comparisons p cs; ok (o ∷ os)

  -- A number of a bin, which is in milliseconds, as a duration.
  unfoldable pub sample_bin : F64 × F64 → Rng → Outcome (ℕ × Rng)
  sample_bin (min, max) rng =
      if num.eq min max
      then ok (num.thousandfold min * 1000, rng)
      else (do r ← num.gen_range min max rng; ok (num.thousandfold r.0 * 1000, r.1))

  unfoldable pub sample : BinDist F64 → Rng → Outcome (ℕ × Rng)
  sample d rng = do
    let (sample_prob, rng') = num.gen rng
    os ← comparisons sample_prob d.cumulative_probabilities
    bin ← or_panic (get_elem? d.bins (num.binary_search os)) index_out_of_bounds
    sample_bin bin rng'
