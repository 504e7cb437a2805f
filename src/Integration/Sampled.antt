-- ===== src/Integration/Sampled.antt =====
-- What a sample of a `BinDist` of crates/maybenot-simulator/src/integration.rs comes to: the bin that
-- the cumulative probabilities choose, or an index out of bounds.
use maybenot_simv.Base.{
  ℕ, zero, suc, ◌≤◌, ◌<◌, List, [], ◌∷◌, none, some, ◌≡◌, ◌≢◌, refl, arith, get_elem?-lt, ◌⊎◌, inl,
  inr, All, get_elem?, Ordering, length,
}
use native.Mathlib.Decide.{dec_lt}
use maybenot_simv.Outcome.{ok, panic, index_out_of_bounds}
use maybenot_simv.Integration.{Numbers, BinDist, comparisons, sample_bin, sample}

-- The elements are sorted: those below the target stand first, and those above it last.
abbrev pub IsPartitioned : List Ordering → Type 0
IsPartitioned [] = Unit {0}
IsPartitioned (Ordering.lt ∷ os) = IsPartitioned os
IsPartitioned (Ordering.eq ∷ os) = All (λ o. o ≢ Ordering.lt) os × IsPartitioned os
IsPartitioned (Ordering.gt ∷ os) = All (λ o. o ≡ Ordering.gt) os

-- The documented result of `binary_search_by` in a sorted slice: the place of an element that is
-- equal, or that where one could be inserted and the slice remain sorted.
pub record SearchLaws (binary_search : List Ordering → ℕ) : Type 0 where
  pub within : (os : List Ordering) → IsPartitioned os → binary_search os ≤ length os
  pub not_above :
      (os : List Ordering) (i : ℕ)
      → IsPartitioned os
      → i < binary_search os
      → get_elem? os i ≢ some Ordering.gt
  pub not_below :
      (os : List Ordering) (i : ℕ)
      → IsPartitioned os
      → binary_search os ≤ i
      → get_elem? os i ≢ some Ordering.lt
  pub hit :
      (os : List Ordering) (i : ℕ)
      → IsPartitioned os
      → get_elem? os i ≡ some Ordering.eq
      → binary_search os < length os

get_elem?-none {ℓ} : {A : Type ℓ} (xs : List A) (i : ℕ) → length xs ≤ i → get_elem? xs i ≡ none
get_elem?-none [] i h = refl
get_elem?-none (x ∷ xs) zero h = absurd (omega arith)
get_elem?-none (x ∷ xs) (suc i) h = get_elem?-none xs i (omega arith)

get_elem?-some-lt {ℓ} :
    {A : Type ℓ} (xs : List A) (i : ℕ) {x : A} → get_elem? xs i ≡ some x → i < length xs
get_elem?-some-lt [] i h = absurd (cc)
get_elem?-some-lt (y ∷ xs) zero h = omega arith
get_elem?-some-lt (y ∷ xs) (suc i) h = let l = get_elem?-some-lt xs i h in omega (arith, l)

module _ {F64 Rng : Type 0} (num : Numbers F64 Rng) (laws : SearchLaws num.binary_search)
    (d : BinDist F64) (rng : Rng) where
  -- The bin at `index`: no probability before it is above the number, and its own is not below.
  pub record ChoosesBin (os : List Ordering) : Type 0 where
    pub index : ℕ
    pub bin : F64 × F64
    pub found : get_elem? d.bins index ≡ some bin
    pub not_above : (j : ℕ) → j < index → get_elem? os j ≢ some Ordering.gt
    pub at : get_elem? os index ≢ some Ordering.lt
    pub sampled : sample num d rng ≡ sample_bin num bin (num.gen rng).1

  -- Every probability is below the number.
  pub record Exceeds (os : List Ordering) : Type 0 where
    pub below : (j : ℕ) (o : Ordering) → get_elem? os j ≡ some o → o ≡ Ordering.lt
    pub panics : sample num d rng ≡ panic index_out_of_bounds

  below_lem :
      (os : List Ordering) (j : ℕ) (o : Ordering)
      → IsPartitioned os
      → length os ≤ num.binary_search os
      → get_elem? os j ≡ some o
      → o ≡ Ordering.lt
  below_lem os j Ordering.lt p h e = refl
  below_lem os j Ordering.eq p h e = absurd (let l = laws.hit os j p e in omega (arith, l))
  below_lem os j Ordering.gt p h e =
      absurd (laws.not_above os j p (let l = get_elem?-some-lt os j e in omega (arith, l)) e)

  -- Where the search keeps its documented behaviour, there are as many bins as probabilities, and the
  -- random number compares with each of them, which are sorted, `sample` either takes the bin before
  -- which no cumulative probability is above the number and whose own is not below it, or every
  -- cumulative probability is below the number and `sample` panics on an index out of bounds.
  pub sample-ChoosesBin :
      (os : List Ordering)
      → comparisons num (num.gen rng).0 d.cumulative_probabilities ≡ ok os
      → length os ≡ length d.bins
      → IsPartitioned os
      → ChoosesBin os ⊎ Exceeds os
  unfolding sample
  sample-ChoosesBin os e l p = elim (dec_lt (num.binary_search os) (length d.bins)) [
    | yes h ↦
        let (bin, f) = get_elem?-lt d.bins (num.binary_search os) h in
        inl (record {
          index = num.binary_search os;
          bin = bin;
          found = f;
          not_above = λ j k. laws.not_above os j p k;
          at = laws.not_below os (num.binary_search os) p (omega arith);
          sampled = rw (e, f, sample) refl;
        })
    | no h ↦
        let f = get_elem?-none d.bins (num.binary_search os) (omega arith) in
        inr (record {
          below = λ j o k. below_lem os j o p (omega arith) k;
          panics = rw (e, f, sample) refl;
        })
  ]
