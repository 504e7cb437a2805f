-- ===== src/Integration/Drawn.antt =====
-- Delay distributions of crates/maybenot-simulator/src/integration.rs that are sampled without a
-- panic.
use maybenot_simv.Base.{
  ℕ, zero, suc, List, [], ◌∷◌, some, true, ◌≡◌, ◌≢◌, sym, ap, ◌∙◌, ◌⊎◌, inl, inr, All, get_elem?,
  Ordering, length, Bool-cases,
}
use maybenot_simv.Outcome.{ok, Returns, Returns-bind, >>=-eq-ok, unwrap}
use maybenot_simv.Integration.{Numbers, BinDist, comparisons, sample_bin, sample}
use maybenot_simv.Integration.Sampled.{
  IsPartitioned, SearchLaws, ChoosesBin, Exceeds, sample-ChoosesBin,
}

All-get_elem? {ℓ} :
    {A : Type ℓ} (P : A → Type 0) (xs : List A) (i : ℕ) {x : A}
    → All P xs
    → get_elem? xs i ≡ some x
    → P x
All-get_elem? P [] i h e = absurd (cc)
All-get_elem? P (y ∷ xs) zero {x} h e = let q : y ≡ x = cc in rw (← q) h.0
All-get_elem? P (y ∷ xs) (suc i) h e = All-get_elem? P xs i h.1 e

module _ {F64 Rng : Type 0} (num : Numbers F64 Rng) where
  length-comparisons :
      (p : F64) (cs : List F64) (os : List Ordering)
      → comparisons num p cs ≡ ok os
      → length os ≡ length cs
  unfolding comparisons
  length-comparisons p [] os h = let e : [] ≡ os = cc in ap length (sym e)
  length-comparisons p (c ∷ cs) os h =
      let (o, _, h1) = >>=-eq-ok (unwrap (num.partial_cmp c p)) _ h in
      let (rest, e, h2) = >>=-eq-ok (comparisons num p cs) _ h1 in
      let k : o ∷ rest ≡ os = cc in ap length (sym k) ∙ ap suc (length-comparisons p cs rest e)

  -- The bin is a single number, or a range that `gen_range` can draw from.
  abbrev pub IsDrawable : F64 × F64 → Type 0
  IsDrawable (min, max) =
      (num.eq min max ≡ true) ⊎ ((rng : Rng) → Returns (λ r. Unit {0}) (num.gen_range min max rng))

  -- The random number compares with each cumulative probability, they are sorted, and one of them is
  -- not below the number.
  pub record IsReached (d : BinDist F64) (rng : Rng) : Type 0 where
    pub os : List Ordering
    pub compared : comparisons num (num.gen rng).0 d.cumulative_probabilities ≡ ok os
    pub sorted : IsPartitioned os
    pub index : ℕ
    pub order : Ordering
    pub found : get_elem? os index ≡ some order
    pub reached : order ≢ Ordering.lt

  pub record IsDrawn (d : BinDist F64) : Type 0 where
    pub as_many : length d.cumulative_probabilities ≡ length d.bins
    pub bins : All IsDrawable d.bins
    pub numbers : (rng : Rng) → IsReached d rng

  sample_bin-Returns :
      (bin : F64 × F64) (rng : Rng)
      → IsDrawable bin
      → Returns (λ r. Unit {0}) (sample_bin num bin rng)
  unfolding sample_bin
  sample_bin-Returns (min, max) rng (inl e) = rw e tt
  sample_bin-Returns (min, max) rng (inr k) = elim (Bool-cases (num.eq min max)) [
    | inl e ↦ rw e tt
    | inr e ↦
        rw e (Returns-bind (λ r. Unit {0}) _ (num.gen_range min max rng) _ (k rng) (λ r u. tt))
  ]

  -- Where the search keeps its documented behaviour, there are as many bins as probabilities, each
  -- bin is a single number or a range to draw from, and each random number compares with the
  -- cumulative probabilities, which are sorted and not all below it, `sample` returns a duration.
  pub sample-IsDrawn :
      (laws : SearchLaws num.binary_search) (d : BinDist F64)
      → IsDrawn d
      → (rng : Rng) → Returns (λ r. Unit {0}) (sample num d rng)
  sample-IsDrawn laws d k rng =
      let r = k.numbers rng in
      let l =
        length-comparisons (num.gen rng).0 d.cumulative_probabilities r.os r.compared ∙ k.as_many in
      from_bin (sample-ChoosesBin num laws d rng r.os r.compared l r.sorted)
    where
      from_bin :
          ChoosesBin num laws d rng (k.numbers rng).os ⊎ Exceeds num laws d rng (k.numbers rng).os
          → Returns (λ r. Unit {0}) (sample num d rng)
      from_bin (inl c) = rw c.sampled (
          sample_bin-Returns c.bin (num.gen rng).1
            (All-get_elem? IsDrawable d.bins c.index k.bins c.found))
      from_bin (inr x) =
          let r = k.numbers rng in absurd (r.reached (x.below r.index r.order r.found))
