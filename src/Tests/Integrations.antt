-- ===== src/Tests/Integrations.antt =====
-- A distribution of delays with two bins, whose probabilities sum to 8.
use maybenot_simv.Base.{
  ℕ, zero, suc, subst, ◌+◌, ◌*◌, ◌≤◌, ◌<◌, List, [], ◌∷◌, Option, some, ◌≡◌, ◌≢◌, refl, arith, ◌⊎◌,
  inr, ◌%◌, All, get_elem?, compare, Ordering, length, ◌==◌,
}
use maybenot_simv.Outcome.{ok, Returns}
use maybenot_simv.Integration.{Numbers, BinDist, comparisons, sample}
use maybenot_simv.Integration.Drawn.{IsReached, IsDrawn, sample-IsDrawn}
use maybenot_simv.Text.{parse_u64}
use maybenot_simv.Attempt
use maybenot_simv.Integration.New.{Json}
use maybenot_simv.Integration.Sampled.{
  IsPartitioned, SearchLaws, ChoosesBin, Exceeds, sample-ChoosesBin,
}

-- How many elements below the target stand first.
unfoldable pub leading : List Ordering → ℕ
leading [] = 0
leading (Ordering.lt ∷ os) = suc (leading os)
leading (_ ∷ os) = 0

leading-le : (os : List Ordering) → leading os ≤ length os
unfolding leading
leading-le [] = omega arith
leading-le (Ordering.lt ∷ os) = let l = leading-le os in omega (arith, l)
leading-le (_ ∷ os) = omega arith

leading_ne_gt : (os : List Ordering) (i : ℕ) → i < leading os → get_elem? os i ≢ some Ordering.gt
unfolding leading
leading_ne_gt [] i h = absurd (omega arith)
leading_ne_gt (Ordering.lt ∷ os) zero h = λ e. cc
leading_ne_gt (Ordering.lt ∷ os) (suc i) h = leading_ne_gt os i (omega arith)
leading_ne_gt (Ordering.eq ∷ os) i h = absurd (omega arith)
leading_ne_gt (Ordering.gt ∷ os) i h = absurd (omega arith)

some_injective : {a b : Ordering} → ◌≡◌ {A = Option Ordering} (some a) (some b) → a ≡ b
some_injective h = cc

All-get_elem? :
    (P : Ordering → Type 0) (os : List Ordering) (i : ℕ) (o : Ordering)
    → All P os
    → get_elem? os i ≡ some o
    → P o
All-get_elem? P [] i o h e = absurd cc
All-get_elem? P (x ∷ os) zero o h e = subst P (some_injective e) h.0
All-get_elem? P (x ∷ os) (suc i) o h e = All-get_elem? P os i o h.1 e

leading_ne_lt :
    (os : List Ordering) (i : ℕ)
    → IsPartitioned os
    → leading os ≤ i
    → get_elem? os i ≢ some Ordering.lt
unfolding leading
leading_ne_lt [] i p h = λ e. cc
leading_ne_lt (Ordering.lt ∷ os) zero p h = absurd (omega arith)
leading_ne_lt (Ordering.lt ∷ os) (suc i) p h = leading_ne_lt os i p (omega arith)
leading_ne_lt (Ordering.eq ∷ os) zero p h = λ e. cc
leading_ne_lt (Ordering.eq ∷ os) (suc i) p h = λ e. All-get_elem? _ os i Ordering.lt p.0 e refl
leading_ne_lt (Ordering.gt ∷ os) zero p h = λ e. cc
leading_ne_lt (Ordering.gt ∷ os) (suc i) p h = λ e.
    let q : Ordering.lt ≡ Ordering.gt = All-get_elem? (λ o. o ≡ Ordering.gt) os i Ordering.lt p e in
    cc

leading-lt :
    (os : List Ordering) (i : ℕ) → get_elem? os i ≡ some Ordering.eq → leading os < length os
unfolding leading
leading-lt [] i e = absurd cc
leading-lt (Ordering.lt ∷ os) zero e = absurd cc
leading-lt (Ordering.lt ∷ os) (suc i) e = let l = leading-lt os i e in omega (arith, l)
leading-lt (Ordering.eq ∷ os) i e = omega arith
leading-lt (Ordering.gt ∷ os) i e = omega arith

pub leading-SearchLaws : SearchLaws leading
leading-SearchLaws = record {
  within = λ os p. leading-le os;
  not_above = λ os i p h. leading_ne_gt os i h;
  not_below = leading_ne_lt;
  hit = λ os i p e. leading-lt os i e;
}

abbrev pub numbers : Numbers ℕ ℕ
numbers = record {
  gen = λ rng. (rng, suc rng);
  partial_cmp = λ a b. some (compare a b);
  eq = ◌==◌;
  gen_range = λ low high rng. ok (low, suc rng);
  thousandfold = λ a. a * 1000;
  binary_search = leading;
}

abbrev pub delays : BinDist ℕ
delays = record { bins = (1, 2) ∷ (2, 5) ∷ []; cumulative_probabilities = 3 ∷ 8 ∷ [] }

abbrev compared : List Ordering
compared = Ordering.lt ∷ Ordering.gt ∷ []

compared_lem : comparisons numbers 5 (3 ∷ 8 ∷ []) ≡ ok compared
unfolding comparisons
compared_lem = refl

sample-ChoosesBin_example :
    ChoosesBin numbers leading-SearchLaws delays 5 compared
    ⊎ Exceeds numbers leading-SearchLaws delays 5 compared
sample-ChoosesBin_example =
    sample-ChoosesBin numbers leading-SearchLaws delays 5 compared compared_lem refl tt

-- Random numbers below 8.
abbrev pub bounded : Numbers ℕ ℕ
bounded = record numbers { gen = λ rng. (rng % 8, suc rng) }

below_eight : (rng : ℕ) → compare 8 (rng % 8) ≡ Ordering.gt
below_eight rng = ground arith

then_gt : (o : Ordering) → IsPartitioned (o ∷ Ordering.gt ∷ [])
then_gt Ordering.lt = tt
then_gt Ordering.eq = ((λ e. cc, tt), tt)
then_gt Ordering.gt = (refl, tt)

delays-IsReached : (rng : ℕ) → IsReached bounded delays rng
unfolding comparisons
delays-IsReached rng = record {
  os = compare 3 (rng % 8) ∷ Ordering.gt ∷ [];
  compared = rw (below_eight rng) refl;
  sorted = then_gt (compare 3 (rng % 8));
  index = 1;
  order = Ordering.gt;
  found = refl;
  reached = λ e. cc;
}

pub delays-IsDrawn : IsDrawn bounded delays
delays-IsDrawn = record {
  as_many = refl;
  bins = (inr (λ rng. tt), (inr (λ rng. tt), tt));
  numbers = delays-IsReached;
}

sample-IsDrawn_example : Returns (λ r. Unit {0}) (sample bounded delays 5)
sample-IsDrawn_example = sample-IsDrawn bounded leading-SearchLaws delays delays-IsDrawn 5

-- A map of two ranges, the later one first, as the text's entries.
abbrev json : Json ℕ
json = record {
  entries = λ text. some (
      (b'(' ∷ b'2' ∷ b',' ∷ b' ' ∷ b'5' ∷ b')' ∷ [], 5)
      ∷ (b'(' ∷ b'1' ∷ b',' ∷ b'2' ∷ b')' ∷ [], 3)
      ∷ []);
  parse = parse_u64;
  zero = 0;
  add = λ a b. a + b;
}
