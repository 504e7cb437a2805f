-- ===== src/Integration/New/Sorted.antt =====
-- The distribution that `BinDist::new` of crates/maybenot-simulator/src/integration.rs returns.
use mathlib.Core.List.{map}
use mathlib.Core.List.Perm
use mathlib.Core.List.{Perm}
use maybenot_simv.Base.{
  List, [], ◌∷◌, some, Option, none, ◌≡◌, ◌≢◌, refl, sym, ap, ◌∙◌, subst, Ordering, length, suc,
}
use maybenot_simv.Text.{Bytes}
use maybenot_simv.Attempt.{Attempt, ok, went_through}
use maybenot_simv.Integration.{Numbers, BinDist}
use maybenot_simv.Integration.New.{
  Json, JsonError, bad_json, Bin, or_error, parse_bins, accumulate, insert_bin, sort_bins, new,
}

length-map {ℓ κ} :
    {A : Type ℓ} {B : Type κ} (f : A → B) (xs : List A) → length (map f xs) ≡ length xs
length-map f [] = refl
length-map f (x ∷ xs) = ap suc (length-map f xs)

ok_injective : {A : Type 0} {a b : A} → ◌≡◌ {A = Attempt JsonError A} (ok a) (ok b) → a ≡ b
ok_injective h = cc

or_error-eq_some :
    {A : Type 0} (o : Option A) (e : JsonError) {a : A} → or_error o e ≡ ok a → o ≡ some a
or_error-eq_some (some x) e h = ap (λ y. some y) (ok_injective h)
or_error-eq_some none e h = cc

module _ {F64 Rng : Type 0} (num : Numbers F64 Rng) where
  -- No range starts above the start of the next.
  abbrev FollowedBy : Bin F64 → List (Bin F64) → Type 0
  FollowedBy b [] = Unit {0}
  FollowedBy b (x ∷ xs) = num.partial_cmp b.0.0 x.0.0 ≢ some Ordering.gt

  abbrev pub IsSorted : List (Bin F64) → Type 0
  IsSorted [] = Unit {0}
  IsSorted (b ∷ bins) = FollowedBy b bins × IsSorted bins

  -- The documented asymmetry of `PartialOrd`.
  abbrev pub IsAsymmetric : Type 0
  IsAsymmetric =
      (a b : F64) → num.partial_cmp a b ≡ some Ordering.gt → num.partial_cmp b a ≢ some Ordering.gt

  record Inserted (b : Bin F64) (xs ys : List (Bin F64)) : Type 0 where
    perm : Perm ys (b ∷ xs)
    sorted : IsSorted ys
    follows : (x : Bin F64) → FollowedBy x xs → FollowedBy x (b ∷ []) → FollowedBy x ys

  insert_bin-Inserted :
      IsAsymmetric
      → (b : Bin F64) (xs : List (Bin F64)) {ys : List (Bin F64)} → IsSorted xs
      → insert_bin num b xs ≡ ok ys
      → Inserted b xs ys
  unfolding insert_bin
  insert_bin-Inserted asym b [] s h =
      subst (Inserted b []) (ok_injective h)
        (record { perm = Perm.refl _; sorted = (tt, tt); follows = λ x k l. l })
  insert_bin-Inserted asym b (x ∷ xs) {ys} s h =
      compared (λ rest p. insert_bin-Inserted asym b xs s.1 p) (num.partial_cmp b.0.0 x.0.0) refl
    where
      here :
          num.partial_cmp b.0.0 x.0.0 ≢ some Ordering.gt → b ∷ x ∷ xs ≡ ys → Inserted b (x ∷ xs) ys
      here n e =
          subst (Inserted b (x ∷ xs)) e
            (record { perm = Perm.refl _; sorted = (n, s); follows = λ y k l. l })

      compared :
          ((rest : List (Bin F64)) → insert_bin num b xs ≡ ok rest → Inserted b xs rest)
          → (o : Option Ordering) → num.partial_cmp b.0.0 x.0.0 ≡ o
          → Inserted b (x ∷ xs) ys
      compared ih none e = absurd (cc (rw (e, insert_bin) at h))
      compared ih (some Ordering.lt) e = here (λ g. cc) (ok_injective (rw (e, insert_bin) at h))
      compared ih (some Ordering.eq) e = here (λ g. cc) (ok_injective (rw (e, insert_bin) at h))
      compared ih (some Ordering.gt) e =
          let (rest, p, q) = went_through (insert_bin num b xs) _ (rw (e, insert_bin) at h) in
          let i = ih rest p in
          subst (Inserted b (x ∷ xs)) (ok_injective q) (record {
            perm = Perm.trans (Perm.cons x i.perm) (Perm.swap b x xs);
            sorted = (i.follows x s.0 (asym b.0.0 x.0.0 e), i.sorted);
            follows = λ y k l. k;
          })

  -- The bins in another order, sorted.
  record IsSortOf (bins sorted : List (Bin F64)) : Type 0 where
    perm : Perm sorted bins
    ordered : IsSorted sorted

  sort_bins-IsSortOf :
      IsAsymmetric
      → (bins : List (Bin F64)) {sorted : List (Bin F64)} → sort_bins num bins ≡ ok sorted
      → IsSortOf bins sorted
  unfolding sort_bins
  sort_bins-IsSortOf asym [] h =
      subst (IsSortOf []) (ok_injective h) (record { perm = Perm.refl _; ordered = tt })
  sort_bins-IsSortOf asym (b ∷ bins) h =
      let (rest, p, q) = went_through (sort_bins num bins) _ h in
      let r = sort_bins-IsSortOf asym bins p in
      let i = insert_bin-Inserted asym b rest r.ordered q in
      record { perm = Perm.trans i.perm (Perm.cons b r.perm); ordered = i.sorted }

  module _ (json : Json F64) where
    length-accumulate :
        (total : F64) (bins : List (Bin F64)) → length (accumulate json total bins) ≡ length bins
    unfolding accumulate
    length-accumulate total [] = refl
    length-accumulate total (b ∷ bins) = ap suc (length-accumulate (json.add total b.1) bins)

    -- The distribution of the entries of a text.
    pub record IsMade (text : Bytes) (d : BinDist F64) : Type 0 where
      pub entries : List (Bytes × F64)
      pub parsed : List (Bin F64)
      pub sorted : List (Bin F64)
      pub read : json.entries text ≡ some entries
      pub parses : parse_bins json entries ≡ ok parsed
      pub all_of_them : Perm sorted parsed
      pub ordered : IsSorted sorted
      pub bins : d.bins ≡ map (λ b. b.0) sorted
      pub sums : d.cumulative_probabilities ≡ accumulate json json.zero sorted
      pub as_many : length d.cumulative_probabilities ≡ length d.bins

    made :
        (text : Bytes) (entries : List (Bytes × F64)) (parsed sorted : List (Bin F64))
        (d : BinDist F64)
        → json.entries text ≡ some entries
        → parse_bins json entries ≡ ok parsed
        → IsSortOf parsed sorted
        → record {
          bins = map (λ b. b.0) sorted;
          cumulative_probabilities = accumulate json json.zero sorted;
        }
          ≡ d
        → IsMade text d
    made text entries parsed sorted d r p s e = subst (IsMade text) e (record {
      entries = entries;
      parsed = parsed;
      sorted = sorted;
      read = r;
      parses = p;
      all_of_them = s.perm;
      ordered = s.ordered;
      bins = refl;
      sums = refl;
      as_many = length-accumulate json.zero sorted ∙ sym (length-map (λ (b : Bin F64). b.0) sorted);
    })

    pub new-IsMade :
        IsAsymmetric → (text : Bytes) (d : BinDist F64) → new num json text ≡ ok d → IsMade text d
    unfolding new
    new-IsMade asym text d h =
        let (entries, e, h1) = went_through (or_error (json.entries text) bad_json) _ h in
        let (parsed, p, h2) = went_through (parse_bins json entries) _ h1 in
        let (sorted, q, h3) = went_through (sort_bins num parsed) _ h2 in
        made text entries parsed sorted d (or_error-eq_some (json.entries text) bad_json e) p
          (sort_bins-IsSortOf asym parsed q) (ok_injective h3)
