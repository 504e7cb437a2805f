-- ===== src/Integration/New.antt =====
-- `BinDist::new` of crates/maybenot-simulator/src/integration.rs: a distribution of delays from JSON.
-- The reader of JSON and that of floating point numbers are parameters.
pub mod Sorted
use maybenot_simv.Base.{
  Bool, ◌||◌, List, [], ◌∷◌, Option, none, some, ◌==◌, Ordering, if◌then◌else◌, ℕ,
}
use mathlib.Core.List.{map}
use maybenot_simv.Text.{Bytes, split, trim, keep_unless}
use maybenot_simv.Outcome.{unwrap_none}
use maybenot_simv.Attempt.{Attempt, ok, err, panic, ◌>>=◌}
use maybenot_simv.Integration.{Numbers, BinDist}

pub data JsonError : Type 0 where
  bad_json bad_number not_two_values : JsonError

-- What the constructor takes from serde_json and from `f64`.
pub record Json (F64 : Type 0) : Type 0 where
  -- `serde_json::from_str` into a map, as the list of its entries in the order of its iteration
  pub entries : Bytes → Option (List (Bytes × F64))
  pub parse : Bytes → Option F64
  pub zero : F64
  pub add : F64 → F64 → F64

-- A range and its probability.
abbrev pub Bin : Type 0 → Type 0
Bin F64 = (F64 × F64) × F64

abbrev is_paren : ℕ → Bool
is_paren c = c == b'(' || c == b')'

-- `trim_matches(|c| c == '(' || c == ')')`
unfoldable pub trim_left : Bytes → Bytes
trim_left [] = []
trim_left (c ∷ s) = if is_paren c then trim_left s else c ∷ s

unfoldable pub trim_right : Bytes → Bytes
trim_right [] = []
trim_right (c ∷ s) = keep_unless (is_paren c) c (trim_right s)

abbrev pub or_error {ℓ} : {A : Type ℓ} → Option A → JsonError → Attempt JsonError A
or_error none e = err e
or_error (some a) e = ok a

abbrev pub or_unwrap {ℓ} : {A : Type ℓ} → Option A → Attempt JsonError A
or_unwrap none = panic unwrap_none
or_unwrap (some a) = ok a

-- `range_values.len() != 2`
abbrev pub two_values : {F64 : Type 0} → List F64 → Attempt JsonError (F64 × F64)
two_values (min ∷ max ∷ []) = ok (min, max)
two_values _ = err not_two_values

module _ {F64 : Type 0} (json : Json F64) where
  -- The numbers of a range, up to the first that is none.
  unfoldable pub parse_values : List Bytes → Attempt JsonError (List F64)
  parse_values [] = ok []
  parse_values (part ∷ parts) = do
    v ← or_error (json.parse (trim part)) bad_number
    vs ← parse_values parts
    ok (v ∷ vs)

  unfoldable pub parse_range : Bytes → Attempt JsonError (F64 × F64)
  parse_range range = do
    values ← parse_values (split b',' (trim_right (trim_left range)))
    two_values values

  unfoldable pub parse_bins : List (Bytes × F64) → Attempt JsonError (List (Bin F64))
  parse_bins [] = ok []
  parse_bins ((range, prob) ∷ rest) = do
    r ← parse_range range
    bins ← parse_bins rest
    ok ((r, prob) ∷ bins)

  -- `total_prob += prob; cumulative_probabilities.push(total_prob);`
  unfoldable pub accumulate : F64 → List (Bin F64) → List F64
  accumulate total [] = []
  accumulate total (b ∷ bins) = json.add total b.1 ∷ accumulate (json.add total b.1) bins

module _ {F64 Rng : Type 0} (num : Numbers F64 Rng) where
  -- `sort_by` of the starts of the ranges, which is stable
  unfoldable pub insert_bin : Bin F64 → List (Bin F64) → Attempt JsonError (List (Bin F64))
  insert_bin b [] = ok (b ∷ [])
  insert_bin b (x ∷ xs) = do
    o ← or_unwrap (num.partial_cmp b.0.0 x.0.0)
    elim o [ Ordering.gt ↦ insert_bin b xs >>= λ rest. ok (x ∷ rest) | _ ↦ ok (b ∷ x ∷ xs) ]

  unfoldable pub sort_bins : List (Bin F64) → Attempt JsonError (List (Bin F64))
  sort_bins [] = ok []
  sort_bins (b ∷ bins) = do sorted ← sort_bins bins; insert_bin b sorted

  unfoldable pub new : Json F64 → Bytes → Attempt JsonError (BinDist F64)
  new json json_input = do
    entries ← or_error (json.entries json_input) bad_json
    bins ← parse_bins json entries
    sorted ← sort_bins bins
    ok (record {
      bins = map (λ b. b.0) sorted;
      cumulative_probabilities = accumulate json json.zero sorted;
    })
