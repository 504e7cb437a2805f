-- ===== src/State.antt =====
-- crates/maybenot/src/state.rs: the states of a machine. The maps from events to transitions of the
-- crate enum_map, whose keys are all the events, are functions.
pub mod RoundTrip
use maybenot_simv.Base.{
  ℕ, ◌^◌, ◌-◌, Bool, true, false, not, ◌&&◌, ◌||◌, List, [], ◌∷◌, Option, none, some, if◌then◌else◌,
  leb, ◌==◌, set, get_elem?, replicate, is_empty, zero, suc,
}
use maybenot_simv.Outcome.{Outcome, ok, or_panic, index_out_of_bounds, ◌>>=◌}
use maybenot_simv.Event.{Event, to_usize, iter}
use maybenot_simv.Platform.{Platform}
use maybenot_simv.Verdict.{
  Verdict, valid, refuse_if, ◌>>◌, empty_transitions, state_out_of_bounds, duplicate_state,
  bad_probability, bad_total,
}
use maybenot_simv.Action.{Action, Counter, validate_action, validate_counter}

-- crates/maybenot/src/constants.rs
abbrev pub event_num : ℕ
event_num = 13

abbrev pub state_end : ℕ
state_end = 2 ^ 32 - 1

abbrev pub state_signal : ℕ
state_signal = state_end - 1

abbrev pub state_max : ℕ
state_max = state_signal - 1

pub record Trans (F32 : Type 0) : Type 0 where
  pub state : ℕ
  pub probability : F32

pub record State (F64 F32 : Type 0) : Type 0 where
  pub action : Option (Action F64)
  pub counter : Option (Counter F64) × Option (Counter F64)
  -- an array of `EVENT_NUM` entries
  pub transitions : List (Option (List (Trans F32)))

module _ {F32 : Type 0} where
  -- `for (event, vector) in t { … }`
  unfoldable pub fill :
      (Event → List (Trans F32))
      → List Event
      → List (Option (List (Trans F32)))
      → List (Option (List (Trans F32)))
  fill t [] transitions = transitions
  fill t (e ∷ es) transitions =
      fill t es (if is_empty (t e) then transitions else set transitions (to_usize e) (some (t e)))

  -- `for (event, vector) in self.transitions.iter().enumerate() { … }`, from `event` on
  unfoldable pub clone_from :
      (ℕ → Event)
      → ℕ
      → List (Option (List (Trans F32)))
      → (Event → List (Trans F32))
      → Event
      → List (Trans F32)
  clone_from from_usize event [] map = map
  clone_from from_usize event (none ∷ rest) map = clone_from from_usize (suc event) rest map
  clone_from from_usize event (some vector ∷ rest) map = clone_from from_usize (suc event) rest (
      if is_empty vector
      then map
      else (λ e. if to_usize e == to_usize (from_usize event) then vector else map e))

module _ {F64 F32 : Type 0} where
  unfoldable pub new : (Event → List (Trans F32)) → State F64 F32
  new t = record {
    action = none;
    counter = (none, none);
    transitions = fill t iter (replicate event_num none);
  }

  -- `from_usize` is that of the crate enum_map.
  unfoldable pub get_transitions : (ℕ → Event) → State F64 F32 → Event → List (Trans F32)
  get_transitions from_usize s = clone_from from_usize 0 s.transitions (λ e. [])

unfoldable pub contains : List ℕ → ℕ → Bool
contains [] i = false
contains (x ∷ xs) i = x == i || contains xs i

-- `if let Some(a) = … { a.validate()?; }`
abbrev pub check_option : {A : Type 0} → (A → Verdict) → Option A → Verdict
check_option check none = valid
check_option check (some a) = check a

module _ {F64 F32 Rng : Type 0} (pl : Platform F64 F32 Rng) where
  -- The loop over the transitions on one event, with the states seen and the sum so far.
  unfoldable pub validate_trans : ℕ → List (Trans F32) → List ℕ → F32 → Verdict
  validate_trans num_states [] seen sum =
      refuse_if (pl.le32 sum pl.zero32 || pl.lt32 pl.one32 sum) bad_total
  validate_trans num_states (t ∷ ts) seen sum = do
    refuse_if
        (leb num_states t.state && (not (t.state == state_end) && not (t.state == state_signal)))
        state_out_of_bounds
    refuse_if (contains seen t.state) duplicate_state
    refuse_if (pl.le32 t.probability pl.zero32 || pl.lt32 pl.one32 t.probability) bad_probability
    validate_trans num_states ts (t.state ∷ seen) (pl.add32 sum t.probability)

  -- `all` is the whole array: the test for an empty vector looks at it.
  unfoldable pub validate_all :
      ℕ → List (Option (List (Trans F32))) → List (Option (List (Trans F32))) → Verdict
  validate_all num_states all [] = valid
  validate_all num_states all (none ∷ rest) = validate_all num_states all rest
  validate_all num_states all (some transitions ∷ rest) = do
    refuse_if (is_empty all) empty_transitions
    validate_trans num_states transitions [] pl.zero32
    validate_all num_states all rest

  unfoldable pub validate : State F64 F32 → ℕ → Verdict
  validate s num_states = do
    validate_all num_states s.transitions s.transitions
    check_option (validate_action pl) s.action
    check_option (validate_counter pl) s.counter.0
    check_option (validate_counter pl) s.counter.1

  unfoldable pub pick_trans : List (Trans F32) → F32 → F32 → Option ℕ
  pick_trans [] sum r = none
  pick_trans (t ∷ ts) sum r =
      let rest = pick_trans ts (pl.add32 sum t.probability) r in
      if pl.lt32 r (pl.add32 sum t.probability) then some t.state else rest

  -- A random number is drawn only if there are transitions on the event.
  unfoldable pub sample_from : Option (List (Trans F32)) → Rng → Option ℕ × Rng
  sample_from none rng = (none, rng)
  sample_from (some vector) rng =
      let (r, rng') = pl.gen_unit rng in (pick_trans vector pl.zero32 r, rng')

  unfoldable pub sample_state : State F64 F32 → Event → Rng → Outcome (Option ℕ × Rng)
  sample_state s event rng = do
    vector ← or_panic (get_elem? s.transitions (to_usize event)) index_out_of_bounds
    ok (sample_from vector rng)
