-- ===== src/Framework/Valid.antt =====
-- The invariant of an instance of the framework, and what a step for one machine may change.
use maybenot_simv.Base.{
  ℕ, zero, suc, ◌+◌, ◌<◌, ◌≤◌, Bool, List, [], ◌∷◌, Option, none, some, ◌≡◌, ◌≢◌, ◌⊎◌, refl, sym,
  ◌∙◌, ap, arith, length, get_elem?, set, if◌then◌else◌, length-set, get_elem?-set_ne,
}
use maybenot_simv.Event.{MachineId, TriggerAction}
use maybenot_simv.State.{state_end}
use maybenot_simv.Machine.{Machine}
use maybenot_simv.Framework.{Core, MachineRuntime, SignalTarget}
use maybenot_simv.Framework.Transition.{set_runtime, set_action}

-- A state of the machine, or its end.
abbrev pub InState : {F64 F32 : Type 0} → Machine F64 F32 → MachineRuntime → Type 0
InState m r = (r.current_state < length m.states) ⊎ (r.current_state ≡ state_end)

-- Each machine has a runtime, in one of its states.
abbrev pub Runs : {F64 F32 : Type 0} → List (Machine F64 F32) → List MachineRuntime → Type 0
Runs [] [] = Unit {0}
Runs [] (r ∷ rs) = ⊥
Runs (m ∷ ms) [] = ⊥
Runs (m ∷ ms) (r ∷ rs) = InState m r × Runs ms rs

abbrev pub machine_of : TriggerAction → MachineId
machine_of (TriggerAction.cancel m timer) = m
machine_of (TriggerAction.send_padding timeout bypass replace m) = m
machine_of (TriggerAction.block_outgoing timeout duration bypass replace m) = m
machine_of (TriggerAction.update_timer duration replace m) = m

abbrev pub IsOwned : ℕ → Option TriggerAction → Type 0
IsOwned i none = Unit {0}
IsOwned i (some a) = machine_of a ≡ i

-- The action at each place is of the machine at this place; the first place is `from`.
abbrev pub Owns : ℕ → List (Option TriggerAction) → Type 0
Owns from [] = Unit {0}
Owns from (a ∷ xs) = IsOwned from a × Owns (suc from) xs

-- The excluded machine exists.
abbrev pub IsSignal : ℕ → Option SignalTarget → Type 0
IsSignal n none = Unit {0}
IsSignal n (some SignalTarget.all) = Unit {0}
IsSignal n (some (SignalTarget.all_except i)) = i < n

pub record IsValid {F64 F32 Rng : Type 0} (ms : List (Machine F64 F32)) (c : Core F64 Rng)
    : Type 0 where
  pub runs : Runs ms c.runtime
  pub owns : Owns 0 c.actions
  pub places : length c.actions ≡ length ms
  pub signal : IsSignal (length ms) c.signal_pending

-- How many counters may still be zeroed.
abbrev pub one_unless : Bool → ℕ
one_unless b = if b then 0 else 1

abbrev pub free : {F64 Rng : Type 0} → Core F64 Rng → ℕ
free c = one_unless c.counter_zeroed_once.0 + one_unless c.counter_zeroed_once.1

-- The accounts of packets and of blocking, which no transition touches.
abbrev pub accounts : {F64 Rng : Type 0} → Core F64 Rng → ℕ × ℕ × ℕ × Bool
accounts c = (c.normal_sent_packets, c.padding_sent_packets, c.blocking_duration, c.blocking_active)

-- What a step for machine `mi` leaves.
pub record After {F64 F32 Rng : Type 0} (ms : List (Machine F64 F32)) (mi : ℕ) (c c' : Core F64 Rng)
    : Type 0 where
  pub valid : IsValid ms c'
  pub kept : accounts c' ≡ accounts c
  pub fewer : free c' ≤ free c
  pub runtime : (j : ℕ) → j ≢ mi → get_elem? c'.runtime j ≡ get_elem? c.runtime j
  pub actions : (j : ℕ) → j ≢ mi → get_elem? c'.actions j ≡ get_elem? c.actions j

module _ {F64 F32 : Type 0} where
  pub Runs-length :
      (ms : List (Machine F64 F32)) (rs : List MachineRuntime) → Runs ms rs → length rs ≡ length ms
  Runs-length [] [] h = refl
  Runs-length [] (r ∷ rs) h = absurd h
  Runs-length (m ∷ ms) [] h = absurd h
  Runs-length (m ∷ ms) (r ∷ rs) h = ap suc (Runs-length ms rs h.1)

  pub Runs-get :
      (ms : List (Machine F64 F32)) (rs : List MachineRuntime) (i : ℕ) (m : Machine F64 F32)
      → Runs ms rs
      → get_elem? ms i ≡ some m
      → (r : MachineRuntime) × (get_elem? rs i ≡ some r) × InState m r
  Runs-get [] rs i m h e = absurd (cc e)
  Runs-get (x ∷ ms) [] i m h e = absurd h
  Runs-get (x ∷ ms) (r ∷ rs) zero m h e = (r, refl, ground (arith, h.0))
  Runs-get (x ∷ ms) (r ∷ rs) (suc i) m h e = Runs-get ms rs i m h.1 e

  pub Runs-set :
      (ms : List (Machine F64 F32)) (rs : List MachineRuntime) (i : ℕ) (m : Machine F64 F32)
      (r : MachineRuntime)
      → Runs ms rs
      → get_elem? ms i ≡ some m
      → InState m r
      → Runs ms (set rs i r)
  Runs-set [] rs i m r h e k = absurd (cc e)
  Runs-set (x ∷ ms) [] i m r h e k = absurd h
  Runs-set (x ∷ ms) (y ∷ rs) zero m r h e k = (ground (arith, k), h.1)
  Runs-set (x ∷ ms) (y ∷ rs) (suc i) m r h e k = (h.0, Runs-set ms rs i m r h.1 e k)

pub Owns-set :
    (from : ℕ) (xs : List (Option TriggerAction)) (i place : ℕ) (a : Option TriggerAction)
    → place ≡ from + i
    → Owns from xs
    → IsOwned place a
    → Owns from (set xs i a)
Owns-set from [] i place a p h k = tt
Owns-set from (x ∷ xs) zero place none p h k = (tt, h.1)
Owns-set from (x ∷ xs) zero place (some a) p h k = (omega arith, h.1)
Owns-set from (x ∷ xs) (suc i) place a p h k =
    (h.0, Owns-set (suc from) xs i place a (omega arith) h.1 k)

pub get_elem?-lt_length {ℓ} :
    {A : Type ℓ} (xs : List A) (i : ℕ) (x : A) → get_elem? xs i ≡ some x → i < length xs
get_elem?-lt_length [] i x h = absurd (cc h)
get_elem?-lt_length (y ∷ ys) zero x h = omega arith
get_elem?-lt_length (y ∷ ys) (suc i) x h = omega (arith, get_elem?-lt_length ys i x h)

module _ {F64 F32 Rng : Type 0} (ms : List (Machine F64 F32)) where
  pub After-trans :
      (mi : ℕ) (a b c : Core F64 Rng) → After ms mi a b → After ms mi b c → After ms mi a c
  After-trans mi a b c p q = record {
    valid = q.valid;
    kept = q.kept ∙ p.kept;
    fewer = omega (arith, p.fewer, q.fewer);
    runtime = λ j ne. q.runtime j ne ∙ p.runtime j ne;
    actions = λ j ne. q.actions j ne ∙ p.actions j ne;
  }

  -- A change that neither the invariant nor the accounts depend on.
  pub rng-After :
      (mi : ℕ) (rng : Rng) (c : Core F64 Rng)
      → IsValid ms c
      → After ms mi c (record c { rng = rng })
  rng-After mi rng c v = record {
    valid = record { runs = v.runs; owns = v.owns; places = v.places; signal = v.signal };
    kept = refl;
    fewer = omega arith;
    runtime = λ j ne. refl;
    actions = λ j ne. refl;
  }

  pub After-refl : (mi : ℕ) (c : Core F64 Rng) → IsValid ms c → After ms mi c c
  After-refl mi c v = rng-After mi c.rng c v

  pub set_runtime-After :
      (mi : ℕ) (m : Machine F64 F32) (r : MachineRuntime) (c : Core F64 Rng)
      → IsValid ms c
      → get_elem? ms mi ≡ some m
      → InState m r
      → After ms mi c (set_runtime mi r c)
  set_runtime-After mi m r c v e k = record {
    valid = record {
      runs = Runs-set ms c.runtime mi m r v.runs e k;
      owns = v.owns;
      places = v.places;
      signal = v.signal;
    };
    kept = refl;
    fewer = omega arith;
    runtime = λ j ne. get_elem?-set_ne c.runtime mi j r (λ p. ne (sym p));
    actions = λ j ne. refl;
  }

  pub set_action-After :
      (mi : ℕ) (a : Option TriggerAction) (c : Core F64 Rng)
      → IsValid ms c
      → IsOwned mi a
      → After ms mi c (set_action mi a c)
  set_action-After mi a c v k = record {
    valid = record {
      runs = v.runs;
      owns = Owns-set 0 c.actions mi mi a (omega arith) v.owns k;
      places = length-set c.actions mi a ∙ v.places;
      signal = v.signal;
    };
    kept = refl;
    fewer = omega arith;
    runtime = λ j ne. refl;
    actions = λ j ne. get_elem?-set_ne c.actions mi j a (λ p. ne (sym p));
  }

  pub signal-After :
      (mi : ℕ) (s : Option SignalTarget) (c : Core F64 Rng)
      → IsValid ms c
      → IsSignal (length ms) s
      → After ms mi c (record c { signal_pending = s })
  signal-After mi s c v k = record {
    valid = record { runs = v.runs; owns = v.owns; places = v.places; signal = k };
    kept = refl;
    fewer = omega arith;
    runtime = λ j ne. refl;
    actions = λ j ne. refl;
  }

  pub flags-After :
      (mi : ℕ) (f : Bool × Bool) (c : Core F64 Rng)
      → IsValid ms c
      → one_unless f.0 + one_unless f.1 ≤ free c
      → After ms mi c (record c { counter_zeroed_once = f })
  flags-After mi f c v k = record {
    valid = record { runs = v.runs; owns = v.owns; places = v.places; signal = v.signal };
    kept = refl;
    fewer = k;
    runtime = λ j ne. refl;
    actions = λ j ne. refl;
  }
