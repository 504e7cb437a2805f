-- ===== src/Outcome.antt =====
-- What a call of the simulator comes to: a value, or a panic with the place that raised it. A loop
-- that is given too little fuel ends in `out_of_fuel`, which no code of the program does.
use maybenot_simv.Base.{◌≡◌, refl, Option, none, some}

pub data Bug : Type 0 where
  -- `unwrap` of `None`, an index out of bounds, `Instant - Duration` before the earliest instant, an
  -- integer division by zero, a slice of a text off the boundary of a character
  unwrap_none index_out_of_bounds instant_underflow division_by_zero no_char_boundary : Bug
  -- the asserts and panics of the simulator's own
  no_internal_action no_action cancel_scheduled update_timer_scheduled time_backwards : Bug
  invalid_direction : Bug
  -- what the caller of an unsafe function promised not to do
  broken_promise : Bug

pub data Outcome {ℓ} (A : Type ℓ) : Type ℓ where
  ok : A → Outcome A
  panic : Bug → Outcome A
  out_of_fuel : Outcome A

infixl 5 ◌>>=◌
abbrev pub ◌>>=◌ {ℓ κ} :
    {V : Type ℓ} {W : Type κ} (run : Outcome V) (next : V → Outcome W) → Outcome W
out_of_fuel >>= next = out_of_fuel
panic bug >>= next = panic bug
ok value >>= next = next value

abbrev pub unwrap {ℓ} : {A : Type ℓ} → Option A → Outcome A
unwrap none = panic unwrap_none
unwrap (some a) = ok a

abbrev pub or_panic {ℓ} : {A : Type ℓ} → Option A → Bug → Outcome A
or_panic none b = panic b
or_panic (some a) b = ok a

-- A property of the value, if there is one.
abbrev pub IfOk {ℓ} : {A : Type ℓ} → (A → Type 0) → Outcome A → Type 0
IfOk P (ok a) = P a
IfOk P (panic b) = Unit {0}
IfOk P out_of_fuel = Unit {0}

-- There is a value, and it has the property.
abbrev pub Returns {ℓ} : {A : Type ℓ} → (A → Type 0) → Outcome A → Type 0
Returns P (ok a) = P a
Returns P (panic b) = ⊥
Returns P out_of_fuel = ⊥

module _ {ℓ} {A B : Type ℓ} where
  pub IfOk-bind :
      (P : B → Type 0) (m : Outcome A) (f : A → Outcome B)
      → ((a : A) → IfOk P (f a))
      → IfOk P (m >>= f)
  IfOk-bind P (ok a) f h = h a
  IfOk-bind P (panic b) f h = tt
  IfOk-bind P out_of_fuel f h = tt

  pub IfOk-then :
      (P : B → Type 0) (Q : A → Type 0) (m : Outcome A) (f : A → Outcome B)
      → IfOk Q m
      → ((a : A) → Q a → IfOk P (f a))
      → IfOk P (m >>= f)
  IfOk-then P Q (ok a) f h k = k a h
  IfOk-then P Q (panic b) f h k = tt
  IfOk-then P Q out_of_fuel f h k = tt

  -- A sequence that returns went through a value.
  pub >>=-eq-ok :
      (run : Outcome A) (next : A → Outcome B) {last : B}
      → run >>= next ≡ ok last
      → (mid : A) × (run ≡ ok mid) × (next mid ≡ ok last)
  >>=-eq-ok out_of_fuel next h = cc
  >>=-eq-ok (panic bug) next h = cc
  >>=-eq-ok (ok value) next h = (value, refl, h)

  pub Returns-bind :
      (P : B → Type 0) (Q : A → Type 0) (m : Outcome A) (f : A → Outcome B)
      → Returns Q m
      → ((a : A) → Q a → Returns P (f a))
      → Returns P (m >>= f)
  Returns-bind P Q (ok a) f h k = k a h
  Returns-bind P Q (panic b) f h k = absurd h
  Returns-bind P Q out_of_fuel f h k = absurd h

pub Returns-map {ℓ} :
    {A : Type ℓ} (P Q : A → Type 0) (m : Outcome A)
    → Returns P m
    → ((a : A) → P a → Q a)
    → Returns Q m
Returns-map P Q (ok a) h k = k a h
Returns-map P Q (panic b) h k = absurd h
Returns-map P Q out_of_fuel h k = absurd h

pub Returns-ok {ℓ} :
    {A : Type ℓ} (P : A → Type 0) (m : Outcome A) → Returns P m → (a : A) × (m ≡ ok a) × P a
Returns-ok P (ok a) h = (a, refl, h)
Returns-ok P (panic b) h = absurd h
Returns-ok P out_of_fuel h = absurd h

pub Returns-and {ℓ} :
    {A : Type ℓ} (P Q : A → Type 0) (m : Outcome A)
    → Returns P m
    → IfOk Q m
    → Returns (λ a. P a × Q a) m
Returns-and P Q (ok a) h k = (h, k)
Returns-and P Q (panic b) h k = absurd h
Returns-and P Q out_of_fuel h k = absurd h

pub IfOk-map {ℓ} :
    {A : Type ℓ} (P Q : A → Type 0) (m : Outcome A) → IfOk P m → ((a : A) → P a → Q a) → IfOk Q m
IfOk-map P Q (ok a) h k = k a h
IfOk-map P Q (panic b) h k = tt
IfOk-map P Q out_of_fuel h k = tt

pub IfOk-ok {ℓ} : {A : Type ℓ} (P : A → Type 0) (m : Outcome A) (a : A) → IfOk P m → m ≡ ok a → P a
IfOk-ok P m a h e = rw e at h
