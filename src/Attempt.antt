-- ===== src/Attempt.antt =====
-- Results of code that returns a `Result` and may panic besides.
use maybenot_simv.Base.{Bool, true, false, ◌≡◌, refl, if◌then◌else◌}
use maybenot_simv.Outcome.{Bug, Outcome, Returns}
use maybenot_simv.Verdict.{Error, Reason, Verdict, valid, invalid, refuse_if}

pub data Attempt {ℓ} (E : Type 0) (A : Type ℓ) : Type ℓ where
  ok : A → Attempt E A
  err : E → Attempt E A
  panic : Bug → Attempt E A
  out_of_fuel : Attempt E A

-- `?`
infixl 5 ◌>>=◌
abbrev pub ◌>>=◌ {ℓ κ} :
    {E : Type 0} {A : Type ℓ} {B : Type κ} → Attempt E A → (A → Attempt E B) → Attempt E B
ok a >>= f = f a
err e >>= f = err e
panic b >>= f = panic b
out_of_fuel >>= f = out_of_fuel

-- A call that returns no `Result`.
abbrev pub lift {ℓ} : {E : Type 0} {A : Type ℓ} → Outcome A → Attempt E A
lift (Outcome.ok a) = ok a
lift (Outcome.panic b) = panic b
lift Outcome.out_of_fuel = out_of_fuel

-- `.map_err(|_| …)`
abbrev pub map_err {ℓ} : {E F : Type 0} {A : Type ℓ} → (E → F) → Attempt E A → Attempt F A
map_err f (ok a) = ok a
map_err f (err e) = err (f e)
map_err f (panic b) = panic b
map_err f out_of_fuel = out_of_fuel

-- `verdict?; next`
abbrev pub checked {ℓ} : {A : Type ℓ} → Verdict → Attempt Error A → Attempt Error A
checked valid next = next
checked (invalid e) next = err e

-- There is a value with the property, or an error, and no panic.
abbrev pub Safe {ℓ} : {E : Type 0} {A : Type ℓ} → (A → Type 0) → Attempt E A → Type 0
Safe P (ok a) = P a
Safe P (err e) = Unit {0}
Safe P (panic b) = ⊥
Safe P out_of_fuel = ⊥

module _ {E : Type 0} {A B : Type 0} where
  pub Safe-bind :
      (P : B → Type 0) (Q : A → Type 0) (m : Attempt E A) (f : A → Attempt E B)
      → Safe Q m
      → ((a : A) → Q a → Safe P (f a))
      → Safe P (m >>= f)
  Safe-bind P Q (ok a) f h k = k a h
  Safe-bind P Q (err e) f h k = tt
  Safe-bind P Q (panic b) f h k = absurd h
  Safe-bind P Q out_of_fuel f h k = absurd h

pub Safe-if :
    {E A : Type 0} (P : A → Type 0) (b : Bool) (m n : Attempt E A)
    → Safe P m
    → Safe P n
    → Safe P (if b then m else n)
Safe-if P true m n h k = h
Safe-if P false m n h k = k

pub Safe-map_err :
    {E F A : Type 0} (P : A → Type 0) (f : E → F) (m : Attempt E A)
    → Safe P m
    → Safe P (map_err f m)
Safe-map_err P f (ok a) h = h
Safe-map_err P f (err e) h = tt
Safe-map_err P f (panic b) h = absurd h
Safe-map_err P f out_of_fuel h = absurd h

pub Safe-lift :
    (E : Type 0) {A : Type 0} (P : A → Type 0) (m : Outcome A)
    → Returns P m
    → Safe {E = E} P (lift m)
Safe-lift E P (Outcome.ok a) h = h
Safe-lift E P (Outcome.panic b) h = absurd h
Safe-lift E P Outcome.out_of_fuel h = absurd h

pub Safe-map :
    {E A : Type 0} (P Q : A → Type 0) (m : Attempt E A)
    → Safe P m
    → ((a : A) → P a → Q a)
    → Safe Q m
Safe-map P Q (ok a) h k = k a h
Safe-map P Q (err e) h k = tt
Safe-map P Q (panic b) h k = absurd h
Safe-map P Q out_of_fuel h k = absurd h

-- What a sequence that returns came through, and what it came to from there.
pub went_through :
    {E V W : Type 0} (first : Attempt E V) (then_do : V → Attempt E W) {last : W}
    → first >>= then_do ≡ ok last
    → (mid : V) × (first ≡ ok mid) × (then_do mid ≡ ok last)
went_through out_of_fuel then_do k = cc
went_through (panic bug) then_do k = cc
went_through (ok value) then_do k = (value, refl, k)
went_through (err reason) then_do k = cc

-- A property of the error, if there is one.
abbrev pub IfErr {ℓ} : {E : Type 0} {A : Type ℓ} → (E → Type 0) → Attempt E A → Type 0
IfErr R (ok a) = Unit {0}
IfErr R (err e) = R e
IfErr R (panic b) = Unit {0}
IfErr R out_of_fuel = Unit {0}

module _ {E A B : Type 0} where
  pub IfErr-bind :
      (R : E → Type 0) (m : Attempt E A) (f : A → Attempt E B)
      → IfErr R m
      → ((a : A) → IfErr R (f a))
      → IfErr R (m >>= f)
  IfErr-bind R (ok a) f h k = k a
  IfErr-bind R (err e) f h k = h
  IfErr-bind R (panic b) f h k = tt
  IfErr-bind R out_of_fuel f h k = tt

pub IfErr-map_err :
    {E F A : Type 0} (R : F → Type 0) (e : F) (m : Attempt E A) → R e → IfErr R (map_err (λ x. e) m)
IfErr-map_err R e (ok a) h = tt
IfErr-map_err R e (err x) h = h
IfErr-map_err R e (panic b) h = tt
IfErr-map_err R e out_of_fuel h = tt

pub Safe-checked {ℓ} :
    {A : Type ℓ} (P : A → Type 0) (c : Bool) (r : Reason) (m : Attempt Error A)
    → (c ≡ false → Safe P m)
    → Safe P (checked (refuse_if c r) m)
Safe-checked P true r m h = tt
Safe-checked P false r m h = h refl
