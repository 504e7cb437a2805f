-- ===== src/State/RoundTrip.antt =====
-- `State::new` and `get_transitions` of crates/maybenot/src/state.rs.
use maybenot_simv.Base.{
  ℕ, suc, ◌+◌, ◌<◌, ◌≤◌, true, List, [], ◌∷◌, ◌++◌, Option, none, some, ◌≡◌, ◌≢◌, refl, sym, ◌∙◌,
  ap, arith, length, set, replicate, is_empty, if◌then◌else◌, Bool-cases, inl, inr, ◌==◌,
}
use mathlib.Core.List.{append_assoc}
use native.Mathlib.Decide.{ℕ_discrete}
use maybenot_simv.Event.{Event, to_usize, iter}
use maybenot_simv.State.{Trans, fill, clone_from, new, get_transitions, event_num}

-- The events stand at their places, from `k` on.
abbrev IsIndexed : ℕ → List Event → Type 0
IsIndexed k [] = Unit {0}
IsIndexed k (e ∷ es) = (to_usize e ≡ k) × IsIndexed (suc k) es

set-append {ℓ} :
    {A : Type ℓ} (xs ys : List A) (y z : A) → set (xs ++ y ∷ ys) (length xs) z ≡ xs ++ z ∷ ys
set-append [] ys y z = refl
set-append (x ∷ xs) ys y z = ap (λ l. x ∷ l) (set-append xs ys y z)

length-snoc {ℓ} : {A : Type ℓ} (xs : List A) (y : A) → length (xs ++ y ∷ []) ≡ suc (length xs)
length-snoc [] y = refl
length-snoc (x ∷ xs) y = ap suc (length-snoc xs y)

empty {ℓ} : {A : Type ℓ} (xs : List A) → is_empty xs ≡ true → xs ≡ []
empty [] h = refl
empty (x ∷ xs) h = cc

above : (k n : ℕ) → k ≤ n → n ≢ k → suc k ≤ n
above k n l ne = omega (arith, ne)

iter-IsIndexed : IsIndexed 0 iter
iter-IsIndexed = omega arith

to_usize-lt : (e : Event) → to_usize e < 0 + event_num
to_usize-lt e = ground arith

module _ {F32 : Type 0} (t : Event → List (Trans F32)) where
  -- The entry of an event.
  entry : Event → Option (List (Trans F32))
  entry e = if is_empty (t e) then none else some (t e)

  entries : List Event → List (Option (List (Trans F32)))
  entries [] = []
  entries (e ∷ es) = entry e ∷ entries es

  fill-entry :
      (e : Event) (xs ys : List (Option (List (Trans F32))))
      → to_usize e ≡ length xs
      → (if is_empty (t e)
          then xs ++ none ∷ ys
          else set (xs ++ none ∷ ys) (to_usize e) (some (t e)))
        ≡ (xs ++ entry e ∷ []) ++ ys
  unfolding entry
  fill-entry e xs ys h = elim (Bool-cases (is_empty (t e))) [
    | inl b ↦ rw b (sym (append_assoc xs (none ∷ []) ys))
    | inr b ↦
        rw (b, h) (set-append xs ys none (some (t e)) ∙ sym (append_assoc xs (some (t e) ∷ []) ys))
  ]

  fill-entries :
      (es : List Event) (xs : List (Option (List (Trans F32))))
      → IsIndexed (length xs) es
      → fill t es (xs ++ replicate (length es) none) ≡ xs ++ entries es
  unfolding fill entries
  fill-entries [] xs h = refl
  fill-entries (e ∷ es) xs h = rw (fill-entry e xs (replicate (length es) none) h.0) (
      fill-entries es (xs ++ entry e ∷ []) (rw (length-snoc xs (entry e)) h.1)
      ∙ append_assoc xs (entry e ∷ []) (entries es))

  module _ (from_usize : ℕ → Event) (inverse : (e : Event) → from_usize (to_usize e) ≡ e) where
    -- What the round of `clone_from` for the event makes of the map.
    overwrite : Event → ℕ → (Event → List (Trans F32)) → Event → List (Trans F32)
    overwrite x k map =
        if is_empty (t x)
        then map
        else (λ e. if to_usize e == to_usize (from_usize k) then t x else map e)

    clone_step :
        (x : Event) (es : List Event) (k : ℕ) (map : Event → List (Trans F32)) (e : Event)
        → clone_from from_usize k (entries (x ∷ es)) map e
          ≡ clone_from from_usize (suc k) (entries es) (overwrite x k map) e
    unfolding clone_from entries entry overwrite
    clone_step x es k map e = elim (Bool-cases (is_empty (t x))) [
      | inl b ↦ rw b refl
      | inr b ↦ rw b (rw b refl)
    ]

    index_back : (x : Event) (k : ℕ) → to_usize x ≡ k → to_usize (from_usize k) ≡ k
    index_back x k h = rw (sym h) (ap to_usize (inverse x))

    overwrite_ne :
        (x : Event) (k : ℕ) (map : Event → List (Trans F32)) (e : Event)
        → to_usize x ≡ k
        → to_usize e ≢ k
        → overwrite x k map e ≡ map e
    unfolding overwrite
    overwrite_ne x k map e h ne = ground (arith, index_back x k h)

    same_event : (x e : Event) (k : ℕ) → to_usize x ≡ k → to_usize e ≡ k → x ≡ e
    same_event x e k h g = sym (inverse x) ∙ ap from_usize (h ∙ sym g) ∙ inverse e

    overwrite_self :
        (x : Event) (k : ℕ) (map : Event → List (Trans F32)) (e : Event)
        → to_usize x ≡ k
        → to_usize e ≡ k
        → map e ≡ []
        → overwrite x k map e ≡ t e
    unfolding overwrite
    overwrite_self x k map e h g n =
        ground (arith, index_back x k h, ap t (same_event x e k h g), empty (t x))

    -- The rounds for other events leave the event's entry.
    cloned :
        (es : List Event) (k : ℕ) (map : Event → List (Trans F32)) (e : Event)
        → IsIndexed k es
        → to_usize e < k
        → clone_from from_usize k (entries es) map e ≡ map e
    unfolding clone_from entries
    cloned [] k map e h l = refl
    cloned (x ∷ es) k map e h l =
        clone_step x es k map e
        ∙ (cloned es (suc k) (overwrite x k map) e h.1 (omega arith)
            ∙ overwrite_ne x k map e h.0 (λ p. omega arith))

    clone_from-entries :
        (es : List Event) (k : ℕ) (map : Event → List (Trans F32)) (e : Event)
        → IsIndexed k es
        → k ≤ to_usize e
        → to_usize e < k + length es
        → map e ≡ []
        → clone_from from_usize k (entries es) map e ≡ t e
    clone_from-entries [] k map e h l u n = absurd (omega arith)
    clone_from-entries (x ∷ es) k map e h l u n = elim (ℕ_discrete (to_usize e) k) [
      | yes p ↦
          clone_step x es k map e
          ∙ (cloned es (suc k) (overwrite x k map) e h.1 (omega arith)
              ∙ overwrite_self x k map e h.0 p n)
      | no ne ↦
          clone_step x es k map e
          ∙ clone_from-entries es (suc k) (overwrite x k map) e h.1 (above k (to_usize e) l ne)
              (omega arith) (overwrite_ne x k map e h.0 ne ∙ n)
    ]

    -- When `from_usize` gives back the event of each index, `get_transitions` of a new state is the
    -- map of transitions that the state was made of.
    pub get_transitions-new :
        (F64 : Type 0) (e : Event) → get_transitions from_usize (new {F64 = F64} t) e ≡ t e
    unfolding get_transitions new
    get_transitions-new F64 e =
        ap (λ v. clone_from from_usize 0 v (λ x. []) e) (fill-entries iter [] iter-IsIndexed)
        ∙ clone_from-entries iter 0 (λ x. []) e iter-IsIndexed (omega arith) (to_usize-lt e) refl
