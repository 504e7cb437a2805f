-- ===== src/Framework/Total.antt =====
-- The processing of each event, crates/maybenot/src/framework.rs.
use maybenot_simv.Base.{
  ℕ, zero, suc, ◌+◌, ◌<◌, ◌≤◌, Bool, true, false, not, ◌&&◌, List, some, ◌≡◌, inl, inr, refl, ◌∙◌,
  arith, length, get_elem?, get_elem?-lt, Bool-cases, ◌==◌, leb, All,
}
use maybenot_simv.Outcome.{Outcome, Returns, Returns-bind, Returns-map}
use maybenot_simv.Event.{Event}
use maybenot_simv.Platform.{Platform}
use maybenot_simv.Dist.Sampling.{Laws}
use maybenot_simv.State.{state_end}
use maybenot_simv.Machine.{Machine}
use maybenot_simv.Machine.Sound.{IsSound, All-get}
use maybenot_simv.Framework.{Core, MachineRuntime}
use maybenot_simv.Framework.Transition.{is_changed, transit}
use maybenot_simv.Framework.Events.{
  for_machines, all_machines, account, transit_only, decrement_if, transit_and_decrement,
  if_machine, both,
}
use maybenot_simv.Framework.Valid.{
  IsValid, InState, After, After-trans, After-refl, set_runtime-After, Runs-get, Runs-length,
  accounts,
}
use maybenot_simv.Framework.Steps.{at-Returns}
use maybenot_simv.Framework.Terminates.{transit-After, decrement_limit-After, not_ended}

module _ {F64 F32 Rng : Type 0} (pl : Platform F64 F32 Rng) (laws : Laws pl)
    (ms : List (Machine F64 F32)) (sound : All (IsSound pl) ms) where
  -- A body of a loop over the machines that does what is allowed for its machine.
  abbrev pub Serves : (ℕ → Core F64 Rng → Outcome (Core F64 Rng)) → Type 0
  Serves body =
      (mi : ℕ) (m : Machine F64 F32) (c : Core F64 Rng)
      → get_elem? ms mi ≡ some m
      → IsValid ms c
      → Returns (After ms mi c) (body mi c)

  pub transit_only-Serves : (event : Event) → Serves (transit_only pl ms event)
  unfolding transit_only
  transit_only-Serves event mi m c got v =
      Returns-bind _ (λ x. After ms mi c x.1) (transit pl ms mi event c) _
        (transit-After pl laws ms mi m event c got (All-get (IsSound pl) ms mi m sound got) v)
        (λ x a. a)

  decrement_if-After :
      (b : Bool) (mi : ℕ) (m : Machine F64 F32) (r : MachineRuntime) (c : Core F64 Rng)
      → get_elem? ms mi ≡ some m
      → IsValid ms c
      → get_elem? c.runtime mi ≡ some r
      → (b ≡ true → r.current_state < length m.states)
      → Returns (After ms mi c) (decrement_if pl ms b mi c)
  decrement_if-After false mi m r c got v e l = After-refl ms mi c v
  decrement_if-After true mi m r c got v e l =
      decrement_limit-After pl laws ms mi m got (All-get (IsSound pl) ms mi m sound got) r c v e
        (l refl)

  may_decrement :
      (m : Machine F64 F32) (r : MachineRuntime) (a b : Bool)
      → InState m r
      → (a && (not (r.current_state == state_end) && b)) ≡ true
      → r.current_state < length m.states
  may_decrement m r a b k h = not_ended m r k (ground arith)

  pub transit_and_decrement-Serves :
      (event : Event) (own : ℕ → Bool) → Serves (transit_and_decrement pl ms event own)
  unfolding transit_and_decrement
  transit_and_decrement-Serves event own mi m c got v =
      Returns-bind _ (λ x. After ms mi c x.1) (transit pl ms mi event c) _
        (transit-After pl laws ms mi m event c got (All-get (IsSound pl) ms mi m sound got) v)
        (λ x a.
          let (r, e, k) = Runs-get ms x.1.runtime mi m a.valid.runs got in
          let b = not (is_changed x.0) && (not (r.current_state == state_end) && own mi) in
          at-Returns _ x.1.runtime mi r _ e (
            Returns-map (After ms mi x.1) (After ms mi c) (decrement_if pl ms b mi x.1)
              (decrement_if-After b mi m r x.1 got a.valid e
                (may_decrement m r (not (is_changed x.0)) (own mi) k))
              (λ c' d. After-trans ms mi c x.1 c' a d)))

  pub account-Serves :
      (count : MachineRuntime → MachineRuntime)
      → ((r : MachineRuntime) → (count r).current_state ≡ r.current_state)
      → Serves (account count)
  unfolding account
  account-Serves count same mi m c got v =
      let (r, e, k) = Runs-get ms c.runtime mi m v.runs got in
      at-Returns _ c.runtime mi r _ e (set_runtime-After ms mi m (count r) c v got (stays m r k))
    where
      stays : (m' : Machine F64 F32) (r' : MachineRuntime) → InState m' r' → InState m' (count r')
      stays m' r' (inl l) = inl (omega (arith, same r'))
      stays m' r' (inr p) = inr (same r' ∙ p)

  pub both-Serves :
      (f g : ℕ → Core F64 Rng → Outcome (Core F64 Rng))
      → Serves f
      → Serves g
      → Serves (both pl ms f g)
  both-Serves f g sf sg mi m c got v =
      Returns-bind _ (After ms mi c) (f mi c) _ (sf mi m c got v) (λ c' a.
        Returns-map (After ms mi c') (After ms mi c) (g mi c') (sg mi m c' got a.valid)
          (λ c'' b. After-trans ms mi c c' c'' a b))

  -- The invariant, with the accounts as they were at `c`.
  pub record Since (c c' : Core F64 Rng) : Type 0 where
    pub valid : IsValid ms c'
    pub kept : accounts c' ≡ accounts c

  for_machines-Since :
      (n from : ℕ) (body : ℕ → Core F64 Rng → Outcome (Core F64 Rng)) (c c' : Core F64 Rng)
      → Serves body
      → from + n ≤ length ms
      → Since c c'
      → Returns (Since c) (for_machines n from body c')
  unfolding for_machines
  for_machines-Since zero from body c c' s l k = k
  for_machines-Since (suc n) from body c c' s l k =
      let (m, got) = get_elem?-lt ms from (omega arith) in
      Returns-bind _ (After ms from c') (body from c') _ (s from m c' got k.valid) (λ d a.
        for_machines-Since n (suc from) body c d s (omega arith)
          (record { valid = a.valid; kept = a.kept ∙ k.kept }))

  pub all_machines-Since :
      (body : ℕ → Core F64 Rng → Outcome (Core F64 Rng)) (c : Core F64 Rng)
      → Serves body
      → IsValid ms c
      → Returns (Since c) (all_machines body c)
  all_machines-Since body c s v =
      for_machines-Since (length c.runtime) 0 body c c s
        (omega (arith, Runs-length ms c.runtime v.runs)) (record { valid = v; kept = refl })

  pub if_machine-Since :
      (mi : ℕ) (body : ℕ → Core F64 Rng → Outcome (Core F64 Rng)) (c : Core F64 Rng)
      → Serves body
      → IsValid ms c
      → Returns (Since c) (if_machine pl ms mi body c)
  if_machine-Since mi body c s v = elim (Bool-cases (leb (length c.runtime) mi)) [
    | inl t ↦ rw t (record { valid = v; kept = refl })
    | inr t ↦
        let (m, got) = get_elem?-lt ms mi (in_runtime t) in
        rw t (
          Returns-map (After ms mi c) (Since c) (body mi c) (s mi m c got v)
            (λ c' a. record { valid = a.valid; kept = a.kept }))
  ]
    where
      in_runtime : leb (length c.runtime) mi ≡ false → mi < length ms
      in_runtime t = ground (arith, Runs-length ms c.runtime v.runs)
