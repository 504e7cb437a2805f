-- ===== src/Ffi/Started.antt =====
-- `maybenot_start` of crates/maybenot-ffi/src/ffi.rs, and the framework that it hands out.
use maybenot_simv.Base.{
  ℕ, Bool, true, false, List, [], ◌∷◌, Option, none, some, ◌≡◌, inl, inr, refl, All, All-map,
  Bool-cases,
}
use maybenot_simv.Outcome.{Returns, Returns-map}
use maybenot_simv.Text.{Bytes, lines}
use maybenot_simv.Attempt.{
  Attempt, ok, err, panic, out_of_fuel, Safe, Safe-bind, Safe-map_err, Safe-lift, lift, map_err,
  ◌>>=◌, IfErr, IfErr-bind, IfErr-map_err,
}
use maybenot_simv.Platform.{Platform}
use maybenot_simv.Verdict.{Error, Verdict, valid, invalid}
use maybenot_simv.Dist.Sampling.{Laws}
use maybenot_simv.Machine.{Machine}
use maybenot_simv.Machine.Serial.{Formats, from_str}
use maybenot_simv.Machine.Stored.{IsAccepted, ReadsArrays, HasArrays, from_str-IsAccepted}
use maybenot_simv.Framework.New.{Created, created, refused, new, validate_arguments}
use maybenot_simv.Framework.Returns.{IsRunning}
use maybenot_simv.Framework.Created.{IsCreated, new-IsCreated}
use maybenot_simv.Ffi.{MaybenotResult, MaybenotFramework, parse_machines, of_created, start}
use maybenot_simv.Ffi.Calls.{finish_start, maybenot_start}

-- A framework behind the interface that is ready for events.
abbrev pub Runs :
    {F64 F32 Rng : Type 0} → Platform F64 F32 Rng → MaybenotFramework F64 F32 Rng → Type 0
Runs pl this = IsRunning pl this.framework

-- `Ok` comes with a running framework in `out`, and an error with nothing written.
abbrev pub HasStarted :
    {F64 F32 Rng : Type 0}
    → Platform F64 F32 Rng
    → MaybenotResult × Option (MaybenotFramework F64 F32 Rng)
    → Type 0
HasStarted pl (MaybenotResult.ok, some this) = Runs pl this
HasStarted pl (MaybenotResult.ok, none) = ⊥
HasStarted pl (_, some this) = ⊥
HasStarted pl (_, none) = Unit {0}

-- An error code.
abbrev IsFailure : MaybenotResult → Type 0
IsFailure MaybenotResult.ok = ⊥
IsFailure _ = Unit {0}

-- Made from machines that have their arrays: a framework that can run, or an error.
abbrev IsMade : {F64 F32 Rng : Type 0} → Platform F64 F32 Rng → Created F64 F32 Rng → Type 0
IsMade pl (created f) = IsRunning pl f
IsMade pl (refused e) = Unit {0}

module _ {F64 F32 Rng : Type 0} (pl : Platform F64 F32 Rng) (laws : Laws pl)
    (formats : Formats F64 F32) where
  parse_machines-IsAccepted :
      (ls : List Bytes)
      → ReadsArrays formats
      → Safe (All (IsAccepted pl)) (parse_machines pl formats ls)
  unfolding parse_machines
  parse_machines-IsAccepted [] a = tt
  parse_machines-IsAccepted (l ∷ ls) a =
      Safe-bind _ (IsAccepted pl) (from_str pl formats l) _ (from_str-IsAccepted pl formats l a)
        (λ m k.
          Safe-bind _ (All (IsAccepted pl)) (parse_machines pl formats ls) _
            (parse_machines-IsAccepted ls a) (λ ms ks. (k, ks)))

  IsCreated-IsMade : (c : Created F64 F32 Rng) → IsCreated pl c → IsMade pl c
  IsCreated-IsMade (created f) h = h
  IsCreated-IsMade (refused e) h = tt

  new-IsMade :
      (ms : List (Machine F64 F32)) (p b : F64) (now : ℕ) (rng : Rng) (v : Verdict)
      → All HasArrays ms
      → validate_arguments pl ms p b ≡ v
      → Returns (IsMade pl) (new pl ms p b now rng)
  new-IsMade ms p b now rng valid a h =
      Returns-map (IsCreated pl) (IsMade pl) (new pl ms p b now rng)
        (new-IsCreated pl laws ms p b now rng a h) IsCreated-IsMade
  new-IsMade ms p b now rng (invalid e) a h = unfold new in rw h tt

  of_created-IsMade : (c : Created F64 F32 Rng) → IsMade pl c → Safe (IsRunning pl) (of_created c)
  of_created-IsMade (created f) h = h
  of_created-IsMade (refused e) h = tt

  start-Runs :
      (text : Bytes) (p b : F64) (now : ℕ) (rng : Rng)
      → ReadsArrays formats
      → Safe (Runs pl) (start pl formats text p b now rng)
  unfolding start
  start-Runs text p b now rng a =
      let parsed = parse_machines pl formats (lines text) in
      Safe-bind _ (All (IsAccepted pl)) (map_err _ parsed) _
        (Safe-map_err _ _ parsed (parse_machines-IsAccepted (lines text) a))
        (λ ms k.
          let made = lift (new pl ms p b now rng) >>= of_created in
          Safe-bind _ (IsRunning pl) (map_err _ made) _
            (Safe-map_err _ _ made (
              Safe-bind _ (IsMade pl) (lift (new pl ms p b now rng)) _
                (Safe-lift Error _ (new pl ms p b now rng)
                  (new-IsMade ms p b now rng _ (All-map ms (λ m h. h.1) k) refl))
                of_created-IsMade))
            (λ f r. r))

  start_fails :
      (text : Bytes) (p b : F64) (now : ℕ) (rng : Rng)
      → IfErr IsFailure (start pl formats text p b now rng)
  unfolding start
  start_fails text p b now rng =
      IfErr-bind IsFailure (map_err _ (parse_machines pl formats (lines text))) _
        (IfErr-map_err _ _ (parse_machines pl formats (lines text)) tt)
        (λ ms.
          let made = lift (new pl ms p b now rng) >>= of_created in
          IfErr-bind IsFailure (map_err _ made) _ (IfErr-map_err _ _ made tt) (λ f. tt))

  finish_start-HasStarted :
      (m : Attempt MaybenotResult (MaybenotFramework F64 F32 Rng))
      → Safe (Runs pl) m
      → IfErr IsFailure m
      → Returns (HasStarted pl) (finish_start m)
  finish_start-HasStarted (ok this) h n = h
  finish_start-HasStarted (err MaybenotResult.ok) h n = absurd n
  finish_start-HasStarted (err MaybenotResult.machine_string_not_utf8) h n = tt
  finish_start-HasStarted (err MaybenotResult.invalid_machine_string) h n = tt
  finish_start-HasStarted (err MaybenotResult.start_framework) h n = tt
  finish_start-HasStarted (err MaybenotResult.null_pointer) h n = tt
  finish_start-HasStarted (panic x) h n = absurd h
  finish_start-HasStarted out_of_fuel h n = absurd h

  -- When the platform keeps its laws and the machines that bincode reads have arrays of the length
  -- of their type, `maybenot_start` of any text returns, without a panic: either `Ok`, with a
  -- framework in `out` that is ready for events, or an error, with nothing written.
  pub maybenot_start-HasStarted :
      (is_utf8 : Bytes → Bool) (text : Bytes) (p b : F64) (out_is_null : Bool) (now : ℕ) (rng : Rng)
      → ReadsArrays formats
      → Returns
          (HasStarted pl)
          (maybenot_start pl formats is_utf8 (some text) p b out_is_null now rng)
  unfolding maybenot_start
  maybenot_start-HasStarted is_utf8 text p b true now rng a = tt
  maybenot_start-HasStarted is_utf8 text p b false now rng a = elim (Bool-cases (is_utf8 text)) [
    | inl e ↦ rw e (
        finish_start-HasStarted (start pl formats text p b now rng) (start-Runs text p b now rng a)
          (start_fails text p b now rng))
    | inr e ↦ rw e tt
  ]
