-- ===== src/Parsing/Bounds.antt =====
-- The offsets of the parser of crates/maybenot/src/parsing.rs, and the machines that it returns.
use native.Mathlib.Nat.{mul-suc}
use maybenot_simv.Base.{
  ℕ, zero, suc, ◌+◌, ◌*◌, ◌-◌, ◌≤◌, ◌<◌, Bool, true, false, not, List, [], ◌∷◌, Option, none, some,
  ◌≡◌, refl, ◌∙◌, arith, length, drop, length-take, length-drop, length-set, All, set, is_empty,
  replicate, ltb, ◌==◌, get_elem?-lt, le→leb, Option-cases, inl, inr, if◌then◌else◌,
}
use maybenot_simv.Text.{Bytes}
use maybenot_simv.Outcome.{Outcome, Returns}
use maybenot_simv.Attempt.{Attempt, Safe, Safe-bind, Safe-if, Safe-checked, Safe-lift, ◌>>=◌}
use maybenot_simv.Platform.{Platform, zero64}
use maybenot_simv.Verdict.{Error}
use maybenot_simv.Event.{Event, to_usize, iter}
use maybenot_simv.Dist.{Dist}
use maybenot_simv.Dist.Sampling.{Any}
use maybenot_simv.State
use maybenot_simv.State.{State, Trans, fill, event_num}
use maybenot_simv.Machine.Stored.{IsAccepted, new-IsAccepted}
use maybenot_simv.Parsing.{
  Readers, dist_size, v1_events_iter, state_len, slice, flag, column, read_at, parse_dist,
  parse_dist_at, parse_action, parse_cell, parse_row, parse_rows, parse_state, parse_states,
  parse_v1, parse_version, parse_v1_machine, Transitions,
}

-- byteorder reads a number where there are enough bytes.
pub record ReadsEnough {F64 F32 : Type 0} (readers : Readers F64 F32) : Type 0 where
  pub u16 : (b : Bytes) → length b ≡ 2 → Returns Any (readers.read_u16 b)
  pub u64 : (b : Bytes) → length b ≡ 8 → Returns Any (readers.read_u64 b)
  pub f64 : (b : Bytes) → length b ≡ 8 → Returns Any (readers.read_f64 b)

slice-Safe :
    (buf : Bytes) (from to : ℕ)
    → from ≤ to
    → to ≤ length buf
    → Safe (λ b. length b ≡ to - from) (slice buf from to)
unfolding slice
slice-Safe buf from to h k =
    rw (le→leb from to h, le→leb to (length buf) k)
      (length-take (to - from) (drop from buf) (omega (arith, length-drop from buf)))

ltb_false→le : (a b : ℕ) → ltb a b ≡ false → b ≤ a
ltb_false→le a b h = ground arith

not_==→eq : (a b : ℕ) → not (a == b) ≡ false → a ≡ b
not_==→eq a b h = ground arith

flag-Safe : (buf : Bytes) (r : ℕ) → r < length buf → Safe Any (flag buf r)
unfolding flag
flag-Safe buf r h = let (b, e) = get_elem?-lt buf r h in rw (e, Safe) tt

-- The bytes of the rows of the matrix.
abbrev row_bytes : ℕ → List Event → ℕ
row_bytes num_states [] = 0
row_bytes num_states (event ∷ events) = (num_states + 2) * 8 + row_bytes num_states events

fill-length :
    {F32 : Type 0} (t : Event → List (Trans F32)) (es : List Event)
    (v : List (Option (List (Trans F32))))
    → length (fill t es v) ≡ length v
unfolding fill
fill-length t [] v = refl
fill-length t (e ∷ es) v =
    fill-length t es (if is_empty (t e) then v else set v (to_usize e) (some (t e)))
    ∙ ground (arith, length-set v (to_usize e) (some (t e)))

module _ {F64 F32 Rng : Type 0} (pl : Platform F64 F32 Rng) (readers : Readers F64 F32)
    (enough : ReadsEnough readers) where
  read_at-Safe :
      {A : Type 0} (read : Bytes → Outcome A) (buf : Bytes) (from to n : ℕ)
      → ((b : Bytes) → length b ≡ n → Returns Any (read b))
      → to ≡ from + n
      → to ≤ length buf
      → Safe Any (read_at pl readers read buf from to)
  unfolding read_at
  read_at-Safe read buf from to n h e k =
      Safe-bind Any _ (slice buf from to) _ (slice-Safe buf from to (omega arith) k)
        (λ b l. Safe-lift Error Any (read b) (h b (omega arith)))

  -- A number is read where it lies within the buffer, and what follows is safe.
  f64_then :
      {B : Type 0} (P : B → Type 0) (buf : Bytes) (from to : ℕ) (next : F64 → Attempt Error B)
      → to ≡ from + 8
      → to ≤ length buf
      → ((a : F64) → Safe P (next a))
      → Safe P (read_at pl readers readers.read_f64 buf from to >>= next)
  f64_then P buf from to next e k h =
      Safe-bind P Any (read_at pl readers readers.read_f64 buf from to) next
        (read_at-Safe readers.read_f64 buf from to 8 enough.f64 e k) (λ a t. h a)

  parse_dist-Safe : (buf : Bytes) → length buf ≡ dist_size → Safe Any (parse_dist pl readers buf)
  unfolding parse_dist
  parse_dist-Safe buf l = Safe-checked Any (ltb (length buf) dist_size) _ _ (λ e.
      Safe-bind Any Any (read_at pl readers readers.read_u16 buf 0 2) _
        (read_at-Safe readers.read_u16 buf 0 2 2 enough.u16 refl (omega arith))
        (λ type_buf t. f64_then Any buf 2 10 _ refl (omega arith) (λ param1.
          f64_then Any buf 10 18 _ refl (omega arith) (λ param2.
            f64_then Any buf 18 26 _ refl (omega arith)
              (λ start. f64_then Any buf 26 34 _ refl (omega arith) (λ max. tt))))))

  parse_dist_at-Safe :
      (buf : Bytes) (r : ℕ) → r + dist_size ≤ length buf → Safe Any (parse_dist_at pl readers buf r)
  parse_dist_at-Safe buf r h =
      Safe-bind Any _ (slice buf r (r + dist_size)) _
        (slice-Safe buf r (r + dist_size) (omega arith) h) (λ b l. parse_dist-Safe b (omega arith))

  parse_action-Safe :
      (timeout : Option (Dist F64)) (is_block bypass replace : Bool)
      (duration limit : Option (Dist F64))
      → Safe Any (parse_action pl readers timeout is_block bypass replace duration limit)
  unfolding parse_action
  parse_action-Safe none is_block bypass replace duration limit = tt
  parse_action-Safe (some timeout) true bypass replace none limit = tt
  parse_action-Safe (some timeout) true bypass replace (some duration) limit = tt
  parse_action-Safe (some timeout) false bypass replace duration limit = tt

  column-Safe : (num_states i : ℕ) → Safe Any (column num_states i)
  column-Safe num_states i = ground arith

  parse_cell-Safe :
      (num_states : ℕ) (event : Event) (i : ℕ) (v : F64) (t : Transitions pl readers)
      → Safe Any (parse_cell pl readers num_states event i v t)
  unfolding parse_cell
  parse_cell-Safe num_states event i v t =
      Safe-if Any (pl.eq v (zero64 pl)) _ _ tt
        (Safe-bind Any Any (column num_states i) _ (column-Safe num_states i) (λ s u. tt))

  parse_row-Safe :
      (buf : Bytes) (num_states : ℕ) (event : Event) (n i r : ℕ) (t : Transitions pl readers)
      → r + n * 8 ≤ length buf
      → Safe Any (parse_row pl readers buf num_states event n i r t)
  unfolding parse_row
  parse_row-Safe buf num_states event zero i r t h = tt
  parse_row-Safe buf num_states event (suc n) i r t h =
      f64_then Any buf r (r + 8) _ refl (omega arith) (λ v.
        Safe-bind Any Any (parse_cell pl readers num_states event i v t) _
          (parse_cell-Safe num_states event i v t)
          (λ t' u. parse_row-Safe buf num_states event n (suc i) (r + 8) t' (omega arith)))

  parse_rows-Safe :
      (buf : Bytes) (num_states : ℕ) (events : List Event) (r : ℕ) (t : Transitions pl readers)
      → r + row_bytes num_states events ≤ length buf
      → Safe Any (parse_rows pl readers buf num_states events r t)
  unfolding parse_rows
  parse_rows-Safe buf num_states [] r t h = tt
  parse_rows-Safe buf num_states (event ∷ events) r t h =
      Safe-bind Any Any (parse_row pl readers buf num_states event (num_states + 2) 0 r t) _
        (parse_row-Safe buf num_states event (num_states + 2) 0 r t (omega arith))
        (λ t' u. parse_rows-Safe buf num_states events (r + (num_states + 2) * 8) t' (omega arith))

  -- The transitions have one entry for each event.
  HasEvents : State F64 F32 → Type 0
  HasEvents s = length s.transitions ≡ event_num

  and_then :
      {A B : Type 0} (P : B → Type 0) (m : Attempt Error A) (next : A → Attempt Error B)
      → Safe Any m
      → ((a : A) → Safe P (next a))
      → Safe P (m >>= next)
  and_then P m next h k = Safe-bind P Any m next h (λ a t. k a)

  parse_state-HasEvents :
      (buf : Bytes) (num_states : ℕ)
      → length buf ≡ state_len num_states
      → Safe HasEvents (parse_state pl readers buf num_states)
  unfolding parse_state State.new HasEvents
  parse_state-HasEvents buf n l = Safe-checked HasEvents (ltb (length buf) (state_len n)) _ _ (λ e.
      and_then _ _ _ (parse_dist_at-Safe buf 0 (omega arith)) (λ duration.
        and_then _ _ _ (parse_dist_at-Safe buf dist_size (omega arith)) (λ limit.
          and_then _ _ _ (parse_dist_at-Safe buf (2 * dist_size) (omega arith)) (λ timeout.
            and_then _ _ _ (flag-Safe buf (3 * dist_size) (omega arith)) (λ is_block.
              and_then _ _ _ (flag-Safe buf (3 * dist_size + 1) (omega arith)) (λ bypass.
                and_then _ _ _ (flag-Safe buf (3 * dist_size + 2) (omega arith)) (λ replace.
                  and_then _ _ _ (parse_action-Safe timeout is_block bypass replace duration limit)
                    (λ action.
                      and_then _ _ _
                        (parse_rows-Safe buf n v1_events_iter (3 * dist_size + 4) (λ e. [])
                          (omega arith))
                        (λ t. fill-length t iter (replicate event_num none))))))))))

  parse_states-HasEvents :
      (buf : Bytes) (num_states n r len : ℕ)
      → len ≡ state_len num_states
      → r + len * n ≤ length buf
      → Safe (All HasEvents) (parse_states pl readers buf num_states n r)
  unfolding parse_states
  parse_states-HasEvents buf num_states zero r len e h = tt
  parse_states-HasEvents buf num_states (suc n) r len e h =
      Safe-bind (All HasEvents) _ (slice buf r (r + state_len num_states)) _
        (slice-Safe buf r (r + state_len num_states) (omega arith) (omega (arith, mul-suc len n)))
        (λ b l.
          Safe-bind (All HasEvents) HasEvents (parse_state pl readers b num_states) _
            (parse_state-HasEvents b num_states (omega arith))
            (λ s k.
              Safe-bind (All HasEvents) (All HasEvents) (parse_states pl readers buf num_states n _)
                _
                (parse_states-HasEvents buf num_states n (r + state_len num_states) len e
                  (omega (arith, mul-suc len n)))
                (λ rest ks. (k, ks))))

  parse_v1-IsAccepted : (buf : Bytes) → Safe (IsAccepted pl) (parse_v1 pl readers buf)
  unfolding parse_v1 HasEvents
  parse_v1-IsAccepted buf = Safe-checked _ (ltb (length buf) (4 * 8 + 1 + 2)) _ _ (λ short.
      let l : 35 ≤ length buf = ltb_false→le (length buf) 35 short in
      and_then _ _ _ (read_at-Safe readers.read_u64 buf 0 8 8 enough.u64 refl (omega arith))
        (λ allowed_padding. f64_then _ buf 8 16 _ refl (omega arith) (λ padding_frac.
          and_then _ _ _ (read_at-Safe readers.read_u64 buf 16 24 8 enough.u64 refl (omega arith))
            (λ allowed_blocked. f64_then _ buf 24 32 _ refl (omega arith) (λ blocking_frac.
              and_then _ _ _
                (read_at-Safe readers.read_u16 buf 33 35 2 enough.u16 refl (omega arith))
                (λ n.
                  Safe-bind _ _ (slice buf 35 (length buf)) _
                    (slice-Safe buf 35 (length buf) l (omega arith))
                    (λ rest k. Safe-checked _ (not (length rest == state_len n * n)) _ _ (λ e.
                      let len : length rest ≡ state_len n * n = not_==→eq (length rest) _ e in
                      Safe-bind _ (All HasEvents) (parse_states pl readers buf n n 35) _
                        (parse_states-HasEvents buf n n 35 (state_len n) refl (omega arith))
                        (λ states a.
                          new-IsAccepted pl allowed_padding padding_frac allowed_blocked
                            blocking_frac states a)))))))))

  parse_version-IsAccepted : (buf : Bytes) → Safe (IsAccepted pl) (parse_version pl readers buf)
  parse_version-IsAccepted [] = tt
  parse_version-IsAccepted (low ∷ []) = tt
  parse_version-IsAccepted (low ∷ high ∷ payload) =
      Safe-if _ (low + 256 * high == 1) _ _ (parse_v1-IsAccepted payload) tt

  -- When byteorder reads a number from as many bytes as it has, `parse_v1_machine` of any text ends
  -- without a panic: every slice and index lies within its buffer. A machine that it returns passes
  -- validation and has an entry of transitions for each event.
  pub parse_v1_machine-IsAccepted :
      (s : Bytes) → Safe (IsAccepted pl) (parse_v1_machine pl readers s)
  unfolding parse_v1_machine
  parse_v1_machine-IsAccepted s = elim (Option-cases (readers.decode s)) [
    | inl e ↦ rw e tt
    | inr (c, e) ↦ rw e (elim (Option-cases (readers.inflate c)) [
      | inl e ↦ rw e tt
      | inr (buf, e) ↦ rw e (parse_version-IsAccepted buf)
    ])
  ]
