-- ===== src/Parsing.antt =====
-- crates/maybenot/src/parsing.rs: the parser of machines in the first version of their format. Hex,
-- zlib, the reads of byteorder and the cast to `f32` are parameters.
pub mod Bounds
use maybenot_simv.Base.{
  ℕ, zero, suc, ◌+◌, ◌*◌, ◌-◌, Bool, true, false, not, ◌&&◌, List, [], ◌∷◌, ◌++◌, Option, none,
  some, length, take, drop, ltb, leb, ◌==◌, compare, Ordering, get_elem?, if◌then◌else◌,
}
use maybenot_simv.Text.{Bytes}
use maybenot_simv.Outcome.{Outcome, index_out_of_bounds}
use maybenot_simv.Attempt.{Attempt, ok, err, panic, ◌>>=◌, lift, checked}
use maybenot_simv.Platform.{Platform, zero64}
use maybenot_simv.Verdict.{
  Error, machine, refuse_if, bad_hex, bad_zlib, no_version, unsupported_version, short_machine,
  wrong_length, too_small, missing_duration, invalid_state,
}
use maybenot_simv.Event.{Event, to_usize}
use maybenot_simv.Dist.{Dist, DistType}
use maybenot_simv.Action.{Action}
use maybenot_simv.State
use maybenot_simv.State.{State, Trans, state_end}
use maybenot_simv.Machine.{Machine}
use maybenot_simv.Machine.Serial
use maybenot_simv.Machine.Serial.{require}

-- What the parser calls of other crates, and `v as f32`.
pub record Readers (F64 F32 : Type 0) : Type 0 where
  pub decode : Bytes → Option Bytes
  pub inflate : Bytes → Option Bytes
  pub read_u16 : Bytes → Outcome ℕ
  pub read_u64 : Bytes → Outcome ℕ
  pub read_f64 : Bytes → Outcome F64
  pub as_f32 : F64 → F32

-- `SERIALIZED_DIST_SIZE`
abbrev pub dist_size : ℕ
dist_size = 2 + 8 * 4

abbrev pub v1_events_iter : List Event
v1_events_iter =
    Event.normal_recv ∷ Event.padding_recv ∷ Event.normal_sent ∷ Event.padding_sent
    ∷ Event.blocking_begin ∷ Event.blocking_end ∷ Event.limit_reached ∷ []

-- 3 distributions, 4 flags and the matrix of next states
abbrev pub state_len : ℕ → ℕ
state_len num_states = 3 * dist_size + 4 + (num_states + 2) * 8 * (length v1_events_iter + 1)

-- `&buf[from..to]`
unfoldable pub slice : Bytes → ℕ → ℕ → Attempt Error Bytes
slice buf from to =
    if leb from to && leb to (length buf)
    then ok (take (to - from) (drop from buf))
    else panic index_out_of_bounds

-- `buf[r] == 1`
unfoldable pub flag : Bytes → ℕ → Attempt Error Bool
flag buf r = elim (get_elem? buf r) [ none ↦ panic index_out_of_bounds | some b ↦ ok (b == 1) ]

-- The state that the column `i` of the matrix is about.
abbrev pub column : ℕ → ℕ → Attempt Error ℕ
column num_states i = elim (compare i num_states) [
  | Ordering.lt ↦ ok i
  | Ordering.eq ↦ err (machine invalid_state)
  | Ordering.gt ↦ ok state_end
]

-- `transitions[*event].push(…)`
abbrev pub push_at {ℓ} : {A : Type ℓ} → Event → A → (Event → List A) → Event → List A
push_at event a t e = if to_usize e == to_usize event then t e ++ a ∷ [] else t e

module _ {F64 F32 Rng : Type 0} (pl : Platform F64 F32 Rng) (readers : Readers F64 F32) where
  unfoldable pub buf_to_dist_type : ℕ → F64 → F64 → Option (DistType F64)
  buf_to_dist_type buf param1 param2 =
      if buf == 1
      then some (DistType.uniform param1 param2)
      else if buf == 2
      then some (DistType.normal param1 param2)
      else if buf == 3
      then some (DistType.log_normal param1 param2)
      else if buf == 4
      then some (DistType.binomial (pl.to_u64 param1) param2)
      else if buf == 5
      then some (DistType.geometric (zero64 pl))
      else if buf == 6
      then some (DistType.pareto param1 param2)
      else if buf == 7
      then some (DistType.poisson (zero64 pl))
      else if buf == 8
      then some (DistType.weibull param1 param2)
      else if buf == 9
      then some (DistType.gamma param1 param2)
      else if buf == 10
      then some (DistType.beta param1 param2)
      else none

  -- `LittleEndian::read_…(&buf[r..r + n])`
  unfoldable pub read_at {ℓ} : {A : Type ℓ} → (Bytes → Outcome A) → Bytes → ℕ → ℕ → Attempt Error A
  read_at read buf from to = do bytes ← slice buf from to; lift (read bytes)

  abbrev pub dist_of : Option (DistType F64) → F64 → F64 → Option (Dist F64)
  dist_of none start max = none
  dist_of (some dist) start max = some (record { dist = dist; start = start; max = max })

  unfoldable pub parse_dist : Bytes → Attempt Error (Option (Dist F64))
  parse_dist buf = checked (refuse_if (ltb (length buf) dist_size) too_small) (do
    type_buf ← read_at readers.read_u16 buf 0 2
    param1 ← read_at readers.read_f64 buf 2 10
    param2 ← read_at readers.read_f64 buf 10 18
    start ← read_at readers.read_f64 buf 18 26
    max ← read_at readers.read_f64 buf 26 34
    ok (dist_of (buf_to_dist_type type_buf param1 param2) start max))

  abbrev pub parse_dist_at : Bytes → ℕ → Attempt Error (Option (Dist F64))
  parse_dist_at buf r = do bytes ← slice buf r (r + dist_size); parse_dist bytes

  -- The action of a state: timeout, is it blocking, bypass, replace, duration, limit.
  unfoldable pub parse_action :
      Option (Dist F64)
      → Bool
      → Bool
      → Bool
      → Option (Dist F64)
      → Option (Dist F64)
      → Attempt Error (Option (Action F64))
  parse_action none is_block bypass replace duration limit = ok none
  parse_action (some timeout) true bypass replace none limit = err (machine missing_duration)
  parse_action (some timeout) true bypass replace (some duration) limit =
      ok (some (Action.block_outgoing bypass replace timeout duration limit))
  parse_action (some timeout) false bypass replace duration limit =
      ok (some (Action.send_padding bypass replace timeout limit))

  abbrev pub Transitions : Type 0
  Transitions = Event → List (Trans F32)

  -- One cell of the matrix.
  unfoldable pub parse_cell : ℕ → Event → ℕ → F64 → Transitions → Attempt Error Transitions
  parse_cell num_states event i v t = if pl.eq v (zero64 pl) then ok t else (do
    state ← column num_states i
    ok (push_at event (record { state = state; probability = readers.as_f32 v }) t))

  -- `for i in i..i + n { … }`, at the offset `r`
  unfoldable pub parse_row : Bytes → ℕ → Event → ℕ → ℕ → ℕ → Transitions → Attempt Error Transitions
  parse_row buf num_states event zero i r t = ok t
  parse_row buf num_states event (suc n) i r t = do
    v ← read_at readers.read_f64 buf r (r + 8)
    t' ← parse_cell num_states event i v t
    parse_row buf num_states event n (suc i) (r + 8) t'

  -- `for event in v1_events_iter() { … }`
  unfoldable pub parse_rows : Bytes → ℕ → List Event → ℕ → Transitions → Attempt Error Transitions
  parse_rows buf num_states [] r t = ok t
  parse_rows buf num_states (event ∷ events) r t = do
    t' ← parse_row buf num_states event (num_states + 2) 0 r t
    parse_rows buf num_states events (r + (num_states + 2) * 8) t'

  unfoldable pub parse_state : Bytes → ℕ → Attempt Error (State F64 F32)
  parse_state buf num_states =
      checked (refuse_if (ltb (length buf) (state_len num_states)) too_small) (do
        duration ← parse_dist_at buf 0
        limit ← parse_dist_at buf dist_size
        timeout ← parse_dist_at buf (2 * dist_size)
        action_is_block ← flag buf (3 * dist_size)
        bypass ← flag buf (3 * dist_size + 1)
        replace ← flag buf (3 * dist_size + 2)
        action ← parse_action timeout action_is_block bypass replace duration limit
        transitions ← parse_rows buf num_states v1_events_iter (3 * dist_size + 4) (λ e. [])
        ok (record (State.new transitions) { action = action }))

  -- `for _ in 0..n { … }`, at the offset `r`
  unfoldable pub parse_states : Bytes → ℕ → ℕ → ℕ → Attempt Error (List (State F64 F32))
  parse_states buf num_states zero r = ok []
  parse_states buf num_states (suc n) r = do
    bytes ← slice buf r (r + state_len num_states)
    s ← parse_state bytes num_states
    rest ← parse_states buf num_states n (r + state_len num_states)
    ok (s ∷ rest)

  unfoldable pub parse_v1 : Bytes → Attempt Error (Machine F64 F32)
  parse_v1 buf = checked (refuse_if (ltb (length buf) (4 * 8 + 1 + 2)) short_machine) (do
    allowed_padding_packets ← read_at readers.read_u64 buf 0 8
    max_padding_frac ← read_at readers.read_f64 buf 8 16
    allowed_blocked_microsec ← read_at readers.read_u64 buf 16 24
    max_blocking_frac ← read_at readers.read_f64 buf 24 32
    num_states ← read_at readers.read_u16 buf 33 35
    rest ← slice buf 35 (length buf)
    checked (refuse_if (not (length rest == state_len num_states * num_states)) wrong_length) (do
      states ← parse_states buf num_states num_states 35
      Serial.new pl allowed_padding_packets max_padding_frac allowed_blocked_microsec
          max_blocking_frac states))

  -- The version is `u16::from_le_bytes` of the first two bytes.
  abbrev pub parse_version : Bytes → Attempt Error (Machine F64 F32)
  parse_version (low ∷ high ∷ payload) =
      if low + 256 * high == 1 then parse_v1 payload else err (machine unsupported_version)
  parse_version _ = err (machine no_version)

  unfoldable pub parse_v1_machine : Bytes → Attempt Error (Machine F64 F32)
  parse_v1_machine s = do
    compressed ← require (readers.decode s) bad_hex
    buf ← require (readers.inflate compressed) bad_zlib
    parse_version buf
