-- ===== src/Tests/Formats.antt =====
-- The theorems on the texts and the interface of machines at concrete formats.
use maybenot_simv.Base.{
  ℕ, zero, suc, ◌+◌, ◌*◌, ◌≤◌, Bool, true, false, ◌&&◌, List, [], ◌∷◌, ◌++◌, Option, none, some,
  ◌≡◌, ◌⊎◌, refl, ap, subst, ◌∙◌, arith, length, leb, min, take, replicate, if◌then◌else◌,
}
use maybenot_simv.Outcome
use maybenot_simv.Outcome.{Returns}
use maybenot_simv.Text.{Bytes, is_ascii}
use maybenot_simv.Attempt.{ok, Safe}
use maybenot_simv.Verdict.{valid}
use maybenot_simv.Action.{Action, Counter}
use maybenot_simv.State
use maybenot_simv.State.{State, Trans, state_end}
use maybenot_simv.Machine
use maybenot_simv.Machine.{Machine}
use maybenot_simv.Machine.Serial
use maybenot_simv.Machine.Serial.{Formats, serialize, from_str, max_decompressed_size, two_digits}
use maybenot_simv.Machine.Stored.{
  Decodes, ReadsArrays, HasArrays, IsAccepted, IsRead, IsCutShort, from_str-serialize,
  from_str-IsAccepted,
}
use maybenot_simv.Parsing.{
  Readers, slice, flag, read_at, buf_to_dist_type, parse_dist, parse_action, parse_cell, parse_row,
  parse_rows, parse_state, parse_states, parse_v1, parse_v1_machine,
}
use maybenot_simv.Parsing.Bounds.{ReadsEnough, parse_v1_machine-IsAccepted}
use maybenot_simv.Ffi.{MaybenotEvent, MaybenotEventType}
use maybenot_simv.Ffi.Calls.{Memory, maybenot_start, maybenot_on_events}
use maybenot_simv.Ffi.Started.{HasStarted, maybenot_start-HasStarted}
use maybenot_simv.Ffi.Answers.{IsAnswer, maybenot_on_events-IsAnswer}
use maybenot_simv.Tests.Machines.{
  platform, platform-Laws, padding_machine, framework, framework-IsRunning,
}

-- A byte is as many ones, and a zero.
unary : Bytes → Bytes
unary [] = []
unary (zero ∷ s) = 0 ∷ unary s
unary (suc n ∷ s) = 1 ∷ unary (n ∷ s)

after : ℕ → Option Bytes → Option Bytes
after n none = none
after n (some t) = some (n ∷ t)

of_unary : ℕ → Bytes → Option Bytes
unfolding after
of_unary n [] = some []
of_unary n (zero ∷ s) = after n (of_unary 0 s)
of_unary n (suc b ∷ s) = of_unary (suc n) s

of_unary-cons :
    (k n : ℕ) (s : Bytes)
    → of_unary 0 (unary s) ≡ some s
    → of_unary k (unary (n ∷ s)) ≡ some ((k + n) ∷ s)
unfolding of_unary unary
of_unary-cons k zero s h = rw h (ap (λ m. some (m ∷ s)) (omega arith))
of_unary-cons k (suc n) s h = of_unary-cons (suc k) n s h ∙ ap (λ m. some (m ∷ s)) (omega arith)

of_unary-unary : (s : Bytes) → of_unary 0 (unary s) ≡ some s
of_unary-unary [] = unfold of_unary unary in refl
of_unary-unary (n ∷ s) =
    of_unary-cons 0 n s (of_unary-unary s) ∙ ap (λ m. some (m ∷ s)) (omega arith)

unary-is_ascii : (s : Bytes) → is_ascii (unary s) ≡ true
unfolding unary
unary-is_ascii [] = refl
unary-is_ascii (zero ∷ s) = unary-is_ascii s
unary-is_ascii (suc n ∷ s) = unary-is_ascii (n ∷ s)

length-unary : (s : Bytes) → length s ≤ length (unary s)
unfolding unary
length-unary [] = omega arith
length-unary (zero ∷ s) = omega (arith, length-unary s)
length-unary (suc n ∷ s) = omega (arith, length-unary (n ∷ s))

-- Machines with one state that does nothing are four numbers.
plain : ℕ → ℕ → ℕ → ℕ → Machine ℕ ℕ
plain a p b q = record {
  allowed_padding_packets = a;
  max_padding_frac = p;
  allowed_blocked_microsec = b;
  max_blocking_frac = q;
  states = record { action = none; counter = (none, none); transitions = [] } ∷ [];
}

is_plain_state :
    Option (Action ℕ)
    → Option (Counter ℕ)
    → Option (Counter ℕ)
    → List (Option (List (Trans ℕ)))
    → Bool
is_plain_state none none none [] = true
is_plain_state _ _ _ _ = false

is_plain : List (State ℕ ℕ) → Bool
unfolding is_plain_state
is_plain (s ∷ []) = is_plain_state s.action s.counter.0 s.counter.1 s.transitions
is_plain _ = false

is_plain-eq :
    (ss : List (State ℕ ℕ))
    → is_plain ss ≡ true
    → ss ≡ record { action = none; counter = (none, none); transitions = [] } ∷ []
unfolding is_plain is_plain_state
is_plain-eq [] h = cc
is_plain-eq (s ∷ []) h = ground arith
is_plain-eq (s ∷ t ∷ ss) h = cc

write_plain : ℕ → Machine ℕ ℕ → Option Bytes
write_plain n m =
    if is_plain m.states && leb 4 n
    then some (
        m.allowed_padding_packets ∷ m.max_padding_frac ∷ m.allowed_blocked_microsec
        ∷ m.max_blocking_frac ∷ [])
    else none

read_plain : ℕ → Bytes → Option (Machine ℕ ℕ)
unfolding plain
read_plain n (a ∷ p ∷ b ∷ q ∷ []) = some (plain a p b q)
read_plain n _ = none

read_plain-write_plain :
    (n : ℕ) (m : Machine ℕ ℕ) (b : Bytes) → write_plain n m ≡ some b → read_plain n b ≡ some m
unfolding write_plain read_plain
read_plain-write_plain n m b h = ground (arith, is_plain-eq m.states)

length-write_plain : (n : ℕ) (m : Machine ℕ ℕ) (b : Bytes) → write_plain n m ≡ some b → length b ≤ n
unfolding write_plain
length-write_plain n m b h = ground arith

-- The header of a compressed text is one byte.
inflate : Bytes → ℕ → Option Bytes
inflate [] n = none
inflate (header ∷ s) n = some (take (min n (length s)) s)

inflate_lem : (s : Bytes) (n : ℕ) → IsRead s n (inflate (0 ∷ s) n)
unfolding inflate
inflate_lem s n = (min n (length s), refl, omega arith, omega arith, λ h k. ground arith)

abbrev formats : Formats ℕ ℕ
formats = record {
  base64_encode = unary;
  base64_decode = of_unary 0;
  compress = λ s. 0 ∷ s;
  read = inflate;
  serialize = write_plain;
  deserialize = read_plain;
  digest = λ s. s;
}

formats-Decodes : Decodes formats
formats-Decodes = record {
  base64 = of_unary-unary;
  base64_ascii = unary-is_ascii;
  base64_longer = length-unary;
  zlib_header = λ b. omega arith;
  zlib = inflate_lem;
  limit = length-write_plain;
  bincode = read_plain-write_plain;
}

plain_valid : Machine.validate platform (plain 3 0 7 1) ≡ valid
unfolding plain Machine.validate Machine.validate_states State.validate State.validate_all
plain_valid = refl

abbrev plain_bytes : Bytes
plain_bytes = two_digits 2 ++ unary (0 ∷ 3 ∷ 0 ∷ 7 ∷ 1 ∷ [])

plain_text : serialize formats (plain 3 0 7 1) ≡ ok plain_bytes
unfolding serialize write_plain plain is_plain
plain_text = refl

from_str-serialize_example :
    (from_str platform formats plain_bytes ≡ ok (plain 3 0 7 1))
    ⊎ IsCutShort platform formats (plain 3 0 7 1) plain_bytes
from_str-serialize_example =
    from_str-serialize platform formats (plain 3 0 7 1) _ formats-Decodes plain_valid plain_text

-- Formats that read one machine from every text.
abbrev constant : Formats ℕ ℕ
constant = record formats { deserialize = λ n b. some padding_machine }

constant-ReadsArrays : ReadsArrays constant
constant-ReadsArrays n b m e = let k : padding_machine ≡ m = cc in subst HasArrays k ((refl, tt))

abbrev machine_text : Bytes
machine_text = b'0' ∷ b'2' ∷ 1 ∷ 0 ∷ []

from_str-IsAccepted_example : Safe (IsAccepted platform) (from_str platform constant machine_text)
from_str-IsAccepted_example =
    from_str-IsAccepted platform constant machine_text constant-ReadsArrays

maybenot_start-HasStarted_example :
    Returns
      (HasStarted platform)
      (maybenot_start platform constant is_ascii (some machine_text) 1 1 false 5 0)
maybenot_start-HasStarted_example =
    maybenot_start-HasStarted platform platform-Laws constant is_ascii machine_text 1 1 false 5 0
      constant-ReadsArrays

abbrev memory : Memory platform
memory = record {
  this = some (record { framework = framework; events_buf = [] });
  actions_out = some (none ∷ []);
  num_actions_out = some 0;
}

abbrev sent_event : MaybenotEvent
sent_event = record { event_type = MaybenotEventType.normal_sent; machine = 0 }

maybenot_on_events-IsAnswer_example :
    Returns
      (IsAnswer platform 1 5 memory memory.this
        (some (sent_event ∷ []))
        memory.actions_out
        memory.num_actions_out)
      (maybenot_on_events platform memory (some (sent_event ∷ [])) 1 5)
maybenot_on_events-IsAnswer_example =
    maybenot_on_events-IsAnswer platform platform-Laws memory (some (sent_event ∷ [])) 1 5
      (framework-IsRunning, omega arith, omega arith)

-- Little endian.
little : Bytes → ℕ
little [] = 0
little (b ∷ s) = b + 256 * little s

abbrev readers : Readers ℕ ℕ
readers = record {
  decode = some;
  inflate = some;
  read_u16 = λ b. Outcome.ok (little b);
  read_u64 = λ b. Outcome.ok (little b);
  read_f64 = λ b. Outcome.ok (little b);
  as_f32 = λ v. v;
}

readers-ReadsEnough : ReadsEnough readers
readers-ReadsEnough = record { u16 = λ b h. tt; u64 = λ b h. tt; f64 = λ b h. tt }

-- The version, the limits, one state that goes from its start to its end on the first event.
abbrev v1_text : Bytes
v1_text =
    1 ∷ 0 ∷ replicate 33 0 ++ 1 ∷ 0 ∷ replicate (3 * 34 + 4 + 16) 0 ++ 1 ∷ replicate (7 + 8 * 21) 0

v1_machine :
    parse_v1_machine platform readers v1_text
    ≡ ok (record {
      allowed_padding_packets = 0;
      max_padding_frac = 0;
      allowed_blocked_microsec = 0;
      max_blocking_frac = 0;
      states =
          record {
            action = none;
            counter = (none, none);
            transitions =
                some (record { state = state_end; probability = 1 } ∷ []) ∷ replicate 12 none;
          }
          ∷ [];
    })
unfolding little parse_v1_machine parse_v1 parse_states parse_state parse_rows parse_row parse_cell
    parse_action parse_dist buf_to_dist_type read_at slice flag Serial.new State.new State.fill
    Machine.validate Machine.validate_states State.validate State.validate_all State.validate_trans
    State.contains
v1_machine = refl

parse_v1_machine-IsAccepted_example :
    Safe (IsAccepted platform) (parse_v1_machine platform readers v1_text)
parse_v1_machine-IsAccepted_example =
    parse_v1_machine-IsAccepted platform readers readers-ReadsEnough v1_text
