-- ===== src/Ffi/Calls.antt =====
-- crates/maybenot-ffi/src/ffi.rs and `on_events` of lib.rs. A pointer is `none` when it is null, and
-- else what it points to. What the caller of an unsafe function promises is a panic where it breaks.
use maybenot_simv.Base.{
  ℕ, Bool, List, ◌++◌, Option, none, some, length, take, drop, leb, if◌then◌else◌,
}
use maybenot_simv.Outcome.{Outcome, ok, panic, broken_promise, ◌>>=◌}
use maybenot_simv.Attempt.{Attempt}
use maybenot_simv.Text.{Bytes}
use maybenot_simv.Platform.{Platform}
use maybenot_simv.Machine.Serial.{Formats}
use maybenot_simv.Framework.Events.{trigger_events}
use maybenot_simv.Ffi.{
  MaybenotResult, MaybenotEvent, MaybenotFramework, Slots, convert_events, write_actions, start,
}

-- What `p` points to, where it must point to something.
abbrev pub deref {ℓ} : {A : Type ℓ} → Option A → Outcome A
deref none = panic broken_promise
deref (some a) = ok a

-- `slice::from_raw_parts`
unfoldable pub from_raw_parts {ℓ} : {A : Type ℓ} → List A → ℕ → Outcome (List A)
from_raw_parts memory n = if leb n (length memory) then ok (take n memory) else panic broken_promise

module _ {F64 F32 Rng : Type 0} where
  abbrev pub num_machines : MaybenotFramework F64 F32 Rng → ℕ
  num_machines this = length this.framework.machines

  unfoldable pub maybenot_num_machines : Option (MaybenotFramework F64 F32 Rng) → ℕ
  maybenot_num_machines none = 0
  maybenot_num_machines (some this) = num_machines this

  -- The framework is freed: the pointer that is left is the caller's no more.
  unfoldable pub maybenot_stop :
      Option (MaybenotFramework F64 F32 Rng) → Outcome (Option (MaybenotFramework F64 F32 Rng))
  maybenot_stop none = panic broken_promise
  maybenot_stop (some this) = ok none

module _ {F64 F32 Rng : Type 0} (pl : Platform F64 F32 Rng) where
  unfoldable pub on_events :
      MaybenotFramework F64 F32 Rng
      → List MaybenotEvent
      → Slots
      → ℕ
      → Outcome ((ℕ × Slots) × MaybenotFramework F64 F32 Rng)
  on_events this events actions now = do
    let buf = convert_events events
    (triggered, framework) ← trigger_events pl this.framework buf now
    ok (write_actions triggered actions, record { framework = framework; events_buf = buf })

  -- The memory that a call of `maybenot_on_events` can write.
  pub record Memory : Type 0 where
    pub this : Option (MaybenotFramework F64 F32 Rng)
    pub actions_out : Option Slots
    pub num_actions_out : Option ℕ

  abbrev pub write_events :
      MaybenotFramework F64 F32 Rng
      → Slots
      → List MaybenotEvent
      → ℕ
      → Outcome (MaybenotResult × Memory)
  write_events this out events now = do
    actions ← from_raw_parts out (num_machines this)
    ((num_actions, written), this') ← on_events this events actions now
    ok (
      MaybenotResult.ok,
      record {
        this = some this';
        actions_out = some (written ++ drop (num_machines this) out);
        num_actions_out = some num_actions;
      },
    )

  -- The answer when a pointer is null.
  unfoldable pub on_pointers :
      ℕ
      → ℕ
      → Memory
      → Option (MaybenotFramework F64 F32 Rng)
      → Option (List MaybenotEvent)
      → Option Slots
      → Option ℕ
      → Outcome (MaybenotResult × Memory)
  on_pointers num_events now memory (some this) (some events) (some out) (some num) = do
    slice ← from_raw_parts events num_events
    write_events this out slice now
  on_pointers num_events now memory _ _ _ _ = ok (MaybenotResult.null_pointer, memory)

  unfoldable pub maybenot_on_events :
      Memory → Option (List MaybenotEvent) → ℕ → ℕ → Outcome (MaybenotResult × Memory)
  unfolding on_pointers
  maybenot_on_events memory events num_events now =
      on_pointers num_events now memory memory.this events memory.actions_out memory.num_actions_out

-- What `start` comes to, and what it writes to `out`.
abbrev pub finish_start {ℓ} :
    {Fw : Type ℓ} → Attempt MaybenotResult Fw → Outcome (MaybenotResult × Option Fw)
finish_start (Attempt.ok framework) = ok (MaybenotResult.ok, some framework)
finish_start (Attempt.err e) = ok (e, none)
finish_start (Attempt.panic b) = panic b
finish_start Attempt.out_of_fuel = Outcome.out_of_fuel

module _ {F64 F32 Rng : Type 0} (pl : Platform F64 F32 Rng) (formats : Formats F64 F32)
    (is_utf8 : Bytes → Bool) where
  -- `out_is_null` stands for the pointer `out`; the second result is what is written to it.
  unfoldable pub maybenot_start :
      Option Bytes
      → F64
      → F64
      → Bool
      → ℕ
      → Rng
      → Outcome (MaybenotResult × Option (MaybenotFramework F64 F32 Rng))
  maybenot_start machines_str max_padding_frac max_blocking_frac out_is_null now rng =
      if out_is_null then ok (MaybenotResult.null_pointer, none) else (do
        text ← deref machines_str
        if is_utf8 text
            then finish_start (start pl formats text max_padding_frac max_blocking_frac now rng)
            else ok (MaybenotResult.machine_string_not_utf8, none))
