-- ===== src/Machine/Serial.antt =====
-- `new`, `serialize`, `name` and `from_str` of crates/maybenot/src/machine.rs. Base64, zlib, bincode
-- and sha256 are those of other crates, and parameters.
use maybenot_simv.Base.{
  ℕ, zero, suc, ◌+◌, ◌/◌, ◌%◌, ◌^◌, Bool, not, ◌&&◌, List, [], ◌∷◌, ◌++◌, Option, none, some,
  length, ltb, leb, if◌then◌else◌,
}
use maybenot_simv.Text.{Bytes, is_ascii, is_equal}
use maybenot_simv.Attempt.{Attempt, ok, err, panic, ◌>>=◌, checked}
use maybenot_simv.Outcome.{unwrap_none, index_out_of_bounds, no_char_boundary}
use maybenot_simv.Platform.{Platform}
use maybenot_simv.Verdict.{
  Error, machine, Reason, string_too_short, not_ascii, version_mismatch, bad_base64, bad_zlib,
  bad_bincode,
}
use maybenot_simv.State.{State}
use maybenot_simv.Machine.{Machine, validate}

-- `VERSION` and `MAX_DECOMPRESSED_SIZE`
abbrev pub version : ℕ
version = 2

abbrev pub max_decompressed_size : ℕ
max_decompressed_size = 2 ^ 20

pub record Formats (F64 F32 : Type 0) : Type 0 where
  pub base64_encode : Bytes → Bytes
  pub base64_decode : Bytes → Option Bytes
  -- `ZlibEncoder` with the best compression, from `write_all` to `finish`
  pub compress : Bytes → Bytes
  -- one `read` of a `ZlibDecoder` into a buffer of so many bytes: the bytes that it reads, which may
  -- be fewer than there are
  pub read : Bytes → ℕ → Option Bytes
  -- bincode with a limit on the size
  pub serialize : ℕ → Machine F64 F32 → Option Bytes
  pub deserialize : ℕ → Bytes → Option (Machine F64 F32)
  pub digest : Bytes → Bytes

-- `format!("{:02}", …)` of a number of at most two digits
abbrev pub two_digits : ℕ → Bytes
two_digits n = (b'0' + n / 10) ∷ (b'0' + n % 10) ∷ []

abbrev pub require {ℓ} : {A : Type ℓ} → Option A → Reason → Attempt Error A
require none r = err (machine r)
require (some a) r = ok a

abbrev pub expect {ℓ} : {A : Type ℓ} → Option A → Attempt Error A
expect none = panic unwrap_none
expect (some a) = ok a

-- In UTF-8, a byte that goes on with a character that began before it.
abbrev pub is_continuation : ℕ → Bool
is_continuation b = leb 128 b && ltb b 192

-- `&s[0..n]` and `&s[n..]`: a panic beyond the end of the text, and off the boundary of a character.
unfoldable pub split_at : ℕ → Bytes → Attempt Error (Bytes × Bytes)
split_at zero [] = ok ([], [])
split_at zero (b ∷ s) = if is_continuation b then panic no_char_boundary else ok ([], b ∷ s)
split_at (suc n) [] = panic index_out_of_bounds
split_at (suc n) (b ∷ s) = do parts ← split_at n s; ok (b ∷ parts.0, parts.1)

module _ {F64 F32 Rng : Type 0} (pl : Platform F64 F32 Rng) where
  unfoldable pub new : ℕ → F64 → ℕ → F64 → List (State F64 F32) → Attempt Error (Machine F64 F32)
  new allowed_padding_packets max_padding_frac allowed_blocked_microsec max_blocking_frac states =
      let m : Machine F64 F32 = record {
        allowed_padding_packets = allowed_padding_packets;
        max_padding_frac = max_padding_frac;
        allowed_blocked_microsec = allowed_blocked_microsec;
        max_blocking_frac = max_blocking_frac;
        states = states;
      } in
      checked (validate pl m) (ok m)

module _ {F64 F32 : Type 0} (formats : Formats F64 F32) where
  unfoldable pub serialize : Machine F64 F32 → Attempt Error Bytes
  serialize m = do
    encoded ← expect (formats.serialize max_decompressed_size m)
    ok (two_digits version ++ formats.base64_encode (formats.compress encoded))

  unfoldable pub name : Machine F64 F32 → Attempt Error Bytes
  unfolding serialize
  name m = do s ← serialize m; parts ← split_at 32 (formats.digest s); ok parts.0

module _ {F64 F32 Rng : Type 0} (pl : Platform F64 F32 Rng) (formats : Formats F64 F32) where
  -- From what was decompressed on.
  abbrev pub decoded_from : Bytes → Attempt Error (Machine F64 F32)
  decoded_from buf = do
    m ← require (formats.deserialize max_decompressed_size buf) bad_bincode
    checked (validate pl m) (ok m)

  -- From the base64 on, behind the version.
  unfoldable pub decode : Bytes → Attempt Error (Machine F64 F32)
  decode s = do
    compressed ← require (formats.base64_decode s) bad_base64
    buf ← require (formats.read compressed max_decompressed_size) bad_zlib
    decoded_from buf

  -- The two slices of the text: the version, and what stands behind it.
  unfoldable pub split_version : Bytes → Attempt Error (Machine F64 F32)
  split_version s = do
    parts ← split_at 2 s
    (if is_equal parts.0 (two_digits version)
        then decode parts.1
        else err (machine version_mismatch))

  unfoldable pub from_str : Bytes → Attempt Error (Machine F64 F32)
  from_str s =
      if ltb (length s) 3
      then err (machine string_too_short)
      else if not (is_ascii s)
      then err (machine not_ascii)
      else split_version s
