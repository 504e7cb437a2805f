-- ===== src/Machine/Stored.antt =====
-- Machines that are written to a text and read from one, crates/maybenot/src/machine.rs.
use maybenot_simv.Base.{
  ℕ, ◌≤◌, ◌<◌, true, false, List, [], ◌∷◌, ◌++◌, some, ◌≡◌, refl, arith, length, All, ltb, Option,
  Option-cases, Bool-cases, ap, ◌∙◌, ◌⊎◌, inl, inr, if◌then◌else◌, suc, zero, take,
}
use native.Mathlib.Decide.{dec_lt}
use maybenot_simv.Text.{Bytes, is_ascii, is_equal}
use maybenot_simv.Attempt.{Attempt, ok, err, Safe, checked, Safe-if}
use maybenot_simv.Platform.{Platform}
use maybenot_simv.Verdict.{Verdict, valid, invalid, Error, machine, version_mismatch}
use maybenot_simv.State.{State, event_num}
use maybenot_simv.Machine
use maybenot_simv.Machine.{Machine}
use maybenot_simv.Machine.Serial.{
  Formats, version, max_decompressed_size, two_digits, is_continuation, split_at, split_version,
  new, serialize, decode, decoded_from, from_str,
}

-- The arrays of transitions have the length of their type.
abbrev pub HasArrays : {F64 F32 : Type 0} → Machine F64 F32 → Type 0
HasArrays m = All (λ s. length s.transitions ≡ event_num) m.states

take_all : (b : Bytes) (k : ℕ) → length b ≤ k → take k b ≡ b
take_all [] zero h = refl
take_all [] (suc k) h = refl
take_all (x ∷ b) zero h = absurd (omega arith)
take_all (x ∷ b) (suc k) h = ap (λ t. x ∷ t) (take_all b k (omega arith))

-- What `std::io::Read::read` documents of a call that succeeds.
abbrev pub IsRead : Bytes → ℕ → Option Bytes → Type 0
IsRead b n r =
    (k : ℕ) × (r ≡ some (take k b)) × (k ≤ length b) × (k ≤ n) × (0 < length b → 0 < n → 0 < k)

-- What the other crates document.
pub record Decodes {F64 F32 : Type 0} (formats : Formats F64 F32) : Type 0 where
  pub base64 : (b : Bytes) → formats.base64_decode (formats.base64_encode b) ≡ some b
  pub base64_ascii : (b : Bytes) → is_ascii (formats.base64_encode b) ≡ true
  pub base64_longer : (b : Bytes) → length b ≤ length (formats.base64_encode b)
  pub zlib_header : (b : Bytes) → 0 < length (formats.compress b)
  -- A `read` gives the beginning of the text that was compressed, no more than the buffer holds, and
  -- nothing only where there is nothing to read or to hold it.
  pub zlib : (b : Bytes) (n : ℕ) → IsRead b n (formats.read (formats.compress b) n)
  pub limit :
      (n : ℕ) (m : Machine F64 F32) (b : Bytes) → formats.serialize n m ≡ some b → length b ≤ n
  pub bincode :
      (n : ℕ) (m : Machine F64 F32) (b : Bytes)
      → formats.serialize n m ≡ some b
      → formats.deserialize n b ≡ some m

-- The arrays that bincode reads have the length of their type.
abbrev pub ReadsArrays : {F64 F32 : Type 0} → Formats F64 F32 → Type 0
ReadsArrays {F64} {F32} formats =
    (n : ℕ) (b : Bytes) (m : Machine F64 F32) → formats.deserialize n b ≡ some m → HasArrays m

-- What a machine that the crate hands out is like.
abbrev pub IsAccepted : {F64 F32 Rng : Type 0} → Platform F64 F32 Rng → Machine F64 F32 → Type 0
IsAccepted pl m = (Machine.validate pl m ≡ valid) × HasArrays m

module _ {F64 F32 Rng : Type 0} (pl : Platform F64 F32 Rng) where
  pub checked-IsAccepted :
      (m : Machine F64 F32) (v : Verdict)
      → Machine.validate pl m ≡ v
      → HasArrays m
      → Safe (IsAccepted pl) (checked v (ok m))
  checked-IsAccepted m valid e a = (e, a)
  checked-IsAccepted m (invalid x) e a = tt

  pub new-IsAccepted :
      (n : ℕ) (p : F64) (b : ℕ) (q : F64) (states : List (State F64 F32))
      → All (λ s. length s.transitions ≡ event_num) states
      → Safe (IsAccepted pl) (new pl n p b q states)
  unfolding new
  new-IsAccepted n p b q states a = checked-IsAccepted _ (Machine.validate pl _) refl a

module _ {F64 F32 Rng : Type 0} (pl : Platform F64 F32 Rng) (formats : Formats F64 F32) where
  decode-IsAccepted : (s : Bytes) → ReadsArrays formats → Safe (IsAccepted pl) (decode pl formats s)
  unfolding decode
  decode-IsAccepted s a = elim (Option-cases (formats.base64_decode s)) [
    | inl e ↦ rw e tt
    | inr (c, e) ↦ rw e (elim (Option-cases (formats.read c max_decompressed_size)) [
      | inl e ↦ rw e tt
      | inr (b, e) ↦ rw e (elim (Option-cases (formats.deserialize max_decompressed_size b)) [
        | inl e ↦ rw e tt
        | inr (m, e) ↦ rw e (checked-IsAccepted pl m (Machine.validate pl m) refl (a _ b m e))
      ])
    ])
  ]

  -- Behind two ASCII bytes and before a third, the text is at the boundary of a character.
  split_version-ascii :
      (x y z : ℕ) (s : Bytes)
      → is_ascii (x ∷ y ∷ z ∷ s) ≡ true
      → split_version pl formats (x ∷ y ∷ z ∷ s) ≡ (
          if is_equal (x ∷ y ∷ []) (two_digits version)
          then decode pl formats (z ∷ s)
          else err (machine version_mismatch))
  unfolding split_version split_at
  split_version-ascii x y z s h =
      let c : is_continuation z ≡ false = ground arith in rw (c, split_version, split_at) refl

  -- `from_str` never panics, whatever the text holds: no slice is beyond its end or off the boundary
  -- of a character. A machine that it returns passes validation and has a transition entry for each
  -- event, when the machines that bincode reads have arrays of the length of their type.
  pub from_str-IsAccepted :
      (s : Bytes) → ReadsArrays formats → Safe (IsAccepted pl) (from_str pl formats s)
  unfolding from_str
  from_str-IsAccepted [] a = tt
  from_str-IsAccepted (x ∷ []) a = tt
  from_str-IsAccepted (x ∷ y ∷ []) a = tt
  from_str-IsAccepted (x ∷ y ∷ z ∷ s) a =
      let t = z ∷ s in
      Safe-if _ (ltb (length (x ∷ y ∷ t)) 3) _ _ tt (elim (Bool-cases (is_ascii (x ∷ y ∷ t))) [
        | inl e ↦
            rw (e, split_version-ascii x y z s e)
              (Safe-if _ (is_equal (x ∷ y ∷ []) (two_digits version)) _ _ (decode-IsAccepted t a)
                tt)
        | inr e ↦ rw e tt
      ])

  from_str-version :
      (t : Bytes)
      → 0 < length t
      → is_ascii t ≡ true
      → from_str pl formats (two_digits version ++ t) ≡ decode pl formats t
  unfolding from_str
  from_str-version [] l a = absurd (omega arith)
  from_str-version (x ∷ t) l a =
      let long : ltb (length (two_digits version ++ x ∷ t)) 3 ≡ false = ground arith in
      rw (long, a) (split_version-ascii b'0' b'2' x t a ∙ (unfold is_equal in refl))

  serialized :
      (m : Machine F64 F32) (s b : Bytes)
      → formats.serialize max_decompressed_size m ≡ some b
      → serialize formats m ≡ ok s
      → s ≡ two_digits version ++ formats.base64_encode (formats.compress b)
  unfolding serialize
  serialized m s b e h =
      let t = two_digits version ++ formats.base64_encode (formats.compress b) in
      let k : ◌≡◌ {A = Attempt Error Bytes} (ok t) (ok s) = (rw e at h) in cc

  -- The one `read` of the decoder gave no more than a beginning of the text that bincode wrote, and
  -- bincode decides on this beginning alone.
  pub record IsCutShort (m : Machine F64 F32) (s : Bytes) : Type 0 where
    pub encoded : Bytes
    pub serialized : formats.serialize max_decompressed_size m ≡ some encoded
    pub count : ℕ
    pub short : count < length encoded
    pub some_read : 0 < count
    pub read :
        formats.read (formats.compress encoded) max_decompressed_size ≡ some (take count encoded)
    pub decoded : from_str pl formats s ≡ decoded_from pl formats (take count encoded)

  -- When the other crates decode what they encode, and a machine that passes validation is
  -- serialized to a text, either `from_str` of this text is the machine, or the one `read` of the
  -- decoder that `from_str` makes gave fewer bytes than there are, but not none, and `from_str` is
  -- what bincode and validation make of these bytes.
  pub from_str-serialize :
      (m : Machine F64 F32) (s : Bytes)
      → Decodes formats
      → Machine.validate pl m ≡ valid
      → serialize formats m ≡ ok s
      → (from_str pl formats s ≡ ok m) ⊎ IsCutShort m s
  unfolding serialize decode
  from_str-serialize m s d v h = elim (Option-cases (formats.serialize max_decompressed_size m)) [
    | inl e ↦ cc
    | inr (b, e) ↦
        let t = formats.base64_encode (formats.compress b) in
        let (k, r, l, _, p) = d.zlib b max_decompressed_size in
        let header =
          ap (from_str pl formats) (serialized m s b e h)
          ∙ from_str-version t
              (omega (arith, d.zlib_header b, d.base64_longer (formats.compress b)))
              (d.base64_ascii (formats.compress b)) in
        let read : from_str pl formats s ≡ decoded_from pl formats (take k b) =
          header ∙ rw (d.base64 (formats.compress b), r) refl in
        elim (dec_lt k (length b)) [
          | yes short ↦ inr (record {
            encoded = b;
            serialized = e;
            count = k;
            short = short;
            some_read = p (omega arith) (omega arith);
            read = r;
            decoded = read;
          })
          | no whole ↦ inl (read ∙ rw (take_all b k (omega arith), d.bincode _ m b e, v) refl)
        ]
  ]
