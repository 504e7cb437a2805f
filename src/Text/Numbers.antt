-- ===== src/Text/Numbers.antt =====
-- Numbers in decimal, lines and parts of lines: what they are printed and read as.
use maybenot_simv.Base.{
  ℕ, zero, suc, ◌+◌, ◌-◌, ◌*◌, ◌/◌, ◌%◌, ◌≤◌, ◌<◌, false, [], ◌∷◌, ◌++◌, Option, none, some, ◌≡◌,
  ◌≢◌, refl, ap, ◌∙◌, arith, All, All-append, All-map, ltb, ◌==◌, Bool-cases, inl, inr,
  if◌then◌else◌,
}
use mathlib.Core.List.{append_assoc, append-nil}
use maybenot_simv.Platform.{u64_max}
use maybenot_simv.Text.{
  Bytes, strip_return, lines_from, split, trim_start, trim_end, trim, parse_digits, parse_u64,
}

-- A number in decimal. The fuel is more than the number.
unfoldable pub show_from : ℕ → ℕ → Bytes
show_from zero n = []
show_from (suc fuel) n =
    if ltb n 10 then (b'0' + n) ∷ [] else show_from fuel (n / 10) ++ (b'0' + n % 10) ∷ []

abbrev pub show : ℕ → Bytes
show n = show_from (suc n) n

abbrev pub IsDigit : ℕ → Type 0
IsDigit c = (b'0' ≤ c) × (c ≤ b'9')

show_from-All : (fuel n : ℕ) → All IsDigit (show_from fuel n)
unfolding show_from
show_from-All zero n = tt
show_from-All (suc fuel) n = elim (Bool-cases (ltb n 10)) [
  | inl e ↦ rw e (ground arith, tt)
  | inr e ↦ rw e (
      All-append IsDigit (show_from fuel (n / 10)) ((b'0' + n % 10) ∷ [])
        (show_from-All fuel (n / 10)) (omega arith, tt))
]

abbrev step : ℕ → Option ℕ → Option ℕ
step c none = none
step c (some n) = parse_digits n (c ∷ [])

parse_digits-append :
    (s : Bytes) (n c : ℕ) → parse_digits n (s ++ c ∷ []) ≡ step c (parse_digits n s)
unfolding parse_digits
parse_digits-append [] n c = refl
parse_digits-append (d ∷ s) n c = ground (arith, parse_digits-append s (n * 10 + (d - b'0')) c)

parse_digits-show :
    (fuel n : ℕ) → n < fuel → n ≤ u64_max → parse_digits 0 (show_from fuel n) ≡ some n
unfolding show_from
parse_digits-show zero n h k = elim h [ ]
parse_digits-show (suc fuel) n h k = elim (Bool-cases (ltb n 10)) [
  | inl e ↦ rw e (unfold parse_digits in ground arith)
  | inr e ↦
      rw
        (
          e,
          parse_digits-append (show_from fuel (n / 10)) 0 (b'0' + n % 10),
          parse_digits-show fuel (n / 10) (ground arith) (omega arith),
        )
        (unfold parse_digits in ground arith)
]

snoc-ne-nil : (s : Bytes) (c : ℕ) → s ++ c ∷ [] ≢ []
snoc-ne-nil [] c e = cc
snoc-ne-nil (d ∷ s) c e = cc

show-ne-nil : (n : ℕ) → show n ≢ []
unfolding show_from
show-ne-nil n = elim (Bool-cases (ltb n 10)) [
  | inl e ↦ rw e (λ p. cc)
  | inr e ↦ rw e (snoc-ne-nil (show_from n (n / 10)) (b'0' + n % 10))
]

parse_u64-All : (s : Bytes) → All IsDigit s → s ≢ [] → parse_u64 s ≡ parse_digits 0 s
unfolding parse_u64
parse_u64-All [] d n = absurd (n refl)
parse_u64-All (c ∷ s) d n = let e : c == b'+' ≡ false = ground arith in rw e refl

pub parse_u64-show : (n : ℕ) → n ≤ u64_max → parse_u64 (show n) ≡ some n
parse_u64-show n k =
    parse_u64-All (show n) (show_from-All (suc n) n) (show-ne-nil n)
    ∙ parse_digits-show (suc n) n (omega arith) k

trim_start-All : (s : Bytes) → All IsDigit s → trim_start s ≡ s
unfolding trim_start
trim_start-All [] h = refl
trim_start-All (c ∷ s) h = ground arith

trim_end-All : (s : Bytes) → All IsDigit s → trim_end s ≡ s
unfolding trim_end
trim_end-All [] h = refl
trim_end-All (c ∷ []) h = ground arith
trim_end-All (c ∷ d ∷ s) h = rw (trim_end-All (d ∷ s) h.1) refl

-- No blanks stand around a number.
pub trim-show : (n : ℕ) → trim (show n) ≡ show n
trim-show n =
    let d = show_from-All (suc n) n in
    ap trim_end (trim_start-All (show n) d) ∙ trim_end-All (show n) d

-- A part that ends at the separator, or with the text.
pub split-append :
    (separator : ℕ) (s t : Bytes)
    → All (λ c. c ≢ separator) s
    → split separator (s ++ separator ∷ t) ≡ s ∷ split separator t
unfolding split
split-append separator [] t h = ground arith
split-append separator (c ∷ s) t h = ground (arith, split-append separator s t h.1)

pub split-All :
    (separator : ℕ) (s : Bytes) → All (λ c. c ≢ separator) s → split separator s ≡ s ∷ []
unfolding split
split-All separator [] h = refl
split-All separator (c ∷ s) h = ground (arith, split-All separator s h.1)

-- A line that ends at a newline.
pub lines_from-append :
    (s line t : Bytes)
    → All (λ c. c ≢ b'\n') s
    → lines_from line (s ++ b'\n' ∷ t) ≡ strip_return (line ++ s) ∷ lines_from [] t
unfolding lines_from
lines_from-append [] [] t h = refl
lines_from-append [] (b ∷ line) t h = rw append-nil
lines_from-append (c ∷ s) [] t h =
    let e : c == b'\n' ≡ false = ground arith in
    rw (e, lines_from) (lines_from-append s (c ∷ []) t h.1)
lines_from-append (c ∷ s) (b ∷ line) t h =
    let e : c == b'\n' ≡ false = ground arith in
    rw (e, lines_from) (lines_from-append s ((b ∷ line) ++ c ∷ []) t h.1 ∙ rw append_assoc)

pub strip_return-append : (s : Bytes) (c : ℕ) → c ≢ b'\r' → strip_return (s ++ c ∷ []) ≡ s ++ c ∷ []
unfolding strip_return
strip_return-append [] c h = ground arith
strip_return-append (b ∷ []) c h = ground arith
strip_return-append (b ∷ d ∷ s) c h = ap (◌∷◌ b) (strip_return-append (d ∷ s) c h)

-- No character of a number is one that is not a digit.
pub show-All-ne : (n c : ℕ) → c < b'0' → All (λ d. d ≢ c) (show n)
show-All-ne n c h = All-map (show n) (λ d k. omega arith) (show_from-All (suc n) n)
