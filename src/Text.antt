-- ===== src/Text.antt =====
-- What the program uses of the standard library on texts: lists of bytes, or of code points where
-- the program reads characters.
pub mod Numbers
use maybenot_simv.Base.{
  ℕ, ◌+◌, ◌-◌, ◌*◌, Bool, true, false, ◌&&◌, ◌||◌, List, [], ◌∷◌, ◌++◌, Option, none, some, ltb,
  leb, ◌==◌, all, is_empty, if◌then◌else◌,
}
use maybenot_simv.Platform.{u64_max}

abbrev pub Bytes : Type 0
Bytes = List ℕ

-- `str::is_ascii`
abbrev pub is_ascii : Bytes → Bool
is_ascii = all (λ b. ltb b 128)

-- The line without the carriage return that stands before its newline.
unfoldable pub strip_return : Bytes → Bytes
strip_return [] = []
strip_return (b ∷ []) = if b == b'\r' then [] else b ∷ []
strip_return (b ∷ c ∷ rest) = b ∷ strip_return (c ∷ rest)

-- `str::lines`, behind the part of a line that is read already.
unfoldable pub lines_from : Bytes → Bytes → List Bytes
lines_from [] [] = []
lines_from (b ∷ line) [] = (b ∷ line) ∷ []
lines_from line (b ∷ rest) = elim (b == b'\n') [
  | true ↦ strip_return line ∷ lines_from [] rest
  | false ↦ lines_from (line ++ b ∷ []) rest
]

abbrev pub lines : Bytes → List Bytes
lines = lines_from []

-- `split` at one character
abbrev prepend : ℕ → List Bytes → List Bytes
prepend c [] = (c ∷ []) ∷ []
prepend c (part ∷ parts) = (c ∷ part) ∷ parts

unfoldable pub split : ℕ → Bytes → List Bytes
split separator [] = [] ∷ []
split separator (c ∷ s) =
    if c == separator then [] ∷ split separator s else prepend c (split separator s)

-- `char::is_whitespace`
abbrev pub is_whitespace : ℕ → Bool
is_whitespace c =
    (leb 9 c && leb c 13)
    || (c == 0x20
        || (c == 0x85
            || (c == 0xA0
                || (c == 0x1680
                    || ((leb 0x2000 c && leb c 0x200A)
                        || (c == 0x2028
                            || (c == 0x2029 || (c == 0x202F || (c == 0x205F || c == 0x3000)))))))))

unfoldable pub trim_start : Bytes → Bytes
trim_start [] = []
trim_start (c ∷ s) = if is_whitespace c then trim_start s else c ∷ s

abbrev pub keep_unless : Bool → ℕ → Bytes → Bytes
keep_unless blank c [] = if blank then [] else c ∷ []
keep_unless blank c (d ∷ s) = c ∷ d ∷ s

unfoldable pub trim_end : Bytes → Bytes
trim_end [] = []
trim_end (c ∷ s) = keep_unless (is_whitespace c) c (trim_end s)

abbrev pub trim : Bytes → Bytes
trim s = trim_end (trim_start s)

abbrev is_digit : ℕ → Bool
is_digit c = leb b'0' c && leb c b'9'

-- The digits that are left, behind those that make up `n`; `none` on overflow of `u64`.
unfoldable pub parse_digits : ℕ → Bytes → Option ℕ
parse_digits n [] = some n
parse_digits n (c ∷ s) =
    let rest = parse_digits (n * 10 + (c - b'0')) s in
    if is_digit c && leb (n * 10 + (c - b'0')) u64_max then rest else none

abbrev parse_some : Bytes → Option ℕ
parse_some [] = none
parse_some (c ∷ s) = parse_digits 0 (c ∷ s)

-- `str::parse::<u64>`, which takes a leading plus sign
unfoldable pub parse_u64 : Bytes → Option ℕ
parse_u64 [] = none
parse_u64 (c ∷ s) = if c == b'+' then parse_some s else parse_some (c ∷ s)

unfoldable pub is_equal : Bytes → Bytes → Bool
is_equal [] [] = true
is_equal [] (b ∷ t) = false
is_equal (a ∷ s) [] = false
is_equal (a ∷ s) (b ∷ t) = a == b && is_equal s t
