-- ===== src/Text.antt =====
-- The parts of JavaScript's String and BigInt that packages/shared/fspiop/component/fspiop-money.ts
-- calls: a text is the list of its UTF-16 code units.
pub mod Digits
pub mod Trim
use pivotal.Base.{
  ℕ, zero, suc, ◌+◌, ◌-◌, ◌*◌, ◌/◌, ◌%◌, ◌≡◌, refl, Bool, true, false, ◌&&◌, ◌||◌, List, [], ◌∷◌,
  ◌++◌, ltb, leb, ◌==◌, if◌then◌else◌, length, replicate, String,
}
use Prim.Native.Char.{code}

abbrev pub Text : Type 0
Text = List ℕ

-- The code units of an ASCII literal.
abbrev pub codes : String → Text
codes String.[] = []
codes (String.◌∷◌ c s) = code c ∷ codes s

-- `\d`
abbrev pub is_digit : ℕ → Bool
is_digit c = leb b'0' c && leb c b'9'

-- WhiteSpace and LineTerminator of ECMAScript, which `trim` takes off.
abbrev pub is_space : ℕ → Bool
is_space c =
    (leb 9 c && leb c 13)
    || c == 32
    || c == 0xa0
    || c == 0x1680
    || (leb 0x2000 c && leb c 0x200a)
    || c == 0x2028
    || c == 0x2029
    || c == 0x202f
    || c == 0x205f
    || c == 0x3000
    || c == 0xfeff

unfoldable pub trim_start : Text → Text
trim_start [] = []
trim_start (c ∷ s) = let rest = trim_start s in if is_space c then rest else c ∷ s

-- Whether every unit is white space.
pub is_blank : Text → Bool
is_blank [] = true
is_blank (c ∷ s) = is_space c && is_blank s

pub trim_end : Text → Text
unfolding is_blank
trim_end [] = []
trim_end (c ∷ s) = let rest = trim_end s in if is_space c && is_blank s then [] else c ∷ rest

unfoldable pub trim : Text → Text
unfolding trim_start trim_end
trim s = trim_end (trim_start s)

-- `.replace(/0+$/, '')`
pub only_zeros : Text → Bool
only_zeros [] = true
only_zeros (c ∷ s) = c == b'0' && only_zeros s

unfoldable pub strip_zeros : Text → Text
unfolding only_zeros
strip_zeros [] = []
strip_zeros (c ∷ s) = let rest = strip_zeros s in if only_zeros (c ∷ s) then [] else c ∷ rest

-- `BigInt(text)` of a text of digits, and its reading from left to right.
unfoldable pub value_from : ℕ → Text → ℕ
value_from acc [] = acc
value_from acc (c ∷ s) = value_from (acc * 10 + (c - b'0')) s

unfoldable pub value : Text → ℕ
unfolding value_from
value s = value_from 0 s

-- `amount.toString()` of a non-negative bigint: decimal digits, no leading zero. The fuel `n` is
-- enough, since each round divides by ten.
pub digits_of : ℕ → ℕ → Text
digits_of zero n = (b'0' + n % 10) ∷ []
digits_of (suc f) n =
    let rest = digits_of f (n / 10) in
    if ltb n 10 then (b'0' + n) ∷ [] else rest ++ (b'0' + n % 10) ∷ []

unfoldable pub to_string : ℕ → Text
unfolding digits_of
to_string n = digits_of n n

-- `padStart(width, '0')` and `padEnd(width, '0')`
abbrev pub pad_start : Text → ℕ → Text
pad_start s width = replicate (width - length s) b'0' ++ s

abbrev pub pad_end : Text → ℕ → Text
pad_end s width = s ++ replicate (width - length s) b'0'

-- `trim` of a native text.
pub trim_string_start : String → String
trim_string_start String.[] = String.[]
trim_string_start (String.◌∷◌ c s) =
    let rest = trim_string_start s in if is_space (code c) then rest else String.◌∷◌ c s

pub is_blank_string : String → Bool
is_blank_string String.[] = true
is_blank_string (String.◌∷◌ c s) = is_space (code c) && is_blank_string s

pub trim_string_end : String → String
trim_string_end String.[] = String.[]
trim_string_end (String.◌∷◌ c s) =
    let rest = trim_string_end s in
    if is_space (code c) && is_blank_string s then String.[] else String.◌∷◌ c rest

unfoldable pub trim_string : String → String
unfolding trim_string_start is_blank_string trim_string_end
trim_string s = trim_string_end (trim_string_start s)
