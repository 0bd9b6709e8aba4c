-- ===== src/Base/Text.antt =====
-- Strings: `toLowerCase` and `toUpperCase` on ASCII letters, which all addresses and symbols are, and
-- template literals.
use Prim.Native.Nat.{ℕ, zero, suc, ◌+◌, ◌-◌, ◌*◌, ◌/◌, ◌%◌, ◌<◌, compare, Ordering}
use Prim.Native.Char.{Char, char, code, IsScalar}
use Prim.Native.String
use Prim.Native.String.{String}
use mathlib.Core.Path.{◌≡◌}
use mathlib.Core.Bool.{Bool, true, false, ◌||◌, ◌&&◌}
use mathlib.Core.Option.{Option, none, some}
use native.Mathlib.Omega.{arith}
use native.Mathlib.Decide.{dec_lt}
use text.Mathlib.Text.{starts_with as starts_with?}
use tapioca_money.Base.Tests.{ltb, leb, nat_eq, or_else, if◌then◌else◌}

compare-eq-lt : (n m : ℕ) → n < m → compare n m ≡ Ordering.lt
compare-eq-lt n m h = ground arith

pub IsScalar-of_lt : (n : ℕ) → n < 55296 → IsScalar n
IsScalar-of_lt n h = rw (compare-eq-lt n 55296 h) tt

lower_char : Char → Char
unfolding dec_lt
lower_char c = elim (dec_lt 64 (code c)) [
  | no _ ↦ c
  | yes _ ↦ elim (dec_lt (code c) 91) [
    | no _ ↦ c
    | yes h ↦ char (code c + 32) (IsScalar-of_lt (code c + 32) (omega arith))
  ]
]

upper_char : Char → Char
unfolding dec_lt
upper_char c = elim (dec_lt 96 (code c)) [
  | no _ ↦ c
  | yes _ ↦ elim (dec_lt (code c) 123) [
    | no _ ↦ c
    | yes h ↦ char (code c - 32) (IsScalar-of_lt (code c - 32) (omega arith))
  ]
]

unfoldable pub to_lower : String → String
unfolding lower_char
to_lower String.[] = String.[]
to_lower (String.◌∷◌ c s) = String.◌∷◌ (lower_char c) (to_lower s)

unfoldable pub to_upper : String → String
unfolding upper_char
to_upper String.[] = String.[]
to_upper (String.◌∷◌ c s) = String.◌∷◌ (upper_char c) (to_upper s)

-- `${a}${b}`
infixl 66 ◌+++◌
unfoldable pub ◌+++◌ : String → String → String
a +++ b = String.◌++◌ a b

-- `s.startsWith(p)`
abbrev pub starts_with : String → String → Bool
starts_with s p = starts_with? s p

-- `s.includes(t)`
unfoldable pub includes : String → String → Bool
includes String.[] t = starts_with? String.[] t
includes (String.◌∷◌ c s) t = starts_with? (String.◌∷◌ c s) t || includes s t

-- `!s`, for a string
abbrev pub is_empty : String → Bool
is_empty String.[] = true
is_empty (String.◌∷◌ _ _) = false

IsScalar-digit : (n : ℕ) → IsScalar (48 + n % 10)
IsScalar-digit n = IsScalar-of_lt (48 + n % 10) (omega arith)

digit : ℕ → Char
digit n = char (48 + n % 10) (IsScalar-digit n)

-- the decimal digits of `n` before `rest`; there are no more of them than `n + 1`
show_digits : ℕ → ℕ → String → String
show_digits zero n rest = rest
show_digits (suc fuel) n rest =
    let shown = String.◌∷◌ (digit n) rest in
    let more = show_digits fuel (n / 10) shown in if ltb n 10 then shown else more

-- `String(n)`
unfoldable pub to_string : ℕ → String
unfolding show_digits digit IsScalar-digit
to_string n = show_digits (n + 1) n String.[]

-- `s.split(":")[0]`
unfoldable pub before_colon : String → String
before_colon String.[] = String.[]
before_colon (String.◌∷◌ c s) =
    let rest = before_colon s in if nat_eq (code c) b':' then String.[] else String.◌∷◌ c rest

parse_from : Option ℕ → String → Option ℕ
parse_from read String.[] = read
parse_from read (String.◌∷◌ c s) =
    let more = parse_from (some (or_else read 0 * 10 + (code c - 48))) s in
    if leb b'0' (code c) && leb (code c) b'9' then more else read

-- `parseInt(s, 10)` of a text without sign or leading blanks; `none` is NaN
unfoldable pub parse_int : String → Option ℕ
unfolding parse_from
parse_int s = parse_from none s

-- the code points that `trim` takes off
abbrev is_blank : Char → Bool
is_blank c =
    leb 9 (code c) && leb (code c) 13
    || nat_eq (code c) 32
    || nat_eq (code c) 160
    || nat_eq (code c) 5760
    || leb 8192 (code c) && leb (code c) 8202
    || nat_eq (code c) 8232
    || nat_eq (code c) 8233
    || nat_eq (code c) 8239
    || nat_eq (code c) 8287
    || nat_eq (code c) 12288
    || nat_eq (code c) 65279

unfoldable pub trim_start : String → String
trim_start String.[] = String.[]
trim_start (String.◌∷◌ c s) = let rest = trim_start s in if is_blank c then rest else String.◌∷◌ c s

unfoldable pub trim_end : String → String
trim_end String.[] = String.[]
trim_end (String.◌∷◌ c s) =
    let rest = trim_end s in if is_blank c && is_empty rest then String.[] else String.◌∷◌ c rest

-- `s.trim()`
abbrev pub trim : String → String
trim s = trim_end (trim_start s)

-- `s.slice(0, n)`, of characters that are one UTF-16 unit each
unfoldable pub slice_to : ℕ → String → String
slice_to zero s = String.[]
slice_to (suc n) String.[] = String.[]
slice_to (suc n) (String.◌∷◌ c s) = String.◌∷◌ c (slice_to n s)
