-- ===== src/Text.antt =====
-- The operations of JavaScript's strings that the program uses, over the characters of a text.
pub mod Decimal
pub mod Prefix
pub use text.Mathlib.Text.{starts_with}
use Prim.Native.String.{[], ◌∷◌, ◌++◌}
use Prim.Native.String
use mathlib.Core.List
use lo_ra_dbase.Common.{
  ℕ, zero, suc, ◌+◌, Char, code, String, Bool, true, false, not, ◌&&◌, ◌||◌, Option, none, some,
  List, leb, ltb, ◌==◌, nat_eq, string_eq, if◌then◌else◌,
}

-- `[…]+` and `[…]*` of a regular expression, anchored at both ends
unfoldable pub all_chars : (ℕ → Bool) → String → Bool
all_chars p [] = true
all_chars p (c ∷ s) = p (code c) && all_chars p s

unfoldable pub some_chars : (ℕ → Bool) → String → Bool
unfolding all_chars
some_chars p s = not (s == "") && all_chars p s

abbrev pub is_digit : ℕ → Bool
is_digit c = leb b'0' c && leb c b'9'

abbrev pub is_letter : ℕ → Bool
is_letter c = leb b'a' c && leb c b'z' || leb b'A' c && leb c b'Z'

-- `\s`
abbrev pub is_space : ℕ → Bool
is_space c =
    leb 9 c && leb c 13
    || c == 32
    || c == 160
    || c == 0x1680
    || leb 0x2000 c && leb c 0x200a
    || c == 0x2028
    || c == 0x2029
    || c == 0x202f
    || c == 0x205f
    || c == 0x3000
    || c == 0xfeff

-- `s.length`: the UTF-16 code units
unfoldable pub length : String → ℕ
length [] = 0
length (c ∷ s) = (if ltb (code c) 0x10000 then 1 else 2) + length s

-- s.includes(…) of one character
unfoldable pub includes : ℕ → String → Bool
includes k [] = false
includes k (c ∷ s) = code c == k || includes k s

-- s.includes("..")
unfoldable pub includes_dots : String → Bool
includes_dots [] = false
includes_dots (c ∷ []) = false
includes_dots (c ∷ (d ∷ s)) = code c == b'.' && code d == b'.' || includes_dots (d ∷ s)

abbrev pub on_first : (String → String) → List String → List String
on_first f List.[] = List.[]
on_first f (List.◌∷◌ part parts) = List.◌∷◌ (f part) parts

-- s.split(…) at one character: always at least one part
unfoldable pub split : ℕ → String → List String
split k [] = List.◌∷◌ "" List.[]
split k (c ∷ s) =
    let parts = split k s in
    if code c == k then List.◌∷◌ "" parts else on_first (λ part. c ∷ part) parts

unfoldable pub trim_start : String → String
trim_start [] = []
trim_start (c ∷ s) = if is_space (code c) then trim_start s else c ∷ s

abbrev keep_unless_blank : Char → String → String
keep_unless_blank c [] = if is_space (code c) then [] else c ∷ []
keep_unless_blank c s = c ∷ s

unfoldable pub trim_end : String → String
trim_end [] = []
trim_end (c ∷ s) = keep_unless_blank c (trim_end s)

unfoldable pub trim : String → String
unfolding trim_start trim_end
trim s = trim_end (trim_start s)

-- (.*) of a regular expression that ends with `suffix` and `$`
unfoldable pub before_suffix : String → String → Option String
before_suffix suffix [] = if suffix == "" then some "" else none
before_suffix suffix (c ∷ s) =
    let rest = before_suffix suffix s in
    if suffix == c ∷ s then some "" else elim rest [ none ↦ none | some t ↦ some (c ∷ t) ]

unfoldable pub ends_with : String → String → Bool
unfolding before_suffix
ends_with suffix s = elim (before_suffix suffix s) [ none ↦ false | some _ ↦ true ]

-- s.slice(from, to), of characters
unfoldable pub slice : ℕ → ℕ → String → String
slice from to [] = []
slice zero zero (c ∷ s) = []
slice zero (suc to) (c ∷ s) = c ∷ slice zero to s
slice (suc from) zero (c ∷ s) = []
slice (suc from) (suc to) (c ∷ s) = slice from to s

-- what follows `prefix`: `s.startsWith(prefix)` and `s.slice(prefix.length)`
unfoldable pub after_prefix : String → String → Option String
after_prefix [] s = some s
after_prefix (c ∷ p) [] = none
after_prefix (c ∷ p) (d ∷ s) = if code c == code d then after_prefix p s else none

abbrev pub begins_with : String → String → Bool
begins_with prefix s = elim (after_prefix prefix s) [ none ↦ false | some _ ↦ true ]
