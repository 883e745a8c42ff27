-- ===== src/Frontend/Select.antt =====
-- LoRaDB-UI/frontend/src/utils/queryParser.ts: the fields that the SELECT clause of a query names, and the
-- value at a path. The regular expression is a matcher by recursion; its `i` flag compares ASCII letters.
use lo_ra_dbase.Common.{
  ℕ, suc, ◌+◌, ◌-◌, code, String, Bool, true, false, not, ◌&&◌, ◌||◌, Option, none, some, List, [],
  ◌∷◌, leb, ◌==◌, nat_eq, string_eq, if◌then◌else◌,
}
use lo_ra_dbase.Text.Decimal.{decimal}
use lo_ra_dbase.Json.{Json, Items, nil, cons, arr, num, get, is_truthy}
use lo_ra_dbase.Servers.{is_some}
use Prim.Native.String.{[], ◌∷◌}
use lo_ra_dbase.Text
use lo_ra_dbase.Text.{is_space}

-- ASCII letters in upper case
abbrev pub upper : ℕ → ℕ
upper c = if leb b'a' c && leb c b'z' then c - 32 else c

-- toLowerCase, as far as its results are ASCII letters: U+212A is the Kelvin sign
abbrev pub lower : ℕ → ℕ
lower c = if leb b'A' c && leb c b'Z' then c + 32 else if c == 0x212a then b'k' else c

-- what follows a word in any case
unfoldable pub after_word : String → String → Option String
after_word [] t = some t
after_word (c ∷ word) [] = none
after_word (c ∷ word) (k ∷ t) =
    let rest = after_word word t in if upper (code k) == code c then rest else none

-- \s+FROM
unfoldable pub then_from : String → Bool
unfolding after_word
then_from [] = false
then_from (c ∷ t) = is_space (code c) && is_some (after_word "FROM" (Text.trim_start t))

-- what `.` does not match
abbrev pub is_newline : ℕ → Bool
is_newline c = c == 10 || c == 13 || c == 0x2028 || c == 0x2029

-- (.+?)\s+FROM: the shortest text before FROM
unfoldable pub lazy : String → Option String
unfolding then_from
lazy [] = none
lazy (c ∷ t) =
    let rest = lazy t in
    if is_newline (code c)
    then none
    else if then_from t
    then some (c ∷ [])
    else elim rest [ none ↦ none | some r ↦ some (c ∷ r) ]

-- \s+(.+?)\s+FROM, with as many blanks first as leave a match
unfoldable pub after_blanks : String → Option String
unfolding lazy
after_blanks [] = none
after_blanks (c ∷ t) =
    let more = after_blanks t in
    if is_space (code c) then elim more [ none ↦ lazy t | some r ↦ some r ] else none

abbrev pub at_select : String → Option String
at_select t = elim (after_word "SELECT" t) [ none ↦ none | some rest ↦ after_blanks rest ]

-- /SELECT\s+(.+?)\s+FROM/i, at the first place where it matches
unfoldable pub find_select : String → Option String
unfolding after_blanks
find_select [] = none
find_select (c ∷ t) =
    let later = find_select t in elim (at_select (c ∷ t)) [ none ↦ later | some r ↦ some r ]

-- the lower case of a text is a word
unfoldable pub is_lower : String → String → Bool
is_lower [] [] = true
is_lower [] (k ∷ t) = false
is_lower (c ∷ word) [] = false
is_lower (c ∷ word) (k ∷ t) = lower (code k) == code c && is_lower word t

abbrev pub is_frame_type : String → Bool
is_frame_type t =
    is_lower "uplink" t
    || is_lower "downlink" t
    || is_lower "join" t
    || is_lower "decoded_payload" t

unfoldable pub trim_all : List String → List String
trim_all List.[] = List.[]
trim_all (List.◌∷◌ f fields) = List.◌∷◌ (Text.trim f) (trim_all fields)

unfoldable pub non_empty : List String → List String
non_empty List.[] = List.[]
non_empty (List.◌∷◌ f fields) =
    let rest = non_empty fields in if f == "" then rest else List.◌∷◌ f rest

abbrev pub or_none : List String → Option (List String)
or_none List.[] = none
or_none fields = some fields

unfoldable pub fields_of : String → Option (List String)
unfolding is_lower trim_all non_empty
fields_of clause =
    if clause == "*"
    then some (List.◌∷◌ "*" List.[])
    else if is_frame_type clause
    then some (List.◌∷◌ clause List.[])
    else or_none (non_empty (trim_all (Text.split b',' clause)))

unfoldable pub parse_select_fields : String → Option (List String)
unfolding find_select fields_of
parse_select_fields query =
    if query == ""
    then none
    else elim (find_select query) [ none ↦ none | some clause ↦ fields_of (Text.trim clause) ]

-- the property of an array: its length, or an item at an index
unfoldable pub item_at : String → ℕ → Items → Option Json
item_at key n nil = if key == "length" then some (num n) else none
item_at key n (cons v items) =
    let later = item_at key (suc n) items in if key == decimal n then some v else later

abbrev property : Json → String → Option Json
property (arr items) key = item_at key 0 items
property v key = get key v

abbrev step_into : Option Json → String → Option Json
step_into none key = none
step_into (some v) key = property v key

unfoldable pub walk : List String → Option Json → Option Json
unfolding item_at
walk List.[] v = v
walk (List.◌∷◌ key keys) v = walk keys (step_into v key)

-- the value at a path of an object; the characters of a text are no properties here
unfoldable pub get_nested_value : Json → String → Option Json
unfolding walk
get_nested_value v path =
    if not (is_truthy v) || path == "" then none else walk (Text.split b'.' path) (some v)
