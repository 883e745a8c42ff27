-- ===== src/Frontend/Query.antt =====
-- LoRaDB-UI/frontend/src/utils/queryBuilder.ts: the text of a query and the checks on its parts. `time` is
-- the time of a date, `none` where it is not valid.
pub mod Matching
pub mod Splitting
pub mod RoundTrip
mod Tests
use lo_ra_dbase.Common.{
  ℕ, zero, suc, ◌+◌, ◌-◌, ◌*◌, ◌/◌, ◌%◌, ◌≤◌, ◌<◌, Char, code, String, ◌≡◌, refl, sym, ap, ◌∙◌, ◌≢◌,
  ◌↔◌, ◌⊎◌, inl, inr, Bool, true, false, not, ◌&&◌, ◌||◌, Option, none, some, List, [], ◌∷◌, ◌++◌,
  map, arith, eq_iff, ltb, leb, nat_beq, nat_beq_iff, Eq, ◌==◌, nat_eq, string_eq, if◌then◌else◌,
  Bool-cases, Option-cases, false_of_not_true, beq_refl, ne_of_beq, beq_of_ne, length,
  length-append, All, All-append, All-concat, All-map, All-image, All-zip, All-every, Distinct,
  Distinct-concat,
}
use lo_ra_dbase.Text.Decimal.{decimal}
use lo_ra_dbase.Json.{Json, Items, nil, cons, arr, num, get, is_truthy}
use lo_ra_dbase.Http.{given?, text_of}
use lo_ra_dbase.Servers.{is_some}
use Prim.Native.String.{[], ◌∷◌, ◌++◌ as append}
use lo_ra_dbase.Text
use lo_ra_dbase.Text.{is_space}

pub data FrameType : Type 0 where
  all uplink join decoded_payload custom : FrameType

pub data TimeRangeType : Type 0 where
  last since between no_range : TimeRangeType

pub data TimeUnit : Type 0 where
  ms s m h d w : TimeUnit

pub record QueryConfig : Type 0 where
  pub dev_eui : String
  pub frame_type : FrameType
  pub time_range_type : TimeRangeType
  pub last_duration : Option String
  pub last_unit : Option TimeUnit
  pub since_date : Option String
  pub start_date : Option String
  pub end_date : Option String
  pub custom_fields : Option (List String)

abbrev pub frame_text : FrameType → String
frame_text all = "all"
frame_text uplink = "uplink"
frame_text join = "join"
frame_text decoded_payload = "decoded_payload"
frame_text custom = "custom"

abbrev unit_text : TimeUnit → String
unit_text ms = "ms"
unit_text s = "s"
unit_text m = "m"
unit_text h = "h"
unit_text d = "d"
unit_text w = "w"

-- fields.join(', ')
unfoldable pub join_fields : List String → String
join_fields List.[] = ""
join_fields (List.◌∷◌ f List.[]) = f
join_fields (List.◌∷◌ f (List.◌∷◌ g fields)) =
    append f (append ", " (join_fields (List.◌∷◌ g fields)))

-- what stands between SELECT and FROM
abbrev pub frame_clause : FrameType → String
frame_clause all = "*"
frame_clause decoded_payload = "uplink"
frame_clause t = frame_text t

unfoldable pub select_clause : QueryConfig → String
unfolding join_fields
select_clause config = elim config.custom_fields [
  | none ↦ frame_clause config.frame_type
  | some List.[] ↦ frame_clause config.frame_type
  | some (List.◌∷◌ f fields) ↦ join_fields (List.◌∷◌ f fields)
]

abbrev quoted : String → String
quoted t = append "'" (append t "'")

abbrev time_text : Option String → Option TimeUnit → String
time_text duration none = ""
time_text duration (some u) = append (text_of duration) (unit_text u)

-- the WHERE clause with the blank before it, empty where there is none
unfoldable pub where_clause : QueryConfig → String
where_clause config = elim config.time_range_type [
  | last ↦
      if given? config.last_duration && is_some config.last_unit
      then append " WHERE LAST " (quoted (time_text config.last_duration config.last_unit))
      else ""
  | since ↦
      if given? config.since_date
      then append " WHERE SINCE " (quoted (text_of config.since_date))
      else ""
  | between ↦
      if given? config.start_date && given? config.end_date
      then append " WHERE BETWEEN " (
          append (quoted (text_of config.start_date))
            (append " AND " (quoted (text_of config.end_date))))
      else ""
  | no_range ↦ ""
]

unfoldable pub build_query : QueryConfig → String
unfolding select_clause where_clause
build_query config = append "SELECT " (
    append (select_clause config)
      (append " FROM device " (append (quoted config.dev_eui) (where_clause config))))

abbrev is_hex_letter : ℕ → Bool
is_hex_letter c = leb b'a' c && leb c b'f' || leb b'A' c && leb c b'F'

-- some digit of the number that the text begins with is not 0
unfoldable pub positive_digits : (ℕ → Bool) → String → Bool
positive_digits digit [] = false
positive_digits digit (c ∷ t) =
    let rest = positive_digits digit t in
    if digit (code c) then not (code c == b'0') || rest else false

abbrev positive_number : String → Bool
positive_number (c ∷ (x ∷ t)) =
    if code c == b'0' && (code x == b'x' || code x == b'X')
    then positive_digits (λ k. Text.is_digit k || is_hex_letter k) t
    else positive_digits Text.is_digit (c ∷ (x ∷ t))
positive_number t = positive_digits Text.is_digit t

abbrev unsigned : String → Bool
unsigned [] = false
unsigned (c ∷ t) = if code c == b'+' then positive_number t else positive_number (c ∷ t)

-- parseInt(text) is a number above 0
unfoldable pub is_positive : String → Bool
unfolding positive_digits
is_positive t = unsigned (Text.trim_start t)

module _ (time : String → Option ℕ) where
  -- new Date(start) >= new Date(end), which is false where one is not valid
  abbrev not_before : String → String → Bool
  not_before start end = elim (time start) [
    | none ↦ false
    | some a ↦ elim (time end) [ none ↦ false | some b ↦ leb b a ]
  ]

  -- the message of what is wrong, `none` where nothing is
  unfoldable pub validate_query_config : QueryConfig → Option String
  validate_query_config config =
      if config.dev_eui == "" || Text.trim config.dev_eui == ""
      then some "Device EUI is required"
      else elim config.time_range_type [
        | last ↦
            if not (given? config.last_duration && is_some config.last_unit)
            then some "Duration and unit are required for LAST time filter"
            else if not (is_positive (text_of config.last_duration))
            then some "Duration must be a positive number"
            else none
        | since ↦
            if not (given? config.since_date)
            then some "Start date is required for SINCE time filter"
            else none
        | between ↦
            if not (given? config.start_date && given? config.end_date)
            then some "Start and end dates are required for BETWEEN time filter"
            else if not_before (text_of config.start_date) (text_of config.end_date)
            then some "Start date must be before end date"
            else none
        | no_range ↦ none
      ]
