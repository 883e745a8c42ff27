-- ===== src/Frontend/WidgetData.antt =====
-- LoRaDB-UI/frontend/src/utils/widgetDataProcessor.ts: what a widget shows of the frames of a device. `N` are
-- JavaScript's numbers without NaN, and `Js` what the source uses of them: `number` is `Number(value)`,
-- `none` where that is NaN, `show` is `String(value)`, and `time` the time of a date, which the server
-- writes and which is valid. A frame is a JSON object.
pub mod Latest
pub mod Points
pub mod FirstStatus
mod Tests
use lo_ra_dbase.Common.{
  ℕ, zero, suc, ◌+◌, ◌-◌, ◌*◌, ◌/◌, ◌%◌, ◌≤◌, ◌<◌, Char, code, String, ◌≡◌, refl, sym, ap, ◌∙◌, ◌≢◌,
  ◌↔◌, ◌⊎◌, inl, inr, Bool, true, false, not, ◌&&◌, ◌||◌, Option, none, some, List, [], ◌∷◌, ◌++◌,
  map, arith, eq_iff, ltb, leb, nat_beq, nat_beq_iff, Eq, ◌==◌, nat_eq, string_eq, if◌then◌else◌,
  Bool-cases, Option-cases, false_of_not_true, beq_refl, ne_of_beq, beq_of_ne, length,
  length-append, All, All-append, All-concat, All-map, All-image, All-zip, All-every, Distinct,
  Distinct-concat,
}
use lo_ra_dbase.Json.{Json, get, is_truthy?, null, str, is_truthy}
use lo_ra_dbase.Frontend.Select.{get_nested_value}
use lo_ra_dbase.Table.Sort.{order_by}

pub record Js (N : Type 0) : Type 0 where
  pub less : N → N → Bool
  pub at_most : N → N → Bool
  pub same : N → N → Bool
  pub number : Json → Option N
  pub show : Json → String
  pub time : String → ℕ
  pub to_fahrenheit : N → N
  pub to_kelvin : N → N

pub data StatusLevel : Type 0 where
  success warning error info : StatusLevel

pub data ConditionOperator : Type 0 where
  lt lte gt gte eq between : ConditionOperator

pub data StatusCondition (N : Type 0) : Type 0 where
  numeric :
      (status : StatusLevel) (label : String) (operator : ConditionOperator)
      (value min max : Option N)
      → StatusCondition N
  textual :
      (status : StatusLevel) (label : String) (operator : ConditionOperator) (value : String)
      → StatusCondition N

pub record Status : Type 0 where
  pub level : StatusLevel
  pub label : String

abbrev pub unknown : Status
unknown = record { level = info; label = "Unknown" }

abbrev pub status_of : {N : Type 0} → StatusCondition N → Status
status_of (numeric status label operator value min max) = record { level = status; label = label }
status_of (textual status label operator value) = record { level = status; label = label }

unfoldable pub get_status_color : StatusLevel → String
get_status_color success = "#10b981"
get_status_color warning = "#f59e0b"
get_status_color error = "#ef4444"
get_status_color info = "#3b82f6"

pub data ConvertTo : Type 0 where
  fahrenheit kelvin : ConvertTo

pub record ConversionSettings : Type 0 where
  pub enabled : Bool
  pub convert_to : Option ConvertTo

pub data ValueType : Type 0 where
  as_number as_string : ValueType

-- types/widgets.ts: MeasurementDefinition, as far as it is read here
pub record MeasurementDefinition (N : Type 0) : Type 0 where
  pub path : String
  pub unit : String
  pub decimals : ℕ
  pub value_type : Option ValueType
  pub conditions : Option (List (StatusCondition N))

pub record TimeSeriesDataPoint (N : Type 0) : Type 0 where
  pub timestamp : String
  pub value : N

pub record NumericWidgetData (N : Type 0) : Type 0 where
  pub widget_id : String
  pub current_value : N
  pub timestamp : String
  pub time_series : List (TimeSeriesDataPoint N)
  pub status : Status
  pub unit : String
  pub decimals : ℕ

pub record StringWidgetData : Type 0 where
  pub widget_id : String
  pub current_value : String
  pub timestamp : Option Json
  pub status : Status

pub data WidgetData (N : Type 0) : Type 0 where
  numbers : NumericWidgetData N → WidgetData N
  strings : StringWidgetData → WidgetData N
  no_uplinks : (widget_id : String) → WidgetData N
  no_data : (widget_id path : String) → WidgetData N

-- `f.Uplink`, or the frame itself where it has a `dev_eui`
unfoldable pub uplink_of : Json → Option Json
uplink_of f = elim (get "Uplink" f) [
  | none ↦ if is_truthy? (get "dev_eui" f) then some f else none
  | some uplink ↦
      if is_truthy uplink
      then some uplink
      else if is_truthy? (get "dev_eui" f)
      then some f
      else none
]

unfoldable pub uplink_frames : List Json → List Json
unfolding uplink_of
uplink_frames [] = []
uplink_frames (f ∷ frames) =
    let rest = uplink_frames frames in
    elim (uplink_of f) [ none ↦ rest | some uplink ↦ uplink ∷ rest ]

abbrev pub converts : Option ConversionSettings → Option ConvertTo
converts none = none
converts (some c) = if c.enabled then c.convert_to else none

-- '°C' as a text of two characters
abbrev pub celsius : String
celsius = "°C"

unfoldable pub get_converted_unit : String → Option ConversionSettings → String
get_converted_unit unit conversion = elim (converts conversion) [
  | none ↦ unit
  | some fahrenheit ↦ if unit == celsius then "°F" else unit
  | some kelvin ↦ if unit == celsius then "K" else unit
]

module _ {N : Type 0} (js : Js N) where
  unfoldable pub convert_temperature : N → Option ConversionSettings → N
  convert_temperature value conversion = elim (converts conversion) [
    | none ↦ value
    | some fahrenheit ↦ js.to_fahrenheit value
    | some kelvin ↦ js.to_kelvin value
  ]

  abbrev convert_bound : Option N → Option ConversionSettings → Option N
  convert_bound none conversion = none
  convert_bound (some n) conversion = some (convert_temperature n conversion)

  unfoldable pub get_converted_y_axis_range :
      Option N → Option N → Option ConversionSettings → Option N × Option N
  unfolding convert_temperature
  get_converted_y_axis_range min max conversion =
      (convert_bound min conversion, convert_bound max conversion)

  -- a value at a path that is there: neither undefined nor null
  unfoldable pub value_at : Json → String → Option Json
  value_at frame path = elim (get_nested_value frame path) [
    | none ↦ none
    | some null ↦ none
    | some v ↦ some v
  ]

  abbrev pub compares : (N → N → Bool) → N → Option N → Bool
  compares test value none = false
  compares test value (some bound) = test value bound

  unfoldable pub check_numeric_condition : N → StatusCondition N → Bool
  check_numeric_condition v (textual status label operator value) = false
  check_numeric_condition v (numeric status label lt value min max) = compares js.less v value
  check_numeric_condition v (numeric status label lte value min max) = compares js.at_most v value
  check_numeric_condition v (numeric status label gt value min max) =
      compares (λ a b. js.less b a) v value
  check_numeric_condition v (numeric status label gte value min max) =
      compares (λ a b. js.at_most b a) v value
  check_numeric_condition v (numeric status label eq value min max) = compares js.same v value
  check_numeric_condition v (numeric status label between value min max) =
      compares (λ a b. js.at_most b a) v min && compares js.at_most v max

  unfoldable pub check_string_condition : String → StatusCondition N → Bool
  check_string_condition v (numeric status label operator value min max) = false
  check_string_condition v (textual status label eq value) = v == value
  check_string_condition v (textual status label operator value) = false

  -- the loop over the conditions, for numbers and for texts
  unfoldable pub first_status : (StatusCondition N → Bool) → List (StatusCondition N) → Status
  first_status holds [] = unknown
  first_status holds (c ∷ conditions) =
      let rest = first_status holds conditions in if holds c then status_of c else rest

  abbrev pub conditions_of : MeasurementDefinition N → List (StatusCondition N)
  conditions_of m = elim m.conditions [ none ↦ [] | some conditions ↦ conditions ]

  unfoldable pub evaluate_numeric : N → MeasurementDefinition N → Status
  unfolding first_status check_numeric_condition
  evaluate_numeric value m = first_status (check_numeric_condition value) (conditions_of m)

  unfoldable pub evaluate_string : String → MeasurementDefinition N → Status
  unfolding first_status check_string_condition
  evaluate_string value m = first_status (check_string_condition value) (conditions_of m)

  -- `frame.received_at`, where it is a text that is not empty
  unfoldable pub received_at : Json → Option String
  received_at frame = elim (get "received_at" frame) [
    | some (str t) ↦ if t == "" then none else some t
    | _ ↦ none
  ]

  abbrev shown : Option ConversionSettings → MeasurementDefinition N → N → N
  shown conversion m value =
      if m.unit == celsius then convert_temperature value conversion else value

  -- the point of a frame, if it has a number and a time
  unfoldable pub point_of :
      Option ConversionSettings → MeasurementDefinition N → Json → Option (TimeSeriesDataPoint N)
  unfolding value_at received_at convert_temperature
  point_of conversion m frame = elim (value_at frame m.path) [
    | none ↦ none
    | some v ↦ elim (js.number v) [
      | none ↦ none
      | some n ↦ elim (received_at frame) [
        | none ↦ none
        | some t ↦ some (record { timestamp = t; value = shown conversion m n })
      ]
    ]
  ]

  unfoldable pub points :
      Option ConversionSettings → MeasurementDefinition N → List Json → List (TimeSeriesDataPoint N)
  unfolding point_of
  points conversion m [] = []
  points conversion m (f ∷ frames) =
      let rest = points conversion m frames in
      elim (point_of conversion m f) [ none ↦ rest | some p ↦ p ∷ rest ]

  abbrev pub oldest_first : TimeSeriesDataPoint N → TimeSeriesDataPoint N → Bool
  oldest_first a b = leb (js.time a.timestamp) (js.time b.timestamp)

  -- `timeSeries[timeSeries.length - 1]`
  unfoldable pub last_of :
      TimeSeriesDataPoint N → List (TimeSeriesDataPoint N) → TimeSeriesDataPoint N
  last_of p [] = p
  last_of p (q ∷ series) = last_of q series

  abbrev pub of_series :
      String
      → Option ConversionSettings
      → MeasurementDefinition N
      → List (TimeSeriesDataPoint N)
      → WidgetData N
  of_series widget_id conversion m [] = no_data widget_id m.path
  of_series widget_id conversion m (p ∷ series) = numbers (record {
    widget_id = widget_id;
    current_value = (last_of p series).value;
    timestamp = (last_of p series).timestamp;
    time_series = p ∷ series;
    status = evaluate_numeric (last_of p series).value m;
    unit = get_converted_unit m.unit conversion;
    decimals = m.decimals;
  })

  unfoldable pub process_numeric :
      String → Option ConversionSettings → MeasurementDefinition N → List Json → WidgetData N
  unfolding points
  process_numeric widget_id conversion m frames =
      of_series widget_id conversion m (order_by oldest_first (points conversion m frames))

  -- the newest frame, at the end of the list, that has a value
  unfoldable pub last_text : MeasurementDefinition N → List Json → Option (Json × String)
  unfolding value_at
  last_text m [] = none
  last_text m (f ∷ frames) =
      let later = last_text m frames in
      elim later [
        | some found ↦ some found
        | none ↦ elim (value_at f m.path) [ none ↦ none | some v ↦ some (f, js.show v) ]
      ]

  unfoldable pub process_string : String → MeasurementDefinition N → List Json → WidgetData N
  unfolding last_text
  process_string widget_id m frames = elim (last_text m frames) [
    | none ↦ no_data widget_id m.path
    | some (frame, value) ↦ strings (record {
      widget_id = widget_id;
      current_value = value;
      timestamp = get "received_at" frame;
      status = evaluate_string value m;
    })
  ]

  abbrev dispatch :
      String → Option ConversionSettings → MeasurementDefinition N → List Json → WidgetData N
  dispatch widget_id conversion m [] = no_uplinks widget_id
  dispatch widget_id conversion m (f ∷ frames) = elim m.value_type [
    | some as_string ↦ process_string widget_id m (f ∷ frames)
    | _ ↦ process_numeric widget_id conversion m (f ∷ frames)
  ]

  -- `none` is null: there are no frames
  unfoldable pub process_widget_data :
      List Json
      → String
      → Option ConversionSettings
      → MeasurementDefinition N
      → Option (WidgetData N)
  unfolding uplink_frames process_string process_numeric
  process_widget_data [] widget_id conversion m = none
  process_widget_data (f ∷ frames) widget_id conversion m =
      some (dispatch widget_id conversion m (uplink_frames (f ∷ frames)))
