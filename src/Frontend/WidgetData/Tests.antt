-- ===== src/Frontend/WidgetData/Tests.antt =====
-- The theorems on widgets at concrete frames.
use lo_ra_dbase.Common.{
  ℕ, ◌+◌, ◌*◌, ◌/◌, String, ◌≡◌, refl, ◌⊎◌, none, some, List, [], ◌∷◌, ltb, leb, nat_beq, ◌==◌,
  nat_eq, string_eq, if◌then◌else◌, All,
}
use lo_ra_dbase.Text
use lo_ra_dbase.Json.{get, num, str, obj, field, end, Json}
use lo_ra_dbase.Frontend.WidgetData.{
  Js, info, TimeSeriesDataPoint, MeasurementDefinition, StatusCondition, points, process_numeric,
  check_numeric_condition, no_data, numeric, point_of, NumericWidgetData, error, value_at,
  evaluate_numeric, lt, numbers, received_at, warning, lte, last_of, first_status,
  get_converted_unit,
}
use lo_ra_dbase.Frontend.WidgetData.Latest.{IsLatest, process_numeric-IsLatest}
use lo_ra_dbase.Frontend.Select.{get_nested_value, walk}
use lo_ra_dbase.Frontend.WidgetData.FirstStatus.{IsFirst, IsMissed, evaluate_numeric-IsFirst}
use lo_ra_dbase.Frontend.WidgetData.Points.{Reads}
use lo_ra_dbase.Text.{on_first}
use lo_ra_dbase.Table.Sort.{order_by}

-- numbers that are natural, and three times
abbrev js : Js ℕ
js = record {
  less = ltb;
  at_most = leb;
  same = nat_beq;
  number = λ v. elim v [ num n ↦ some n | _ ↦ none ];
  show = λ v. "";
  time = λ t. if t == "morning" then 1 else if t == "noon" then 2 else 3;
  to_fahrenheit = λ n. n * 9 / 5 + 32;
  to_kelvin = λ n. n + 273;
}

abbrev frame : ℕ → String → Json
frame n t =
    obj (field "received_at" (str t) (field "object" (obj (field "battery" (num n) end)) end))

abbrev frames : List Json
frames = frame 30 "noon" ∷ frame 10 "evening" ∷ frame 70 "morning" ∷ []

abbrev battery : MeasurementDefinition ℕ
battery = record {
  path = "object.battery";
  unit = "%";
  decimals = 0;
  value_type = none;
  conditions = some (
      numeric error "Empty" lt (some 20) none none
      ∷ numeric warning "Low" lte (some 50) none none
      ∷ []);
}

-- the newest point is the last, and the first condition that it meets gives the status
latest_lem :
    process_numeric js "w" none battery frames
    ≡ numbers (record {
      widget_id = "w";
      current_value = 10;
      timestamp = "evening";
      time_series =
          record { timestamp = "morning"; value = 70 }
          ∷ record { timestamp = "noon"; value = 30 }
          ∷ record { timestamp = "evening"; value = 10 }
          ∷ [];
      status = record { level = error; label = "Empty" };
      unit = "%";
      decimals = 0;
    })
unfolding process_numeric points point_of value_at received_at get_nested_value walk Text.split get
    last_of evaluate_numeric first_status check_numeric_condition get_converted_unit order_by
    lo_ra_dbase.Json.is_truthy
latest_lem = refl

process_numeric-IsLatest_example :
    (ps : List (TimeSeriesDataPoint ℕ)) × (Reads js none battery frames ps)
    × (((ps ≡ []) × (process_numeric js "w" none battery frames ≡ no_data "w" "object.battery"))
        ⊎ ((d : NumericWidgetData ℕ) × (process_numeric js "w" none battery frames ≡ numbers d)
            × IsLatest js battery ps d))
process_numeric-IsLatest_example = process_numeric-IsLatest js "w" none battery frames

evaluate_numeric-IsFirst_example :
    (((battery.conditions ≡ none)
        ⊎ ((conditions : List (StatusCondition ℕ)) × (battery.conditions ≡ some conditions)
            × All (IsMissed js 10) conditions))
      × (evaluate_numeric js 10 battery ≡ record { level = info; label = "Unknown" }))
    ⊎ ((conditions : List (StatusCondition ℕ)) × (battery.conditions ≡ some conditions)
        × IsFirst js 10 conditions (evaluate_numeric js 10 battery))
evaluate_numeric-IsFirst_example = evaluate_numeric-IsFirst js 10 battery
