-- ===== src/Frontend/WidgetData/Latest.antt =====
-- The current value of a numeric widget is the value of the newest point.
use lo_ra_dbase.Common.{
  ◌≤◌, String, ◌≡◌, refl, sym, ap, ◌⊎◌, inl, inr, Option, List, [], ◌∷◌, ◌++◌, arith, nat_eq,
  string_eq, All,
}
use mathlib.Core.List.Perm
use mathlib.Core.List.{Perm}
use lo_ra_dbase.Frontend.WidgetData.{
  Js, ConversionSettings, TimeSeriesDataPoint, last_of, process_numeric, MeasurementDefinition,
  oldest_first, NumericWidgetData, points, evaluate_numeric, no_data, numbers, of_series,
  get_converted_unit,
}
use lo_ra_dbase.Frontend.WidgetData.Points.{Reads, points-Reads}
use lo_ra_dbase.Table.Sort.{IsOrdered, order_by, order_by-IsOrdered, order_by-perm}
use lo_ra_dbase.Json.{Json}
use lo_ra_dbase.Common.Order.{leb→le}

module _ {N : Type 0} (js : Js N) where
  -- a data set that stands for the points `ps`, with the newest as the current value
  pub record IsLatest (m : MeasurementDefinition N) (ps : List (TimeSeriesDataPoint N))
      (d : NumericWidgetData N) : Type 0 where
    pub all_points : Perm d.time_series ps
    pub ordered : IsOrdered (oldest_first js) d.time_series
    pub newest :
        All (λ (p : TimeSeriesDataPoint N). js.time p.timestamp ≤ js.time d.timestamp) d.time_series
    pub status : d.status ≡ evaluate_numeric js d.current_value m
    pub one_of :
        (before : List (TimeSeriesDataPoint N)) × (d.time_series
          ≡ before ++ record { timestamp = d.timestamp; value = d.current_value } ∷ [])

  last-newest :
      (p : TimeSeriesDataPoint N) (series : List (TimeSeriesDataPoint N))
      → IsOrdered (oldest_first js) (p ∷ series)
      → All
          (λ (q : TimeSeriesDataPoint N).
            js.time q.timestamp ≤ js.time (last_of js p series).timestamp)
          (p ∷ series)
  unfolding last_of
  last-newest p [] o = (omega arith, tt)
  last-newest p (q ∷ series) ((first, rest), o) =
      let more = last-newest q series o in
      (omega (arith, leb→le (js.time p.timestamp) (js.time q.timestamp) first, more.0), more)

  last-split :
      (p : TimeSeriesDataPoint N) (series : List (TimeSeriesDataPoint N))
      → (before : List (TimeSeriesDataPoint N)) × (p ∷ series ≡ before ++ last_of js p series ∷ [])
  unfolding last_of
  last-split p [] = ([], refl)
  last-split p (q ∷ series) =
      let (before, e) = last-split q series in
      (p ∷ before, ap (λ (xs : List (TimeSeriesDataPoint N)). p ∷ xs) e)

  series-IsOrdered :
      (xs : List (TimeSeriesDataPoint N))
      → IsOrdered (oldest_first js) (order_by (oldest_first js) xs)
  series-IsOrdered xs =
      order_by-IsOrdered (oldest_first js) (λ a b h. ground (arith, h))
        (λ a b c h k. ground (arith, h, k)) xs

  series-IsLatest :
      (widget_id : String) (conversion : Option ConversionSettings) (m : MeasurementDefinition N)
      (ps series : List (TimeSeriesDataPoint N))
      → Perm series ps
      → IsOrdered (oldest_first js) series
      → ((ps ≡ []) × (of_series js widget_id conversion m series ≡ no_data widget_id m.path))
        ⊎ ((d : NumericWidgetData N) × (of_series js widget_id conversion m series ≡ numbers d)
            × IsLatest m ps d)
  series-IsLatest widget_id conversion m ps [] perm o = inl (sym (Perm.nil-eq perm), refl)
  series-IsLatest widget_id conversion m ps (p ∷ series) perm o = inr (
    record {
      widget_id = widget_id;
      current_value = (last_of js p series).value;
      timestamp = (last_of js p series).timestamp;
      time_series = p ∷ series;
      status = evaluate_numeric js (last_of js p series).value m;
      unit = get_converted_unit m.unit conversion;
      decimals = m.decimals;
    },
    refl,
    record {
      all_points = perm;
      ordered = o;
      newest = last-newest p series o;
      status = refl;
      one_of = last-split p series;
    },
  )

  -- A numeric measurement of frames, where a frame has a point if it has a value at the measurement's path
  -- that is a number, and a time: either no frame has one, and the widget shows that there is no data,
  -- or it shows the points of exactly the frames that have one, oldest first, and as its current value
  -- the last of them, which no other is newer than, with the status of that value.
  pub process_numeric-IsLatest :
      (widget_id : String) (conversion : Option ConversionSettings) (m : MeasurementDefinition N)
      (frames : List Json)
      → (ps : List (TimeSeriesDataPoint N)) × (Reads js conversion m frames ps)
        × (((ps ≡ [])
              × (process_numeric js widget_id conversion m frames ≡ no_data widget_id m.path))
            ⊎ ((d : NumericWidgetData N) × (process_numeric js widget_id conversion m frames
                  ≡ numbers d)
                × IsLatest m ps d))
  unfolding process_numeric
  process_numeric-IsLatest widget_id conversion m frames =
      let ps = points js conversion m frames in
      (
        ps,
        points-Reads js conversion m frames,
        series-IsLatest widget_id conversion m ps (order_by (oldest_first js) ps)
            (order_by-perm (oldest_first js) ps) (series-IsOrdered ps),
      )
