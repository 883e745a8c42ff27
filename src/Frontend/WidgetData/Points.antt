-- ===== src/Frontend/WidgetData/Points.antt =====
-- An independent description of the points that frames have.
use lo_ra_dbase.Common.{
  String, ◌≡◌, refl, sym, ap, ◌≢◌, ◌⊎◌, inl, inr, false, Option, none, some, List, [], ◌∷◌, arith,
  eq_iff, ◌==◌, nat_eq, string_eq, if◌then◌else◌, Bool-cases, Option-cases, ◌∙◌,
}
use lo_ra_dbase.Json.{Json, get, null, bool, num, str, arr, obj}
use lo_ra_dbase.Frontend.Select.{get_nested_value}
use lo_ra_dbase.Frontend.WidgetData.{
  Js, ConversionSettings, TimeSeriesDataPoint, MeasurementDefinition, convert_temperature, value_at,
  received_at, point_of, points,
}

module _ {N : Type 0} (js : Js N) (conversion : Option ConversionSettings)
    (m : MeasurementDefinition N) where
  -- the frame has a value at the measurement's path that is a number, and a time, and these are the
  -- point's; a temperature is converted
  pub record IsPoint (frame : Json) (p : TimeSeriesDataPoint N) : Type 0 where
    pub value : Json
    pub n : N
    pub read : get_nested_value frame m.path ≡ some value
    pub there : value ≢ null
    pub number : js.number value ≡ some n
    pub received : get "received_at" frame ≡ some (str p.timestamp)
    pub dated : p.timestamp ≢ ""
    pub converted : p.value ≡ (if m.unit == "°C" then convert_temperature js n conversion else n)

  -- the points of the frames that have one, in the order of the frames
  unfoldable pub Reads : List Json → List (TimeSeriesDataPoint N) → Type 0
  Reads [] ps = ps ≡ []
  Reads (f ∷ frames) ps =
      ((¬ ((p : TimeSeriesDataPoint N) × IsPoint f p)) × Reads frames ps)
      ⊎ ((p : TimeSeriesDataPoint N) × (rest : List (TimeSeriesDataPoint N)) × (ps ≡ p ∷ rest)
          × (IsPoint f p)
          × (Reads frames rest))

  value_at-some :
      (f : Json) (value : Json)
      → value_at js f m.path ≡ some value
      → (get_nested_value f m.path ≡ some value) × (value ≢ null)
  unfolding value_at
  value_at-some f value h = go (get_nested_value f m.path) refl
    where
      go :
          (o : Option Json)
          → get_nested_value f m.path ≡ o
          → (get_nested_value f m.path ≡ some value) × (value ≢ null)
      go none e = absurd (cc (rw (value_at, e) at h))
      go (some null) e = absurd (cc (rw (value_at, e) at h))
      go (some (bool b)) e = let same = rw (value_at, e) at h in (e ∙ same, λ k. cc (same, k))
      go (some (num b)) e = let same = rw (value_at, e) at h in (e ∙ same, λ k. cc (same, k))
      go (some (str b)) e = let same = rw (value_at, e) at h in (e ∙ same, λ k. cc (same, k))
      go (some (arr b)) e = let same = rw (value_at, e) at h in (e ∙ same, λ k. cc (same, k))
      go (some (obj b)) e = let same = rw (value_at, e) at h in (e ∙ same, λ k. cc (same, k))

  value_at-there :
      (f : Json) (value : Json)
      → get_nested_value f m.path ≡ some value
      → value ≢ null
      → value_at js f m.path ≡ some value
  unfolding value_at
  value_at-there f null e there = absurd (there refl)
  value_at-there f (bool b) e there = rw (value_at, e) refl
  value_at-there f (num b) e there = rw (value_at, e) refl
  value_at-there f (str b) e there = rw (value_at, e) refl
  value_at-there f (arr b) e there = rw (value_at, e) refl
  value_at-there f (obj b) e there = rw (value_at, e) refl

  received_at-some :
      (f : Json) (t : String)
      → received_at js f ≡ some t
      → (get "received_at" f ≡ some (str t)) × (t ≢ "")
  unfolding received_at
  received_at-some f t h = go (get "received_at" f) refl
    where
      go :
          (o : Option Json)
          → get "received_at" f ≡ o
          → (get "received_at" f ≡ some (str t)) × (t ≢ "")
      go none e = absurd (cc (rw (received_at, e) at h))
      go (some null) e = absurd (cc (rw (received_at, e) at h))
      go (some (bool b)) e = absurd (cc (rw (received_at, e) at h))
      go (some (num b)) e = absurd (cc (rw (received_at, e) at h))
      go (some (arr b)) e = absurd (cc (rw (received_at, e) at h))
      go (some (obj b)) e = absurd (cc (rw (received_at, e) at h))
      go (some (str s)) e = elim (Bool-cases (s == "")) [
        | inl t ↦ absurd (cc (rw (received_at, e, t) at h))
        | inr f ↦
            let same : s ≡ t = ground (arith, rw (received_at, e, f) at h) in
            (
              e ∙ ap (λ (x : String). some (str x)) same,
              λ k. ground (arith, eq_iff s "", f, same, k),
            )
      ]

  received_at-there :
      (f : Json) (t : String)
      → get "received_at" f ≡ some (str t)
      → t ≢ ""
      → received_at js f ≡ some t
  unfolding received_at
  received_at-there f t e dated =
      let other : (t == "") ≡ false = ground (arith, eq_iff t "") in rw (received_at, e, other) refl

  point_of-IsPoint :
      (f : Json) (p : TimeSeriesDataPoint N) → point_of js conversion m f ≡ some p → IsPoint f p
  unfolding point_of
  point_of-IsPoint f p h = elim (Option-cases (value_at js f m.path)) [
    | inl absent ↦ absurd (cc (rw (point_of, absent) at h))
    | inr (value, found) ↦ elim (Option-cases (js.number value)) [
      | inl absent ↦ absurd (cc (rw (point_of, found, absent) at h))
      | inr (n, number) ↦ elim (Option-cases (received_at js f)) [
        | inl absent ↦ absurd (cc (rw (point_of, found, number, absent) at h))
        | inr (t, received) ↦
            let same = rw (point_of, found, number, received) at h in
            let (read, there) = value_at-some f value found in
            let (dated, given) = received_at-some f t received in
            rw (← point_eq same) (record {
              value = value;
              n = n;
              read = read;
              there = there;
              number = number;
              received = dated;
              dated = given;
              converted = refl;
            })
      ]
    ]
  ]
    where
      point_eq : {a b : TimeSeriesDataPoint N} → some a ≡ some b → a ≡ b
      point_eq e = cc

  IsPoint-point_of :
      (f : Json) (p : TimeSeriesDataPoint N) → IsPoint f p → point_of js conversion m f ≡ some p
  unfolding point_of
  IsPoint-point_of f p c =
      rw
        (
          point_of,
          value_at-there f c.value c.read c.there,
          c.number,
          received_at-there f p.timestamp c.received c.dated,
        )
        (let point : N → Option (TimeSeriesDataPoint N) =
            λ x. some (record { timestamp = p.timestamp; value = x }) in
          ap point (sym c.converted))

  -- `points` reads what the description says.
  pub points-Reads : (frames : List Json) → Reads frames (points js conversion m frames)
  unfolding points Reads
  points-Reads [] = refl
  points-Reads (f ∷ frames) = elim (Option-cases (point_of js conversion m f)) [
    | inl absent ↦
        rw (points, absent)
          (inl ((λ (p, c). cc (absent, IsPoint-point_of f p c)), points-Reads frames))
    | inr (p, found) ↦
        rw (points, found)
          (inr (
            p,
            points js conversion m frames,
            refl,
            point_of-IsPoint f p found,
            points-Reads frames,
          ))
  ]
