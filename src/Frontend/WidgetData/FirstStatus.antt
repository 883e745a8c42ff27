-- ===== src/Frontend/WidgetData/FirstStatus.antt =====
-- The status of a value is that of the first condition that it meets.
use lo_ra_dbase.Common.{
  String, ◌≡◌, refl, ap, ◌⊎◌, inl, inr, true, false, Option, none, some, List, [], ◌∷◌, ◌++◌, arith,
  nat_eq, string_eq, Bool-cases, Option-cases, All,
}
use lo_ra_dbase.Frontend.WidgetData.{
  Js, StatusLevel, info, StatusCondition, numeric, textual, lt, lte, gt, gte, eq, between, Status,
  first_status, status_of, unknown, evaluate_numeric, MeasurementDefinition,
  check_numeric_condition,
}

-- An independent description of the conditions that a number meets, and of the status that each gives.
-- There is none on texts.
pub data IsMet {N : Type 0} (js : Js N) (v : N) : StatusCondition N → Status → Type 0 where
  below :
      (level : StatusLevel) (label : String) (b : N) (min max : Option N)
      → js.less v b ≡ true
      → IsMet js v
          (numeric level label lt (some b) min max)
          (record { level = level; label = label })
  at_most :
      (level : StatusLevel) (label : String) (b : N) (min max : Option N)
      → js.at_most v b ≡ true
      → IsMet js v
          (numeric level label lte (some b) min max)
          (record { level = level; label = label })
  above :
      (level : StatusLevel) (label : String) (b : N) (min max : Option N)
      → js.less b v ≡ true
      → IsMet js v
          (numeric level label gt (some b) min max)
          (record { level = level; label = label })
  at_least :
      (level : StatusLevel) (label : String) (b : N) (min max : Option N)
      → js.at_most b v ≡ true
      → IsMet js v
          (numeric level label gte (some b) min max)
          (record { level = level; label = label })
  equal :
      (level : StatusLevel) (label : String) (b : N) (min max : Option N)
      → js.same v b ≡ true
      → IsMet js v
          (numeric level label eq (some b) min max)
          (record { level = level; label = label })
  within :
      (level : StatusLevel) (label : String) (value : Option N) (low high : N)
      → js.at_most low v ≡ true
      → js.at_most v high ≡ true
      → IsMet js v
          (numeric level label between value (some low) (some high))
          (record { level = level; label = label })

module _ {N : Type 0} (js : Js N) (v : N) where
  IsMet-checked :
      (c : StatusCondition N) (s : Status) → IsMet js v c s → check_numeric_condition js v c ≡ true
  unfolding check_numeric_condition
  IsMet-checked _ _ (below level label b min max h) = h
  IsMet-checked _ _ (at_most level label b min max h) = h
  IsMet-checked _ _ (above level label b min max h) = h
  IsMet-checked _ _ (at_least level label b min max h) = h
  IsMet-checked _ _ (equal level label b min max h) = h
  IsMet-checked _ _ (within level label value low high h k) = rw (h, k) refl

  checked-IsMet :
      (c : StatusCondition N) → check_numeric_condition js v c ≡ true → IsMet js v c (status_of c)
  unfolding check_numeric_condition
  checked-IsMet (textual status label operator value) h = absurd (cc h)
  checked-IsMet (numeric status label lt (some b) min max) h = below status label b min max h
  checked-IsMet (numeric status label lte (some b) min max) h = at_most status label b min max h
  checked-IsMet (numeric status label gt (some b) min max) h = above status label b min max h
  checked-IsMet (numeric status label gte (some b) min max) h = at_least status label b min max h
  checked-IsMet (numeric status label eq (some b) min max) h = equal status label b min max h
  checked-IsMet (numeric status label lt none min max) h = absurd (cc h)
  checked-IsMet (numeric status label lte none min max) h = absurd (cc h)
  checked-IsMet (numeric status label gt none min max) h = absurd (cc h)
  checked-IsMet (numeric status label gte none min max) h = absurd (cc h)
  checked-IsMet (numeric status label eq none min max) h = absurd (cc h)
  checked-IsMet (numeric status label between value (some low) (some high)) h =
      within status label value low high (ground (arith, h)) (ground (arith, h))
  checked-IsMet (numeric status label between value (some low) none) h = absurd (ground (arith, h))
  checked-IsMet (numeric status label between value none max) h = absurd (cc h)

  -- the value does not meet the condition
  abbrev pub IsMissed : StatusCondition N → Type 0
  IsMissed c = ¬ ((s : Status) × IsMet js v c s)

  missed : (c : StatusCondition N) → check_numeric_condition js v c ≡ false → IsMissed c
  missed c h (s, met) = cc (IsMet-checked c s met, h)

  -- conditions that are missed, then one that is met
  pub record IsFirst (conditions : List (StatusCondition N)) (s : Status) : Type 0 where
    pub before : List (StatusCondition N)
    pub condition : StatusCondition N
    pub after : List (StatusCondition N)
    pub split : conditions ≡ before ++ condition ∷ after
    pub refused : All IsMissed before
    pub accepted : IsMet js v condition s

  first_status-IsFirst :
      (conditions : List (StatusCondition N))
      → (All IsMissed conditions
          × (first_status js (check_numeric_condition js v) conditions ≡ unknown))
        ⊎ IsFirst conditions (first_status js (check_numeric_condition js v) conditions)
  unfolding first_status
  first_status-IsFirst [] = inl (tt, refl)
  first_status-IsFirst (c ∷ conditions) = elim (Bool-cases (check_numeric_condition js v c)) [
    | inl t ↦ inr (record {
      before = [];
      condition = c;
      after = conditions;
      split = refl;
      refused = tt;
      accepted = rw t (checked-IsMet c t);
    })
    | inr f ↦ elim (first_status-IsFirst conditions) [
      | inl (none_holds, e) ↦ inl ((missed c f, none_holds), rw f e)
      | inr found ↦ inr (record {
        before = c ∷ found.before;
        condition = found.condition;
        after = found.after;
        split = ap (λ (cs : List (StatusCondition N)). c ∷ cs) found.split;
        refused = (missed c f, found.refused);
        accepted = rw f found.accepted;
      })
    ]
  ]

-- The status of a number is the one that the first condition of the measurement which it meets gives, by
-- its operator and its bounds, and Unknown with the level info if it meets none or there are none; a
-- condition on texts is met by no number.
pub evaluate_numeric-IsFirst :
    {N : Type 0} (js : Js N) (v : N) (m : MeasurementDefinition N)
    → (((m.conditions ≡ none)
          ⊎ ((conditions : List (StatusCondition N)) × (m.conditions ≡ some conditions)
              × All (IsMissed js v) conditions))
        × (evaluate_numeric js v m ≡ record { level = info; label = "Unknown" }))
      ⊎ ((conditions : List (StatusCondition N)) × (m.conditions ≡ some conditions)
          × IsFirst js v conditions (evaluate_numeric js v m))
unfolding evaluate_numeric first_status
evaluate_numeric-IsFirst js v m = elim (Option-cases m.conditions) [
  | inl absent ↦ inl (inl absent, rw absent refl)
  | inr (conditions, there) ↦ elim (first_status-IsFirst js v conditions) [
    | inl (none_holds, e) ↦ inl (inr (conditions, there, none_holds), rw there e)
    | inr found ↦ inr (conditions, there, rw there found)
  ]
]
