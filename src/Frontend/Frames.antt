-- ===== src/Frontend/Frames.antt =====
-- LoRaDB-UI/frontend/src/utils/kpiCalculations.ts: the spreading factors of frames, their distribution, and
-- the energy that the frames took. A field of a frame is `none` where it is undefined. `E` are the doubles in which the
-- source adds up energies.
pub mod Totals
pub mod Energies
mod Tests
use lo_ra_dbase.Common.{
  ℕ, zero, suc, ◌+◌, ◌-◌, ◌*◌, ◌/◌, ◌%◌, ◌≤◌, ◌<◌, Char, code, String, ◌≡◌, refl, sym, ap, ◌∙◌, ◌≢◌,
  ◌↔◌, ◌⊎◌, inl, inr, Bool, true, false, not, ◌&&◌, ◌||◌, Option, none, some, List, [], ◌∷◌, ◌++◌,
  map, arith, eq_iff, ltb, leb, nat_beq, nat_beq_iff, Eq, ◌==◌, nat_eq, string_eq, if◌then◌else◌,
  Bool-cases, Option-cases, false_of_not_true, beq_refl, ne_of_beq, beq_of_ne, length,
  length-append, All, All-append, All-concat, All-map, All-image, All-zip, All-every, Distinct,
  Distinct-concat,
}
use lo_ra_dbase.Frontend.Kpi.{AirtimeParams, calculate_airtime}

-- types/api.ts: FrameData as far as it is read here; `lora` is the nested form of a data rate
pub record Lora : Type 0 where
  pub bandwidth : Option ℕ
  pub spreading_factor : Option ℕ

pub record DataRate : Type 0 where
  pub lora : Option Lora
  pub bandwidth : Option ℕ
  pub spreading_factor : Option ℕ

pub record FrameData : Type 0 where
  pub dr : Option DataRate
  pub frequency : Option ℕ
  pub raw_payload : Option String
  pub received_at : String

-- the characters of a text that are no `=`, in code units
unfoldable pub unpadded_length : String → ℕ
unpadded_length Prim.Native.String.[] = 0
unpadded_length (Prim.Native.String.◌∷◌ c t) =
    let rest = unpadded_length t in
    if code c == b'=' then rest else (if ltb (code c) 0x10000 then 1 else 2) + rest

unfoldable pub get_payload_size : Option String → ℕ
unfolding unpadded_length
get_payload_size none = 0
get_payload_size (some payload) = unpadded_length payload * 3 / 4

-- the tables of data rates by region
abbrev pub us915 : ℕ → Option ℕ
us915 dr =
    if dr == 0 || dr == 10
    then some 10
    else if dr == 1 || dr == 11
    then some 9
    else if dr == 2 || dr == 4 || dr == 12
    then some 8
    else if dr == 3 || dr == 13
    then some 7
    else if dr == 8
    then some 12
    else if dr == 9
    then some 11
    else none

abbrev pub eu868 : ℕ → Option ℕ
eu868 dr = if ltb dr 6 then some (12 - dr) else if dr == 6 then some 7 else none

abbrev pub is_between : Option ℕ → ℕ → ℕ → Bool
is_between none low high = false
is_between (some f) low high = leb low f && leb f high

unfoldable pub map_data_rate : ℕ → ℕ → Option ℕ → Option ℕ
map_data_rate dr bandwidth frequency =
    let is_us915 = is_between frequency 902000000 928000000 in
    let is_eu868 = is_between frequency 863000000 870000000 in
    let is_as923 = is_between frequency 915000000 928000000 && not is_us915 in
    if is_us915 || bandwidth == 500000
    then us915 dr
    else if is_eu868 || bandwidth == 125000
    then eu868 dr
    else if is_as923
    then eu868 dr
    else none

abbrev pub or_standard : Option ℕ → ℕ
or_standard none = 125000
or_standard (some bw) = if bw == 0 then 125000 else bw

-- a spreading factor as it is, or a data rate to be mapped
abbrev pub read_rate : ℕ → Option ℕ → Option ℕ → Option ℕ
read_rate sf bandwidth frequency =
    if leb 7 sf && leb sf 12 then some sf else map_data_rate sf (or_standard bandwidth) frequency

abbrev direct_factor : Option DataRate → Option ℕ → Option ℕ
direct_factor none frequency = none
direct_factor (some dr) frequency = elim dr.spreading_factor [
  | none ↦ none
  | some sf ↦ read_rate sf dr.bandwidth frequency
]

abbrev nested : Option DataRate → Option Lora
nested none = none
nested (some dr) = dr.lora

unfoldable pub get_spreading_factor : FrameData → Option ℕ
unfolding map_data_rate
get_spreading_factor frame = elim (nested frame.dr) [
  | none ↦ direct_factor frame.dr frame.frequency
  | some lora ↦ elim lora.spreading_factor [
    | none ↦ direct_factor frame.dr frame.frequency
    | some sf ↦ read_rate sf lora.bandwidth frame.frequency
  ]
]

abbrev direct_bandwidth : Option DataRate → Option ℕ
direct_bandwidth none = none
direct_bandwidth (some dr) = dr.bandwidth

unfoldable pub get_bandwidth : FrameData → Option ℕ
get_bandwidth frame = elim (nested frame.dr) [
  | none ↦ direct_bandwidth frame.dr
  | some lora ↦ elim lora.bandwidth [ none ↦ direct_bandwidth frame.dr | some bw ↦ some bw ]
]

-- how many frames have each spreading factor
pub record SpreadingFactorDistribution : Type 0 where
  pub sf7 : ℕ
  pub sf8 : ℕ
  pub sf9 : ℕ
  pub sf10 : ℕ
  pub sf11 : ℕ
  pub sf12 : ℕ

abbrev pub no_frames : SpreadingFactorDistribution
no_frames = record { sf7 = 0; sf8 = 0; sf9 = 0; sf10 = 0; sf11 = 0; sf12 = 0 }

-- `distribution[key]++`, where the key is there
unfoldable pub count_factor : Option ℕ → SpreadingFactorDistribution → SpreadingFactorDistribution
count_factor none d = d
count_factor (some sf) d =
    if sf == 7
    then record d { sf7 = suc d.sf7 }
    else if sf == 8
    then record d { sf8 = suc d.sf8 }
    else if sf == 9
    then record d { sf9 = suc d.sf9 }
    else if sf == 10
    then record d { sf10 = suc d.sf10 }
    else if sf == 11
    then record d { sf11 = suc d.sf11 }
    else if sf == 12
    then record d { sf12 = suc d.sf12 }
    else d

unfoldable pub count_frames :
    List FrameData → SpreadingFactorDistribution → SpreadingFactorDistribution
unfolding count_factor get_spreading_factor
count_frames [] d = d
count_frames (frame ∷ frames) d = count_frames frames (count_factor (get_spreading_factor frame) d)

abbrev pub total_of : SpreadingFactorDistribution → ℕ
total_of d = d.sf7 + d.sf8 + d.sf9 + d.sf10 + d.sf11 + d.sf12

-- the counts and their sum
unfoldable pub analyze_spreading_factor : List FrameData → SpreadingFactorDistribution × ℕ
unfolding count_frames
analyze_spreading_factor frames =
    (count_frames frames no_frames, total_of (count_frames frames no_frames))

-- the first entry of the largest count: the sort is stable
abbrev pub larger : String × ℕ → String × ℕ → String × ℕ
larger (a, n) (b, m) = if ltb n m then (b, m) else (a, n)

unfoldable pub get_dominant_spreading_factor : SpreadingFactorDistribution → String
get_dominant_spreading_factor d =
    if total_of d == 0
    then "N/A"
    else (larger
        (larger
          (larger (larger (larger ("SF7", d.sf7) ("SF8", d.sf8)) ("SF9", d.sf9)) ("SF10", d.sf10))
          ("SF11", d.sf11))
        ("SF12", d.sf12)).0

-- what a frame costs, where its spreading factor and its bandwidth are known
abbrev pub frame_params : FrameData → ℕ → ℕ → AirtimeParams
frame_params frame sf bw = record {
  spreading_factor = sf;
  bandwidth = bw;
  payload_bytes = get_payload_size frame.raw_payload;
  coding_rate = none;
  preamble_symbols = none;
  explicit_header = none;
  crc_enabled = none;
}

unfoldable pub airtime_of : FrameData → Option (ℕ × ℕ)
unfolding calculate_airtime get_payload_size get_spreading_factor get_bandwidth
airtime_of frame = elim (get_spreading_factor frame) [
  | none ↦ none
  | some sf ↦ elim (get_bandwidth frame) [
    | none ↦ none
    | some bw ↦
        if sf == 0 || bw == 0 then none else some (sf, calculate_airtime (frame_params frame sf bw))
  ]
]

-- JavaScript's numbers as far as energies need them: `or_nought` is `energy || 0`, and `of` is
-- `(airtimeMs / 3600000) * config.txCurrentMa` of an airtime in microseconds
pub record Energy (E : Type 0) : Type 0 where
  pub nought : E
  pub add : E → E → E
  pub or_nought : E → E
  pub of : (airtime tx_current_ma : ℕ) → E

pub record EnergyMetrics (E : Type 0) : Type 0 where
  pub total_energy : E
  pub energy_by_spreading_factor : List (ℕ × E)

module _ {E : Type 0} (num : Energy E) where
  -- `energyBySF[key] = (energyBySF[key] || 0) + energy`
  unfoldable pub add_energy : ℕ → E → List (ℕ × E) → List (ℕ × E)
  add_energy sf energy [] = (sf, num.add num.nought energy) ∷ []
  add_energy sf energy ((k, e) ∷ rest) =
      let more = add_energy sf energy rest in
      if k == sf then (k, num.add (num.or_nought e) energy) ∷ rest else (k, e) ∷ more

  unfoldable pub sum_energy : ℕ → List FrameData → EnergyMetrics E → EnergyMetrics E
  unfolding airtime_of add_energy
  sum_energy tx_current_ma [] m = m
  sum_energy tx_current_ma (frame ∷ frames) m = elim (airtime_of frame) [
    | none ↦ sum_energy tx_current_ma frames m
    | some (sf, airtime) ↦ sum_energy tx_current_ma frames (record {
      total_energy = num.add m.total_energy (num.of airtime tx_current_ma);
      energy_by_spreading_factor =
          add_energy sf (num.of airtime tx_current_ma) m.energy_by_spreading_factor;
    })
  ]

  unfoldable pub calculate_energy_impact : ℕ → List FrameData → EnergyMetrics E
  unfolding sum_energy
  calculate_energy_impact tx_current_ma frames =
      sum_energy tx_current_ma frames
        (record { total_energy = num.nought; energy_by_spreading_factor = [] })
