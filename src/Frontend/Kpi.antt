-- ===== src/Frontend/Kpi.antt =====
-- LoRaDB-UI/frontend/src/utils/kpiCalculations.ts: the airtime of a packet. The source counts in doubles;
-- here the airtime is exact, in microseconds. A parameter is `none` where it is left to its default.
pub mod Airtime
mod Tests
use lo_ra_dbase.Common.{
  ℕ, zero, suc, ◌+◌, ◌-◌, ◌*◌, ◌/◌, ◌%◌, ◌≤◌, ◌<◌, Char, code, String, ◌≡◌, refl, sym, ap, ◌∙◌, ◌≢◌,
  ◌↔◌, ◌⊎◌, inl, inr, Bool, true, false, not, ◌&&◌, ◌||◌, Option, none, some, List, [], ◌∷◌, ◌++◌,
  map, arith, eq_iff, ltb, leb, nat_beq, nat_beq_iff, Eq, ◌==◌, nat_eq, string_eq, if◌then◌else◌,
  Bool-cases, Option-cases, false_of_not_true, beq_refl, ne_of_beq, beq_of_ne, length,
  length-append, All, All-append, All-concat, All-map, All-image, All-zip, All-every, Distinct,
  Distinct-concat,
}

pub record AirtimeParams : Type 0 where
  pub spreading_factor : ℕ
  pub bandwidth : ℕ
  pub payload_bytes : ℕ
  pub coding_rate : Option ℕ
  pub preamble_symbols : Option ℕ
  pub explicit_header : Option Bool
  pub crc_enabled : Option Bool

abbrev pub or_default {ℓ} : {A : Type ℓ} → Option A → A → A
or_default none default = default
or_default (some a) default = a

abbrev pub bit : Bool → ℕ
bit b = if b then 1 else 0

abbrev pub is_bandwidth : ℕ → Bool
is_bandwidth bw = bw == 125000 || bw == 250000 || bw == 500000

-- the low data rate optimisation
abbrev pub is_optimised : ℕ → ℕ → Bool
is_optimised sf bw = leb 11 sf && bw == 125000

-- the chips of a symbol
unfoldable pub chips : ℕ → ℕ
chips zero = 1
chips (suc n) = 2 * chips n

-- Math.max(Math.ceil((plus - minus) / step), 0): where the difference is negative, the ceiling is at most 0
abbrev pub ceil_div : ℕ → ℕ → ℕ → ℕ
ceil_div plus minus step = (plus - minus + (step - 1)) / step

abbrev pub payload_symbols : ℕ → ℕ → ℕ → ℕ → Bool → Bool → ℕ
payload_symbols sf bw bytes coding_rate explicit_header crc_enabled =
    8
    + ceil_div (8 * bytes + 28 + 16 * bit crc_enabled) (4 * sf + 20 * bit (not explicit_header))
        (4 * (sf - 2 * bit (is_optimised sf bw)))
      * (coding_rate + 4)

-- 4 (n_preamble + 4.25 + symbols) quarters of a symbol, of 2^SF / BW seconds
abbrev pub airtime_us : ℕ → ℕ → ℕ → ℕ → ℕ
airtime_us sf bw preamble symbols =
    (4 * preamble + 17 + 4 * symbols) * chips sf * (1000000 / bw) / 4

unfoldable pub calculate_airtime : AirtimeParams → ℕ
calculate_airtime p =
    if ltb p.spreading_factor 7 || ltb 12 p.spreading_factor
    then 0
    else if not (is_bandwidth p.bandwidth)
    then 0
    else airtime_us p.spreading_factor p.bandwidth (or_default p.preamble_symbols 8) (
        payload_symbols p.spreading_factor p.bandwidth p.payload_bytes (or_default p.coding_rate 1)
          (or_default p.explicit_header false) (or_default p.crc_enabled true))
