-- ===== src/Frontend/Kpi/Airtime.antt =====
-- The airtime of a packet grows with its payload and with the spreading factor.
use native.Mathlib.Nat.{mul-le-mul_right, mul_assoc, mul_left_comm}
use lo_ra_dbase.Common.{
  ℕ, suc, ◌+◌, ◌-◌, ◌*◌, ◌/◌, ◌≤◌, ◌<◌, ◌≡◌, refl, sym, ◌∙◌, ◌⊎◌, inl, inr, true, false, not, arith,
  ltb, ◌==◌, nat_eq, string_eq, Bool-cases,
}
use lo_ra_dbase.Frontend.Kpi.{
  ceil_div, bit, is_optimised, AirtimeParams, calculate_airtime, is_bandwidth, payload_symbols,
  airtime_us, or_default, chips,
}

ceil_step :
    (a : ℕ)
    → ((a + 27) / 28 ≤ 2 * ((a - 4 + 31) / 32) + 1)
      × ((a + 31) / 32 ≤ 2 * ((a - 4 + 35) / 36) + 1)
      × ((a + 35) / 36 ≤ 2 * ((a - 4 + 39) / 40) + 1)
      × ((a + 39) / 40 ≤ 2 * ((a - 4 + 43) / 44) + 1)
      × ((a + 43) / 44 ≤ 2 * ((a - 4 + 47) / 48) + 1)
      × ((a + 39) / 40 ≤ 2 * ((a - 4 + 35) / 36) + 1)
      × ((a + 35) / 36 ≤ 2 * ((a - 4 + 39) / 40) + 1)
ceil_step a =
    (omega arith, omega arith, omega arith, omega arith, omega arith, omega arith, omega arith)

abbrev blocks : ℕ → ℕ → ℕ → ℕ → ℕ
blocks sf bw plus x = ceil_div plus (4 * sf + x) (4 * (sf - 2 * bit (is_optimised sf bw)))

ceil_mono :
    (a b : ℕ)
    → a ≤ b
    → ((a + 27) / 28 ≤ (b + 27) / 28)
      × ((a + 31) / 32 ≤ (b + 31) / 32)
      × ((a + 35) / 36 ≤ (b + 35) / 36)
      × ((a + 39) / 40 ≤ (b + 39) / 40)
      × ((a + 43) / 44 ≤ (b + 43) / 44)
ceil_mono a b h =
    (omega (arith, h), omega (arith, h), omega (arith, h), omega (arith, h), omega (arith, h))

one_of_five :
    (n lo : ℕ)
    → lo ≤ n
    → n < lo + 5
    → (n ≡ lo) ⊎ ((n ≡ lo + 1) ⊎ ((n ≡ lo + 2) ⊎ ((n ≡ lo + 3) ⊎ (n ≡ lo + 4))))
one_of_five n lo h k = ground arith

blocks-step :
    (sf bw plus x : ℕ) → 7 ≤ sf → sf < 12 → blocks sf bw plus x ≤ 2 * blocks (suc sf) bw plus x + 1
blocks-step sf bw plus x h k = elim (one_of_five sf 7 h (omega (arith, k))) [
  | inl e ↦ rw e (omega (arith, (ceil_step (plus - (28 + x))).0))
  | inr (inl e) ↦ rw e (omega (arith, (ceil_step (plus - (32 + x))).1))
  | inr (inr (inl e)) ↦ rw e (omega (arith, (ceil_step (plus - (36 + x))).2))
  | inr (inr (inr (inl e))) ↦ elim (Bool-cases (bw == 125000)) [
    | inl t ↦ rw (e, t) (omega (arith, (ceil_step (plus - (40 + x))).5))
    | inr f ↦ rw (e, f) (omega (arith, (ceil_step (plus - (40 + x))).3))
  ]
  | inr (inr (inr (inr e))) ↦ elim (Bool-cases (bw == 125000)) [
    | inl t ↦ rw (e, t) (omega (arith, (ceil_step (plus - (44 + x))).6))
    | inr f ↦ rw (e, f) (omega (arith, (ceil_step (plus - (44 + x))).4))
  ]
]

blocks_mono :
    (sf bw plus longer x : ℕ)
    → 7 ≤ sf
    → sf < 12
    → plus ≤ longer
    → blocks sf bw plus x ≤ blocks sf bw longer x
blocks_mono sf bw plus longer x h k more = elim (one_of_five sf 7 h (omega (arith, k))) [
  | inl e ↦ rw e (ceil_mono (plus - (28 + x)) (longer - (28 + x)) (omega (arith, more))).0
  | inr (inl e) ↦ rw e (ceil_mono (plus - (32 + x)) (longer - (32 + x)) (omega (arith, more))).1
  | inr (inr (inl e)) ↦
      rw e (ceil_mono (plus - (36 + x)) (longer - (36 + x)) (omega (arith, more))).2
  | inr (inr (inr (inl e))) ↦
      rw e (ceil_mono (plus - (40 + x)) (longer - (40 + x)) (omega (arith, more))).3
  | inr (inr (inr (inr e))) ↦
      let facts = ceil_mono (plus - (44 + x)) (longer - (44 + x)) (omega (arith, more)) in
      elim (Bool-cases (bw == 125000)) [ inl t ↦ rw (e, t) facts.2 | inr f ↦ rw (e, f) facts.4 ]
]

symbols-le :
    (n k j c : ℕ)
    → c ≤ 4
    → k ≤ 2 * j + 1
    → 4 * n + 17 + 4 * (8 + k * (c + 4)) ≤ 2 * (4 * n + 17 + 4 * (8 + j * (c + 4)))
symbols-le n k j c h e = elim (one_of_five c 0 (omega arith) (omega (arith, h))) [
  | inl z ↦ rw z (omega (arith, e))
  | inr (inl z) ↦ rw z (omega (arith, e))
  | inr (inr (inl z)) ↦ rw z (omega (arith, e))
  | inr (inr (inr (inl z))) ↦ rw z (omega (arith, e))
  | inr (inr (inr (inr z))) ↦ rw z (omega (arith, e))
]

div_mono : (x y : ℕ) → x ≤ y → x / 4 ≤ y / 4
div_mono x y h = omega (arith, h)

add_le : (a : ℕ) {b c : ℕ} → b ≤ c → a + b ≤ a + c
add_le a h = omega (arith, h)

double_symbol : (a b c d : ℕ) → a ≤ 2 * b → a * c * d / 4 ≤ b * (2 * c) * d / 4
double_symbol a b c d h =
    let step : a * c * d ≤ 2 * b * c * d = mul-le-mul_right d (mul-le-mul_right c h) in
    let same : 2 * b * c ≡ b * (2 * c) = mul_assoc 2 b c ∙ sym (mul_left_comm b 2 c) in
    div_mono (a * c * d) (b * (2 * c) * d) (rw (← same) step)

more_quarters : (a b c d : ℕ) → a ≤ b → a * c * d / 4 ≤ b * c * d / 4
more_quarters a b c d h =
    div_mono (a * c * d) (b * c * d) (mul-le-mul_right d (mul-le-mul_right c h))

-- the symbols of the payload of a packet
abbrev symbols : AirtimeParams → ℕ
symbols p =
    payload_symbols p.spreading_factor p.bandwidth p.payload_bytes (or_default p.coding_rate 1)
      (or_default p.explicit_header false) (or_default p.crc_enabled true)

airtime-run :
    (p : AirtimeParams)
    → 7 ≤ p.spreading_factor
    → p.spreading_factor ≤ 12
    → is_bandwidth p.bandwidth ≡ true
    → calculate_airtime p
      ≡ airtime_us p.spreading_factor p.bandwidth (or_default p.preamble_symbols 8) (symbols p)
unfolding calculate_airtime
airtime-run p low high valid =
    let no_less : ltb p.spreading_factor 7 ≡ false = ground (arith, low) in
    let no_more : ltb 12 p.spreading_factor ≡ false = ground (arith, high) in
    rw (no_less, no_more, valid) refl

-- For a bandwidth of LoRaWAN and a coding rate of at most 4: the next spreading factor takes no less time
-- for the same packet, and a longer payload takes no less time at the same spreading factor.
pub calculate_airtime_mono :
    (p : AirtimeParams) (longer : ℕ)
    → 7 ≤ p.spreading_factor
    → p.spreading_factor < 12
    → is_bandwidth p.bandwidth ≡ true
    → or_default p.coding_rate 1 ≤ 4
    → p.payload_bytes ≤ longer
    → (calculate_airtime p
        ≤ calculate_airtime (record p { spreading_factor = suc p.spreading_factor }))
      × (calculate_airtime p ≤ calculate_airtime (record p { payload_bytes = longer }))
unfolding chips
calculate_airtime_mono p longer low high valid rate more =
    let n = or_default p.preamble_symbols 8 in
    let slower = record p { spreading_factor = suc p.spreading_factor } in
    let bigger = record p { payload_bytes = longer } in
    let x = 20 * bit (not (or_default p.explicit_header false)) in
    let plus = 8 * p.payload_bytes + 28 + 16 * bit (or_default p.crc_enabled true) in
    let c = or_default p.coding_rate 1 in
    let fewer = blocks-step p.spreading_factor p.bandwidth plus x low high in
    let twice : 4 * n + 17 + 4 * symbols p ≤ 2 * (4 * n + 17 + 4 * symbols slower) =
      symbols-le n (blocks p.spreading_factor p.bandwidth plus x)
        (blocks (suc p.spreading_factor) p.bandwidth plus x) c rate fewer in
    let longer_plus : plus ≤ 8 * longer + 28 + 16 * bit (or_default p.crc_enabled true) =
      omega (arith, more) in
    let wider : symbols p ≤ symbols bigger = add_le 8 (
      mul-le-mul_right (c + 4)
        (blocks_mono p.spreading_factor p.bandwidth plus _ x low high longer_plus)) in
    (
      rw
          (
            airtime-run p low (omega (arith, high)) valid,
            airtime-run slower (omega (arith, low)) (omega (arith, high)) valid,
          )
          (double_symbol (4 * n + 17 + 4 * symbols p) (4 * n + 17 + 4 * symbols slower)
            (chips p.spreading_factor) (1000000 / p.bandwidth) twice),
      rw
          (
            airtime-run p low (omega (arith, high)) valid,
            airtime-run bigger low (omega (arith, high)) valid,
          )
          (more_quarters (4 * n + 17 + 4 * symbols p) (4 * n + 17 + 4 * symbols bigger)
            (chips p.spreading_factor) (1000000 / p.bandwidth) (omega (arith, wider))),
    )
