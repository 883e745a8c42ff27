-- ===== src/Frontend/Frames/Totals.antt =====
-- The distribution counts every frame whose spreading factor is known.
use lo_ra_dbase.Common.{
  ℕ, suc, ◌+◌, ◌≤◌, ◌≡◌, inl, inr, Bool, true, false, not, ◌&&◌, ◌||◌, Option, none, some, List, [],
  ◌∷◌, arith, leb, ◌==◌, nat_eq, string_eq, if◌then◌else◌, Bool-cases, Option-cases,
}
use lo_ra_dbase.Table.{count}
use lo_ra_dbase.Frontend.Frames.{
  DataRate, eu868, get_spreading_factor, map_data_rate, read_rate, us915, FrameData, direct_factor,
  is_between, or_standard, nested, SpreadingFactorDistribution, analyze_spreading_factor,
  count_factor, count_frames, no_frames, total_of,
}

us915-bounds : (dr sf : ℕ) → us915 dr ≡ some sf → (7 ≤ sf) × (sf ≤ 12)
us915-bounds dr sf h = ground arith

eu868-bounds : (dr sf : ℕ) → eu868 dr ≡ some sf → (7 ≤ sf) × (sf ≤ 12)
eu868-bounds dr sf h = ground arith

map_data_rate-bounds :
    (dr bandwidth : ℕ) (frequency : Option ℕ) (sf : ℕ)
    → map_data_rate dr bandwidth frequency ≡ some sf
    → (7 ≤ sf) × (sf ≤ 12)
unfolding map_data_rate
map_data_rate-bounds dr bandwidth frequency sf h =
    elim (Bool-cases (is_between frequency 902000000 928000000 || bandwidth == 500000)) [
      | inl t ↦ us915-bounds dr sf (rw t at h)
      | inr f ↦
          elim (Bool-cases (is_between frequency 863000000 870000000 || bandwidth == 125000)) [
            | inl t ↦ eu868-bounds dr sf (rw (f, t) at h)
            | inr g ↦
                elim (Bool-cases (
                  is_between frequency 915000000 928000000
                  && not (is_between frequency 902000000 928000000))) [
                    | inl t ↦ eu868-bounds dr sf (rw (f, g, t) at h)
                    | inr n ↦ absurd (cc (rw (f, g, n) at h))
                  ]
          ]
    ]

read_rate-bounds :
    (rate : ℕ) (bandwidth frequency : Option ℕ) (sf : ℕ)
    → read_rate rate bandwidth frequency ≡ some sf
    → (7 ≤ sf) × (sf ≤ 12)
read_rate-bounds rate bandwidth frequency sf h = elim (Bool-cases (leb 7 rate && leb rate 12)) [
  | inl t ↦ ground (arith, h, t)
  | inr f ↦ map_data_rate-bounds rate (or_standard bandwidth) frequency sf (rw f at h)
]

direct-bounds :
    (dr : Option DataRate) (frequency : Option ℕ) (sf : ℕ)
    → direct_factor dr frequency ≡ some sf
    → (7 ≤ sf) × (sf ≤ 12)
direct-bounds none frequency sf h = absurd (cc h)
direct-bounds (some dr) frequency sf h = elim (Option-cases dr.spreading_factor) [
  | inl absent ↦ absurd (cc (rw absent at h))
  | inr (rate, found) ↦ read_rate-bounds rate dr.bandwidth frequency sf (rw found at h)
]

factor-bounds :
    (frame : FrameData) (sf : ℕ) → get_spreading_factor frame ≡ some sf → (7 ≤ sf) × (sf ≤ 12)
unfolding get_spreading_factor
factor-bounds frame sf h = elim (Option-cases (nested frame.dr)) [
  | inl absent ↦ direct-bounds frame.dr frame.frequency sf (rw (absent, get_spreading_factor) at h)
  | inr (lora, there) ↦ elim (Option-cases lora.spreading_factor) [
    | inl absent ↦
        direct-bounds frame.dr frame.frequency sf (rw (there, get_spreading_factor, absent) at h)
    | inr (rate, found) ↦
        read_rate-bounds rate lora.bandwidth frame.frequency sf
          (rw (there, get_spreading_factor, found) at h)
  ]
]

abbrev pub is_known : FrameData → Bool
is_known frame = elim (get_spreading_factor frame) [ none ↦ false | some _ ↦ true ]

count_factor-total :
    (sf : ℕ) (d : SpreadingFactorDistribution)
    → 7 ≤ sf
    → sf ≤ 12
    → total_of (count_factor (some sf) d) ≡ suc (total_of d)
unfolding count_factor
count_factor-total sf d low high = ground (arith, low, high)

frame-total :
    (frame : FrameData) (d : SpreadingFactorDistribution)
    → total_of (count_factor (get_spreading_factor frame) d)
      ≡ (if is_known frame then 1 else 0) + total_of d
unfolding count_factor
frame-total frame d = elim (Option-cases (get_spreading_factor frame)) [
  | inl absent ↦ rw (absent, is_known) (omega arith)
  | inr (sf, found) ↦
      let bounds = factor-bounds frame sf found in
      rw (found, is_known) (omega (arith, count_factor-total sf d bounds.0 bounds.1))
]

count_frames-total :
    (frames : List FrameData) (d : SpreadingFactorDistribution)
    → total_of (count_frames frames d) ≡ count is_known frames + total_of d
unfolding count_frames count
count_frames-total [] d = omega arith
count_frames-total (frame ∷ frames) d = omega (
  arith,
  count_frames-total frames (count_factor (get_spreading_factor frame) d),
  frame-total frame d,
)

-- The total of a distribution is the number of frames whose spreading factor is known: none of them falls
-- outside SF7 to SF12, and none is counted twice.
pub analyze_spreading_factor-total :
    (frames : List FrameData) → (analyze_spreading_factor frames).1 ≡ count is_known frames
unfolding analyze_spreading_factor
analyze_spreading_factor-total frames = omega (arith, count_frames-total frames no_frames)
