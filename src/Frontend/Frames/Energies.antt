-- ===== src/Frontend/Frames/Energies.antt =====
-- The energies of frames, in the order in which the source adds them.
use lo_ra_dbase.Common.{
  ℕ, Option, none, some, List, [], ◌∷◌, ◌==◌, nat_eq, string_eq, if◌then◌else◌,
}
use lo_ra_dbase.Frontend.Frames.{FrameData, Energy, airtime_of}

module _ {E : Type 0} (num : Energy E) (tx_current_ma : ℕ) where
  -- the energies of the frames whose spreading factor and bandwidth are known
  pub energies : List FrameData → List (ℕ × E)
  energies [] = []
  energies (frame ∷ frames) = elim (airtime_of frame) [
    | none ↦ energies frames
    | some (sf, airtime) ↦ (sf, num.of airtime tx_current_ma) ∷ energies frames
  ]

  -- a sum from the left, from what there is so far
  pub sum_from : E → List (ℕ × E) → E
  sum_from so_far [] = so_far
  sum_from so_far ((sf, energy) ∷ rest) = sum_from (num.add so_far energy) rest

  abbrev pub more : Option E → E → Option E
  more none energy = some (num.add num.nought energy)
  more (some e) energy = some (num.add (num.or_nought e) energy)

  -- the same of the energies of one spreading factor, which may have nothing so far
  pub sum_of_factor : ℕ → Option E → List (ℕ × E) → Option E
  sum_of_factor sf so_far [] = so_far
  sum_of_factor sf so_far ((k, energy) ∷ rest) =
      sum_of_factor sf (if k == sf then more so_far energy else so_far) rest

  abbrev pub energy_of : ℕ → List (ℕ × E) → Option E
  energy_of sf [] = none
  energy_of sf ((k, e) ∷ rest) = if k == sf then some e else energy_of sf rest
