-- ===== src/Frontend/Frames/Tests.antt =====
-- The theorems on frames at concrete frames.
use lo_ra_dbase.Common.{ℕ, ◌+◌, ◌*◌, ◌≡◌, refl, none, some, [], ◌∷◌, nat_eq, string_eq}
use lo_ra_dbase.Table.{count}
use lo_ra_dbase.Frontend.Frames.{
  FrameData, Energy, analyze_spreading_factor, get_spreading_factor, map_data_rate,
}
use lo_ra_dbase.Frontend.Frames.Totals.{is_known, analyze_spreading_factor-total}

abbrev frame : FrameData
frame = record {
  dr = some (record {
    lora = some (record { bandwidth = some 125000; spreading_factor = some 10 });
    bandwidth = none;
    spreading_factor = none;
  });
  frequency = some 868100000;
  raw_payload = some "AQIDBA==";
  received_at = "2025-02-01T00:00:00Z";
}

-- a data rate in the place of a spreading factor, in the band that US915 and AS923 share
abbrev shared : FrameData
shared = record frame {
  dr = some (record { lora = none; bandwidth = none; spreading_factor = some 2 });
  frequency = some 920000000;
}

-- the table of US915 is taken: that of AS923 would give SF10
shared_lem : get_spreading_factor shared ≡ some 8
unfolding get_spreading_factor map_data_rate
shared_lem = refl

analyze_spreading_factor-total_example :
    (analyze_spreading_factor (frame ∷ shared ∷ [])).1 ≡ count is_known (frame ∷ shared ∷ [])
analyze_spreading_factor-total_example = analyze_spreading_factor-total (frame ∷ shared ∷ [])

-- charges in milliamperes times microseconds
abbrev charge : Energy ℕ
charge = record {
  nought = 0;
  add = λ a b. a + b;
  or_nought = λ e. e;
  of = λ airtime ma. airtime * ma;
}
