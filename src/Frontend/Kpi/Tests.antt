-- ===== src/Frontend/Kpi/Tests.antt =====
-- The theorem on airtimes at a concrete packet.
use lo_ra_dbase.Common.{◌≤◌, ◌≡◌, refl, true, none, some, arith, nat_eq, string_eq}
use lo_ra_dbase.Frontend.Kpi.{AirtimeParams, calculate_airtime, chips}
use lo_ra_dbase.Frontend.Kpi.Airtime.{calculate_airtime_mono}

abbrev packet : AirtimeParams
packet = record {
  spreading_factor = 10;
  bandwidth = 125000;
  payload_bytes = 20;
  coding_rate = none;
  preamble_symbols = none;
  explicit_header = none;
  crc_enabled = none;
}

-- 329.728 ms with the implicit header that the source takes by default; the explicit header of LoRaWAN
-- makes it 370.688 ms
packet_lem : calculate_airtime packet ≡ 329728
unfolding calculate_airtime chips
packet_lem = refl

explicit_lem : calculate_airtime (record packet { explicit_header = some true }) ≡ 370688
unfolding calculate_airtime chips
explicit_lem = refl

calculate_airtime_mono_example :
    (calculate_airtime packet ≤ calculate_airtime (record packet { spreading_factor = 11 }))
    × (calculate_airtime packet ≤ calculate_airtime (record packet { payload_bytes = 51 }))
calculate_airtime_mono_example =
    calculate_airtime_mono packet 51 (omega arith) (omega arith) refl (omega arith) (omega arith)
