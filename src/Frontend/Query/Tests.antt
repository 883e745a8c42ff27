-- ===== src/Frontend/Query/Tests.antt =====
-- The theorem on queries at concrete values.
use lo_ra_dbase.Common.{◌≡◌, refl, none, some, [], ◌∷◌, nat_eq, string_eq, All}
use lo_ra_dbase.Text
use lo_ra_dbase.Frontend.Query.{
  QueryConfig, build_query, validate_query_config, is_positive, select_clause, uplink, join_fields,
  last, positive_digits, h, where_clause,
}
use lo_ra_dbase.Frontend.Select.{
  after_word, parse_select_fields, find_select, after_blanks, lazy, then_from, fields_of, is_lower,
  trim_all, non_empty,
}
use lo_ra_dbase.Frontend.Query.Matching.{IsField}
use lo_ra_dbase.Frontend.Query.RoundTrip.{build_query-parse_select_fields}

abbrev config : QueryConfig
config = record {
  dev_eui = "0123456789ABCDEF";
  frame_type = uplink;
  time_range_type = last;
  last_duration = some "24";
  last_unit = some h;
  since_date = none;
  start_date = none;
  end_date = none;
  custom_fields = some ("f_port" ∷ "rssi" ∷ []);
}

query_lem :
    build_query config ≡ "SELECT f_port, rssi FROM device '0123456789ABCDEF' WHERE LAST '24h'"
unfolding build_query select_clause join_fields where_clause
query_lem = refl

valid_lem : validate_query_config (λ t. none) config ≡ none
unfolding validate_query_config is_positive positive_digits Text.trim Text.trim_start Text.trim_end
valid_lem = refl

-- a second field that begins with FROM ends the clause
cut_lem : parse_select_fields "SELECT f_port, from_gateway FROM device 'A'" ≡ some ("f_port" ∷ [])
unfolding parse_select_fields find_select after_blanks lazy then_from after_word fields_of is_lower
    trim_all non_empty Text.trim Text.trim_start Text.trim_end Text.split
cut_lem = refl

fields-AreFields : All IsField ("f_port" ∷ "rssi" ∷ [])
unfolding Text.all_chars after_word
fields-AreFields = (
  record { plain = refl; given = refl; no_from = refl },
  (record { plain = refl; given = refl; no_from = refl }, tt),
)

build_query-parse_select_fields_example :
    parse_select_fields (build_query config) ≡ some ("f_port" ∷ "rssi" ∷ [])
build_query-parse_select_fields_example = build_query-parse_select_fields config fields-AreFields
