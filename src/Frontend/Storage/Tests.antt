-- ===== src/Frontend/Storage/Tests.antt =====
-- The theorem on the rollback at a concrete store.
use lo_ra_dbase.Common.{◌≡◌, refl, none, some, [], ◌∷◌, nat_eq, string_eq}
use lo_ra_dbase.Frontend.Storage.{Store, Texts, get_item, settings_key, storage_key, backup_key}
use lo_ra_dbase.Frontend.Storage.Rollback.{saved, rolled_back, rolled_back_lem}

abbrev texts : Texts
texts = record {
  of_layout = λ layout. layout.version;
  layout_of = λ text. none;
  of_state = λ s. "{}";
  state_of = λ text. some (record { dashboard = none; settings = some "true" });
}

-- settings but no layout; the import brings a layout, and the rollback leaves it
abbrev store : Store
store = (settings_key, "true") ∷ []

parses :
    texts.state_of (texts.of_state (saved texts store none none))
    ≡ some (saved texts store none none)
unfolding get_item
parses = refl

rolled_back_lem_example :
    (get_item storage_key (rolled_back texts store (some "new") (some "false")) ≡ some "new")
    × (get_item settings_key (rolled_back texts store (some "new") (some "false")) ≡ some "true")
    × (get_item backup_key (rolled_back texts store (some "new") (some "false")) ≡ none)
unfolding get_item
rolled_back_lem_example = rolled_back_lem texts store (some "new") (some "false") parses refl
