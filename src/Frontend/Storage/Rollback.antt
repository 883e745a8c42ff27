-- ===== src/Frontend/Storage/Rollback.antt =====
-- The rollback of an import.
use lo_ra_dbase.Common.{
  String, ◌≡◌, refl, sym, ap, ◌∙◌, inl, inr, false, Option, none, some, [], ◌∷◌, arith, eq_iff,
  ◌==◌, nat_eq, string_eq, if◌then◌else◌, Bool-cases, beq_refl, ne_of_beq, beq_of_ne,
}
use lo_ra_dbase.Frontend.Storage.{
  Store, Texts, get_item, SavedState, put_back, remove_item, set_item, write, import_frontend_data,
  restore_local_storage, storage_key, backup_local_storage, settings_key, backup_key,
}
use lo_ra_dbase.Http.{given?}

get-remove :
    (k j : String) (store : Store)
    → get_item j (remove_item k store) ≡ (if k == j then none else get_item j store)
unfolding get_item remove_item
get-remove k j [] = ground arith
get-remove k j ((i, text) ∷ store) = elim (Bool-cases (i == k)) [
  | inl t ↦
      let same : i ≡ k = (eq_iff i k).0 t in
      rw (same, beq_refl k) (ground (arith, get-remove k j store))
  | inr f ↦ elim (Bool-cases (i == j)) [
    | inl u ↦
        let same : i ≡ j = (eq_iff i j).0 u in
        let other : (k == j) ≡ false = beq_of_ne k j (λ e. ne_of_beq i k f (same ∙ sym e)) in
        rw (f, u, other) refl
    | inr u ↦ rw (f, u) (get-remove k j store)
  ]
]

get-set :
    (k j text : String) (store : Store)
    → get_item j (set_item k text store) ≡ (if k == j then some text else get_item j store)
unfolding get_item set_item
get-set k j text store = elim (Bool-cases (k == j)) [
  | inl t ↦ rw t refl
  | inr f ↦ rw f (get-remove k j store ∙ rw f refl)
]

-- the text of a key after a write that may have none
abbrev pub new_or : Option String → Option String → Option String
new_or none old = old
new_or (some text) old = some text

get-write :
    (k j : String) (text : Option String) (store : Store)
    → get_item j (write k text store)
      ≡ (if k == j then new_or text (get_item j store) else get_item j store)
get-write k j none store = ground arith
get-write k j (some text) store = get-set k j text store

put_back-other :
    (texts : Texts) (k j : String) (text : Option String) (store : Store)
    → (k == j) ≡ false
    → get_item j (put_back texts k text store) ≡ get_item j store
put_back-other texts k j none store n = refl
put_back-other texts k j (some text) store n = elim (Bool-cases (text == "")) [
  | inl t ↦ rw t refl
  | inr f ↦ rw f (get-set k j text store ∙ rw n refl)
]

put_back_self :
    (texts : Texts) (k : String) (text : Option String) (store : Store)
    → get_item k (put_back texts k text store) ≡ (if given? text then text else get_item k store)
put_back_self texts k none store = refl
put_back_self texts k (some text) store = elim (Bool-cases (text == "")) [
  | inl t ↦ rw t refl
  | inr f ↦ rw f (get-set k k text store ∙ rw (beq_refl k) refl)
]

module _ (texts : Texts) (store : Store) (dashboards settings : Option String) where
  abbrev pub saved : SavedState
  saved = record { dashboard = get_item storage_key store; settings = get_item settings_key store }

  -- the store after the import, and after the rollback
  abbrev pub imported : Store
  imported = import_frontend_data dashboards settings (backup_local_storage texts store).1

  abbrev pub rolled_back : Store
  rolled_back = restore_local_storage texts (backup_local_storage texts store).0 imported

  abbrev put_aside : Store
  put_aside = set_item backup_key (texts.of_state saved) store

  abbrev after_layout : Store
  after_layout = write storage_key dashboards put_aside

  imported-dashboard :
      get_item storage_key imported ≡ new_or dashboards (get_item storage_key store)
  unfolding import_frontend_data backup_local_storage
  imported-dashboard =
      get-write settings_key storage_key settings after_layout
      ∙ get-write storage_key storage_key dashboards put_aside
      ∙ ap (λ (o : Option String). new_or dashboards o)
          (get-set backup_key storage_key (texts.of_state saved) store)

  imported-settings : get_item settings_key imported ≡ new_or settings (get_item settings_key store)
  unfolding import_frontend_data backup_local_storage
  imported-settings =
      get-write settings_key settings_key settings after_layout
      ∙ ap (λ (o : Option String). new_or settings o)
          (get-write storage_key settings_key dashboards put_aside
            ∙ get-set backup_key settings_key (texts.of_state saved) store)

  imported-backup : get_item backup_key imported ≡ some (texts.of_state saved)
  unfolding import_frontend_data backup_local_storage
  imported-backup =
      get-write settings_key backup_key settings after_layout
      ∙ get-write storage_key backup_key dashboards put_aside
      ∙ get-set backup_key backup_key (texts.of_state saved) store

  abbrev first_back : Store
  first_back = put_back texts storage_key saved.dashboard imported

  module _ (parses : texts.state_of (texts.of_state saved) ≡ some saved)
      (not_empty : (texts.of_state saved == "") ≡ false) where
    rolled_back-run :
        rolled_back ≡ remove_item backup_key (put_back texts settings_key saved.settings first_back)
    unfolding restore_local_storage backup_local_storage
    rolled_back-run = rw (imported-backup, restore_local_storage, not_empty, parses) refl

    -- An import is rolled back, where the text of what was set aside is not empty and parses to what it was: the
    -- layout is again what it was before, if there was one, and else it is what the import wrote; the same
    -- holds of the settings; and nothing is left of the copy.
    pub rolled_back_lem :
        (get_item storage_key rolled_back ≡ (
          if given? (get_item storage_key store)
          then get_item storage_key store
          else new_or dashboards (get_item storage_key store)))
        × (get_item settings_key rolled_back ≡ (
            if given? (get_item settings_key store)
            then get_item settings_key store
            else new_or settings (get_item settings_key store)))
        × (get_item backup_key rolled_back ≡ none)
    rolled_back_lem =
        let last = put_back texts settings_key saved.settings first_back in
        rw rolled_back-run (
          get-remove backup_key storage_key last
              ∙ put_back-other texts settings_key storage_key saved.settings first_back refl
              ∙ put_back_self texts storage_key saved.dashboard imported
              ∙ ap (λ (o : Option String). if given? saved.dashboard then saved.dashboard else o)
                  imported-dashboard,
          get-remove backup_key settings_key last
              ∙ put_back_self texts settings_key saved.settings first_back
              ∙ ap (λ (o : Option String). if given? saved.settings then saved.settings else o)
                  (put_back-other texts storage_key settings_key saved.dashboard imported refl
                    ∙ imported-settings),
          get-remove backup_key backup_key last,
        )
