-- ===== src/Frontend/Query/RoundTrip.antt =====
-- The parser reads from a built query the fields that it was built from.
use lo_ra_dbase.Common.{
  Char, code, String, ◌≡◌, refl, sym, ap, ◌∙◌, inl, inr, true, false, Option, none, some, List, [],
  ◌∷◌, eq_iff, ◌==◌, nat_eq, string_eq, Bool-cases, Option-cases, All,
}
use Prim.Native.String.append
use Prim.Native.String.{[], ◌∷◌, ◌++◌ as append_text}
use lo_ra_dbase.Text
use lo_ra_dbase.Text.{is_space}
use lo_ra_dbase.Frontend.Query.Matching.{IsField, after_word-append, lazy-fields}
use lo_ra_dbase.Frontend.Query.{
  join_fields, QueryConfig, quoted, where_clause, FrameType, build_query, frame_clause, all, uplink,
  join, decoded_payload, custom, select_clause,
}
use lo_ra_dbase.Frontend.Select.{
  fields_of, non_empty, trim_all, is_frame_type, then_from, after_word, after_blanks, find_select,
  lazy, parse_select_fields, at_select,
}
use lo_ra_dbase.Text.Prefix.{append_texts_assoc}
use lo_ra_dbase.Frontend.Query.Splitting.{
  frame_has_no_comma, parts_of_join, split-plain, non_empty-fields, trim-join, join-cons,
  plain-space,
}
use lo_ra_dbase.Servers.{is_some}

module _ (f : String) (fields : List String) (h : IsField f) (hs : All IsField fields) where
  abbrev clause : String
  clause = join_fields (f ∷ fields)

  parts : non_empty (trim_all (Text.split 44 clause)) ≡ f ∷ fields
  parts = ap non_empty (parts_of_join f fields h hs) ∙ non_empty-fields (f ∷ fields) (h, hs)

  clause_given : (clause == "") ≡ false
  clause_given = elim (Bool-cases (clause == "")) [
    | inr e ↦ e
    | inl e ↦
        let same : clause ≡ "" = (eq_iff clause "").0 e in
        let none_left : non_empty (trim_all (Text.split 44 "")) ≡ f ∷ fields = rw (← same) parts in
        absurd (
          unfold non_empty trim_all Text.split Text.trim Text.trim_start Text.trim_end in
          cc none_left)
  ]

  -- a clause without a comma is the one field
  single : Text.includes 44 clause ≡ false → ◌≡◌ {A = List String} (f ∷ fields) (clause ∷ [])
  unfolding trim_all non_empty
  single plain =
      sym parts
      ∙ ap (λ (xs : List String). non_empty (trim_all xs)) (split-plain clause plain)
      ∙ rw (trim-join f fields h hs, clause_given) refl

  fields_of-join : fields_of clause ≡ some (f ∷ fields)
  unfolding fields_of
  fields_of-join = elim (Bool-cases (clause == "*")) [
    | inl star ↦
        let same : clause ≡ "*" = (eq_iff clause "*").0 star in
        let plain : Text.includes 44 clause ≡ false = rw same (unfold Text.includes in refl) in
        rw star (ap some (ap (λ (s : String). s ∷ []) (sym same) ∙ sym (single plain)))
    | inr other ↦ elim (Bool-cases (is_frame_type clause)) [
      | inl frame ↦ rw (other, frame) (ap some (sym (single (frame_has_no_comma clause frame))))
      | inr no_frame ↦ rw (other, no_frame, parts) refl
    ]
  ]

tail_text :
    (u : String)
    → append_text " FROM device " u ≡ " " ∷ append_text "FROM" (append_text " device " u)
tail_text u =
    append_texts_assoc " " "FROM device " u
    ∙ append.cons " " [] (append_text "FROM device " u)
    ∙ ap (λ (s : String). " " ∷ s)
        (append.nil (append_text "FROM device " u) ∙ append_texts_assoc "FROM" " device " u)

tail_stops : (u : String) → then_from (" " ∷ append_text "FROM" u) ≡ true
unfolding then_from Text.trim_start
tail_stops u =
    let starts : Text.trim_start (append_text "FROM" u) ≡ append_text "FROM" u =
      rw (append.cons "F" "ROM" u) refl in
    let word : after_word "FROM" (append_text "FROM" u) ≡ some u =
      after_word-append "FROM" u refl in
    ap (λ (s : String). is_some (after_word "FROM" s)) starts
    ∙ ap (λ (o : Option String). is_some o) word

select_text : (x : String) → append_text "SELECT " x ≡ append_text "SELECT" (" " ∷ x)
select_text x =
    append_texts_assoc "SELECT" " " x
    ∙ ap (λ (s : String). append_text "SELECT" s)
        (append.cons " " [] x ∙ ap (λ (s : String). " " ∷ s) (append.nil x))

after_blanks-word :
    (c : Char) (t r : String)
    → is_space (code c) ≡ false
    → lazy (c ∷ t) ≡ some r
    → after_blanks (" " ∷ (c ∷ t)) ≡ some r
unfolding after_blanks
after_blanks-word c t r n l = rw (n, l, after_blanks) refl

first_of_body :
    (f : String) (fields : List String) (z : String)
    → IsField f
    → (c : Char) × (t : String) × (append_text (join_fields (f ∷ fields)) z ≡ c ∷ t)
      × (is_space (code c) ≡ false)
first_of_body [] fields z h = absurd (cc h.given)
first_of_body (c ∷ f) fields z h =
    let (v, shape) = join-cons c f fields in
    (
      c,
      append_text v z,
      ap (λ (s : String). append_text s z) shape ∙ append.cons c v z,
      plain-space c f h.plain,
    )

cons_not_empty : (c : Char) (t : String) → (◌==◌ {A = String} (c ∷ t) "") ≡ false
cons_not_empty c t =
    let s : String = c ∷ t in
    elim (Bool-cases (s == "")) [
      | inr e ↦ e
      | inl e ↦ let same : s ≡ "" = (eq_iff s "").0 e in absurd (cc same)
    ]

module _ (f : String) (fields : List String) (h : IsField f) (hs : All IsField fields)
    (u : String) where
  abbrev body : String
  body = append_text (join_fields (f ∷ fields)) (append_text " FROM device " u)

  body-lazy : lazy body ≡ some (join_fields (f ∷ fields))
  body-lazy = rw (tail_text u) (
      lazy-fields " " (append_text "FROM" (append_text " device " u)) refl
        (tail_stops (append_text " device " u)) f fields h hs)

  body-blanks : after_blanks (" " ∷ body) ≡ some (join_fields (f ∷ fields))
  body-blanks =
      let (c, t, shape, plain) = first_of_body f fields (append_text " FROM device " u) h in
      let l : lazy (c ∷ t) ≡ some (join_fields (f ∷ fields)) = rw (← shape) body-lazy in
      rw shape (after_blanks-word c t (join_fields (f ∷ fields)) plain l)

  found : find_select (append_text "SELECT " body) ≡ some (join_fields (f ∷ fields))
  unfolding find_select
  found =
      let word : after_word "SELECT" (append_text "SELECT" (" " ∷ body)) ≡ some (" " ∷ body) =
        after_word-append "SELECT" (" " ∷ body) refl in
      let start : at_select (append_text "SELECT" (" " ∷ body)) ≡ some (join_fields (f ∷ fields)) =
        ap
          (λ (o : Option String). elim o as (λ x. Option String) [
            | none ↦ none
            | some rest ↦ after_blanks rest
          ])
          word
        ∙ body-blanks in
      let shape : append_text "SELECT" (" " ∷ body) ≡ "S" ∷ append_text "ELECT" (" " ∷ body) =
        append.cons "S" "ELECT" (" " ∷ body) in
      let begun : at_select ("S" ∷ append_text "ELECT" (" " ∷ body))
          ≡ some (join_fields (f ∷ fields)) =
        ap at_select (sym shape) ∙ start in
      ap find_select (select_text body ∙ shape) ∙ rw (begun, find_select) refl

  parsed : parse_select_fields (append_text "SELECT " body) ≡ some (f ∷ fields)
  unfolding parse_select_fields
  parsed =
      let shape = select_text body ∙ append.cons "S" "ELECT" (" " ∷ body) in
      let given : (append_text "SELECT " body == "") ≡ false =
        ap (λ (s : String). s == "") shape
        ∙ cons_not_empty "S" (append_text "ELECT" (" " ∷ body)) in
      rw (given, found, parse_select_fields, trim-join f fields h hs) (fields_of-join f fields h hs)

-- the fields that a query is built from: the custom ones, or the one that the frame type stands for
abbrev pub selected : QueryConfig → List String
selected config = elim config.custom_fields [
  | none ↦ frame_clause config.frame_type ∷ []
  | some [] ↦ frame_clause config.frame_type ∷ []
  | some (f ∷ fields) ↦ f ∷ fields
]

abbrev pub custom_of : QueryConfig → List String
custom_of config = elim config.custom_fields [ none ↦ [] | some fields ↦ fields ]

frame-IsField : (t : FrameType) → IsField (frame_clause t)
unfolding Text.all_chars after_word
frame-IsField all = record { plain = refl; given = refl; no_from = refl }
frame-IsField uplink = record { plain = refl; given = refl; no_from = refl }
frame-IsField join = record { plain = refl; given = refl; no_from = refl }
frame-IsField decoded_payload = record { plain = refl; given = refl; no_from = refl }
frame-IsField custom = record { plain = refl; given = refl; no_from = refl }

selected_fields :
    (config : QueryConfig)
    → All IsField (custom_of config)
    → (f : String) × (fields : List String) × (selected config ≡ f ∷ fields)
      × (select_clause config ≡ join_fields (f ∷ fields))
      × IsField f
      × All IsField fields
unfolding select_clause join_fields
selected_fields config hs = elim (Option-cases config.custom_fields) [
  | inl absent ↦ (
    frame_clause config.frame_type,
    [],
    rw absent refl,
    rw (absent, select_clause) refl,
    frame-IsField config.frame_type,
    tt,
  )
  | inr (fields, found) ↦ go fields found
]
  where
    go :
        (xs : List String)
        → config.custom_fields ≡ some xs
        → (f : String) × (fields : List String) × (selected config ≡ f ∷ fields)
          × (select_clause config ≡ join_fields (f ∷ fields))
          × IsField f
          × All IsField fields
    go [] found = (
      frame_clause config.frame_type,
      [],
      rw found refl,
      rw (found, select_clause) refl,
      frame-IsField config.frame_type,
      tt,
    )
    go (f ∷ fields) found =
        let (h, more) : All IsField (f ∷ fields) = rw found at hs in
        (f, fields, rw found refl, rw (found, select_clause) refl, h, more)

-- From the query that is built of a configuration the parser reads the fields that it was built from, in
-- their order: the custom fields, or `*`, or the one frame type. This holds for every device and every time
-- range, if each custom field has a character, has neither white space nor a comma, and does not begin
-- with FROM in any case.
pub build_query-parse_select_fields :
    (config : QueryConfig)
    → All IsField (custom_of config)
    → parse_select_fields (build_query config) ≡ some (selected config)
unfolding build_query
build_query-parse_select_fields config hs =
    let u = append_text (quoted config.dev_eui) (where_clause config) in
    let (f, fields, chosen, text, h, more) = selected_fields config hs in
    ap parse_select_fields (
      ap (λ (s : String). append_text "SELECT " (append_text s (append_text " FROM device " u)))
        text)
    ∙ parsed f fields h more u
    ∙ ap some (sym chosen)
