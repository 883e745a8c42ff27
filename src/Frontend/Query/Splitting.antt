-- ===== src/Frontend/Query/Splitting.antt =====
-- Joining fields to a clause, and taking the clause apart again.
use lo_ra_dbase.Common.{
  Char, code, String, ◌≡◌, refl, sym, ap, ◌∙◌, inl, inr, true, false, List, [], ◌∷◌, arith, ◌==◌,
  nat_eq, string_eq, Bool-cases, All,
}
use Prim.Native.String.append
use Prim.Native.String.{[], ◌∷◌, ◌++◌ as append_text}
use lo_ra_dbase.Text
use lo_ra_dbase.Text.{is_space}
use lo_ra_dbase.Frontend.Query.Matching.{IsField, is_plain, comma_text, plain-tail}
use lo_ra_dbase.Frontend.Query.{join_fields}
use lo_ra_dbase.Frontend.Select.{is_lower, non_empty, trim_all, is_frame_type}

pub plain-space :
    (c : Char) (f : String) → Text.all_chars is_plain (c ∷ f) ≡ true → is_space (code c) ≡ false
unfolding Text.all_chars
plain-space c f h = ground arith

plain-comma :
    (c : Char) (f : String) → Text.all_chars is_plain (c ∷ f) ≡ true → (code c == 44) ≡ false
unfolding Text.all_chars
plain-comma c f h = ground arith

trim_end-plain :
    (c : Char) (f : String) → Text.all_chars is_plain (c ∷ f) ≡ true → Text.trim_end (c ∷ f) ≡ c ∷ f
unfolding Text.trim_end
trim_end-plain c [] h = rw (plain-space c [] h) refl
trim_end-plain c (d ∷ f) h = rw (trim_end-plain d f (plain-tail c (d ∷ f) h)) refl

trim_end-over :
    (s : String) (c : Char) (t : String)
    → Text.trim_end (c ∷ t) ≡ c ∷ t
    → Text.trim_end (append_text s (c ∷ t)) ≡ append_text s (c ∷ t)
unfolding Text.trim_end
trim_end-over [] c t h = rw (append.nil (c ∷ t)) h
trim_end-over (d ∷ []) c t h = rw (append.cons d [] (c ∷ t), append.nil (c ∷ t)) (rw h refl)
trim_end-over (d ∷ (e ∷ s)) c t h =
    let rest : Text.trim_end (e ∷ append_text s (c ∷ t)) ≡ e ∷ append_text s (c ∷ t) =
      ap Text.trim_end (sym (append.cons e s (c ∷ t)))
      ∙ trim_end-over (e ∷ s) c t h
      ∙ append.cons e s (c ∷ t) in
    rw (append.cons d (e ∷ s) (c ∷ t), append.cons e s (c ∷ t)) (rw rest refl)

pub join-cons :
    (c : Char) (f : String) (fields : List String)
    → (u : String) × (join_fields ((c ∷ f) ∷ fields) ≡ c ∷ u)
unfolding join_fields
join-cons c f [] = (f, refl)
join-cons c f (g ∷ fields) =
    (append_text f (append_text ", " (join_fields (g ∷ fields))), append.cons c f _)

trim_end-join :
    (f : String) (fields : List String)
    → IsField f
    → All IsField fields
    → Text.trim_end (join_fields (f ∷ fields)) ≡ join_fields (f ∷ fields)
unfolding join_fields
trim_end-join [] fields h hs = absurd (cc h.given)
trim_end-join (c ∷ f) [] h hs = trim_end-plain c f h.plain
trim_end-join (c ∷ f) ([] ∷ fields) h (hg, hs) = absurd (cc hg.given)
trim_end-join (c ∷ f) ((d ∷ g) ∷ fields) h (hg, hs) =
    let (u, shape) = join-cons d g fields in
    let rest : Text.trim_end (d ∷ u) ≡ d ∷ u = rw (← shape) (trim_end-join (d ∷ g) fields hg hs) in
    let comma : Text.trim_end ("," ∷ (" " ∷ (d ∷ u))) ≡ "," ∷ (" " ∷ (d ∷ u)) =
      rw (← comma_text (d ∷ u)) (trim_end-over ", " d u rest) in
    rw (shape, comma_text (d ∷ u)) (trim_end-over (c ∷ f) "," (" " ∷ (d ∷ u)) comma)

pub trim-join :
    (f : String) (fields : List String)
    → IsField f
    → All IsField fields
    → Text.trim (join_fields (f ∷ fields)) ≡ join_fields (f ∷ fields)
unfolding Text.trim Text.trim_start
trim-join [] fields h hs = absurd (cc h.given)
trim-join (c ∷ f) fields h hs =
    let (u, shape) = join-cons c f fields in
    let starts : Text.trim_start (join_fields ((c ∷ f) ∷ fields)) ≡ join_fields ((c ∷ f) ∷ fields) =
      rw shape (rw (plain-space c f h.plain) refl) in
    ap Text.trim_end starts ∙ trim_end-join (c ∷ f) fields h hs

pub trim-field : (f : String) → IsField f → Text.trim f ≡ f
trim-field f h = unfold join_fields in trim-join f [] h tt

split-over :
    (f t : String)
    → Text.all_chars is_plain f ≡ true
    → Text.split 44 (append_text f ("," ∷ t)) ≡ f ∷ Text.split 44 t
unfolding Text.split
split-over [] t h = rw (append.nil ("," ∷ t)) refl
split-over (c ∷ f) t h =
    rw (append.cons c f ("," ∷ t), plain-comma c f h, split-over f t (plain-tail c f h)) refl

pub split-plain : (f : String) → Text.includes 44 f ≡ false → Text.split 44 f ≡ f ∷ []
unfolding Text.split Text.includes
split-plain [] h = refl
split-plain (c ∷ f) h =
    let other : (code c == 44) ≡ false = ground arith in
    rw (other, split-plain f (ground arith)) refl

pub plain_has_no_comma :
    (f : String) → Text.all_chars is_plain f ≡ true → Text.includes 44 f ≡ false
unfolding Text.includes
plain_has_no_comma [] h = refl
plain_has_no_comma (c ∷ f) h = rw (plain-comma c f h) (plain_has_no_comma f (plain-tail c f h))

trim_all-blank : (t : String) → trim_all (Text.split 44 (" " ∷ t)) ≡ trim_all (Text.split 44 t)
unfolding trim_all Text.split Text.trim Text.trim_start
trim_all-blank t = go (Text.split 44 t)
  where
    go :
        (parts : List String) → trim_all (Text.on_first (λ part. " " ∷ part) parts) ≡ trim_all parts
    go [] = refl
    go (p ∷ parts) = refl

pub parts_of_join :
    (f : String) (fields : List String)
    → IsField f
    → All IsField fields
    → trim_all (Text.split 44 (join_fields (f ∷ fields))) ≡ f ∷ fields
unfolding trim_all join_fields
parts_of_join f [] h hs = rw (split-plain f (plain_has_no_comma f h.plain), trim-field f h) refl
parts_of_join f (g ∷ fields) h (hg, hs) =
    let rest = parts_of_join g fields hg hs in
    rw
      (
        comma_text (join_fields (g ∷ fields)),
        split-over f (" " ∷ join_fields (g ∷ fields)) h.plain,
        trim-field f h,
        trim_all-blank (join_fields (g ∷ fields)),
        rest,
      )
      refl

pub non_empty-fields : (fields : List String) → All IsField fields → non_empty fields ≡ fields
unfolding non_empty
non_empty-fields [] hs = refl
non_empty-fields (f ∷ fields) (h, hs) = rw (h.given, non_empty-fields fields hs) refl

pub lower_has_no_comma :
    (word t : String)
    → is_lower word t ≡ true
    → Text.includes 44 word ≡ false
    → Text.includes 44 t ≡ false
unfolding is_lower Text.includes
lower_has_no_comma [] [] h n = refl
lower_has_no_comma [] (k ∷ t) h n = absurd (cc h)
lower_has_no_comma (c ∷ word) [] h n = refl
lower_has_no_comma (c ∷ word) (k ∷ t) h n =
    let rest = lower_has_no_comma word t (ground arith) (ground arith) in
    let other : (code k == 44) ≡ false = ground arith in rw (other, rest) refl

pub frame_has_no_comma : (t : String) → is_frame_type t ≡ true → Text.includes 44 t ≡ false
unfolding Text.includes
frame_has_no_comma t h = elim (Bool-cases (is_lower "uplink" t)) [
  | inl a ↦ lower_has_no_comma "uplink" t a refl
  | inr a ↦ elim (Bool-cases (is_lower "downlink" t)) [
    | inl b ↦ lower_has_no_comma "downlink" t b refl
    | inr b ↦ elim (Bool-cases (is_lower "join" t)) [
      | inl c ↦ lower_has_no_comma "join" t c refl
      | inr c ↦ lower_has_no_comma "decoded_payload" t (ground (arith, h, a, b, c)) refl
    ]
  ]
]
