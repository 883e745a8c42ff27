-- ===== src/Frontend/Query/Matching.antt =====
-- What the regular expression for the SELECT clause finds in the text of a query.
use lo_ra_dbase.Common.{
  ℕ, Char, code, String, ◌≡◌, refl, ap, ◌∙◌, inl, inr, Bool, true, false, not, ◌&&◌, none, some,
  List, [], ◌∷◌, arith, ◌==◌, nat_eq, string_eq, Bool-cases, All,
}
use Prim.Native.String.append
use Prim.Native.String.{[], ◌∷◌, ◌++◌ as append_text}
use lo_ra_dbase.Text
use lo_ra_dbase.Text.{is_space}
use lo_ra_dbase.Frontend.Query.{join_fields}
use lo_ra_dbase.Frontend.Select.{after_word, upper, is_newline, lazy, then_from}
use lo_ra_dbase.Text.Prefix.{append_texts_assoc}

-- the text has a character, and each is neither white space nor a comma
abbrev pub is_plain : ℕ → Bool
is_plain c = not (is_space c) && not (c == b',')

abbrev pub starts_with_from : String → Bool
starts_with_from f = elim (after_word "FROM" f) [ none ↦ false | some _ ↦ true ]

-- a field that the parser takes: a character or more, none of them white space or a comma, and not FROM at
-- the start
pub record IsField (f : String) : Type 0 where
  pub plain : Text.all_chars is_plain f ≡ true
  pub given : (f == "") ≡ false
  pub no_from : after_word "FROM" f ≡ none

-- the word is in upper case
abbrev is_upper_word : String → Bool
is_upper_word [] = true
is_upper_word (c ∷ word) = upper (code c) == code c && is_upper_word word

pub after_word-append :
    (word t : String) → is_upper_word word ≡ true → after_word word (append_text word t) ≡ some t
unfolding after_word
after_word-append [] t h = rw (append.nil t) refl
after_word-append (c ∷ word) t h =
    let rest = after_word-append word t (ground arith) in
    rw (append.cons c word t) (ground (arith, rest))

-- the character stands nowhere in the word
abbrev is_foreign : ℕ → String → Bool
is_foreign k [] = true
is_foreign k (c ∷ word) = not (upper k == code c) && is_foreign k word

-- a word that a text does not begin with is not made by what follows it
pub after_word-blocked :
    (word f t : String) (k : Char)
    → is_foreign (code k) word ≡ true
    → after_word word f ≡ none
    → after_word word (append_text f (k ∷ t)) ≡ none
unfolding after_word
after_word-blocked [] f t k h e = absurd (cc e)
after_word-blocked (c ∷ word) [] t k h e = rw (append.nil (k ∷ t)) (ground arith)
after_word-blocked (c ∷ word) (d ∷ f) t k h e = elim (Bool-cases (upper (code d) == code c)) [
  | inr n ↦ rw (append.cons d f (k ∷ t), n) refl
  | inl y ↦
      rw (append.cons d f (k ∷ t), y) (after_word-blocked word f t k (ground arith) (ground arith))
]

newline_is_space : (k : ℕ) → is_space k ≡ false → is_newline k ≡ false
newline_is_space k h = ground arith

pub trim_start-plain :
    (f t : String) → IsField f → Text.trim_start (append_text f t) ≡ append_text f t
unfolding Text.trim_start Text.all_chars
trim_start-plain [] t h = absurd (cc h.given)
trim_start-plain (c ∷ f) t h = rw (append.cons c f t) (ground (arith, h.plain))

then_from-plain : (f t : String) → IsField f → then_from (append_text f t) ≡ false
unfolding then_from Text.all_chars
then_from-plain [] t h = absurd (cc h.given)
then_from-plain (c ∷ f) t h = rw (append.cons c f t) (ground (arith, h.plain))

plain-head :
    (c : Char) (f : String) → Text.all_chars is_plain (c ∷ f) ≡ true → is_newline (code c) ≡ false
unfolding Text.all_chars
plain-head c f h = newline_is_space (code c) (ground arith)

pub plain-tail :
    (c : Char) (f : String)
    → Text.all_chars is_plain (c ∷ f) ≡ true
    → Text.all_chars is_plain f ≡ true
unfolding Text.all_chars
plain-tail c f h = ground arith

then_from-head :
    (c : Char) (f t : String)
    → Text.all_chars is_plain (c ∷ f) ≡ true
    → then_from (append_text (c ∷ f) t) ≡ false
unfolding then_from Text.all_chars
then_from-head c f t h = rw (append.cons c f t) (ground arith)

lazy-last :
    (c : Char) (t : String)
    → is_newline (code c) ≡ false
    → then_from t ≡ true
    → lazy (c ∷ t) ≡ some (c ∷ [])
unfolding lazy
lazy-last c t n e = rw (n, e) refl

lazy-on :
    (c : Char) (t r : String)
    → is_newline (code c) ≡ false
    → then_from t ≡ false
    → lazy t ≡ some r
    → lazy (c ∷ t) ≡ some (c ∷ r)
unfolding lazy
lazy-on c t r n e l = rw (n, e, l, lazy) refl

lazy-word :
    (c : Char) (f t : String)
    → Text.all_chars is_plain (c ∷ f) ≡ true
    → then_from t ≡ true
    → lazy (append_text (c ∷ f) t) ≡ some (c ∷ f)
lazy-word c [] t h e = rw (append.cons c [] t, append.nil t) (lazy-last c t (plain-head c [] h) e)
lazy-word c (d ∷ f) t h e =
    let more = plain-tail c (d ∷ f) h in
    rw (append.cons c (d ∷ f) t) (
      lazy-on c (append_text (d ∷ f) t) (d ∷ f) (plain-head c (d ∷ f) h) (then_from-head d f t more)
        (lazy-word d f t more e))

lazy-over :
    (c : Char) (f t r : String)
    → Text.all_chars is_plain (c ∷ f) ≡ true
    → then_from t ≡ false
    → lazy t ≡ some r
    → lazy (append_text (c ∷ f) t) ≡ some (append_text (c ∷ f) r)
lazy-over c [] t r h n e =
    rw (append.cons c [] t, append.nil t, append.cons c [] r, append.nil r)
      (lazy-on c t r (plain-head c [] h) n e)
lazy-over c (d ∷ f) t r h n e =
    let more = plain-tail c (d ∷ f) h in
    rw (append.cons c (d ∷ f) t, append.cons c (d ∷ f) r)
      (lazy-on c (append_text (d ∷ f) t) (append_text (d ∷ f) r) (plain-head c (d ∷ f) h)
        (then_from-head d f t more) (lazy-over d f t r more n e))

pub comma_text : (x : String) → append_text ", " x ≡ "," ∷ (" " ∷ x)
comma_text x =
    append.cons "," " " x
    ∙ ap (λ (s : String). "," ∷ s)
        (append.cons " " [] x ∙ ap (λ (s : String). " " ∷ s) (append.nil x))

-- a comma and a blank before what the expression matches
module _ (x r : String) (inner : then_from x ≡ false)
    (blocked : after_word "FROM" (Text.trim_start x) ≡ none) where
  blank_stays : then_from (" " ∷ x) ≡ false
  unfolding then_from
  blank_stays = rw blocked refl

  comma_stays : then_from (append_text ", " x) ≡ false
  unfolding then_from
  comma_stays = rw (comma_text x) refl

  lazy-comma : lazy x ≡ some r → lazy (append_text ", " x) ≡ some (append_text ", " r)
  lazy-comma l =
      rw (comma_text x, comma_text r)
        (lazy-on "," (" " ∷ x) (" " ∷ r) refl blank_stays (lazy-on " " x r refl inner l))

-- what follows the first of the fields begins with a comma, or is what follows them all
module _ (k : Char) (t : String) (foreign : is_foreign (code k) "FROM" ≡ true) where
  pub join-shape :
      (g : String) (fields : List String)
      → (j : Char) × (u : String) × (append_text (join_fields (g ∷ fields)) (k ∷ t)
          ≡ append_text g (j ∷ u))
        × (is_foreign (code j) "FROM" ≡ true)
  unfolding join_fields
  join-shape g [] = (k, t, refl, foreign)
  join-shape g (f ∷ fields) =
      let rest = append_text (join_fields (f ∷ fields)) (k ∷ t) in
      (
        ",",
        append_text " " rest,
        append_texts_assoc g (append_text ", " (join_fields (f ∷ fields))) (k ∷ t)
            ∙ ap (λ (s : String). append_text g s)
                (append_texts_assoc ", " (join_fields (f ∷ fields)) (k ∷ t)
                  ∙ append_texts_assoc "," " " rest
                  ∙ append.cons "," [] (append_text " " rest)
                  ∙ ap (λ (s : String). "," ∷ s) (append.nil (append_text " " rest))),
        refl,
      )

  module _ (stops : then_from (k ∷ t) ≡ true) where
    pub lazy-fields :
        (f : String) (fields : List String)
        → IsField f
        → All IsField fields
        → lazy (append_text (join_fields (f ∷ fields)) (k ∷ t)) ≡ some (join_fields (f ∷ fields))
    unfolding join_fields
    lazy-fields [] [] h hs = absurd (cc h.given)
    lazy-fields (c ∷ f) [] h hs = lazy-word c f (k ∷ t) h.plain stops
    lazy-fields [] (g ∷ fields) h hs = absurd (cc h.given)
    lazy-fields (c ∷ f) (g ∷ fields) h (hg, hs) =
        let rest = lazy-fields g fields hg hs in
        let x = append_text (join_fields (g ∷ fields)) (k ∷ t) in
        let (j, u, shape, other) = join-shape g fields in
        let inner : then_from x ≡ false = rw shape (then_from-plain g (j ∷ u) hg) in
        let blocked : after_word "FROM" (Text.trim_start x) ≡ none =
          rw (shape, trim_start-plain g (j ∷ u) hg)
            (after_word-blocked "FROM" g u j other hg.no_from) in
        ap lazy (
          append_texts_assoc (c ∷ f) (append_text ", " (join_fields (g ∷ fields))) (k ∷ t)
          ∙ ap (λ (s : String). append_text (c ∷ f) s)
              (append_texts_assoc ", " (join_fields (g ∷ fields)) (k ∷ t)))
        ∙ lazy-over c f (append_text ", " x) (append_text ", " (join_fields (g ∷ fields))) h.plain
            (comma_stays x (join_fields (g ∷ fields)) inner blocked)
            (lazy-comma x (join_fields (g ∷ fields)) inner blocked rest)
