-- ===== src/Text/Prefix.antt =====
-- Texts that begin with another.
use lo_ra_dbase.Common.{
  code, String, ◌≡◌, refl, ap, inl, inr, some, [], ◌∷◌, arith, ◌==◌, nat_eq, string_eq, Bool-cases,
  beq_refl,
}
use Prim.Native.String.append
use Prim.Native.String.{[], ◌∷◌, ◌++◌ as append_text}
use text.Mathlib.TextEquality.{Char-path}
use lo_ra_dbase.Text.{after_prefix}

pub after_prefix-append : (p s : String) → after_prefix p (append_text p s) ≡ some s
unfolding after_prefix
after_prefix-append [] s = rw (append.nil s) refl
after_prefix-append (c ∷ p) s = rw (append.cons c p s, beq_refl (code c)) (after_prefix-append p s)

pub append_of_prefix : (p s r : String) → after_prefix p s ≡ some r → s ≡ append_text p r
unfolding after_prefix
append_of_prefix [] s r h = ground (arith, h, append.nil r)
append_of_prefix (c ∷ p) [] r h = absurd (cc h)
append_of_prefix (c ∷ p) (d ∷ s) r h = elim (Bool-cases (code c == code d)) [
  | inr f ↦ absurd (ground arith)
  | inl t ↦
      let tail = append_of_prefix p s r (ground arith) in
      let head : c ≡ d = Char-path c d (ground arith) in rw (append.cons c p r, tail, head) refl
]

pub append_texts_assoc :
    (p q r : String) → append_text (append_text p q) r ≡ append_text p (append_text q r)
append_texts_assoc [] q r = rw (append.nil q, append.nil (append_text q r)) refl
append_texts_assoc (c ∷ p) q r =
    rw (append.cons c p q, append.cons c (append_text p q) r, append.cons c p (append_text q r))
      (ap (λ (s : String). c ∷ s) (append_texts_assoc p q r))
