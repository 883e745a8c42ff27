-- ===== src/Common/TextOrder.antt =====
-- The order of texts by their characters' numbers, as SQLite and JavaScript compare them.
use Prim.Native.Char.{Char, code}
use Prim.Native.String.{String, compare, [], ◌∷◌}
use Prim.Native.String.compare
use mathlib.Core.Path.{◌≡◌, refl}
use mathlib.Core.Bool.{Bool, true, false}
use native.Mathlib.Omega.{arith}
use text.Mathlib.Text.{is_le}
use lo_ra_dbase.Common.Tests.{ltb, nat_beq, if◌then◌else◌}

abbrev pub text_leb : String → String → Bool
text_leb s t = is_le (compare s t)

text_leb-cons :
    (c d : Char) (s t : String)
    → text_leb (c ∷ s) (d ∷ t) ≡ (
        if ltb (code c) (code d)
        then true
        else if nat_beq (code c) (code d)
        then text_leb s t
        else false)
text_leb-cons c d s t = rw compare.cons-cons (ground arith)

-- Of two texts one may always stand first.
pub text_leb-total : (s t : String) → text_leb s t ≡ false → text_leb t s ≡ true
text_leb-total [] [] h = refl
text_leb-total [] (d ∷ t) h = absurd (cc (compare.nil-cons d t))
text_leb-total (c ∷ s) [] h = rw compare.nil-cons
text_leb-total (c ∷ s) (d ∷ t) h =
    rw text_leb-cons (ground (arith, text_leb-cons c d s t, text_leb-total s t))

pub text_leb_trans :
    (s t u : String) → text_leb s t ≡ true → text_leb t u ≡ true → text_leb s u ≡ true
text_leb_trans [] t [] h k = refl
text_leb_trans [] t (e ∷ u) h k = rw compare.nil-cons
text_leb_trans (c ∷ s) [] u h k = absurd (cc (compare.cons-nil c s))
text_leb_trans (c ∷ s) (d ∷ t) [] h k = absurd (cc (compare.cons-nil d t))
text_leb_trans (c ∷ s) (d ∷ t) (e ∷ u) h k =
    rw text_leb-cons
      (ground (arith, text_leb-cons c d s t, text_leb-cons d e t u, text_leb_trans s t u))
