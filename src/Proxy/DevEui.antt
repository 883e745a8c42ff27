-- ===== src/Proxy/DevEui.antt =====
-- What `isValidDevEUI` accepts.
use Prim.Native.String.{[], ◌∷◌, len}
use lo_ra_dbase.Common.{
  ◌≤◌, Char, code, String, ◌≡◌, ◌⊎◌, true, inl, inr, arith, nat_eq, Bool-cases, leb, ◌&&◌,
}
use lo_ra_dbase.Text.{all_chars}
use lo_ra_dbase.Proxy.{is_valid_dev_eui, is_hex}

-- 0 to 9, A to F or a to f
abbrev pub IsHexDigit : Char → Type 0
IsHexDigit c =
    ((48 ≤ code c) × (code c ≤ 57))
    ⊎ ((65 ≤ code c) × (code c ≤ 70))
    ⊎ ((97 ≤ code c) × (code c ≤ 102))

abbrev pub AreHexDigits : String → Type 0
AreHexDigits [] = Unit
AreHexDigits (c ∷ s) = IsHexDigit c × AreHexDigits s

hex_digit : (c : Char) → is_hex (code c) ≡ true → IsHexDigit c
hex_digit c h = elim (Bool-cases (leb 48 (code c) && leb (code c) 57)) [
  | inl t ↦ inl (ground arith, ground arith)
  | inr f ↦ elim (Bool-cases (leb 65 (code c) && leb (code c) 70)) [
    | inl t ↦ inr (inl (ground arith, ground arith))
    | inr g ↦ inr (inr (ground arith, ground arith))
  ]
]

hex_digits : (s : String) → all_chars is_hex s ≡ true → AreHexDigits s
unfolding all_chars
hex_digits [] h = tt
hex_digits (c ∷ s) h = (hex_digit c (ground (arith, h)), hex_digits s (ground (arith, h)))

pub is_valid_dev_eui_lem :
    (dev_eui : String) → is_valid_dev_eui dev_eui ≡ true → (len dev_eui ≡ 16) × AreHexDigits dev_eui
unfolding is_valid_dev_eui
is_valid_dev_eui_lem dev_eui h = (ground (arith, h), hex_digits dev_eui (ground (arith, h)))
