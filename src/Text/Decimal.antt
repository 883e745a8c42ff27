-- ===== src/Text/Decimal.antt =====
-- `${n}` of a natural number, and that different numbers have different texts.
use Prim.Native.String.{[], ◌∷◌}
use lo_ra_dbase.Common.{
  ℕ, zero, suc, ◌+◌, ◌-◌, ◌*◌, ◌/◌, ◌%◌, ◌<◌, Char, code, String, ◌≡◌, refl, sym, ap, ◌∙◌, ltb,
  nat_eq, if◌then◌else◌, arith, Bool-cases, inl, inr,
}

digit_char : ℕ → Char
digit_char zero = "0"
digit_char (suc zero) = "1"
digit_char (suc (suc zero)) = "2"
digit_char (suc (suc (suc zero))) = "3"
digit_char (suc (suc (suc (suc zero)))) = "4"
digit_char (suc (suc (suc (suc (suc zero))))) = "5"
digit_char (suc (suc (suc (suc (suc (suc zero)))))) = "6"
digit_char (suc (suc (suc (suc (suc (suc (suc zero))))))) = "7"
digit_char (suc (suc (suc (suc (suc (suc (suc (suc zero)))))))) = "8"
digit_char _ = "9"

-- the digits of `n` in front of `out`, the last digit first
digits_from : ℕ → ℕ → String → String
digits_from zero n out = out
digits_from (suc fuel) n out =
    let more = digits_from fuel (n / 10) (digit_char (n % 10) ∷ out) in
    if ltb n 10 then digit_char n ∷ out else more

-- A number has fewer digits than `suc n`, so the fuel is enough.
unfoldable pub decimal : ℕ → String
unfolding digits_from digit_char
decimal n = digits_from (suc n) n ""

value_from : ℕ → String → ℕ
value_from acc [] = acc
value_from acc (c ∷ s) = value_from (acc * 10 + (code c - 48)) s

code-digit_char : (d : ℕ) → d < 10 → code (digit_char d) ≡ 48 + d
unfolding digit_char
code-digit_char zero h = refl
code-digit_char (suc zero) h = refl
code-digit_char (suc (suc zero)) h = refl
code-digit_char (suc (suc (suc zero))) h = refl
code-digit_char (suc (suc (suc (suc zero)))) h = refl
code-digit_char (suc (suc (suc (suc (suc zero))))) h = refl
code-digit_char (suc (suc (suc (suc (suc (suc zero)))))) h = refl
code-digit_char (suc (suc (suc (suc (suc (suc (suc zero))))))) h = refl
code-digit_char (suc (suc (suc (suc (suc (suc (suc (suc zero)))))))) h = refl
code-digit_char (suc (suc (suc (suc (suc (suc (suc (suc (suc zero))))))))) h = refl
code-digit_char (suc (suc (suc (suc (suc (suc (suc (suc (suc (suc n)))))))))) h =
    absurd (omega arith)

value-digits :
    (fuel n : ℕ) (out : String)
    → n < fuel
    → value_from 0 (digits_from fuel n out) ≡ value_from n out
unfolding digits_from value_from
value-digits zero n out h = absurd (omega arith)
value-digits (suc fuel) n out h = elim (Bool-cases (ltb n 10)) [
  | inl small ↦
      rw small (ap (λ k. value_from k out) (omega (arith, code-digit_char n (ground arith))))
  | inr large ↦ rw large (
      value-digits fuel (n / 10) (digit_char (n % 10) ∷ out) (ground arith)
      ∙ ap (λ k. value_from k out) (omega (arith, code-digit_char (n % 10) (omega arith))))
]

-- The text of a number determines it.
pub decimal-injective : (m n : ℕ) → decimal m ≡ decimal n → m ≡ n
unfolding decimal value_from
decimal-injective m n e =
    sym (value-digits (suc m) m "" (omega arith))
    ∙ ap (value_from 0) e
    ∙ value-digits (suc n) n "" (omega arith)

decimal_tests : (decimal 0 ≡ "0") × (decimal 10 ≡ "10") × (decimal 4096 ≡ "4096")
unfolding decimal
decimal_tests = (refl, refl, refl)
