-- ===== src/Crypto/Sample.antt =====
-- A concrete `Crypto` that keeps the `Laws`, for the tests: it hides nothing, it only encodes.
use Prim.Native.Char.{char, nul, IsLt, IsScalar}
use Prim.Native.Nat.{Ordering, compare}
use Prim.Native.String.{[], ◌∷◌}
use mathlib.Core.List
use lo_ra_dbase.Common.{
  ◌≢◌, ℕ, zero, suc, Char, code, String, ◌≡◌, refl, ap, Option, none, some, ltb, if◌then◌else◌,
  arith, ◌==◌, nat_eq, string_eq, ◌+◌, beq_refl,
}
use lo_ra_dbase.Crypto.{
  Bytes, Claims, Verified, claims, token_expired, json_web_token_error, Crypto, Laws,
}

abbrev Both : Ordering → Ordering → Type 0
Both Ordering.lt o = IsLt o
Both Ordering.eq _ = ⊥
Both Ordering.gt _ = ⊥

abbrev Scalar : Ordering → Ordering → Ordering → Type 0
Scalar Ordering.lt _ _ = Unit
Scalar Ordering.eq o p = Both o p
Scalar Ordering.gt o p = Both o p

lt? : (o : Ordering) → Option (IsLt o)
lt? Ordering.lt = some tt
lt? Ordering.eq = none
lt? Ordering.gt = none

both? : (o p : Ordering) → Option (Both o p)
both? Ordering.lt p = lt? p
both? Ordering.eq _ = none
both? Ordering.gt _ = none

scalar? : (o p q : Ordering) → Option (Scalar o p q)
scalar? Ordering.lt _ _ = some tt
scalar? Ordering.eq p q = both? p q
scalar? Ordering.gt p q = both? p q

or_nul : (n : ℕ) → Option (IsScalar n) → Char
or_nul n none = nul
or_nul n (some h) = char n h

pub char_of : ℕ → Char
unfolding or_nul scalar? both? lt?
char_of n = or_nul n (scalar? (compare n 55296) (compare 57343 n) (compare n 1114112))

lt?-some : (o : Ordering) → (h : IsLt o) → lt? o ≡ some h
unfolding lt?
lt?-some Ordering.lt h = refl
lt?-some Ordering.eq h = absurd h
lt?-some Ordering.gt h = absurd h

both?-some : (o p : Ordering) → (h : Both o p) → both? o p ≡ some h
unfolding both?
both?-some Ordering.lt p h = lt?-some p h
both?-some Ordering.eq p h = absurd h
both?-some Ordering.gt p h = absurd h

scalar?-some : (o p q : Ordering) → (h : Scalar o p q) → scalar? o p q ≡ some h
unfolding scalar?
scalar?-some Ordering.lt p q h = refl
scalar?-some Ordering.eq p q h = both?-some p q h
scalar?-some Ordering.gt p q h = both?-some p q h

char_of-code : (c : Char) → char_of (code c) ≡ c
unfolding char_of
char_of-code (char n h) =
    ap (or_nul n) (scalar?-some (compare n 55296) (compare 57343 n) (compare n 1114112) h)

-- a text, ended by 0, in front of `rest`
pub write_text : String → Bytes → Bytes
write_text [] rest = List.◌∷◌ 0 rest
write_text (c ∷ s) rest = List.◌∷◌ (suc (code c)) (write_text s rest)

on_text : Char → String × Bytes → String × Bytes
on_text c (s, rest) = (c ∷ s, rest)

pub read_text : Bytes → String × Bytes
unfolding on_text
read_text List.[] = ([], List.[])
read_text (List.◌∷◌ zero rest) = ([], rest)
read_text (List.◌∷◌ (suc n) rest) = on_text (char_of n) (read_text rest)

read-write_text : (s : String) (rest : Bytes) → read_text (write_text s rest) ≡ (s, rest)
unfolding read_text write_text on_text
read-write_text [] rest = refl
read-write_text (c ∷ s) rest = rw (read-write_text s rest, char_of-code c) refl

-- `n` as that many marks, in front of `rest`
write_number : ℕ → String → String
write_number zero rest = "." ∷ rest
write_number (suc n) rest = "1" ∷ write_number n rest

pub write_numbers : Bytes → String
unfolding write_number
write_numbers List.[] = []
write_numbers (List.◌∷◌ n bytes) = write_number n (write_numbers bytes)

pub read_numbers : ℕ → String → Bytes
read_numbers n [] = List.[]
read_numbers n (c ∷ s) =
    if code c == 49 then read_numbers (suc n) s else List.◌∷◌ n (read_numbers 0 s)

read-write_number :
    (n m : ℕ) (rest : String)
    → read_numbers n (write_number m rest) ≡ List.◌∷◌ (n + m) (read_numbers 0 rest)
unfolding read_numbers write_number
read-write_number n zero rest = ap (λ k. List.◌∷◌ k (read_numbers 0 rest)) (omega arith)
read-write_number n (suc m) rest =
    rw (read-write_number (suc n) m rest) (ap (λ k. List.◌∷◌ k (read_numbers 0 rest)) (omega arith))

read-write_numbers : (bytes : Bytes) → read_numbers 0 (write_numbers bytes) ≡ bytes
unfolding read_numbers write_numbers
read-write_numbers List.[] = refl
read-write_numbers (List.◌∷◌ n bytes) =
    rw (read-write_number 0 n (write_numbers bytes), read-write_numbers bytes)
      (ap (λ k. List.◌∷◌ k bytes) (omega arith))

write_text? : Option String → Bytes → Bytes
unfolding write_text
write_text? none rest = List.◌∷◌ 0 rest
write_text? (some s) rest = List.◌∷◌ 1 (write_text s rest)

some_text : String × Bytes → Option String × Bytes
some_text (s, rest) = (some s, rest)

read_text? : Bytes → Option String × Bytes
unfolding some_text
read_text? List.[] = (none, List.[])
read_text? (List.◌∷◌ zero rest) = (none, rest)
read_text? (List.◌∷◌ (suc n) rest) = some_text (read_text rest)

read-write_text? : (o : Option String) (rest : Bytes) → read_text? (write_text? o rest) ≡ (o, rest)
unfolding read_text? write_text? some_text
read-write_text? none rest = refl
read-write_text? (some s) rest = rw (read-write_text s rest) refl

write_number? : Option ℕ → ℕ
write_number? none = 0
write_number? (some n) = suc n

read_number? : ℕ → Option ℕ
read_number? zero = none
read_number? (suc n) = some n

pub write_claims : Claims → String → Bytes
unfolding write_text? write_number?
write_claims c secret = write_text secret (
    write_text? c.type (
      write_text? c.sub
        (List.◌∷◌ (write_number? c.server_id) (List.◌∷◌ c.iat (List.◌∷◌ c.exp List.[])))))

read_rest : Option String → Option String → Bytes → Option Claims
unfolding read_number?
read_rest type sub (List.◌∷◌ s (List.◌∷◌ i (List.◌∷◌ e List.[]))) =
    some (record { type = type; sub = sub; server_id = read_number? s; iat = i; exp = e })
read_rest type sub _ = none

read_claims : Bytes → Option Claims
unfolding read_rest read_text?
read_claims bytes =
    let (type, rest) = read_text? bytes in
    let (sub, last) = read_text? rest in read_rest type sub last

timed : ℕ → Option Claims → Verified
timed now none = json_web_token_error
timed now (some c) = if ltb now c.exp then claims c else token_expired

pub verify : ℕ → String → String → Verified
unfolding timed read_claims read_text read_numbers
verify now token secret =
    let (signed_with, rest) = read_text (read_numbers 0 token) in
    if signed_with == secret then timed now (read_claims rest) else json_web_token_error

unfoldable pub sample : Crypto
sample = record {
  pbkdf2 = λ password salt. write_text password salt;
  seal = λ key iv text. (write_text text iv, key);
  unseal = λ key iv sealed auth_tag. some (read_text sealed).0;
  to_hex = write_numbers;
  from_hex = read_numbers 0;
  bcrypt_hash = λ salt password. password;
  bcrypt_compare = λ password hash. password == hash;
  jwt_sign = λ c secret. write_numbers (write_claims c secret);
  jwt_verify = verify;
}

number?-round : (o : Option ℕ) → read_number? (write_number? o) ≡ o
unfolding read_number? write_number?
number?-round none = refl
number?-round (some n) = refl

verify-timed :
    (now : ℕ) (c : Claims) (secret : String)
    → verify now (write_numbers (write_claims c secret)) secret ≡ timed now (some c)
unfolding verify write_claims read_claims read_rest
verify-timed now c secret =
    let last = List.◌∷◌ (write_number? c.server_id) (List.◌∷◌ c.iat (List.◌∷◌ c.exp List.[])) in
    rw
      (
        read-write_numbers (write_claims c secret),
        read-write_text secret (write_text? c.type (write_text? c.sub last)),
        beq_refl secret,
        read-write_text? c.type (write_text? c.sub last),
        read-write_text? c.sub last,
        number?-round c.server_id,
      )
      refl

write_number-not_empty : (n : ℕ) (rest : String) → write_number n rest ≢ ""
unfolding write_number
write_number-not_empty zero rest e = absurd (cc)
write_number-not_empty (suc n) rest e = absurd (cc)

write_claims-not_empty : (c : Claims) (secret : String) → write_numbers (write_claims c secret) ≢ ""
unfolding write_claims write_text write_numbers
write_claims-not_empty c [] = write_number-not_empty 0 _
write_claims-not_empty c (d ∷ s) = write_number-not_empty (suc (code d)) _

pub sample-Laws : Laws sample
unfolding timed sample
sample-Laws = record {
  unseal-seal = λ key iv text. ap (λ (x : String × Bytes). some x.0) (read-write_text text iv);
  from_hex-to_hex = read-write_numbers;
  compare-hash = λ salt password. beq_refl password;
  verify-sign = λ now payload secret h. rw (verify-timed now payload secret) (ground (arith, h));
  sign_not_empty = write_claims-not_empty;
  verify-sign_expired =
      λ now payload secret h. rw (verify-timed now payload secret) (ground (arith, h));
}
