-- ===== src/Common/Lists.antt =====
-- Lists measured by native numbers, predicates on lists by recursion, and distinct keys.
use Prim.Native.Nat.{ℕ, suc, ◌+◌}
use mathlib.Core.Path.{◌≡◌, refl, ap}
use mathlib.Core.Logic.{◌≢◌}
use mathlib.Core.List.{List, [], ◌∷◌, ◌++◌, map}
use native.Mathlib.Omega.{arith}

module _ {ℓ} {A : Type ℓ} where
  abbrev pub length : List A → ℕ
  length [] = 0
  length (x ∷ xs) = suc (length xs)

  pub length-append : (xs ys : List A) → length (xs ++ ys) ≡ length xs + length ys
  length-append [] ys = omega arith
  length-append (x ∷ xs) ys = omega (arith, length-append xs ys)

module _ {ℓ κ} {A : Type ℓ} (P : A → Type κ) where
  abbrev pub All : List A → Type κ
  All [] = Unit
  All (x ∷ xs) = P x × All xs

  pub All-append : (xs ys : List A) → All xs → All ys → All (xs ++ ys)
  All-append [] ys h k = k
  All-append (x ∷ xs) ys (p, h) k = (p, All-append xs ys h k)

  pub All-concat : (xs : List A) (x : A) → All xs → P x → All (xs ++ x ∷ [])
  All-concat [] x h p = (p, tt)
  All-concat (y ∷ xs) x (q, h) p = (q, All-concat xs x h p)

module _ {ℓ κ υ} {A : Type ℓ} {P : A → Type κ} {Q : A → Type υ} where
  pub All-map : ((a : A) → P a → Q a) → (xs : List A) → All P xs → All Q xs
  All-map f [] h = tt
  All-map f (x ∷ xs) (p, h) = (f x p, All-map f xs h)

module _ {ℓ κ υ} {A : Type ℓ} {B : Type κ} (P : B → Type υ) where
  pub All-image : (f : A → B) (xs : List A) → All (λ a. P (f a)) xs → All P (map f xs)
  All-image f [] h = tt
  All-image f (x ∷ xs) (p, h) = (p, All-image f xs h)

-- No two entries have the same key: what a UNIQUE or PRIMARY KEY column promises.
module _ {ℓ κ} {A : Type ℓ} {K : Type κ} (key : A → K) where
  abbrev pub Distinct : List A → Type κ
  Distinct [] = Unit
  Distinct (x ∷ xs) = All (λ y. key x ≢ key y) xs × Distinct xs

  pub Distinct-concat :
      (xs : List A) (r : A) → Distinct xs → All (λ y. key y ≢ key r) xs → Distinct (xs ++ r ∷ [])
  Distinct-concat [] r h k = (tt, tt)
  Distinct-concat (x ∷ xs) r (p, h) (q, k) =
      (All-concat (λ y. key x ≢ key y) xs r p q, Distinct-concat xs r h k)

module _ {ℓ κ υ τ} {A : Type ℓ} {P : A → Type κ} {Q : A → Type υ} {R : A → Type τ} where
  pub All-zip : ((a : A) → P a → Q a → R a) → (xs : List A) → All P xs → All Q xs → All R xs
  All-zip f [] h k = tt
  All-zip f (x ∷ xs) (p, h) (q, k) = (f x p q, All-zip f xs h k)

module _ {ℓ κ} {A : Type ℓ} {P : A → Type κ} where
  pub All-every : ((a : A) → P a) → (xs : List A) → All P xs
  All-every f [] = tt
  All-every f (x ∷ xs) = (f x, All-every f xs)

module _ {ℓ κ} {A : Type ℓ} {B : Type κ} (f : A → B) where
  pub map-concat : (xs : List A) (x : A) → map f (xs ++ x ∷ []) ≡ map f xs ++ f x ∷ []
  map-concat [] x = refl
  map-concat (y ∷ xs) x = ap (λ (zs : List B). f y ∷ zs) (map-concat xs x)
