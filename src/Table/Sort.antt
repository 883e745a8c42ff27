-- ===== src/Table/Sort.antt =====
-- ORDER BY: a stable insertion sort by a test that says when a row may stand before another.
use lo_ra_dbase.Common.{
  ◌≡◌, refl, ◌∙◌, inl, inr, Bool, true, false, List, [], ◌∷◌, arith, nat_eq, string_eq,
  if◌then◌else◌, Bool-cases, All, All-map, Distinct, ◌≢◌, sym,
}
use mathlib.Core.List.Perm
use lo_ra_dbase.Table.{count}
use mathlib.Core.List.{Perm}

module _ {ℓ} {A : Type ℓ} (before : A → A → Bool) where
  place : A → List A → List A
  place x [] = x ∷ []
  place x (y ∷ ys) = if before x y then x ∷ y ∷ ys else y ∷ place x ys

  unfoldable pub order_by : List A → List A
  unfolding place
  order_by [] = []
  order_by (x ∷ xs) = place x (order_by xs)

  place-perm : (x : A) (ys : List A) → Perm (place x ys) (x ∷ ys)
  unfolding place
  place-perm x [] = Perm.refl (x ∷ [])
  place-perm x (y ∷ ys) = elim (Bool-cases (before x y)) [
    | inl t ↦ rw t (Perm.refl (x ∷ y ∷ ys))
    | inr f ↦ rw f (Perm.trans (Perm.cons y (place-perm x ys)) (Perm.swap x y ys))
  ]

  -- ORDER BY neither drops a row nor repeats one.
  pub order_by-perm : (xs : List A) → Perm (order_by xs) xs
  unfolding order_by
  order_by-perm [] = Perm.refl []
  order_by-perm (x ∷ xs) = Perm.trans (place-perm x (order_by xs)) (Perm.cons x (order_by-perm xs))

  module _ (q : A → Bool) where
    count-place : (x : A) (ys : List A) → count q (place x ys) ≡ count q (x ∷ ys)
    unfolding place count
    count-place x [] = refl
    count-place x (y ∷ ys) = ground (arith, count-place x ys)

    -- ORDER BY changes no count.
    pub count-order_by : (xs : List A) → count q (order_by xs) ≡ count q xs
    unfolding order_by count
    count-order_by [] = refl
    count-order_by (x ∷ xs) = count-place x (order_by xs) ∙ ground (arith, count-order_by xs)

  module _ {κ} (P : A → Type κ) where
    place-All : (x : A) (ys : List A) → P x → All P ys → All P (place x ys)
    unfolding place
    place-All x [] p h = (p, tt)
    place-All x (y ∷ ys) p (q, h) = elim (Bool-cases (before x y)) [
      | inl t ↦ rw t (p, (q, h))
      | inr f ↦ rw f (q, place-All x ys p h)
    ]

    pub order_by-All : (xs : List A) → All P xs → All P (order_by xs)
    unfolding order_by
    order_by-All [] h = tt
    order_by-All (x ∷ xs) (p, h) = place-All x (order_by xs) p (order_by-All xs h)

  module _ {κ} {K : Type κ} (key : A → K) where
    place-Distinct : (x : A) (ys : List A) → Distinct key (x ∷ ys) → Distinct key (place x ys)
    unfolding place
    place-Distinct x [] d = d
    place-Distinct x (y ∷ ys) ((n, q), (p, d)) = elim (Bool-cases (before x y)) [
      | inl t ↦ rw t ((n, q), (p, d))
      | inr f ↦
          rw f (place-All (λ z. key y ≢ key z) x ys (λ e. n (sym e)) p, place-Distinct x ys (q, d))
    ]

    -- ORDER BY keeps a column distinct.
    pub order_by-Distinct : (xs : List A) → Distinct key xs → Distinct key (order_by xs)
    unfolding order_by
    order_by-Distinct [] d = tt
    order_by-Distinct (x ∷ xs) (p, d) =
        place-Distinct x (order_by xs)
          (order_by-All (λ y. key x ≢ key y) xs p, order_by-Distinct xs d)

  -- Each row may stand before all that follow it.
  abbrev pub IsOrdered : List A → Type 0
  IsOrdered [] = Unit
  IsOrdered (x ∷ xs) = All (λ y. before x y ≡ true) xs × IsOrdered xs

  module _ (total : (a b : A) → before a b ≡ false → before b a ≡ true)
      (trans : (a b c : A) → before a b ≡ true → before b c ≡ true → before a c ≡ true) where
    place-IsOrdered : (x : A) (ys : List A) → IsOrdered ys → IsOrdered (place x ys)
    unfolding place
    place-IsOrdered x [] o = (tt, tt)
    place-IsOrdered x (y ∷ ys) (q, o) = elim (Bool-cases (before x y)) [
      | inl t ↦ rw t ((t, All-map (λ z e. trans x y z t e) ys q), (q, o))
      | inr f ↦
          rw f (place-All (λ z. before y z ≡ true) x ys (total x y f) q, place-IsOrdered x ys o)
    ]

    pub order_by-IsOrdered : (xs : List A) → IsOrdered (order_by xs)
    unfolding order_by
    order_by-IsOrdered [] = tt
    order_by-IsOrdered (x ∷ xs) = place-IsOrdered x (order_by xs) (order_by-IsOrdered xs)
