-- ===== src/Table/Laws.antt =====
-- What a statement finds after another has run.
use lo_ra_dbase.Common.{
  ◌+◌, ◌≤◌, ◌≡◌, refl, ◌↔◌, inl, inr, Bool, true, false, none, some, List, [], ◌∷◌, ◌++◌, arith,
  nat_eq, string_eq, if◌then◌else◌, Bool-cases, length, All, ◌≢◌,
}
use lo_ra_dbase.Table.{select, first, count, insert, update, delete}

module _ {ℓ} {A : Type ℓ} (p : A → Bool) where
  pub first-eq-some : (rows : List A) (r : A) → first p rows ≡ some r → p r ≡ true
  unfolding first
  first-eq-some [] r h = cc
  first-eq-some (x ∷ rows) r h = ground (arith, first-eq-some rows r)

  pub first-eq-none : (rows : List A) → first p rows ≡ none → All (λ r. p r ≡ false) rows
  unfolding first
  first-eq-none [] h = tt
  first-eq-none (x ∷ rows) h = elim (Bool-cases (p x)) [
    | inl e ↦ absurd (ground arith)
    | inr e ↦ (e, first-eq-none rows (ground arith))
  ]

  pub first-none : (rows : List A) → All (λ r. p r ≡ false) rows → first p rows ≡ none
  unfolding first
  first-none [] h = refl
  first-none (x ∷ rows) (e, h) = rw e (first-none rows h)

  pub first-append :
      (xs ys : List A)
      → first p (xs ++ ys) ≡ elim (first p xs) [ none ↦ first p ys | some r ↦ some r ]
  unfolding first
  first-append [] ys = refl
  first-append (x ∷ xs) ys = ground (arith, first-append xs ys)

  pub first-insert_new :
      (xs : List A) (r : A) → first p xs ≡ none → p r ≡ true → first p (insert r xs) ≡ some r
  unfolding first
  first-insert_new [] r h e = rw e
  first-insert_new (x ∷ xs) r h e = ground (arith, first-insert_new xs r)

  pub first-insert_other : (xs : List A) (r : A) → p r ≡ false → first p (insert r xs) ≡ first p xs
  unfolding first
  first-insert_other [] r e = rw e
  first-insert_other (x ∷ xs) r e = ground (arith, first-insert_other xs r e)

  -- A count of zero and a search that finds nothing are the same answer.
  pub count-zero_iff : (rows : List A) → (count p rows ≡ 0) ↔ (first p rows ≡ none)
  unfolding count first
  count-zero_iff [] = (λ _. refl, λ _. refl)
  count-zero_iff (x ∷ rows) = ground (arith, count-zero_iff rows)

  pub count-insert :
      (rows : List A) (r : A) → count p (insert r rows) ≡ count p rows + (if p r then 1 else 0)
  unfolding count
  count-insert [] r = ground arith
  count-insert (x ∷ rows) r = ground (arith, count-insert rows r)

  pub count-le-length : (rows : List A) → count p rows ≤ length rows
  unfolding count
  count-le-length [] = omega arith
  count-le-length (x ∷ rows) = ground (arith, count-le-length rows)

  pub All-select_test : (rows : List A) → All (λ r. p r ≡ true) (select p rows)
  unfolding select
  All-select_test [] = tt
  All-select_test (x ∷ rows) = elim (Bool-cases (p x)) [
    | inl t ↦ rw t (t, All-select_test rows)
    | inr f ↦ rw f (All-select_test rows)
  ]

  -- A test that implies the WHERE clause counts the same in the selected rows.
  pub count-select :
      (q : A → Bool) (rows : List A)
      → ((r : A) → q r ≡ true → p r ≡ true)
      → count q (select p rows) ≡ count q rows
  unfolding count select
  count-select q [] h = refl
  count-select q (x ∷ rows) h = ground (arith, count-select q rows h, h x)

  -- Among the selected rows the WHERE clause holds of all.
  pub count-select_self : (rows : List A) → count p rows ≡ length (select p rows)
  unfolding count select
  count-select_self [] = refl
  count-select_self (x ∷ rows) = ground (arith, count-select_self rows)

  -- A test that every counted row passes counts at least as many.
  pub count_mono :
      (q : A → Bool) (rows : List A)
      → All (λ r. p r ≡ true → q r ≡ true) rows
      → count p rows ≤ count q rows
  unfolding count
  count_mono q [] h = omega arith
  count_mono q (x ∷ rows) (k, h) = ground (arith, count_mono q rows h)

  pub length-delete : (rows : List A) → length (delete p rows) + count p rows ≡ length rows
  unfolding count delete
  length-delete [] = omega arith
  length-delete (x ∷ rows) = ground (arith, length-delete rows)

  pub count-delete : (rows : List A) → count p (delete p rows) ≡ 0
  unfolding count delete
  count-delete [] = refl
  count-delete (x ∷ rows) = ground (arith, count-delete rows)

  pub All-delete_not : (rows : List A) → All (λ r. p r ≡ false) (delete p rows)
  unfolding delete
  All-delete_not [] = tt
  All-delete_not (x ∷ rows) = elim (Bool-cases (p x)) [
    | inl t ↦ rw t (All-delete_not rows)
    | inr f ↦ rw f (f, All-delete_not rows)
  ]

  pub count-delete-le : (q : A → Bool) (rows : List A) → count q (delete p rows) ≤ count q rows
  unfolding count delete
  count-delete-le q [] = omega arith
  count-delete-le q (x ∷ rows) = ground (arith, count-delete-le q rows)

  -- Rows that the DELETE does not touch are counted as before.
  pub count-delete_apart :
      (q : A → Bool) (rows : List A)
      → ((r : A) → q r ≡ true → p r ≡ false)
      → count q (delete p rows) ≡ count q rows
  unfolding count delete
  count-delete_apart q [] h = refl
  count-delete_apart q (x ∷ rows) h = ground (arith, count-delete_apart q rows h, h x)

  -- The same where the UPDATE keeps the test.
  pub count-update_kept :
      (q : A → Bool) (f : A → A) (rows : List A)
      → All (λ r. p r ≡ true → q (f r) ≡ q r) rows
      → count q (update p f rows) ≡ count q rows
  unfolding count update
  count-update_kept q f [] h = refl
  count-update_kept q f (x ∷ rows) (k, h) = ground (arith, count-update_kept q f rows h)

  -- An UPDATE adds to a count at most the rows that it touches.
  pub count-update-le :
      (q : A → Bool) (f : A → A) (rows : List A)
      → count q (update p f rows) ≤ count q rows + count p rows
  unfolding count update
  count-update-le q f [] = omega arith
  count-update-le q f (x ∷ rows) = ground (arith, count-update-le q f rows)

  -- An UPDATE of all the rows that pass, after which none passes.
  pub count-update_none :
      (q : A → Bool) (f : A → A) (rows : List A)
      → ((r : A) → q r ≡ true → p r ≡ true)
      → ((r : A) → p r ≡ true → q (f r) ≡ false)
      → count q (update p f rows) ≡ 0
  unfolding count update
  count-update_none q f [] h k = refl
  count-update_none q f (x ∷ rows) h k = ground (arith, count-update_none q f rows h k, h x, k x)

  pub first-delete : (rows : List A) → first p (delete p rows) ≡ none
  unfolding first delete
  first-delete [] = refl
  first-delete (x ∷ rows) = ground (arith, first-delete rows)

-- A row that one search finds, another search that it fits does not miss.
pub first_there {ℓ} :
    {A : Type ℓ} (p q : A → Bool) (rows : List A) (r : A)
    → (p r ≡ true → q r ≡ true)
    → first p rows ≡ some r
    → first q rows ≢ none
unfolding first
first_there p q [] r fits found absent = absurd (cc found)
first_there p q (x ∷ rows) r fits found absent = elim (Bool-cases (p x)) [
  | inl t ↦
      let here : x ≡ r = ground arith in
      let picked : q x ≡ true = rw here (fits (rw here at t)) in absurd (ground arith)
  | inr f ↦ first_there p q rows r fits (ground arith) (ground arith)
]

module _ {ℓ κ} {A : Type ℓ} (P : A → Type κ) (p : A → Bool) where
  pub All-select : (rows : List A) → All P rows → All P (select p rows)
  unfolding select
  All-select [] h = tt
  All-select (x ∷ rows) (q, h) = ground (arith, All-select rows h)

  pub All-delete : (rows : List A) → All P rows → All P (delete p rows)
  unfolding delete
  All-delete [] h = tt
  All-delete (x ∷ rows) (q, h) = ground (arith, All-delete rows h)

  pub All-first : (rows : List A) (r : A) → All P rows → first p rows ≡ some r → P r
  unfolding first
  All-first [] r h e = absurd (cc)
  All-first (x ∷ rows) r (q, h) e = elim (Bool-cases (p x)) [
    | inl t ↦ let same : x ≡ r = ground arith in rw (← same) q
    | inr f ↦ All-first rows r h (ground arith)
  ]

  pub All-update :
      (f : A → A) (rows : List A)
      → ((r : A) → P r → p r ≡ true → P (f r))
      → All P rows
      → All P (update p f rows)
  unfolding update
  All-update f [] k h = tt
  All-update f (x ∷ rows) k (q, h) = elim (Bool-cases (p x)) [
    | inl t ↦ rw t (k x q t, All-update f rows k h)
    | inr e ↦ rw e (q, All-update f rows k h)
  ]

module _ {ℓ κ υ} {A : Type ℓ} {P : A → Type κ} (Q : A → Type υ) (p : A → Bool) (f : A → A) where
  -- What becomes of the rows that an UPDATE writes, and of those that it leaves.
  pub All-update_to :
      (rows : List A)
      → ((r : A) → P r → p r ≡ true → Q (f r))
      → ((r : A) → P r → p r ≡ false → Q r)
      → All P rows
      → All Q (update p f rows)
  unfolding update
  All-update_to [] w l h = tt
  All-update_to (x ∷ rows) w l (q, h) = elim (Bool-cases (p x)) [
    | inl t ↦ rw t (w x q t, All-update_to rows w l h)
    | inr e ↦ rw e (l x q e, All-update_to rows w l h)
  ]

module _ {ℓ} {A : Type ℓ} (p q : A → Bool) where
  -- Tests that agree on the rows find the same row.
  pub first-agree : (rows : List A) → All (λ r. p r ≡ q r) rows → first p rows ≡ first q rows
  unfolding first
  first-agree [] h = refl
  first-agree (x ∷ rows) (e, h) = ground (arith, first-agree rows h)

  -- A search is not changed by an UPDATE of rows that it passes over, before and after.
  pub first-update_apart :
      (f : A → A) (rows : List A)
      → All (λ r. p r ≡ true → (q r ≡ false) × (q (f r) ≡ false)) rows
      → first q (update p f rows) ≡ first q rows
  unfolding first update
  first-update_apart f [] h = refl
  first-update_apart f (x ∷ rows) (k, h) = ground (arith, first-update_apart f rows h)
