-- ===== src/Table/Apart.antt =====
-- Rows that a statement does not touch are selected as before it.
use lo_ra_dbase.Common.{
  ◌≡◌, refl, ◌≢◌, inl, inr, Bool, true, false, some, List, [], ◌∷◌, arith, Eq, nat_eq, string_eq,
  Bool-cases, beq_refl, beq_of_ne, All, Distinct,
}
use lo_ra_dbase.Table.Laws.{All-first}
use lo_ra_dbase.Table.Keys.{by_key}
use lo_ra_dbase.Table.{first, select, insert, update, delete}

module _ {ℓ} {A : Type ℓ} (q : A → Bool) where
  pub select-insert_apart :
      (rows : List A) (r : A) → q r ≡ false → select q (insert r rows) ≡ select q rows
  unfolding select
  select-insert_apart [] r e = rw e refl
  select-insert_apart (x ∷ rows) r e = ground (arith, select-insert_apart rows r e)

  pub select-delete_apart :
      (p : A → Bool) (rows : List A)
      → All (λ r. p r ≡ true → q r ≡ false) rows
      → select q (delete p rows) ≡ select q rows
  unfolding select delete
  select-delete_apart p [] h = refl
  select-delete_apart p (x ∷ rows) (k, h) = ground (arith, select-delete_apart p rows h)

  pub select-update_apart :
      (p : A → Bool) (f : A → A) (rows : List A)
      → All (λ r. p r ≡ true → (q r ≡ false) × (q (f r) ≡ false)) rows
      → select q (update p f rows) ≡ select q rows
  unfolding select update
  select-update_apart p f [] h = refl
  select-update_apart p f (x ∷ rows) (k, h) = ground (arith, select-update_apart p f rows h)

-- A row that a search finds is found by its key.
module _ {ℓ κ} {A : Type ℓ} {K : Type κ} ⦃tests : Eq K⦄ (key : A → K) where
  pub by_key-of_first :
      (p : A → Bool) (rows : List A) (r : A)
      → Distinct key rows
      → first p rows ≡ some r
      → by_key key (key r) rows ≡ some r
  unfolding first
  by_key-of_first p [] r d h = absurd (cc)
  by_key-of_first p (x ∷ rows) r (q, d) h = elim (Bool-cases (p x)) [
    | inl t ↦ let same : x ≡ r = ground arith in rw (← same, beq_refl (key x)) refl
    | inr f ↦
        let later : first p rows ≡ some r = ground arith in
        let other = All-first (λ y. key x ≢ key y) p rows r q later in
        rw (beq_of_ne (key x) (key r) other) (by_key-of_first p rows r d later)
  ]
