-- ===== src/Table/Keys.antt =====
-- Columns with distinct values: lookups by a key, and the statements that keep the values distinct.
use lo_ra_dbase.Common.{
  ℕ, ◌≤◌, ◌≡◌, refl, sym, ◌∙◌, ◌≢◌, inl, inr, Bool, true, false, Option, none, some, List, [], ◌∷◌,
  arith, Eq, ◌==◌, nat_eq, string_eq, if◌then◌else◌, Bool-cases, ne_of_beq, beq_of_ne, All, All-map,
  Distinct, Distinct-concat,
}
use lo_ra_dbase.Table.{count, first, insert, update, delete}
use lo_ra_dbase.Table.Laws.{first-eq-none, first-eq-some, first-none, All-delete}

module _ {ℓ κ} {A : Type ℓ} {K : Type κ} ⦃e : Eq K⦄ (key : A → K) where
  -- the row with a given key
  abbrev pub by_key : K → List A → Option A
  by_key k rows = first (λ r. key r == k) rows

  pub by_key-eq-some : (k : K) (rows : List A) (r : A) → by_key k rows ≡ some r → key r ≡ k
  by_key-eq-some k rows r h = (e.beq_iff (key r) k).0 (first-eq-some (λ x. key x == k) rows r h)

  pub All-ne_of_absent : (k : K) (rows : List A) → by_key k rows ≡ none → All (λ r. key r ≢ k) rows
  All-ne_of_absent k rows h =
      All-map (λ r f. ne_of_beq (key r) k f) rows (first-eq-none (λ r. key r == k) rows h)

  pub absent_of_All-ne : (k : K) (rows : List A) → All (λ r. key r ≢ k) rows → by_key k rows ≡ none
  absent_of_All-ne k rows h =
      first-none (λ r. key r == k) rows (All-map (λ r n. beq_of_ne (key r) k n) rows h)

  -- An INSERT that the UNIQUE constraint admits keeps the column distinct.
  pub Distinct-insert :
      (rows : List A) (r : A)
      → Distinct key rows
      → by_key (key r) rows ≡ none
      → Distinct key (insert r rows)
  Distinct-insert rows r d h = Distinct-concat key rows r d (All-ne_of_absent (key r) rows h)

  pub Distinct-delete :
      (p : A → Bool) (rows : List A) → Distinct key rows → Distinct key (delete p rows)
  unfolding delete
  Distinct-delete p [] d = tt
  Distinct-delete p (x ∷ rows) (q, d) = elim (Bool-cases (p x)) [
    | inl t ↦ rw t (Distinct-delete p rows d)
    | inr f ↦ rw f (All-delete (λ y. key x ≢ key y) p rows q, Distinct-delete p rows d)
  ]

  -- A key picks at most one row, and all that have it are the row that a lookup finds.
  count-absent :
      (k : K) (rows : List A) → All (λ y. k ≢ key y) rows → count (λ r. key r == k) rows ≡ 0
  unfolding count
  count-absent k [] h = refl
  count-absent k (x ∷ rows) (q, h) =
      let other = beq_of_ne (key x) k (λ c. q (sym c)) in ground (arith, count-absent k rows h)

  pub count-by_key-le :
      (k : K) (rows : List A) → Distinct key rows → count (λ r. key r == k) rows ≤ 1
  unfolding count
  count-by_key-le k [] d = omega arith
  count-by_key-le k (x ∷ rows) (q, d) = elim (Bool-cases (key x == k)) [
    | inl t ↦
        let none_left = count-absent k rows (rw ((e.beq_iff (key x) k).0 t) at q) in
        ground (arith, none_left)
    | inr f ↦ ground (arith, count-by_key-le k rows d)
  ]

  pub All-same_of_key :
      (k : K) (rows : List A) (r : A)
      → Distinct key rows
      → by_key k rows ≡ some r
      → All (λ x. (key x == k) ≡ true → x ≡ r) rows
  unfolding first
  All-same_of_key k [] r d h = tt
  All-same_of_key k (x ∷ rows) r (q, d) h = elim (Bool-cases (key x == k)) [
    | inl t ↦
        let here : x ≡ r = ground arith in
        let at_k = (e.beq_iff (key x) k).0 t in
        (
          (λ _. here),
          All-map (λ y ne same. absurd (ne (at_k ∙ sym ((e.beq_iff (key y) k).0 same)))) rows q,
        )
    | inr f ↦ ((λ same. cc), All-same_of_key k rows r d (ground arith))
  ]

  -- The key of every row that the UPDATE touches stays as it is.
  abbrev pub KeepsKey : (A → Bool) → (A → A) → Type (ℓ ⊔ κ)
  KeepsKey p f = (r : A) → p r ≡ true → key (f r) ≡ key r

  All-key-update :
      (p : A → Bool) (f : A → A) (k : K) (rows : List A)
      → KeepsKey p f
      → All (λ y. k ≢ key y) rows
      → All (λ y. k ≢ key y) (update p f rows)
  unfolding update
  All-key-update p f k [] same h = tt
  All-key-update p f k (x ∷ rows) same (q, h) = elim (Bool-cases (p x)) [
    | inl t ↦ rw t ((λ c. q (c ∙ same x t)), All-key-update p f k rows same h)
    | inr n ↦ rw n (q, All-key-update p f k rows same h)
  ]

  pub Distinct-update :
      (p : A → Bool) (f : A → A) (rows : List A)
      → KeepsKey p f
      → Distinct key rows
      → Distinct key (update p f rows)
  unfolding update
  Distinct-update p f [] same d = tt
  Distinct-update p f (x ∷ rows) same (q, d) = elim (Bool-cases (p x)) [
    | inl t ↦
        rw t
          (rw (same x t) (All-key-update p f (key x) rows same q), Distinct-update p f rows same d)
    | inr n ↦ rw n (All-key-update p f (key x) rows same q, Distinct-update p f rows same d)
  ]

  -- A lookup by a key that the UPDATE keeps finds the updated row.
  pub by_key-update :
      (p : A → Bool) (f : A → A) (k : K) (rows : List A)
      → KeepsKey p f
      → by_key k (update p f rows)
        ≡ elim (by_key k rows) [ none ↦ none | some r ↦ some (if p r then f r else r) ]
  unfolding first update
  by_key-update p f k [] same = refl
  by_key-update p f k (x ∷ rows) same = elim (Bool-cases (p x)) [
    | inl t ↦ rw (t, same x t) (ground (arith, by_key-update p f k rows same))
    | inr n ↦ rw n (ground (arith, by_key-update p f k rows same))
  ]

  -- A DELETE by key takes away that key and no other.
  pub by_key-delete_self : (k : K) (rows : List A) → by_key k (delete (λ r. key r == k) rows) ≡ none
  unfolding first delete
  by_key-delete_self k [] = refl
  by_key-delete_self k (x ∷ rows) = elim (Bool-cases (key x == k)) [
    | inl t ↦ rw t (by_key-delete_self k rows)
    | inr n ↦ rw n (rw n (by_key-delete_self k rows))
  ]

  pub by_key-delete_ne :
      (k j : K) (rows : List A) → k ≢ j → by_key j (delete (λ r. key r == k) rows) ≡ by_key j rows
  unfolding first delete
  by_key-delete_ne k j [] h = refl
  by_key-delete_ne k j (x ∷ rows) h = elim (Bool-cases (key x == k)) [
    | inl t ↦
        let other : (key x == j) ≡ false =
          beq_of_ne (key x) j (λ c. h (sym ((e.beq_iff (key x) k).0 t) ∙ c)) in
        rw (t, other) (by_key-delete_ne k j rows h)
    | inr n ↦ rw n (ground (arith, by_key-delete_ne k j rows h))
  ]

-- An UPDATE of one row, which its identifier picks, to a value that no other row has.
module _ {ℓ κ} {A : Type ℓ} {K : Type κ} (key : A → K) (id : A → ℕ) (k : ℕ) (v : K) (f : A → A)
    (sets : (r : A) → (id r == k) ≡ true → key (f r) ≡ v) where
  abbrev pub Untaken : List A → Type κ
  Untaken rows = All (λ r. (id r == k) ≡ false → key r ≢ v) rows

  All-set_apart :
      (rows : List A) (w : K)
      → w ≢ v
      → All (λ y. w ≢ key y) rows
      → All (λ y. w ≢ key y) (update (λ r. id r == k) f rows)
  unfolding update
  All-set_apart [] w n h = tt
  All-set_apart (x ∷ rows) w n (q, h) = elim (Bool-cases (id x == k)) [
    | inl t ↦ rw t ((λ c. n (c ∙ sets x t)), All-set_apart rows w n h)
    | inr e ↦ rw e (q, All-set_apart rows w n h)
  ]

  All-set_rest :
      (rows : List A)
      → All (λ y. k ≢ id y) rows
      → Untaken rows
      → All (λ y. v ≢ key y) (update (λ r. id r == k) f rows)
  unfolding update
  All-set_rest [] h u = tt
  All-set_rest (x ∷ rows) (q, h) (n, u) =
      let other : (id x == k) ≡ false = ground arith in
      rw other ((λ c. n other (sym c)), All-set_rest rows h u)

  pub Distinct-set :
      (rows : List A)
      → Distinct id rows
      → Untaken rows
      → Distinct key rows
      → Distinct key (update (λ r. id r == k) f rows)
  unfolding update
  Distinct-set [] i u d = tt
  Distinct-set (x ∷ rows) (i, is) (n, u) (q, d) = elim (Bool-cases (id x == k)) [
    | inl t ↦
        let here : id x ≡ k = ground arith in
        rw (t, sets x t) (All-set_rest rows (rw here at i) u, Distinct-set rows is u d)
    | inr e ↦ rw e (All-set_apart rows (key x) (n e) q, Distinct-set rows is u d)
  ]
