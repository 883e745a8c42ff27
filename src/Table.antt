-- ===== src/Table.antt =====
-- The SQL statements that the repositories of LoRaDB-UI/backend/src/db issue, on a table that is the
-- list of its rows in rowid order. A WHERE clause is a Boolean test on a row.
pub mod Keys
pub mod Laws
pub mod Sort
pub mod Apart
use lo_ra_dbase.Common.{
  ℕ, suc, ◌+◌, Bool, true, false, Option, none, some, List, [], ◌∷◌, ◌++◌, if◌then◌else◌,
}

module _ {ℓ} {A : Type ℓ} where
  -- SELECT … WHERE p
  unfoldable pub select : (A → Bool) → List A → List A
  select p [] = []
  select p (r ∷ rows) = if p r then r ∷ select p rows else select p rows

  -- the first row of SELECT … WHERE p: `stmt.get`, which is undefined where no row fits
  unfoldable pub first : (A → Bool) → List A → Option A
  first p [] = none
  first p (r ∷ rows) = if p r then some r else first p rows

  -- SELECT COUNT(*) … WHERE p
  unfoldable pub count : (A → Bool) → List A → ℕ
  count p [] = 0
  count p (r ∷ rows) = (if p r then 1 else 0) + count p rows

  -- INSERT: a new row has the largest rowid
  abbrev pub insert : A → List A → List A
  insert r rows = rows ++ r ∷ []

  -- UPDATE … SET f WHERE p
  unfoldable pub update : (A → Bool) → (A → A) → List A → List A
  update p f [] = []
  update p f (r ∷ rows) = (if p r then f r else r) ∷ update p f rows

  -- DELETE … WHERE p
  unfoldable pub delete : (A → Bool) → List A → List A
  delete p [] = []
  delete p (r ∷ rows) = if p r then delete p rows else r ∷ delete p rows
