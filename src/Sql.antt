-- ===== src/Sql.antt =====
-- The SQL statements that the repositories issue, over a table as the list of its rows:
-- SELECT, UPDATE and DELETE with a WHERE test, their row counts, and the first row of a result.
pub mod Keyed
pub mod Counts
use outlook_dictionary.Common.{
  ℕ, suc, Bool, true, false, Option, none, some, List, [], ◌∷◌, if◌then◌else◌,
}

module _ {ℓ} {A : Type ℓ} where
  -- SELECT … WHERE p
  unfoldable pub select : (A → Bool) → List A → List A
  select p [] = []
  select p (r ∷ rows) = if p r then r ∷ select p rows else select p rows

  -- `result.scalars().first()`
  unfoldable pub first : (A → Bool) → List A → Option A
  first p [] = none
  first p (r ∷ rows) = if p r then some r else first p rows

  -- UPDATE … SET f WHERE p
  unfoldable pub update_where : (A → Bool) → (A → A) → List A → List A
  update_where p f [] = []
  update_where p f (r ∷ rows) = (if p r then f r else r) ∷ update_where p f rows

  -- DELETE … WHERE p
  unfoldable pub delete_where : (A → Bool) → List A → List A
  delete_where p [] = []
  delete_where p (r ∷ rows) = if p r then delete_where p rows else r ∷ delete_where p rows

  -- `result.rowcount` of an UPDATE or DELETE … WHERE p
  unfoldable pub rowcount : (A → Bool) → List A → ℕ
  rowcount p [] = 0
  rowcount p (r ∷ rows) = if p r then suc (rowcount p rows) else rowcount p rows
