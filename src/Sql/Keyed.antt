-- ===== src/Sql/Keyed.antt =====
-- Statements on one row of a table with a primary key.
use outlook_dictionary.Common.{
  ℕ, ◌≡◌, ◌≢◌, refl, inl, inr, Bool, ◌&&◌, Option, none, some, List, [], ◌∷◌, ◌++◌, arith,
  if◌then◌else◌, ◌==◌, is_some, Bool-cases,
}
use outlook_dictionary.Sql.{first, update_where, rowcount}

-- What an update does to the row that it may hit.
abbrev pub when {ℓ} : {A : Type ℓ} → (A → Bool) → (A → A) → A → A
when g f r = if g r then f r else r

abbrev pub map_some {ℓ κ} : {A : Type ℓ} {B : Type κ} → (A → B) → Option A → Option B
map_some f none = none
map_some f (some a) = some (f a)

abbrev pub keep_if {ℓ} : {A : Type ℓ} → (A → Bool) → Option A → Option A
keep_if g none = none
keep_if g (some r) = if g r then some r else none

-- The row count of a statement on one key.
abbrev pub hits {ℓ} : {A : Type ℓ} → (A → Bool) → Option A → ℕ
hits g none = 0
hits g (some r) = if g r then 1 else 0

-- A query that an update does not bear on finds the same row, updated.
pub first-update :
    {A : Type 0} (p g : A → Bool) (f : A → A) (rows : List A)
    → ((r : A) → p (f r) ≡ p r)
    → first p (update_where g f rows) ≡ map_some (when g f) (first p rows)
unfolding first update_where
first-update p g f [] h = refl
first-update p g f (r ∷ rows) h = ground (arith, h r, first-update p g f rows h)

-- A row added at the end does not hide the one that was found.
pub first-append_some :
    {A : Type 0} (p : A → Bool) (rows : List A) (x r : A)
    → first p rows ≡ some r
    → first p (rows ++ x ∷ []) ≡ some r
unfolding first
first-append_some p [] x r e = cc
first-append_some p (y ∷ rows) x r e = ground (arith, first-append_some p rows x r)

module _ {A : Type 0} (key : A → ℕ) where
  -- WHERE id = k AND g
  abbrev pub at : ℕ → (A → Bool) → A → Bool
  at k g r = key r == k && g r

  -- `repository.get(k)`
  abbrev pub get : ℕ → List A → Option A
  get k rows = first (λ r. key r == k) rows

  -- The primary key: no key is listed twice.
  abbrev pub HasUniqueKeys : List A → Type 0
  HasUniqueKeys [] = Unit
  HasUniqueKeys (r ∷ rows) = (get (key r) rows ≡ none) × HasUniqueKeys rows

  module _ (f : A → A) (keeps_key : (r : A) → key (f r) ≡ key r) where
    -- The row of the key after an update of that key.
    pub get-update :
        (k : ℕ) (g : A → Bool) (rows : List A)
        → get k (update_where (at k g) f rows) ≡ map_some (when g f) (get k rows)
    unfolding first update_where
    get-update k g [] = refl
    get-update k g (r ∷ rows) = ground (arith, keeps_key r, get-update k g rows)

    -- An update of one key leaves the rows of the others.
    pub get-update_ne :
        (j k : ℕ) (g : A → Bool) (rows : List A)
        → j ≢ k
        → get j (update_where (at k g) f rows) ≡ get j rows
    unfolding first update_where
    get-update_ne j k g [] h = refl
    get-update_ne j k g (r ∷ rows) h = ground (arith, keeps_key r, get-update_ne j k g rows h)

    pub update-HasUniqueKeys :
        (k : ℕ) (g : A → Bool) (rows : List A)
        → HasUniqueKeys rows
        → HasUniqueKeys (update_where (at k g) f rows)
    unfolding first update_where
    update-HasUniqueKeys k g [] h = tt
    update-HasUniqueKeys k g (r ∷ rows) h = ground (
      arith,
      keeps_key r,
      update-HasUniqueKeys k g rows h.1,
      get-update k g rows,
      get-update_ne (key r) k g rows,
    )

  rowcount-none :
      (k : ℕ) (g : A → Bool) (rows : List A) → get k rows ≡ none → rowcount (at k g) rows ≡ 0
  unfolding first rowcount
  rowcount-none k g [] h = refl
  rowcount-none k g (r ∷ rows) h = ground (arith, rowcount-none k g rows)

  -- With a primary key the statement hits its row, if the rest of the test holds there.
  pub rowcount-get :
      (k : ℕ) (g : A → Bool) (rows : List A)
      → HasUniqueKeys rows
      → rowcount (at k g) rows ≡ hits g (get k rows)
  unfolding first rowcount
  rowcount-get k g [] h = refl
  rowcount-get k g (r ∷ rows) h = ground (arith, rowcount-get k g rows h.1, rowcount-none k g rows)

  first-at_none :
      (k : ℕ) (g : A → Bool) (rows : List A) → get k rows ≡ none → first (at k g) rows ≡ none
  unfolding first
  first-at_none k g [] h = refl
  first-at_none k g (r ∷ rows) h = ground (arith, first-at_none k g rows)

  -- The row that RETURNING reports.
  pub first-at :
      (k : ℕ) (g : A → Bool) (rows : List A)
      → HasUniqueKeys rows
      → first (at k g) rows ≡ keep_if g (get k rows)
  unfolding first
  first-at k g [] h = refl
  first-at k g (r ∷ rows) h = ground (arith, first-at k g rows h.1, first-at_none k g rows)

  -- A row written back under its key.
  pub get-replace :
      (j : ℕ) (m : A) (rows : List A)
      → get j (update_where (λ r. key r == key m) (λ _. m) rows)
        ≡ (if key m == j then map_some (λ _. m) (get (key m) rows) else get j rows)
  unfolding first update_where
  get-replace j m [] = ground arith
  get-replace j m (r ∷ rows) = ground (arith, get-replace j m rows)

  pub replace-HasUniqueKeys :
      (m : A) (rows : List A)
      → HasUniqueKeys rows
      → HasUniqueKeys (update_where (λ r. key r == key m) (λ _. m) rows)
  unfolding first update_where
  replace-HasUniqueKeys m [] h = tt
  replace-HasUniqueKeys m (r ∷ rows) h =
      ground (arith, replace-HasUniqueKeys m rows h.1, get-replace (key r) m rows)

  -- A row added at the end.
  pub get-append :
      (j : ℕ) (r : A) (rows : List A)
      → get j (rows ++ r ∷ [])
        ≡ (if is_some (get j rows) then get j rows else if key r == j then some r else none)
  unfolding first
  get-append j r [] = ground arith
  get-append j r (x ∷ rows) = ground (arith, get-append j r rows)

  pub append-HasUniqueKeys :
      (r : A) (rows : List A)
      → get (key r) rows ≡ none
      → HasUniqueKeys rows
      → HasUniqueKeys (rows ++ r ∷ [])
  unfolding first
  append-HasUniqueKeys r [] h u = (refl, tt)
  append-HasUniqueKeys r (x ∷ rows) h u =
      ground (arith, append-HasUniqueKeys r rows, get-append (key x) r rows)

  first-none-get :
      (p : A → Bool) (rows : List A) (m : A) → get (key m) rows ≡ none → first p rows ≢ some m
  unfolding first
  first-none-get p [] m h e = cc
  first-none-get p (r ∷ rows) m h e = ground (arith, first-none-get p rows m)

  -- A row that any query finds is the row of its key.
  pub first-get :
      (p : A → Bool) (rows : List A) (m : A)
      → HasUniqueKeys rows
      → first p rows ≡ some m
      → get (key m) rows ≡ some m
  unfolding first
  first-get p [] m u e = cc
  first-get p (r ∷ rows) m u e = elim (Bool-cases (p r)) [
    | inl here ↦ ground arith
    | inr there ↦ ground (arith, first-get p rows m u.1, first-none-get p rows m)
  ]
