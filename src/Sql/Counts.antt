-- ===== src/Sql/Counts.antt =====
-- Row counts after an update.
use outlook_dictionary.Common.{◌≡◌, refl, Bool, false, List, [], ◌∷◌, arith}
use outlook_dictionary.Sql.{update_where, rowcount}

module _ {A : Type 0} (test p : A → Bool) (f : A → A) where
  -- An update that leaves the test leaves its row count.
  pub rowcount-update :
      (rows : List A)
      → ((r : A) → test (f r) ≡ test r)
      → rowcount test (update_where p f rows) ≡ rowcount test rows
  unfolding rowcount update_where
  rowcount-update [] same = refl
  rowcount-update (r ∷ rows) same = ground (arith, same r, rowcount-update rows same)

-- An update after which its own test fails leaves no row for the test.
pub rowcount-cleared :
    {A : Type 0} (test : A → Bool) (f : A → A) (rows : List A)
    → ((r : A) → test (f r) ≡ false)
    → rowcount test (update_where test f rows) ≡ 0
unfolding rowcount update_where
rowcount-cleared test f [] clears = refl
rowcount-cleared test f (r ∷ rows) clears =
    ground (arith, clears r, rowcount-cleared test f rows clears)
