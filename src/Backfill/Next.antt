-- ===== src/Backfill/Next.antt =====
-- What is ahead of the backfill before and after a batch.
use mathlib.Core.Path.{subst}
use outlook_dictionary.Common.{
  ℕ, zero, suc, ◌+◌, ◌≡◌, refl, sym, ◌∙◌, true, Option, none, some, List, [], ◌∷◌, length, ltb,
  arith, All,
}
use outlook_dictionary.Sql.{select, rowcount}
use outlook_dictionary.Mail.{Message}
use outlook_dictionary.Schedule.Polling.{take_rows}
use outlook_dictionary.Backfill.{
  insert_by_id, sort_by_id, is_beyond, is_ahead, fetch_batch, last_id,
}
use outlook_dictionary.Backfill.Ordered.{
  Distinct, Ascends, rowcount-sort, length-sort, length-select, select-Distinct, sort-Ascends,
  left_beyond,
}

-- Every row is beyond the cursor.
abbrev AllBeyond : Option ℕ → List Message → Type 0
AllBeyond cursor rows = All (λ m. is_beyond cursor m.id ≡ true) rows

ahead-AllBeyond :
    (tenant_id : ℕ) (cursor : Option ℕ) (rows : List Message)
    → AllBeyond cursor (select (is_ahead tenant_id cursor) rows)
unfolding select is_ahead
ahead-AllBeyond tenant_id cursor [] = tt
ahead-AllBeyond tenant_id cursor (m ∷ rows) = ground (arith, ahead-AllBeyond tenant_id cursor rows)

insert-AllBeyond :
    (cursor : Option ℕ) (m : Message) (rows : List Message)
    → is_beyond cursor m.id ≡ true
    → AllBeyond cursor rows
    → AllBeyond cursor (insert_by_id m rows)
unfolding insert_by_id
insert-AllBeyond cursor m [] h k = (h, tt)
insert-AllBeyond cursor m (n ∷ rows) h (first, k) =
    ground (arith, h, first, k, insert-AllBeyond cursor m rows h k)

sort-AllBeyond :
    (cursor : Option ℕ) (rows : List Message)
    → AllBeyond cursor rows
    → AllBeyond cursor (sort_by_id rows)
unfolding sort_by_id
sort-AllBeyond cursor [] h = tt
sort-AllBeyond cursor (m ∷ rows) (h, k) =
    insert-AllBeyond cursor m (sort_by_id rows) h (sort-AllBeyond cursor rows k)

last_id-beyond :
    (n : ℕ) (cursor : Option ℕ) (m : Message) (rows : List Message)
    → AllBeyond cursor (m ∷ rows)
    → is_beyond cursor (last_id m (take_rows n rows)) ≡ true
unfolding take_rows last_id
last_id-beyond zero cursor m rows (h, k) = h
last_id-beyond (suc n) cursor m [] (h, k) = h
last_id-beyond (suc n) cursor m (x ∷ rows) (h, k) = last_id-beyond n cursor x rows k

-- Ahead of a later cursor is what is ahead of this one and beyond the later.
rowcount-ahead :
    (tenant_id later : ℕ) (cursor : Option ℕ) (rows : List Message)
    → is_beyond cursor later ≡ true
    → rowcount (is_ahead tenant_id (some later)) rows
      ≡ rowcount (λ r. ltb later r.id) (select (is_ahead tenant_id cursor) rows)
unfolding rowcount select is_ahead
rowcount-ahead tenant_id later cursor [] h = refl
rowcount-ahead tenant_id later none (m ∷ rows) h =
    ground (arith, rowcount-ahead tenant_id later none rows h)
rowcount-ahead tenant_id later (some cursor) (m ∷ rows) h =
    ground (arith, h, rowcount-ahead tenant_id later (some cursor) rows h)

-- A batch of the rows in order, and what is beyond it.
batch_of :
    (n : ℕ) (cursor : Option ℕ) (sorted : List Message) (m : Message) (batch : List Message)
    → Ascends 0 sorted
    → AllBeyond cursor sorted
    → take_rows (suc n) sorted ≡ m ∷ batch
    → (is_beyond cursor (last_id m batch) ≡ true)
      × (rowcount (λ r. ltb (last_id m batch) r.id) sorted + length (m ∷ batch) ≡ length sorted)
unfolding take_rows
batch_of n cursor [] m batch h k e = cc
batch_of n cursor (x ∷ sorted) m batch (le, h) k e =
    subst
      (λ rows. elim rows as (λ _. Type 0) [
        | [] ↦ Unit
        | m ∷ batch ↦
            (is_beyond cursor (last_id m batch) ≡ true)
            × (rowcount (λ r. ltb (last_id m batch) r.id) (x ∷ sorted) + length (m ∷ batch)
                ≡ length (x ∷ sorted))
      ])
      e (last_id-beyond n cursor x sorted k, left_beyond n x sorted h)

-- A batch is as much as the cursor's move takes away from what is ahead.
pub fetch_batch-Next :
    (n tenant_id : ℕ) (cursor : Option ℕ) (rows : List Message) (m : Message) (batch : List Message)
    → Distinct rows
    → fetch_batch (suc n) tenant_id cursor rows ≡ m ∷ batch
    → rowcount (is_ahead tenant_id (some (last_id m batch))) rows + length (m ∷ batch)
      ≡ rowcount (is_ahead tenant_id cursor) rows
unfolding fetch_batch
fetch_batch-Next n tenant_id cursor rows m batch h e =
    omega (arith, counted.1, ahead, sorted, lengths)
  where
    found : List Message
    found = select (is_ahead tenant_id cursor) rows

    counted :
        (is_beyond cursor (last_id m batch) ≡ true)
        × (rowcount (λ r. ltb (last_id m batch) r.id) (sort_by_id found) + length (m ∷ batch)
            ≡ length (sort_by_id found))
    counted =
        batch_of n cursor (sort_by_id found) m batch
          (sort-Ascends found (select-Distinct (is_ahead tenant_id cursor) rows h))
          (sort-AllBeyond cursor found (ahead-AllBeyond tenant_id cursor rows)) e

    ahead :
        rowcount (is_ahead tenant_id (some (last_id m batch))) rows
        ≡ rowcount (λ r. ltb (last_id m batch) r.id) found
    ahead = rowcount-ahead tenant_id (last_id m batch) cursor rows counted.0

    sorted :
        rowcount (λ r. ltb (last_id m batch) r.id) (sort_by_id found)
        ≡ rowcount (λ r. ltb (last_id m batch) r.id) found
    sorted = rowcount-sort (λ r. ltb (last_id m batch) r.id) found

    lengths : length (sort_by_id found) ≡ rowcount (is_ahead tenant_id cursor) rows
    lengths = length-sort found ∙ length-select (is_ahead tenant_id cursor) rows

-- Without a batch nothing is ahead.
pub fetch_batch-none :
    (n tenant_id : ℕ) (cursor : Option ℕ) (rows : List Message)
    → fetch_batch (suc n) tenant_id cursor rows ≡ []
    → rowcount (is_ahead tenant_id cursor) rows ≡ 0
unfolding fetch_batch take_rows
fetch_batch-none n tenant_id cursor rows e =
    sym (length-select (is_ahead tenant_id cursor) rows)
    ∙ sym (length-sort (select (is_ahead tenant_id cursor) rows))
    ∙ go (sort_by_id (select (is_ahead tenant_id cursor) rows)) e
  where
    go : (sorted : List Message) → take_rows (suc n) sorted ≡ [] → length sorted ≡ 0
    go [] e = refl
    go (x ∷ sorted) e = cc
