-- ===== src/Backfill/Ordered.antt =====
-- A batch of the backfill takes the next messages in the order of their ids.
use outlook_dictionary.Common.{
  ℕ, zero, suc, ◌+◌, ◌≤◌, ◌<◌, ◌≡◌, refl, ap, ◌∙◌, Bool, true, false, List, [], ◌∷◌, if◌then◌else◌,
  ◌==◌, length, ltb, arith,
}
use outlook_dictionary.Sql.{select, rowcount}
use outlook_dictionary.Mail.{Message}
use outlook_dictionary.Schedule.Polling.{take_rows}
use outlook_dictionary.Backfill.{insert_by_id, sort_by_id, last_id}

-- The ids are a key.
abbrev pub Distinct : List Message → Type 0
Distinct [] = Unit
Distinct (m ∷ rows) = (rowcount (λ r. r.id == m.id) rows ≡ 0) × Distinct rows

-- The ids ascend, from the bound on.
abbrev pub Ascends : ℕ → List Message → Type 0
Ascends low [] = Unit
Ascends low (m ∷ rows) = (low ≤ m.id) × Ascends (m.id + 1) rows

rowcount-insert :
    (p : Message → Bool) (m : Message) (rows : List Message)
    → rowcount p (insert_by_id m rows) ≡ rowcount p (m ∷ rows)
unfolding rowcount insert_by_id
rowcount-insert p m [] = refl
rowcount-insert p m (n ∷ rows) = ground (arith, rowcount-insert p m rows)

pub rowcount-sort :
    (p : Message → Bool) (rows : List Message) → rowcount p (sort_by_id rows) ≡ rowcount p rows
unfolding rowcount sort_by_id
rowcount-sort p [] = refl
rowcount-sort p (m ∷ rows) =
    ground (arith, rowcount-insert p m (sort_by_id rows), rowcount-sort p rows)

length-insert :
    (m : Message) (rows : List Message) → length (insert_by_id m rows) ≡ suc (length rows)
unfolding insert_by_id
length-insert m [] = refl
length-insert m (n ∷ rows) = ground (arith, length-insert m rows)

pub length-sort : (rows : List Message) → length (sort_by_id rows) ≡ length rows
unfolding sort_by_id
length-sort [] = refl
length-sort (m ∷ rows) = length-insert m (sort_by_id rows) ∙ ap suc (length-sort rows)

pub length-select :
    (p : Message → Bool) (rows : List Message) → length (select p rows) ≡ rowcount p rows
unfolding select rowcount
length-select p [] = refl
length-select p (m ∷ rows) = ground (arith, length-select p rows)

rowcount-select_zero :
    (p q : Message → Bool) (rows : List Message)
    → rowcount q rows ≡ 0
    → rowcount q (select p rows) ≡ 0
unfolding select rowcount
rowcount-select_zero p q [] h = refl
rowcount-select_zero p q (m ∷ rows) h = ground (arith, h, rowcount-select_zero p q rows)

pub select-Distinct :
    (p : Message → Bool) (rows : List Message) → Distinct rows → Distinct (select p rows)
unfolding select
select-Distinct p [] h = tt
select-Distinct p (m ∷ rows) (h, k) =
    elim (p m) as (λ b. Distinct (if b then m ∷ select p rows else select p rows)) [
      | true ↦ (rowcount-select_zero p (λ r. r.id == m.id) rows h, select-Distinct p rows k)
      | false ↦ select-Distinct p rows k
    ]

insert-Ascends :
    (low : ℕ) (m : Message) (rows : List Message)
    → low ≤ m.id
    → rowcount (λ r. r.id == m.id) rows ≡ 0
    → Ascends low rows
    → Ascends low (insert_by_id m rows)
unfolding insert_by_id rowcount
insert-Ascends low m [] le absent h = (le, tt)
insert-Ascends low m (n ∷ rows) le absent (first_le, h) =
    ground (arith, le, absent, first_le, h, insert-Ascends (n.id + 1) m rows)

pub sort-Ascends : (rows : List Message) → Distinct rows → Ascends 0 (sort_by_id rows)
unfolding sort_by_id
sort-Ascends [] h = tt
sort-Ascends (m ∷ rows) (absent, h) =
    insert-Ascends 0 m (sort_by_id rows) (omega arith)
      (rowcount-sort (λ r. r.id == m.id) rows ∙ absent) (sort-Ascends rows h)

all_beyond :
    (cursor low : ℕ) (rows : List Message)
    → cursor < low
    → Ascends low rows
    → rowcount (λ r. ltb cursor r.id) rows ≡ length rows
unfolding rowcount
all_beyond cursor low [] lt h = refl
all_beyond cursor low (m ∷ rows) lt (le, h) =
    ground (arith, lt, le, all_beyond cursor (m.id + 1) rows (omega arith) h)

last_id-le :
    (n : ℕ) (m : Message) (rows : List Message)
    → Ascends (m.id + 1) rows
    → m.id ≤ last_id m (take_rows n rows)
unfolding take_rows last_id
last_id-le zero m rows h = omega arith
last_id-le (suc n) m [] h = omega arith
last_id-le (suc n) m (x ∷ rows) (le, h) = ground (arith, le, last_id-le n x rows h)

-- What a batch leaves is what is beyond its last id.
pub left_beyond :
    (n : ℕ) (m : Message) (rows : List Message)
    → Ascends (m.id + 1) rows
    → rowcount (λ r. ltb (last_id m (take_rows n rows)) r.id) (m ∷ rows)
        + length (m ∷ take_rows n rows)
      ≡ length (m ∷ rows)
unfolding take_rows last_id rowcount
left_beyond zero m rows h = ground (arith, all_beyond m.id (m.id + 1) rows (omega arith) h)
left_beyond (suc n) m [] h = ground (arith)
left_beyond (suc n) m (x ∷ rows) (le, h) =
    ground (arith, le, left_beyond n x rows h, last_id-le n x rows h)
