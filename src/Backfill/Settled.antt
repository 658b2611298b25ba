-- ===== src/Backfill/Settled.antt =====
-- How a backfill ends, and what its counters say.
use outlook_dictionary.Common.{
  ℕ, ◌+◌, ◌≡◌, ◌⊎◌, refl, ◌∙◌, true, false, Option, none, some, List, [], ◌∷◌, length, arith,
}
use outlook_dictionary.Sql.{rowcount}
use outlook_dictionary.Mail.{Message}
use outlook_dictionary.Worker.Elastic.{
  Updating, updated, update_permanent, update_retryable, update_unclassified, update_embeddings,
}
use outlook_dictionary.Backfill.{
  completed, failed, cancelled, Progress, Embedding, vectors, embedding_permanent, embedding_error,
  BackfillWorld, Ending, returned, raised, out_of_fuel, is_ahead, count_update, count_failed,
  write_vectors, process_batch,
}

-- Every processed message is embedded, skipped or failed.
abbrev pub IsBalanced : Progress → Type 0
IsBalanced p = p.total_processed ≡ p.total_embedded + p.total_skipped + p.total_failed

-- So many more messages are processed, and the counters agree.
abbrev pub Counted : ℕ → Progress → Progress → Type 0
Counted n p p' = (p'.total_processed ≡ p.total_processed + n) × IsBalanced p'

count_update-Counted : (u : Updating) (p : Progress) → IsBalanced p → Counted 1 p (count_update u p)
count_update-Counted (updated true) p h = (refl, omega (arith, h))
count_update-Counted (updated false) p h = (refl, omega (arith, h))
count_update-Counted update_permanent p h = (refl, omega (arith, h))
count_update-Counted (update_retryable _) p h = (refl, omega (arith, h))
count_update-Counted update_unclassified p h = (refl, omega (arith, h))

write_vectors-Counted :
    (world : BackfillWorld) (batch : List Message) (vs : List ℕ) (p : Progress)
    → IsBalanced p
    → Counted (length batch) p (write_vectors world batch vs p)
unfolding write_vectors
write_vectors-Counted world [] vs p h = (omega arith, h)
write_vectors-Counted world (m ∷ batch) [] p h =
    let rest = write_vectors-Counted world batch [] (count_failed p) (omega (arith, h)) in
    (omega (arith, rest.0), rest.1)
write_vectors-Counted world (m ∷ batch) (v ∷ vs) p h =
    let one = count_update-Counted (update_embeddings (world.update m v)) p h in
    let rest =
      write_vectors-Counted world batch vs (count_update (update_embeddings (world.update m v)) p)
        one.1 in
    (omega (arith, one.0, rest.0), rest.1)

-- How many live messages of the tenant are ahead of the cursor.
abbrev pub ahead : (tenant_id : ℕ) → List Message → Option ℕ → ℕ
ahead tenant_id rows cursor = rowcount (is_ahead tenant_id cursor) rows

-- The status tells how the run has ended; a completed one has nothing ahead.
abbrev pub Ends : (tenant_id : ℕ) → List Message → Ending → Progress → Type 0
Ends tenant_id rows returned p =
    (p.status ≡ completed) × (ahead tenant_id rows p.last_cursor_id ≡ 0) ⊎ (p.status ≡ cancelled)
Ends tenant_id rows raised p = p.status ≡ failed
Ends tenant_id rows out_of_fuel p = ⊥

-- The counters agree, and the processed messages are those that the cursor has passed.
abbrev pub Settled : (tenant_id : ℕ) → List Message → Progress → Ending × Progress → Type 0
Settled tenant_id rows p (ending, p') =
    IsBalanced p'
    × (p'.total_processed + ahead tenant_id rows p'.last_cursor_id
        ≡ p.total_processed + ahead tenant_id rows p.last_cursor_id)
    × Ends tenant_id rows ending p'

-- What the passes that follow keep of what was settled before them.
pub carry :
    (tenant_id : ℕ) (rows : List Message) (p q : Progress) (r : Ending × Progress)
    → q.total_processed + ahead tenant_id rows q.last_cursor_id
      ≡ p.total_processed + ahead tenant_id rows p.last_cursor_id
    → Settled tenant_id rows q r
    → Settled tenant_id rows p r
carry tenant_id rows p q (ending, p') e (balanced, moved, ends) = (balanced, moved ∙ e, ends)

-- The result of `_process_batch`: an exception leaves the progress, or the batch is counted.
abbrev pub Processed : (n : ℕ) → Progress → Option ℕ × Progress → Type 0
Processed n p (some message, p') = p' ≡ p
Processed n p (none, p') = Counted n p p'

pub process_batch-Processed :
    (world : BackfillWorld) (batch : List Message) (p : Progress)
    → IsBalanced p
    → Processed (length batch) p (process_batch world batch p)
process_batch-Processed world batch p h = go (world.embed batch)
  where
    go :
        (e : Embedding)
        → Processed (length batch) p (elim e as (λ _. Option ℕ × Progress) [
          | vectors vs ↦ (none, write_vectors world batch vs p)
          | embedding_permanent ↦ (
            none,
            record p {
              total_processed = p.total_processed + length batch;
              total_failed = p.total_failed + length batch;
            },
          )
          | embedding_error message ↦ (some message, p)
        ])
    go (vectors vs) = write_vectors-Counted world batch vs p h
    go embedding_permanent = (refl, omega (arith, h))
    go (embedding_error message) = refl
