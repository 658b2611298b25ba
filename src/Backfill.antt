-- ===== src/Backfill.antt =====
-- The embedding backfill: apps/workers/src/mip_workers/backfill.py and its checkpoint,
-- `EmbeddingBackfillProgress` (packages/models/src/mip_models/mail.py).
pub mod Ordered
pub mod Next
pub mod Settled
pub mod Run
use outlook_dictionary.Common.{
  ℕ, zero, suc, ◌+◌, Bool, true, false, not, ◌&&◌, Option, none, some, List, [], ◌∷◌, if◌then◌else◌,
  ◌==◌, length, ltb, leb, is_some,
}
use outlook_dictionary.Sql.{select}
use outlook_dictionary.Mail.{Message}
use outlook_dictionary.Schedule.Polling.{take_rows}
use outlook_dictionary.Worker.Elastic.{Answer, Updating, updated, update_embeddings}

pub data BackfillStatus : Type 0 where
  pending in_progress completed failed cancelled : BackfillStatus

pub record Progress : Type 0 where
  pub status : BackfillStatus
  pub last_cursor_id : Option ℕ
  pub total_processed : ℕ
  pub total_embedded : ℕ
  pub total_skipped : ℕ
  pub total_failed : ℕ
  pub started_at : Option ℕ
  pub completed_at : Option ℕ
  pub error_message : Option ℕ

-- How `embed` of the provider ends: a vector each, if it gives as many as there are texts; an
-- `EmbeddingPermanentError`; or another exception, with its text.
pub data Embedding : Type 0 where
  vectors : List ℕ → Embedding
  embedding_permanent : Embedding
  embedding_error : (message : ℕ) → Embedding

-- What surrounds a backfill: the clock, the batch size, what the provider answers for a batch, what
-- Elasticsearch answers to the update of a message by a vector, and whether the row of the
-- progress is found cancelled when it is refreshed with the cursor there.
pub record BackfillWorld : Type 0 where
  pub now : ℕ
  pub batch_size : ℕ
  pub embed : List Message → Embedding
  pub update : Message → (vector : ℕ) → Answer
  pub is_cancelled : (cursor : ℕ) → Bool

pub data Ending : Type 0 where
  returned raised out_of_fuel : Ending

-- ORDER BY id ASC
unfoldable pub insert_by_id : Message → List Message → List Message
insert_by_id m [] = m ∷ []
insert_by_id m (n ∷ rows) = if leb m.id n.id then m ∷ n ∷ rows else n ∷ insert_by_id m rows

unfoldable pub sort_by_id : List Message → List Message
unfolding insert_by_id
sort_by_id [] = []
sort_by_id (m ∷ rows) = insert_by_id m (sort_by_id rows)

abbrev pub is_beyond : Option ℕ → ℕ → Bool
is_beyond none id = true
is_beyond (some cursor) id = ltb cursor id

-- The WHERE test of `_fetch_batch`.
unfoldable pub is_ahead : (tenant_id : ℕ) → (cursor : Option ℕ) → Message → Bool
is_ahead tenant_id cursor m =
    m.tenant_id == tenant_id && (not m.is_deleted && is_beyond cursor m.id)

-- `_fetch_batch`
unfoldable pub fetch_batch :
    (batch_size tenant_id : ℕ) → (cursor : Option ℕ) → List Message → List Message
unfolding sort_by_id is_ahead
fetch_batch batch_size tenant_id cursor rows =
    take_rows batch_size (sort_by_id (select (is_ahead tenant_id cursor) rows))

-- `batch[-1].id`
unfoldable pub last_id : Message → List Message → ℕ
last_id m [] = m.id
last_id m (n ∷ batch) = last_id n batch

-- One more message is processed: embedded, skipped, or failed.
abbrev pub count_embedded : Progress → Progress
count_embedded p = record p {
  total_processed = p.total_processed + 1;
  total_embedded = p.total_embedded + 1;
}

abbrev pub count_skipped : Progress → Progress
count_skipped p = record p {
  total_processed = p.total_processed + 1;
  total_skipped = p.total_skipped + 1;
}

abbrev pub count_failed : Progress → Progress
count_failed p = record p {
  total_processed = p.total_processed + 1;
  total_failed = p.total_failed + 1;
}

-- `ok`, or any exception
abbrev pub count_update : Updating → Progress → Progress
count_update (updated true) p = count_embedded p
count_update (updated false) p = count_skipped p
count_update _ p = count_failed p

module _ (world : BackfillWorld) where
  -- The loop of `_process_batch`.
  unfoldable pub write_vectors : List Message → List ℕ → Progress → Progress
  unfolding update_embeddings
  write_vectors [] vs p = p
  write_vectors (m ∷ batch) [] p = write_vectors batch [] (count_failed p)
  write_vectors (m ∷ batch) (v ∷ vs) p =
      write_vectors batch vs (count_update (update_embeddings (world.update m v)) p)

  -- `_process_batch`, with the text of the exception that it lets through, if any
  abbrev pub process_batch : List Message → Progress → Option ℕ × Progress
  process_batch batch p = elim (world.embed batch) [
    | vectors vs ↦ (none, write_vectors batch vs p)
    | embedding_permanent ↦ (
      none,
      record p {
        total_processed = p.total_processed + length batch;
        total_failed = p.total_failed + length batch;
      },
    )
    | embedding_error message ↦ (some message, p)
  ]

  -- The end of a pass: the exception, or the cursor and the look for a cancellation.
  abbrev pub end_pass :
      Option ℕ × Progress → (id : ℕ) → (next : Progress → Ending × Progress) → Ending × Progress
  end_pass (some message, p) id next =
      (raised, record p { status = failed; error_message = some message })
  end_pass (none, p) id next = elim (world.is_cancelled id) [
    | true ↦ (returned, record p { status = cancelled; last_cursor_id = some id })
    | false ↦ next (record p { last_cursor_id = some id })
  ]

  -- A pass of the loop of `run`, with the batch that is fetched and the passes that follow.
  abbrev pub pass :
      List Message → Progress → (next : ℕ → Progress → Ending × Progress) → Ending × Progress
  pass [] p next = (returned, record p { status = completed; completed_at = some world.now })
  pass (m ∷ batch) p next =
      end_pass (process_batch (m ∷ batch) p) (last_id m batch) (next (last_id m batch))

  -- The loop of `run`, on the passes that are left.
  unfoldable pub run_from :
      (fuel tenant_id : ℕ) → (cursor : Option ℕ) → List Message → Progress → Ending × Progress
  unfolding fetch_batch last_id write_vectors
  run_from zero tenant_id cursor rows p = (out_of_fuel, p)
  run_from (suc fuel) tenant_id cursor rows p =
      pass (fetch_batch world.batch_size tenant_id cursor rows) p
        (λ id p. run_from fuel tenant_id (some id) rows p)

  abbrev pub new_progress : Progress
  new_progress = record {
    status = pending;
    last_cursor_id = none;
    total_processed = 0;
    total_embedded = 0;
    total_skipped = 0;
    total_failed = 0;
    started_at = none;
    completed_at = none;
    error_message = none;
  }

  abbrev pub start_time : Option ℕ → Option ℕ
  start_time none = some world.now
  start_time (some at) = some at

  abbrev pub start_run : Progress → Progress
  start_run p = record p { status = in_progress; started_at = start_time p.started_at }

  -- `run`, on a row of the progress.
  abbrev pub run_row : (fuel tenant_id : ℕ) → List Message → Progress → Ending × Progress
  run_row fuel tenant_id rows p = elim p.status [
    | completed ↦ (returned, p)
    | cancelled ↦ (returned, p)
    | _ ↦ run_from fuel tenant_id p.last_cursor_id rows (start_run p)
  ]

  -- `run`: `_get_or_create_progress` makes the row where there is none.
  unfoldable pub run : (fuel tenant_id : ℕ) → List Message → Option Progress → Ending × Progress
  unfolding run_from
  run fuel tenant_id rows none = run_row fuel tenant_id rows new_progress
  run fuel tenant_id rows (some p) = run_row fuel tenant_id rows p
