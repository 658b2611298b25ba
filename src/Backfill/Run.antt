-- ===== src/Backfill/Run.antt =====
-- A run of the backfill, from its start to its end.
use mathlib.Core.Path.{subst}
use outlook_dictionary.Common.{
  ℕ, zero, suc, ◌+◌, ◌<◌, ◌≡◌, ◌≢◌, inl, inr, refl, sym, ap, ◌∙◌, Bool, true, false, Option, none,
  some, List, [], ◌∷◌, length, arith,
}
use outlook_dictionary.Mail.{Message}
use outlook_dictionary.Backfill.{
  BackfillStatus, pending, in_progress, completed, failed, cancelled, Progress, BackfillWorld,
  Ending, returned, raised, fetch_batch, last_id, process_batch, end_pass, pass, run_from, run_row,
  start_run, new_progress, run,
}
use outlook_dictionary.Backfill.Ordered.{Distinct}
use outlook_dictionary.Backfill.Next.{fetch_batch-Next, fetch_batch-none}
use outlook_dictionary.Backfill.Settled.{
  IsBalanced, ahead, Settled, carry, Processed, process_batch-Processed,
}

module _ (world : BackfillWorld) (tenant_id : ℕ) (rows : List Message) where
  end_pass-Settled :
      (n id : ℕ) (p : Progress) (r : Option ℕ × Progress) (next : Progress → Ending × Progress)
      → IsBalanced p
      → Processed n p r
      → ahead tenant_id rows (some id) + n ≡ ahead tenant_id rows p.last_cursor_id
      → ((q : Progress)
          → q.last_cursor_id ≡ some id
          → IsBalanced q
          → Settled tenant_id rows q (next q))
      → Settled tenant_id rows p (end_pass world r id next)
  end_pass-Settled n id p (some message, p') next h e moved later =
      subst
        (λ q.
          Settled tenant_id rows p
            (raised, record q { status = failed; error_message = some message }))
        (sym e) (h, refl, refl)
  end_pass-Settled n id p (none, p') next h (counted, balanced) moved later =
      go (world.is_cancelled id)
    where
      go :
          (b : Bool)
          → Settled tenant_id rows p (elim b as (λ _. Ending × Progress) [
            | true ↦ (returned, record p' { status = cancelled; last_cursor_id = some id })
            | false ↦ next (record p' { last_cursor_id = some id })
          ])
      go true = (balanced, omega (arith, counted, moved), inr refl)
      go false =
          carry tenant_id rows p (record p' { last_cursor_id = some id })
            (next (record p' { last_cursor_id = some id })) (omega (arith, counted, moved))
            (later (record p' { last_cursor_id = some id }) refl balanced)

  pass-Settled :
      (n : ℕ) (cursor : Option ℕ) (p : Progress) (batch : List Message)
      (next : ℕ → Progress → Ending × Progress)
      → Distinct rows
      → p.last_cursor_id ≡ cursor
      → IsBalanced p
      → fetch_batch (suc n) tenant_id cursor rows ≡ batch
      → ((id : ℕ) (q : Progress)
          → q.last_cursor_id ≡ some id
          → IsBalanced q
          → ahead tenant_id rows (some id) < ahead tenant_id rows cursor
          → Settled tenant_id rows q (next id q))
      → Settled tenant_id rows p (pass world batch p next)
  pass-Settled n cursor p [] next distinct at h e later = (
    h,
    refl,
    inl (refl, ap (ahead tenant_id rows) at ∙ fetch_batch-none n tenant_id cursor rows e),
  )
  pass-Settled n cursor p (m ∷ batch) next distinct at h e later =
      end_pass-Settled (length (m ∷ batch)) (last_id m batch) p (process_batch world (m ∷ batch) p)
        (next (last_id m batch)) h (process_batch-Processed world (m ∷ batch) p h)
        (moved ∙ ap (ahead tenant_id rows) (sym at))
        (λ q here balanced. later (last_id m batch) q here balanced (omega (arith, moved)))
    where
      moved :
          ahead tenant_id rows (some (last_id m batch)) + length (m ∷ batch)
          ≡ ahead tenant_id rows cursor
      moved = fetch_batch-Next n tenant_id cursor rows m batch distinct e

  run_from-Settled :
      (n fuel : ℕ) (cursor : Option ℕ) (p : Progress)
      → world.batch_size ≡ suc n
      → Distinct rows
      → p.last_cursor_id ≡ cursor
      → IsBalanced p
      → ahead tenant_id rows cursor < fuel
      → Settled tenant_id rows p (run_from world fuel tenant_id cursor rows p)
  unfolding run_from
  run_from-Settled n zero cursor p size distinct at h lt = omega (arith, lt)
  run_from-Settled n (suc fuel) cursor p size distinct at h lt =
      pass-Settled n cursor p (fetch_batch world.batch_size tenant_id cursor rows)
        (λ id p. run_from world fuel tenant_id (some id) rows p) distinct at h
        (ap (λ k. fetch_batch k tenant_id cursor rows) (sym size))
        (λ id q here balanced less.
          run_from-Settled n fuel (some id) q size distinct here balanced (omega (arith, lt, less)))

  run_row-Settled :
      (n fuel : ℕ) (p : Progress)
      → world.batch_size ≡ suc n
      → Distinct rows
      → IsBalanced p
      → p.status ≢ completed
      → p.status ≢ cancelled
      → ahead tenant_id rows p.last_cursor_id < fuel
      → Settled tenant_id rows p (run_row world fuel tenant_id rows p)
  run_row-Settled n fuel p size distinct h incomplete active lt = go p.status incomplete active
    where
      started :
          Settled tenant_id rows p
            (run_from world fuel tenant_id p.last_cursor_id rows (start_run world p))
      started = run_from-Settled n fuel p.last_cursor_id (start_run world p) size distinct refl h lt

      go :
          (s : BackfillStatus)
          → s ≢ completed
          → s ≢ cancelled
          → Settled tenant_id rows p (elim s as (λ _. Ending × Progress) [
            | completed ↦ (returned, p)
            | cancelled ↦ (returned, p)
            | _ ↦ run_from world fuel tenant_id p.last_cursor_id rows (start_run world p)
          ])
      go completed c k = elim (c refl) [ ]
      go cancelled c k = elim (k refl) [ ]
      go pending c k = started
      go in_progress c k = started
      go failed c k = started

  -- The row that a run finds or makes.
  abbrev pub row_of : Option Progress → Progress
  row_of none = new_progress world
  row_of (some p) = p

  -- A run of a backfill that is neither completed nor cancelled, with a batch size of at least one,
  -- a pass for each message that is ahead and one more, distinct ids and counters that agree: it
  -- ends completed with nothing ahead, cancelled, or by an exception as failed; in each case the
  -- processed messages are as many more as the cursor has passed, and each is counted as embedded,
  -- skipped or failed.
  pub run-Settled :
      (n fuel : ℕ) (found : Option Progress)
      → world.batch_size ≡ suc n
      → Distinct rows
      → IsBalanced (row_of found)
      → (row_of found).status ≢ completed
      → (row_of found).status ≢ cancelled
      → ahead tenant_id rows (row_of found).last_cursor_id < fuel
      → Settled tenant_id rows (row_of found) (run world fuel tenant_id rows found)
  unfolding run
  run-Settled n fuel none size distinct h incomplete active lt =
      run_row-Settled n fuel (new_progress world) size distinct h incomplete active lt
  run-Settled n fuel (some p) size distinct h incomplete active lt =
      run_row-Settled n fuel p size distinct h incomplete active lt
