-- ===== src/Folder/Covered.antt =====
-- The mail tables under a synchronisation, whatever it and others do.
use mathlib.Core.Path.{subst}
use outlook_dictionary.Common.{ℕ, inl, inr, sym}
use outlook_dictionary.Sync.Invariant.{IsCovered}
use outlook_dictionary.Folder.{Store}
use outlook_dictionary.Folder.Loop.{Call, Lease, scope_of, sync_folder}
use outlook_dictionary.Folder.Moves.{Move, Moves, leases, waits, applies, here, next}
use outlook_dictionary.Folder.Atomic.{Applied, process_page-Applied}
use outlook_dictionary.Folder.Refinement.{opened_session, sync_folder-IsRefined}

module _ (call : Call)
    (kept : (n : ℕ) (st : Store)
      → IsCovered st.mail
      → IsCovered ((call.rounds n).others st).mail) where
  module _ (lease : Lease) where
    Move-IsCovered :
        (st st' : Store) → Move call lease st st' → IsCovered st.mail → IsCovered st'.mail
    unfolding Applied
    Move-IsCovered st _ (leases w now) h = h
    Move-IsCovered st _ (waits n) h = kept n st h
    Move-IsCovered st st' (applies folder n p l _ e) h =
        (subst
          (Applied (scope_of call lease folder (call.rounds n) l) lease.sync_state_id call.worker_id
            lease.lease_version call.lease_duration p st)
          e
          (process_page-Applied (scope_of call lease folder (call.rounds n) l) lease.sync_state_id
            call.worker_id lease.lease_version call.lease_duration p l st h)).1

    Moves-IsCovered :
        (st st' : Store) → Moves call lease st st' → IsCovered st.mail → IsCovered st'.mail
    Moves-IsCovered st _ here h = h
    Moves-IsCovered st st'' (next {st'} ms m) h =
        Move-IsCovered st' st'' m (Moves-IsCovered st st' ms h)

  -- If what others commit keeps the mail tables covered, they are covered after the
  -- synchronisation of a folder, however it ends.
  pub sync_folder-IsCovered :
      (start : Store)
      → IsCovered start.mail
      → IsCovered (sync_folder call (opened_session start)).0.durable.mail
  sync_folder-IsCovered start h = elim (sync_folder-IsRefined call start) [
    | inl (same, _) ↦ subst (λ st. IsCovered st.mail) (sym same) h
    | inr (state, rows, v, _, _, moves) ↦
        Moves-IsCovered (record { sync_state_id = state.id; lease_version = v }) _ _ moves h
  ]
