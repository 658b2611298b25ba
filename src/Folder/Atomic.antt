-- ===== src/Folder/Atomic.antt =====
-- The transaction of a page (step 3c of `sync_folder`) as a whole.
use mathlib.Core.Path.{subst}
use outlook_dictionary.Common.{
  ◌⊎◌, ℕ, ◌+◌, ◌≡◌, refl, sym, ◌∙◌, inl, inr, Bool, true, false, Option, none, some, List,
  if◌then◌else◌, length, Bool-cases,
}
use outlook_dictionary.Sync.Provider.{Db, Scope, any_has_null}
use outlook_dictionary.Sync.Invariant.{IsCovered}
use outlook_dictionary.Sync.Lease.{SyncState, Update, renews, updates, write_fenced}
use outlook_dictionary.Folder.{Store, DeltaPage}
use outlook_dictionary.Folder.Page.{
  Locals, process_messages, process_removals, sweep, next_state, store_cursor, finish_page,
  process_page,
}
use outlook_dictionary.Folder.Commits.{
  Kept, KeptMessages, sweep-Kept, process_messages-Kept, process_removals-Kept, renew-again,
}

-- What the page writes to the state of the synchronisation.
abbrev pub cursor : DeltaPage → Update
cursor page = record {
  state = next_state page;
  sync_token = page.next_continuation;
  resync_generation = none;
  clear_lock = false;
  clear_sync_token = false;
}

module _ (scope : Scope) (id worker v duration : ℕ) where
  -- The rows with the lease renewed, and whether it could be.
  abbrev pub renewed : Store → List SyncState × Bool
  renewed st = write_fenced id worker v (renews duration) scope.now st.sync_states

  -- An exception comes from a lost lease or from a null address only; otherwise the mail tables are
  -- covered, and the cursor is stored with them.
  unfoldable pub Applied : DeltaPage → Store → Option Store → Type 0
  Applied page st none = ((renewed st).1 ≡ false) ⊎ (any_has_null page.messages ≡ true)
  Applied page st (some st') =
      ((renewed st).1 ≡ true)
      × IsCovered st'.mail
      × (st'.folders ≡ st.folders)
      × (st'.sync_states
          ≡ (write_fenced id worker v (updates (cursor page)) scope.now (renewed st).0).0)
      × (any_has_null page.messages ≡ false)

  module _ (page : DeltaPage) (st : Store) (held : (renewed st).1 ≡ true)
      (texts : any_has_null page.messages ≡ false) where
    -- The tables after the mutations of the page.
    abbrev mutated_to : Db → Store
    mutated_to mail = record st { sync_states = (renewed st).0; mail = mail }

    store_cursor-Applied :
        (l : Locals) (mail : Db)
        → IsCovered mail
        → Applied page st (store_cursor scope id worker v duration page l (mutated_to mail)).1
    unfolding store_cursor Applied
    store_cursor-Applied l mail h =
        subst
          (λ b. Applied page st (
            if b
            then some (record (mutated_to mail) {
              sync_states =
                  (write_fenced id worker v (updates (cursor page)) scope.now (renewed st).0).0;
            })
            else none))
          (sym (
            renew-again id worker v duration scope.now (updates (cursor page)) scope.now
              st.sync_states
            ∙ held))
          (held, h, refl, refl, texts)

    finish_page-Applied :
        (n : ℕ) (l : Locals) (mail : Db)
        → IsCovered mail
        → Applied page st (finish_page scope id worker v duration page n l (mutated_to mail)).1
    unfolding finish_page
    finish_page-Applied n l mail h =
        removed (process_removals scope page.removals mail).1
          (process_removals-Kept scope page.removals mail h)
      where
        l' : Locals
        l' = record l {
          total_removals = l.total_removals + (process_removals scope page.removals mail).0;
        }

        l'' : Locals
        l'' = record l' {
          total_processed = l.total_processed + length page.messages;
          total_mutated = l.total_mutated + (n + (process_removals scope page.removals mail).0);
        }

        swept :
            (o : Option Db)
            → Kept o
            → Applied page st
                (elim o as (λ _. Locals × Option Store) [
                  | none ↦ (l'', none)
                  | some mail' ↦ store_cursor scope id worker v duration page l'' (mutated_to mail')
                ]).1
        swept none h = absurd h
        swept (some mail') h = store_cursor-Applied l'' mail' h

        removed :
            (o : Option Db)
            → Kept o
            → Applied page st
                (elim o as (λ _. Locals × Option Store) [
                  | none ↦ (l', none)
                  | some mail' ↦ elim (sweep scope l.resync_triggered page mail') [
                    | none ↦ (l'', none)
                    | some mail'' ↦
                        store_cursor scope id worker v duration page l'' (mutated_to mail'')
                  ]
                ]).1
        removed none h = absurd h
        removed (some mail') h =
            swept (sweep scope l.resync_triggered page mail')
              (sweep-Kept scope l.resync_triggered page mail' h)

  -- On covered tables, the transaction of a page fails exactly if the lease is lost or an address of a
  -- message is null; otherwise the mail tables are covered again, and the new cursor is stored with
  -- them, under the lease.
  pub process_page-Applied :
      (page : DeltaPage) (l : Locals) (st : Store)
      → IsCovered st.mail
      → Applied page st (process_page scope id worker v duration page l st).1
  unfolding process_page Applied
  process_page-Applied page l st h = elim (Bool-cases (renewed st).1) [
    | inl held ↦
        rw (held, process_page)
          (go held (process_messages scope page.messages st.mail)
            (process_messages-Kept scope page.messages st.mail h))
    | inr lost ↦ rw (lost, process_page) (inl lost)
  ]
    where
      go :
          (held : (renewed st).1 ≡ true)
          → (o : Option (Db × ℕ)) → KeptMessages (any_has_null page.messages) o
          → Applied page st
              (elim o as (λ _. Locals × Option Store) [
                | none ↦ (l, none)
                | some (mail, mutated) ↦
                    finish_page scope id worker v duration page mutated l
                      (record st { sync_states = (renewed st).0; mail = mail })
              ]).1
      go held none h = inr h
      go held (some (mail, n)) (h, texts) = finish_page-Applied page st held texts n l mail h
