-- ===== src/Folder/Page.antt =====
-- Step 3c of `sync_folder`: one page inside one transaction.
use outlook_dictionary.Common.{
  ℕ, ◌+◌, Bool, false, ◌&&◌, Option, none, some, List, [], ◌∷◌, if◌then◌else◌, length,
}
use outlook_dictionary.Sync.Provider.{ProviderMessage, Db, Scope}
use outlook_dictionary.Sync.Process.{
  process_provider_message, process_provider_removal, reconcile_stale_memberships,
}
use outlook_dictionary.Sync.Lease.{
  SyncStateValue, delta_tracking, syncing, updates, renews, write_fenced,
}
use outlook_dictionary.Folder.{Store, DeltaPage, is_complete}

-- The local variables that the loop carries from page to page.
pub record Locals : Type 0 where
  pub sync_token : Option ℕ
  pub resync_generation : ℕ
  pub current_state : SyncStateValue
  pub resync_triggered : Bool
  pub refresh_attempted : Bool
  pub seen_tokens : List ℕ
  pub total_processed : ℕ
  pub total_mutated : ℕ
  pub total_removals : ℕ

-- The messages of a page: the tables, and how many were changed.
unfoldable pub process_messages : Scope → List ProviderMessage → Db → Option (Db × ℕ)
process_messages scope [] db = some (db, 0)
process_messages scope (msg ∷ msgs) db = elim (process_provider_message scope msg (λ db. db) db) [
  | none ↦ none
  | some (db', mutated) ↦ elim (process_messages scope msgs db') [
    | none ↦ none
    | some (db'', n) ↦ some (db'', (if mutated then n + 1 else n))
  ]
]

-- The removals of a page: how many changed a message before the end or the exception, and the
-- tables if there was no exception.
unfoldable pub process_removals : Scope → List ℕ → Db → ℕ × Option Db
process_removals scope [] db = (0, some db)
process_removals scope (removal ∷ removals) db = elim (process_provider_removal scope removal db) [
  | none ↦ (0, none)
  | some (db', mutated) ↦
      let (n, rest) = process_removals scope removals db' in ((if mutated then n + 1 else n), rest)
]

-- The sweep, where the page ends a resynchronisation.
unfoldable pub sweep : Scope → Bool → DeltaPage → Db → Option Db
sweep scope resync_triggered page db =
    if resync_triggered && is_complete page then reconcile_stale_memberships scope db else some db

unfoldable pub next_state : DeltaPage → SyncStateValue
next_state page = if is_complete page then delta_tracking else syncing

module _ (scope : Scope) (sync_state_id worker lease_version duration : ℕ) where
  -- The new cursor, under the lease; the local variables have changed already.
  unfoldable pub store_cursor : DeltaPage → Locals → Store → Locals × Option Store
  unfolding next_state
  store_cursor page l st =
      let (rows, cas_ok) =
        write_fenced sync_state_id worker lease_version
          (updates (record {
            state = next_state page;
            sync_token = page.next_continuation;
            resync_generation = none;
            clear_lock = false;
            clear_sync_token = false;
          }))
          scope.now st.sync_states in
      (
        record l { sync_token = page.next_continuation; current_state = next_state page },
        if cas_ok then some (record st { sync_states = rows }) else none,
      )

  -- After the messages, of which `mutated` were changed.
  unfoldable pub finish_page : DeltaPage → ℕ → Locals → Store → Locals × Option Store
  finish_page page mutated l st =
      let (n, after_removals) = process_removals scope page.removals st.mail in
      let l' = record l { total_removals = l.total_removals + n } in
      elim after_removals [
        | none ↦ (l', none)
        | some mail ↦
            let l'' = record l' {
              total_processed = l.total_processed + length page.messages;
              total_mutated = l.total_mutated + (mutated + n);
            } in
            elim (sweep scope l.resync_triggered page mail) [
              | none ↦ (l'', none)
              | some mail' ↦ store_cursor page l'' (record st { mail = mail' })
            ]
      ]

  -- The body of the transaction: the lease is checked first. `none` is an exception.
  unfoldable pub process_page : DeltaPage → Locals → Store → Locals × Option Store
  process_page page l st =
      let (rows, check) =
        write_fenced sync_state_id worker lease_version (renews duration) scope.now
          st.sync_states in
      if check
      then elim (process_messages scope page.messages st.mail) [
        | none ↦ (l, none)
        | some (mail, mutated) ↦
            finish_page page mutated l (record st { sync_states = rows; mail = mail })
      ]
      else (l, none)
