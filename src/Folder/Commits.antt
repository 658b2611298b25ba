-- ===== src/Folder/Commits.antt =====
-- The transaction of a page (step 3c of `sync_folder`) on covered tables.
use mathlib.Core.Path.{subst}
use outlook_dictionary.Common.{
  ◌||◌, ℕ, ◌+◌, ◌≡◌, refl, sym, ap, inl, inr, Bool, true, false, ◌&&◌, Option, none, some, List, [],
  ◌∷◌, if◌then◌else◌, ◌==◌, Option-cases,
}
use outlook_dictionary.Sql.{select}
use outlook_dictionary.Sql.Counts.{rowcount-update}
use outlook_dictionary.Sql.Keyed.{at, get}
use outlook_dictionary.Mail.{MailMessageFolder, message_key}
use outlook_dictionary.Sync.Provider.{ProviderMessage, Db, Scope, has_null_address, any_has_null}
use outlook_dictionary.Sync.Process.{
  process_provider_message, process_provider_removal, obtain_message, reconcile_stale,
  reconcile_all, reconcile_stale_memberships, is_stale,
}
use outlook_dictionary.Sync.Invariant.{IsCovered}
use outlook_dictionary.Sync.Coverage.{Reports}
use outlook_dictionary.Sync.Handlers.{
  Answers, process_provider_message-Reports, process_provider_removal-Reports,
}
use outlook_dictionary.Sync.Stale.{Round-after, round_found}
use outlook_dictionary.Sync.Lease.{
  SyncState, sync_state_key, has_lease, Write, renews, written, write_fenced,
}
use outlook_dictionary.Folder.{DeltaPage, is_complete}
use outlook_dictionary.Folder.Page.{process_messages, process_removals, sweep}

-- Tables that are there, and covered.
abbrev pub Kept : Option Db → Type 0
Kept none = ⊥
Kept (some db) = IsCovered db

reconcile_stale-Kept :
    (scope : Scope) (p : MailMessageFolder) (db : Db)
    → IsCovered db
    → Kept (reconcile_stale scope p db)
unfolding reconcile_stale
reconcile_stale-Kept scope p db h =
    elim (Option-cases (get message_key p.mail_message_id db.messages)) [
      | inl absent ↦ rw (absent, reconcile_stale) h
      | inr (m, found) ↦
          subst Kept (sym (round_found scope p db h m found))
            (Round-after scope p db h m found [] tt).covered
    ]

reconcile_all-Kept :
    (scope : Scope) (ps : List MailMessageFolder) (db : Db)
    → IsCovered db
    → Kept (reconcile_all scope ps db)
unfolding reconcile_all
reconcile_all-Kept scope [] db h = h
reconcile_all-Kept scope (p ∷ ps) db h =
    go (reconcile_all-Kept scope ps) (reconcile_stale scope p db)
      (reconcile_stale-Kept scope p db h)
  where
    go :
        ((db' : Db) → IsCovered db' → Kept (reconcile_all scope ps db'))
        → (o : Option Db) → Kept o
        → Kept (elim o as (λ _. Option Db) [ none ↦ none | some db' ↦ reconcile_all scope ps db' ])
    go others none h = absurd h
    go others (some db') h = others db' h

pub sweep-Kept :
    (scope : Scope) (resync_triggered : Bool) (page : DeltaPage) (db : Db)
    → IsCovered db
    → Kept (sweep scope resync_triggered page db)
unfolding sweep reconcile_stale_memberships
sweep-Kept scope resync_triggered page db h =
    elim (resync_triggered && is_complete page)
      as (λ b. Kept (if b then reconcile_stale_memberships scope db else some db)) [
        | true ↦ reconcile_all-Kept scope (select (is_stale scope) db.memberships) db h
        | false ↦ h
      ]

-- What the messages of a page give: an exception exactly if a null address is among them.
abbrev pub KeptMessages : (has_null : Bool) → Option (Db × ℕ) → Type 0
KeptMessages has_null none = has_null ≡ true
KeptMessages has_null (some (db, n)) = IsCovered db × (has_null ≡ false)

pub process_messages-Kept :
    (scope : Scope) (msgs : List ProviderMessage) (db : Db)
    → IsCovered db
    → KeptMessages (any_has_null msgs) (process_messages scope msgs db)
unfolding process_messages Reports
process_messages-Kept scope [] db h = (h, refl)
process_messages-Kept scope (msg ∷ msgs) db h =
    go (process_messages-Kept scope msgs) (has_null_address msg)
      (process_provider_message scope msg (λ db. db) db)
      (process_provider_message-Reports scope msg (λ db. db) db h h)
  where
    rest :
        (mutated : Bool) (o : Option (Db × ℕ))
        → KeptMessages (any_has_null msgs) o
        → KeptMessages (any_has_null msgs) (elim o as (λ _. Option (Db × ℕ)) [
          | none ↦ none
          | some (db'', n) ↦ some (db'', (if mutated then n + 1 else n))
        ])
    rest mutated none h = h
    rest mutated (some (db'', n)) h = h

    go :
        ((db' : Db)
          → IsCovered db'
          → KeptMessages (any_has_null msgs) (process_messages scope msgs db'))
        → (has_null : Bool) (o : Option (Db × Bool))
        → Answers has_null (obtain_message scope msg (λ db. db) db).2 o
        → KeptMessages (has_null || any_has_null msgs) (elim o as (λ _. Option (Db × ℕ)) [
          | none ↦ none
          | some (db', mutated) ↦ elim (process_messages scope msgs db') as (λ _. Option (Db × ℕ)) [
            | none ↦ none
            | some (db'', n) ↦ some (db'', (if mutated then n + 1 else n))
          ]
        ])
    go others true none h = refl
    go others true (some r) h = cc
    go others false none h = absurd h
    go others false (some (db', true)) h =
        rest true (process_messages scope msgs db') (others db' h.0)
    go others false (some (db', false)) h =
        rest false (process_messages scope msgs db') (others db' h.0)

pub process_removals-Kept :
    (scope : Scope) (removals : List ℕ) (db : Db)
    → IsCovered db
    → Kept (process_removals scope removals db).1
unfolding process_removals Reports
process_removals-Kept scope [] db h = h
process_removals-Kept scope (removal ∷ removals) db h =
    go (process_removals-Kept scope removals) (process_provider_removal scope removal db)
      (process_provider_removal-Reports scope removal db h)
  where
    go :
        ((db' : Db) → IsCovered db' → Kept (process_removals scope removals db').1)
        → (o : Option (Db × Bool)) → Reports db o
        → Kept
            (elim o as (λ _. ℕ × Option Db) [
              | none ↦ (0, none)
              | some (db', mutated) ↦ (
                (if mutated
                    then (process_removals scope removals db').0 + 1
                    else (process_removals scope removals db').0),
                (process_removals scope removals db').1,
              )
            ]).1
    go others none h = absurd h
    go others (some (db', true)) h = others db' h.0
    go others (some (db', false)) h = others db' h.0

renewed-has_lease :
    (id worker v duration now : ℕ) (s : SyncState)
    → at sync_state_key id (has_lease worker v) (written (renews duration) now s)
      ≡ at sync_state_key id (has_lease worker v) s
unfolding written has_lease
renewed-has_lease id worker v duration now s = refl

-- The lease that was renewed is still held.
pub renew-again :
    (id worker v duration now : ℕ) (w : Write) (later : ℕ) (rows : List SyncState)
    → (write_fenced id worker v w later (write_fenced id worker v (renews duration) now rows).0).1
      ≡ (write_fenced id worker v (renews duration) now rows).1
unfolding write_fenced
renew-again id worker v duration now w later rows =
    ap (λ n. n == 1)
      (rowcount-update (at sync_state_key id (has_lease worker v))
        (at sync_state_key id (has_lease worker v)) (written (renews duration) now) rows
        (renewed-has_lease id worker v duration now))
