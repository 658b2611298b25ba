-- ===== src/Sync/Handlers.antt =====
-- The handlers of one page (`_process_provider_message`, `_process_provider_removal` and
-- `_reconcile_stale_memberships`) from covered tables to covered tables.
use outlook_dictionary.Common.{
  Bool-cases, inl, inr, ℕ, ◌+◌, ◌≡◌, refl, Bool, true, false, Option, none, some, List, arith,
  if◌then◌else◌, ltb,
}
use outlook_dictionary.Sql.{rowcount, delete_where}
use outlook_dictionary.Mail.{Message, MailMessageFolder}
use outlook_dictionary.Outbox.{Action}
use outlook_dictionary.Sync.Provider.{ProviderMessage, Db, Scope, has_null_address}
use outlook_dictionary.Sync.Process.{
  find_message, obtain_message, insert_message, new_message, process_addressed,
  process_provider_message, process_provider_removal, remove_from_folder, publish, bumped,
  in_folder,
}
use outlook_dictionary.Sync.Invariant.{CoveredTo, IsCovered}
use outlook_dictionary.Sync.Coverage.{
  Reports, Obtained, found-CoveredTo, CoveredTo-others, insert-CoveredTo, reconcile_message-Reports,
  bump-Reports,
}

-- What step 1 hands to the later steps.
abbrev pub Hands : Message × Bool × Db → Type 0
Hands (m, is_new, db) = Obtained m is_new db

found-Obtained :
    (account provider_id : ℕ) (m : Message) (db : Db)
    → IsCovered db
    → find_message account provider_id db.messages ≡ some m
    → Obtained m false db
found-Obtained account provider_id m db h found = record {
  covered_to = found-CoveredTo account provider_id m db h found;
  first_version = λ e. cc;
}

insert_message-Hands :
    (scope : Scope) (msg : ProviderMessage) (db : Db)
    → IsCovered db
    → Hands (insert_message scope msg db)
unfolding insert_message
insert_message-Hands scope msg db h =
    go (find_message scope.mail_account_id msg.provider_message_id db.messages) refl
  where
    go :
        (o : Option Message)
        → find_message scope.mail_account_id msg.provider_message_id db.messages ≡ o
        → Hands (insert_message scope msg db)
    go none e =
        rw (e, insert_message)
          (record {
            covered_to = insert-CoveredTo (new_message scope msg db.next_uuid) db h refl;
            first_version = λ _. refl;
          })
    go (some m) e =
        rw (e, insert_message)
          (record {
            covered_to =
                CoveredTo-others m.id m.version (db.next_uuid + 1) db.memberships db.participants db
                  (found-CoveredTo scope.mail_account_id msg.provider_message_id m db h e)
                  (omega arith);
            first_version = λ e. cc;
          })

obtain_message-Hands :
    (scope : Scope) (msg : ProviderMessage) (others : Db → Db) (db : Db)
    → IsCovered db
    → IsCovered (others db)
    → Hands (obtain_message scope msg others db)
unfolding obtain_message
obtain_message-Hands scope msg others db h h' =
    go (find_message scope.mail_account_id msg.provider_message_id db.messages) refl
  where
    go :
        (o : Option Message)
        → find_message scope.mail_account_id msg.provider_message_id db.messages ≡ o
        → Hands (obtain_message scope msg others db)
    go none e = rw (e, obtain_message) (insert_message-Hands scope msg (others db) h')
    go (some m) e =
        rw (e, obtain_message)
          (found-Obtained scope.mail_account_id msg.provider_message_id m db h e)

process_addressed-Reports :
    (scope : Scope) (msg : ProviderMessage) (others : Db → Db) (db : Db)
    → IsCovered db
    → IsCovered (others db)
    → Reports (obtain_message scope msg others db).2 (process_addressed scope msg others db)
unfolding process_addressed
process_addressed-Reports scope msg others db h h' =
    reconcile_message-Reports scope msg obtained.0 obtained.1 obtained.2
      (obtain_message-Hands scope msg others db h h')
  where
    obtained : Message × Bool × Db
    obtained = obtain_message scope msg others db

-- A message with a null address raises; any other one is reported.
abbrev pub Answers : (has_null : Bool) → Db → Option (Db × Bool) → Type 0
Answers true db o = o ≡ none
Answers false db o = Reports db o

-- The handler of a message, whatever other transactions commit between its first two statements,
-- raises exactly if one of the addresses that are present is null. Otherwise it keeps the tables
-- covered, and answers True with one more event, and False with the events as they were.
pub process_provider_message-Reports :
    (scope : Scope) (msg : ProviderMessage) (others : Db → Db) (db : Db)
    → IsCovered db
    → IsCovered (others db)
    → Answers
        (has_null_address msg)
        (obtain_message scope msg others db).2
        (process_provider_message scope msg others db)
unfolding process_provider_message
process_provider_message-Reports scope msg others db h h' =
    elim (Bool-cases (has_null_address msg)) [
      | inl bad ↦ rw bad refl
      | inr good ↦ rw good (process_addressed-Reports scope msg others db h h')
    ]

remove_from_folder-Reports :
    (scope : Scope) (action : Action) (m : Message) (db : Db)
    → CoveredTo m.id m.version db
    → IsCovered db
    → Reports db (remove_from_folder scope action m db)
unfolding remove_from_folder Reports
remove_from_folder-Reports scope action m db h covered =
    elim (ltb 0 (rowcount (in_folder m.id scope.folder_id) db.memberships))
      as (λ b. Reports db (
        if b
        then publish scope action (m.version + 1) (bumped m) (record db { memberships = kept })
        else some (db, false))) [
          | true ↦ bump-Reports scope action m kept db h
          | false ↦ (covered, refl)
        ]
  where
    kept : List MailMessageFolder
    kept = delete_where (in_folder m.id scope.folder_id) db.memberships

-- The handler of a removal does not raise and keeps the tables covered; it answers True with one
-- more event, and False with the events as they were.
pub process_provider_removal-Reports :
    (scope : Scope) (removal_id : ℕ) (db : Db)
    → IsCovered db
    → Reports db (process_provider_removal scope removal_id db)
unfolding process_provider_removal Reports
process_provider_removal-Reports scope removal_id db h =
    go (find_message scope.mail_account_id removal_id db.messages) refl
  where
    go :
        (o : Option Message)
        → find_message scope.mail_account_id removal_id db.messages ≡ o
        → Reports db (process_provider_removal scope removal_id db)
    go none e = rw (e, process_provider_removal) (h, refl)
    go (some m) e =
        rw (e, process_provider_removal)
          (remove_from_folder-Reports scope Action.folder_removed m db
            (found-CoveredTo scope.mail_account_id removal_id m db h e) h)
