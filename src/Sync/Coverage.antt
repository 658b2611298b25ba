-- ===== src/Sync/Coverage.antt =====
-- The handlers of one page (`_process_provider_message`, `_process_provider_removal`) on covered tables.
use mathlib.Core.Path.{subst}
use outlook_dictionary.Common.{
  ℕ, suc, ◌+◌, ◌≤◌, ◌≡◌, refl, ◌∙◌, sym, ap, Bool, true, false, Option, none, some, List, [], ◌∷◌,
  ◌++◌, arith, ◌==◌, is_some, length, length-append,
}
use outlook_dictionary.Sql.{update_where}
use outlook_dictionary.Sql.Keyed.{
  get, get-replace, replace-HasUniqueKeys, first-get, get-append, append-HasUniqueKeys,
}
use outlook_dictionary.Mail.{
  Message, MailMessageFolder, Participant, message_key, ParticipantRole, to, cc_role, bcc,
}
use outlook_dictionary.Outbox.{Action, new_event}
use outlook_dictionary.Sync.Provider.{Presence, unset, present, Address, ProviderMessage, Db, Scope}
use outlook_dictionary.Sync.Participants.{State, count_new, reconcile_role}
use outlook_dictionary.Sync.Process.{
  emit, publish, bumped, merge_fields, merge_sender, reconcile_message, find_message,
  is_provider_message,
}
use outlook_dictionary.Sync.Invariant.{
  CoveredTo, IsCovered, version_of, up_to, publish_next, publish-IsCovered, replace-covered,
}

-- What a handler answers on the tables `db`: it does not raise, the tables are covered again, and
-- True comes with one more event, False with the same events.
unfoldable pub Reports : Db → Option (Db × Bool) → Type 0
Reports db none = ⊥
Reports db (some (db', true)) = IsCovered db' × (length db'.events ≡ suc (length db.events))
Reports db (some (db', false)) = IsCovered db' × (db'.events ≡ db.events)

pub publish-Reports :
    (scope : Scope) (action : Action) (n : ℕ) (m : Message) (db : Db)
    → CoveredTo m.id n db
    → m.version ≡ suc n
    → Reports db (publish scope action (suc n) m db)
unfolding Reports
publish-Reports scope action n m db h v =
    subst (Reports db) (sym (publish_next scope action n m db h)) (
      publish-IsCovered scope action n m db h v,
      omega (
        arith,
        length-append db.events
            (new_event db.next_uuid scope.tenant_id m.id (suc n) action scope.now ∷ []),
      ),
    )

-- The version that the events of a message announce last, before it is reconciled.
abbrev pub announced : Bool → Message → ℕ
announced true m = 0
announced false m = m.version

-- A message written back under its version.
replace-IsCovered :
    (m : Message) (db : Db)
    → CoveredTo m.id m.version db
    → IsCovered (record db { messages = update_where (λ r. r.id == m.id) (λ _. m) db.messages })
replace-IsCovered m db h = record {
  message_keys = replace-HasUniqueKeys message_key m db.messages h.message_keys;
  keyed = h.keyed;
  fresh = λ id above. ground (arith, get-replace message_key id m db.messages, h.fresh id, h.there);
  covered = replace-covered m.version m db h db.events h.at (λ id other. refl);
}

pub emit-Reports :
    (scope : Scope) (is_new changed : Bool) (m : Message) (db : Db)
    → CoveredTo m.id (announced is_new m) db
    → (is_new ≡ true → m.version ≡ 1)
    → Reports db (emit scope is_new changed m db)
unfolding emit Reports
emit-Reports scope true changed m db h first_version =
    publish-Reports scope Action.created 0 m db h (first_version refl)
emit-Reports scope false true m db h v =
    subst
      (λ v. Reports db (publish scope Action.updated v (record m { version = m.version + 1 }) db))
      (omega arith)
      (publish-Reports scope Action.updated m.version (record m { version = m.version + 1 }) db h
        (omega arith))
emit-Reports scope false false m db h v = (replace-IsCovered m db h, refl)

count_new-le : (id : ℕ) (xs : List Address) → id ≤ count_new id xs
count_new-le id [] = omega arith
count_new-le id (a ∷ xs) = ground (arith, count_new-le (id + 1) xs)

reconcile_role-le :
    (message : ℕ) (is_new : Bool) (role : ParticipantRole) (p : Presence (List Address)) (s : State)
    → s.1 ≤ (reconcile_role message is_new role p s).1
unfolding reconcile_role
reconcile_role-le message is_new role unset s = omega arith
reconcile_role-le message is_new role (present none) s = omega arith
reconcile_role-le message is_new role (present (some xs)) s = ground (arith, count_new-le s.1 xs)

merge_fields-id : (msg : ProviderMessage) (m : Message) → (merge_fields msg m).0.id ≡ m.id
unfolding merge_fields
merge_fields-id msg m = refl

merge_fields-version :
    (msg : ProviderMessage) (m : Message) → (merge_fields msg m).0.version ≡ m.version
unfolding merge_fields
merge_fields-version msg m = refl

-- The tables cover all messages but this one, and all of its versions but the one that is due.
pub record Obtained (m : Message) (is_new : Bool) (db : Db) : Type 0 where
  pub covered_to : CoveredTo m.id (announced is_new m) db
  pub first_version : is_new ≡ true → m.version ≡ 1

-- The other tables do not matter, and the identifiers may go on.
pub CoveredTo-others :
    (k n next : ℕ) (memberships : List MailMessageFolder) (participants : List Participant)
    (db : Db)
    → CoveredTo k n db
    → db.next_uuid ≤ next
    → CoveredTo k n
        (record db { memberships = memberships; participants = participants; next_uuid = next })
CoveredTo-others k n next memberships participants db h le = record {
  message_keys = h.message_keys;
  keyed = h.keyed;
  fresh = λ id above. h.fresh id (omega (arith, le, above));
  there = h.there;
  rest = h.rest;
  at = h.at;
}

Reports-events :
    (db db' : Db) (r : Option (Db × Bool)) → db.events ≡ db'.events → Reports db r → Reports db' r
unfolding Reports
Reports-events db db' none e h = h
Reports-events db db' (some (after, true)) e h = (h.0, h.1 ∙ ap (λ es. suc (length es)) e)
Reports-events db db' (some (after, false)) e h = (h.0, h.1 ∙ e)

-- Step 6 after steps 2 to 5, which change neither the messages nor the events.
emit_after-Reports :
    (scope : Scope) (is_new changed : Bool) (m : Message) (next : ℕ)
    (memberships : List MailMessageFolder) (participants : List Participant) (db : Db)
    → Obtained m is_new db
    → db.next_uuid ≤ next
    → Reports db (
        emit scope is_new changed m
          (record db { memberships = memberships; participants = participants; next_uuid = next }))
emit_after-Reports scope is_new changed m next memberships participants db h le =
    Reports-events after db (emit scope is_new changed m after) refl (
      emit-Reports scope is_new changed m after
        (CoveredTo-others m.id (announced is_new m) next memberships participants db h.covered_to
          le)
        h.first_version)
  where
    after : Db
    after = record db { memberships = memberships; participants = participants; next_uuid = next }

roles_le :
    (msg : ProviderMessage) (message : ℕ) (is_new : Bool) (s : State)
    → s.1
      ≤ (reconcile_role message is_new bcc msg.recipients_bcc (
          reconcile_role message is_new cc_role msg.recipients_cc
            (reconcile_role message is_new to msg.recipients_to s))).1
roles_le msg message is_new s = omega (
  arith,
  reconcile_role-le message is_new to msg.recipients_to s,
  reconcile_role-le message is_new cc_role msg.recipients_cc
      (reconcile_role message is_new to msg.recipients_to s),
  reconcile_role-le message is_new bcc msg.recipients_bcc (
      reconcile_role message is_new cc_role msg.recipients_cc
        (reconcile_role message is_new to msg.recipients_to s)),
)

-- The next version is announced, whatever memberships were removed before.
pub bump-Reports :
    (scope : Scope) (action : Action) (m : Message) (memberships : List MailMessageFolder) (db : Db)
    → CoveredTo m.id m.version db
    → Reports db
        (publish scope action (m.version + 1) (bumped m) (record db { memberships = memberships }))
bump-Reports scope action m memberships db h =
    Reports-events after db (publish scope action (m.version + 1) (bumped m) after) refl (
      subst (λ v. Reports after (publish scope action v (bumped m) after)) (omega arith)
        (publish-Reports scope action m.version (bumped m) after
          (CoveredTo-others m.id m.version db.next_uuid memberships db.participants db h
            (omega arith))
          (omega arith)))
  where
    after : Db
    after = record db { memberships = memberships }

-- Steps 2 to 6 do not raise.
pub reconcile_message-Reports :
    (scope : Scope) (msg : ProviderMessage) (m : Message) (is_new : Bool) (db : Db)
    → Obtained m is_new db
    → Reports db (reconcile_message scope msg m is_new db)
unfolding reconcile_message merge_fields
reconcile_message-Reports scope msg m true db h =
    emit_after-Reports scope true _ (record m { sender = (merge_sender msg.sender m.sender).0 }) _ _
      _ db (record { covered_to = h.covered_to; first_version = h.first_version })
      (roles_le msg m.id true (db.participants, db.next_uuid, false))
reconcile_message-Reports scope msg m false db h =
    emit_after-Reports scope false _
      (record (merge_fields msg m).0 {
        sender = (merge_sender msg.sender (merge_fields msg m).0.sender).0;
      })
      _ _ _ db (record { covered_to = h.covered_to; first_version = h.first_version })
      (roles_le msg m.id false (db.participants, db.next_uuid, false))

pub get-CoveredTo :
    (m : Message) (db : Db)
    → IsCovered db
    → get message_key m.id db.messages ≡ some m
    → CoveredTo m.id m.version db
get-CoveredTo m db h here = record {
  message_keys = h.message_keys;
  keyed = h.keyed;
  fresh = h.fresh;
  there = ap is_some here;
  rest = λ id other. h.covered id;
  at = h.covered m.id ∙ ap (λ o. up_to (version_of o)) here;
}

pub found-CoveredTo :
    (account provider_id : ℕ) (m : Message) (db : Db)
    → IsCovered db
    → find_message account provider_id db.messages ≡ some m
    → CoveredTo m.id m.version db
unfolding find_message
found-CoveredTo account provider_id m db h found = get-CoveredTo m db h (
    first-get message_key (is_provider_message account provider_id) db.messages m h.message_keys
      found)

pub insert-CoveredTo :
    (m : Message) (db : Db)
    → IsCovered db
    → m.id ≡ db.next_uuid
    → CoveredTo m.id 0
        (record db { next_uuid = db.next_uuid + 1; messages = db.messages ++ m ∷ [] })
insert-CoveredTo m db h e = record {
  message_keys = append-HasUniqueKeys message_key m db.messages absent h.message_keys;
  keyed = h.keyed;
  fresh = λ id above. ground (arith, get-append message_key id m db.messages, h.fresh id);
  there = ground (arith, get-append message_key m.id m db.messages);
  rest = λ id other. h.covered id ∙ ground (arith, get-append message_key id m db.messages);
  at = h.covered m.id ∙ ap (λ o. up_to (version_of o)) absent;
}
  where
    absent : get message_key m.id db.messages ≡ none
    absent = h.fresh m.id (omega (arith, e))
