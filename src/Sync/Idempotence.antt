-- ===== src/Sync/Idempotence.antt =====
-- `_process_provider_message` is idempotent on a message that nothing else changes in between.
use mathlib.Core.Path.{subst}
use outlook_dictionary.Common.{
  Bool-cases, ℕ, ◌+◌, ◌≡◌, refl, sym, ap, ◌∙◌, inl, inr, Bool, true, false, none, some, List, [],
  ◌∷◌, ◌++◌, arith, ◌==◌, Option-cases, is_some,
}
use outlook_dictionary.Sql.{first, update_where}
use outlook_dictionary.Mail.{Message, to, cc_role, bcc}
use outlook_dictionary.Sync.Provider.{ProviderMessage, Db, Scope, has_null_address}
use outlook_dictionary.Sync.Participants.{State}
use outlook_dictionary.Sync.Process.{
  merge_fields, reconcile_message, in_folder, new_message, find_message, is_provider_message,
  insert_message, obtain_message, process_addressed, process_provider_message,
}
use outlook_dictionary.Sync.Repeat.{IsSettled, merge_sender-again}
use outlook_dictionary.Sync.Again.{
  Quiet, InSync, reconcile_membership-there, reconcile_message-again, emit-Written, merged,
  inserted, merged-fields, inserted-fields, to-IsSettled, cc-IsSettled, bcc-IsSettled,
}

-- The tables after a message was written: the row, and that it is in sync.
record Stored (scope : Scope) (msg : ProviderMessage) (m : Message) (rows : List Message) (db' : Db)
    : Type 0 where
  row : Message
  same_id : row.id ≡ m.id
  same_account : row.mail_account_id ≡ m.mail_account_id
  same_provider_id : row.provider_message_id ≡ m.provider_message_id
  written : db'.messages ≡ update_where (λ r. r.id == m.id) (λ _. row) rows
  in_sync : InSync scope msg row db'

module _ (scope : Scope) (msg : ProviderMessage) (db db' : Db) (b : Bool) where
  known-Stored :
      (m : Message)
      → reconcile_message scope msg m false db ≡ some (db', b)
      → Stored scope msg m db.messages db'
  unfolding reconcile_message merge_fields
  known-Stored m e =
      (let w = emit-Written scope false _ (merged msg m) _ db' b e in
        let s : State = (db.participants, db.next_uuid, false) in
        record {
          row = record (merged msg m) { version = w.version };
          same_id = refl;
          same_account = refl;
          same_provider_id = refl;
          written = w.messages;
          in_sync = record {
            fields = merged-fields msg m w.version;
            sender = merge_sender-again msg.sender m.sender;
            to_rows =
                subst (IsSettled m.id to msg.recipients_to) (sym w.participants)
                  (to-IsSettled msg m.id false s);
            cc_rows =
                subst (IsSettled m.id cc_role msg.recipients_cc) (sym w.participants)
                  (cc-IsSettled msg m.id false s);
            bcc_rows =
                subst (IsSettled m.id bcc msg.recipients_bcc) (sym w.participants)
                  (bcc-IsSettled msg m.id false s);
            in_it =
                subst (λ rows. is_some (first (in_folder m.id scope.folder_id) rows) ≡ true)
                  (sym w.memberships) (reconcile_membership-there scope false m.id db.memberships);
          };
        })

  new-Stored :
      (id : ℕ)
      → reconcile_message scope msg (new_message scope msg id) true db ≡ some (db', b)
      → Stored scope msg (new_message scope msg id) db.messages db'
  unfolding reconcile_message merge_fields
  new-Stored id e =
      (let m = new_message scope msg id in
        let w = emit-Written scope true _ (inserted msg m) _ db' b e in
        let s : State = (db.participants, db.next_uuid, false) in
        record {
          row = record (inserted msg m) { version = w.version };
          same_id = refl;
          same_account = refl;
          same_provider_id = refl;
          written = w.messages;
          in_sync = record {
            fields = inserted-fields scope msg id w.version;
            sender = merge_sender-again msg.sender none;
            to_rows =
                subst (IsSettled id to msg.recipients_to) (sym w.participants)
                  (to-IsSettled msg id true s);
            cc_rows =
                subst (IsSettled id cc_role msg.recipients_cc) (sym w.participants)
                  (cc-IsSettled msg id true s);
            bcc_rows =
                subst (IsSettled id bcc msg.recipients_bcc) (sym w.participants)
                  (bcc-IsSettled msg id true s);
            in_it =
                subst (λ rows. is_some (first (in_folder id scope.folder_id) rows) ≡ true)
                  (sym w.memberships) (reconcile_membership-there scope true id db.memberships);
          };
        })

first-replace :
    (p : Message → Bool) (rows : List Message) (m row : Message)
    → first p rows ≡ some m
    → p row ≡ true
    → first p (update_where (λ r. r.id == m.id) (λ _. row) rows) ≡ some row
unfolding first update_where
first-replace p [] m row e h = cc
first-replace p (r ∷ rows) m row e h = ground (arith, first-replace p rows m row)

first-new :
    (p : Message → Bool) (rows : List Message) (x : Message)
    → first p rows ≡ none
    → p x ≡ true
    → first p (rows ++ x ∷ []) ≡ some x
unfolding first
first-new p [] x e h = ground arith
first-new p (r ∷ rows) x e h = ground (arith, first-new p rows x)

-- A message that is stored is found again, and processing it changes nothing.
Stored-Quiet :
    (scope : Scope) (msg : ProviderMessage) (m : Message) (rows : List Message) (db' : Db)
    → Stored scope msg m rows db'
    → is_provider_message scope.mail_account_id msg.provider_message_id m ≡ true
    → find_message scope.mail_account_id msg.provider_message_id rows ≡ some m
    → Quiet db' (process_addressed scope msg (λ db. db) db')
unfolding find_message process_addressed obtain_message
Stored-Quiet scope msg m rows db' h mine found =
    rw (again, process_addressed, obtain_message)
      (reconcile_message-again scope msg h.row db' h.in_sync)
  where
    again : find_message scope.mail_account_id msg.provider_message_id db'.messages ≡ some h.row
    again =
        ap (find_message scope.mail_account_id msg.provider_message_id) h.written
        ∙ first-replace (is_provider_message scope.mail_account_id msg.provider_message_id) rows m
            h.row found (ground (arith, mine, h.same_account, h.same_provider_id))

first-holds :
    (p : Message → Bool) (rows : List Message) (m : Message) → first p rows ≡ some m → p m ≡ true
unfolding first
first-holds p [] m e = cc
first-holds p (r ∷ rows) m e = ground (arith, first-holds p rows m)

process_addressed-again :
    (scope : Scope) (msg : ProviderMessage) (db db' : Db) (b : Bool)
    → process_addressed scope msg (λ db. db) db ≡ some (db', b)
    → Quiet db' (process_addressed scope msg (λ db. db) db')
unfolding process_addressed obtain_message insert_message find_message
process_addressed-again scope msg db db' b e =
    elim (Option-cases (find_message scope.mail_account_id msg.provider_message_id db.messages)) [
      | inl absent ↦
          Stored-Quiet scope msg row (db.messages ++ row ∷ []) db'
            (new-Stored scope msg with_row db' b db.next_uuid (ground (arith, e, absent)))
            (ground arith)
            (first-new (is_provider_message scope.mail_account_id msg.provider_message_id)
              db.messages row absent (ground arith))
      | inr (m, found) ↦
          Stored-Quiet scope msg m db.messages db'
            (known-Stored scope msg db db' b m (ground (arith, e, found)))
            (first-holds (is_provider_message scope.mail_account_id msg.provider_message_id)
              db.messages m found)
            found
    ]
  where
    row : Message
    row = new_message scope msg db.next_uuid

    with_row : Db
    with_row = record db { next_uuid = db.next_uuid + 1; messages = db.messages ++ row ∷ [] }

-- A message that was processed and is processed again, with nothing in between, is answered with
-- False, whether it was new or known the first time: no event is added and no participant changes.
pub process_provider_message-again :
    (scope : Scope) (msg : ProviderMessage) (db db' : Db) (b : Bool)
    → process_provider_message scope msg (λ db. db) db ≡ some (db', b)
    → Quiet db' (process_provider_message scope msg (λ db. db) db')
unfolding process_provider_message
process_provider_message-again scope msg db db' b e = elim (Bool-cases (has_null_address msg)) [
  | inl bad ↦ ground (arith, e, bad)
  | inr good ↦ rw good (process_addressed-again scope msg db db' b (ground (arith, e, good)))
]
