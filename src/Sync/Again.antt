-- ===== src/Sync/Again.antt =====
-- A provider message that is processed twice in a row: the second time nothing is announced.
use outlook_dictionary.Common.{
  ℕ, ◌+◌, ◌≡◌, refl, ap, ◌∙◌, inl, inr, Bool, true, false, Option, none, some, List, [], ◌∷◌, ◌++◌,
  arith, ◌==◌, Option-cases, is_some,
}
use outlook_dictionary.Sql.{first, update_where}
use outlook_dictionary.Sql.Keyed.{first-update, map_some}
use outlook_dictionary.Mail.{Message, MailMessageFolder, to, cc_role, bcc, role_eq}
use outlook_dictionary.Outbox.{Action}
use outlook_dictionary.Sync.Provider.{Presence, unset, present, ProviderMessage, Db, Scope}
use outlook_dictionary.Sync.Participants.{reconcile_role, State}
use outlook_dictionary.Sync.Process.{
  merge, merge_flag, merge_fields, merge_sender, reconcile_message, reconcile_membership, in_folder,
  emit, publish, initial, initial_flag, new_message,
}
use outlook_dictionary.Sync.Repeat.{
  IsSettled, IsSettled-reconcile_role, IsSettled-other, reconcile_role_ne, reconcile_role-settled,
  merge-again, merge_flag-again,
}

-- The handler answers False, and neither the events nor the participants change.
unfoldable pub Quiet : Db → Option (Db × Bool) → Type 0
Quiet db none = ⊥
Quiet db (some (db', answer)) =
    (answer ≡ false) × (db'.events ≡ db.events) × (db'.participants ≡ db.participants)

-- The tables agree with what the provider sent of the message.
pub record InSync (scope : Scope) (msg : ProviderMessage) (m : Message) (db : Db) : Type 0 where
  pub fields : merge_fields msg m ≡ (m, false)
  pub sender : merge_sender msg.sender m.sender ≡ (m.sender, false)
  pub to_rows : IsSettled m.id to msg.recipients_to db.participants
  pub cc_rows : IsSettled m.id cc_role msg.recipients_cc db.participants
  pub bcc_rows : IsSettled m.id bcc msg.recipients_bcc db.participants
  pub in_it : is_some (first (in_folder m.id scope.folder_id) db.memberships) ≡ true

reconcile_membership-known :
    (scope : Scope) (message : ℕ) (rows : List MailMessageFolder)
    → is_some (first (in_folder message scope.folder_id) rows) ≡ true
    → (reconcile_membership scope false message rows).1 ≡ false
unfolding reconcile_membership
reconcile_membership-known scope message rows h = ground (arith, h)

roles-again :
    (scope : Scope) (msg : ProviderMessage) (m : Message) (db : Db)
    → InSync scope msg m db
    → reconcile_role m.id false bcc msg.recipients_bcc (
        reconcile_role m.id false cc_role msg.recipients_cc
          (reconcile_role m.id false to msg.recipients_to (db.participants, db.next_uuid, false)))
      ≡ (db.participants, db.next_uuid, false)
roles-again scope msg m db h =
    ap
      (λ s.
        reconcile_role m.id false bcc msg.recipients_bcc
          (reconcile_role m.id false cc_role msg.recipients_cc s))
      (reconcile_role-settled m.id to msg.recipients_to db.participants db.next_uuid false
        h.to_rows)
    ∙ ap (reconcile_role m.id false bcc msg.recipients_bcc) (
        reconcile_role-settled m.id cc_role msg.recipients_cc db.participants db.next_uuid false
          h.cc_rows)
    ∙ reconcile_role-settled m.id bcc msg.recipients_bcc db.participants db.next_uuid false
        h.bcc_rows

pub reconcile_message-again :
    (scope : Scope) (msg : ProviderMessage) (m : Message) (db : Db)
    → InSync scope msg m db
    → Quiet db (reconcile_message scope msg m false db)
unfolding reconcile_message emit Quiet
reconcile_message-again scope msg m db h =
    rw
      (
        h.fields,
        h.sender,
        roles-again scope msg m db h,
        reconcile_membership-known scope m.id db.memberships h.in_it,
        reconcile_message,
      )
      (refl, refl, refl)

first-append_last :
    (p : MailMessageFolder → Bool) (rows : List MailMessageFolder) (x : MailMessageFolder)
    → p x ≡ true
    → is_some (first p (rows ++ x ∷ [])) ≡ true
unfolding first
first-append_last p [] x h = ground arith
first-append_last p (r ∷ rows) x h = ground (arith, first-append_last p rows x h)

pub reconcile_membership-there :
    (scope : Scope) (is_new : Bool) (message : ℕ) (rows : List MailMessageFolder)
    → is_some (
        first
          (in_folder message scope.folder_id)
          (reconcile_membership scope is_new message rows).0)
      ≡ true
unfolding reconcile_membership
reconcile_membership-there scope is_new message rows =
    elim (Option-cases (first (in_folder message scope.folder_id) rows)) [
      | inl absent ↦
          rw (absent, reconcile_membership)
            (first-append_last (in_folder message scope.folder_id) rows
              (record {
                mail_message_id = message;
                mail_folder_id = scope.folder_id;
                tenant_id = scope.tenant_id;
                mail_account_id = scope.mail_account_id;
                resync_generation = scope.resync_generation;
              })
              (ground arith))
      | inr (p, found) ↦
          rw (found, reconcile_membership)
            (ap is_some (
              first-update (in_folder message scope.folder_id) (in_folder message scope.folder_id)
                (λ p. record p { resync_generation = scope.resync_generation }) rows (λ _. refl)
              ∙ ap (map_some _) found))
    ]

-- What step 6 writes: the message, with the version that it has then.
pub record Written (m : Message) (db db' : Db) : Type 0 where
  pub version : ℕ
  pub messages :
      db'.messages
      ≡ update_where (λ r. r.id == m.id) (λ _. record m { version = version }) db.messages
  pub participants : db'.participants ≡ db.participants
  pub memberships : db'.memberships ≡ db.memberships

publish-Written :
    (scope : Scope) (action : Action) (version : ℕ) (m : Message) (db db' : Db) (b : Bool)
    → publish scope action version m db ≡ some (db', b)
    → Written m db db'
unfolding publish
publish-Written scope action version m db db' b e = record {
  version = m.version;
  messages = ground arith;
  participants = ground arith;
  memberships = ground arith;
}

pub emit-Written :
    (scope : Scope) (is_new changed : Bool) (m : Message) (db db' : Db) (b : Bool)
    → emit scope is_new changed m db ≡ some (db', b)
    → Written m db db'
unfolding emit
emit-Written scope true changed m db db' b e = publish-Written scope Action.created 1 m db db' b e
emit-Written scope false true m db db' b e =
    (let w =
        publish-Written scope Action.updated (m.version + 1) (record m { version = m.version + 1 })
          db db' b e in
      record {
        version = w.version;
        messages = w.messages;
        participants = w.participants;
        memberships = w.memberships;
      })
emit-Written scope false false m db db' b e = record {
  version = m.version;
  messages = ground arith;
  participants = ground arith;
  memberships = ground arith;
}

merge-initial : (p : Presence ℕ) → merge p (initial p) ≡ (initial p, false)
unfolding merge
merge-initial unset = refl
merge-initial (present none) = refl
merge-initial (present (some b)) = ground arith

merge_flag-initial : (p : Presence Bool) → merge_flag p (initial_flag p) ≡ (initial_flag p, false)
unfolding merge_flag
merge_flag-initial unset = refl
merge_flag-initial (present none) = refl
merge_flag-initial (present (some true)) = refl
merge_flag-initial (present (some false)) = refl

-- The message that steps 2 and 3 make of a known one, and of a new one.
abbrev pub merged : ProviderMessage → Message → Message
merged msg m = record (merge_fields msg m).0 {
  sender = (merge_sender msg.sender (merge_fields msg m).0.sender).0;
}

abbrev pub inserted : ProviderMessage → Message → Message
inserted msg m = record m { sender = (merge_sender msg.sender m.sender).0 }

pub merged-fields :
    (msg : ProviderMessage) (m : Message) (v : ℕ)
    → merge_fields msg (record (merged msg m) { version = v })
      ≡ (record (merged msg m) { version = v }, false)
unfolding merge_fields
merged-fields msg m v = rw (
  merge-again msg.subject m.subject,
  merge-again msg.body m.body,
  merge-again msg.body_preview m.body_preview,
  merge-again msg.received_date_time m.received_date_time,
  merge_flag-again msg.has_attachments m.has_attachments,
  merge_flag-again msg.is_read m.is_read,
)

pub inserted-fields :
    (scope : Scope) (msg : ProviderMessage) (id v : ℕ)
    → merge_fields msg (record (inserted msg (new_message scope msg id)) { version = v })
      ≡ (record (inserted msg (new_message scope msg id)) { version = v }, false)
unfolding merge_fields
inserted-fields scope msg id v = rw (
  merge-initial msg.subject,
  merge-initial msg.body,
  merge-initial msg.body_preview,
  merge-initial msg.received_date_time,
  merge_flag-initial msg.has_attachments,
  merge_flag-initial msg.is_read,
)

-- The participants after step 4.
abbrev pub reconciled : ProviderMessage → ℕ → Bool → State → State
reconciled msg message is_new s = reconcile_role message is_new bcc msg.recipients_bcc (
    reconcile_role message is_new cc_role msg.recipients_cc
      (reconcile_role message is_new to msg.recipients_to s))

module _ (msg : ProviderMessage) (message : ℕ) (is_new : Bool) (s : State) where
  abbrev s_to : State
  s_to = reconcile_role message is_new to msg.recipients_to s

  abbrev s_cc : State
  s_cc = reconcile_role message is_new cc_role msg.recipients_cc s_to

  pub to-IsSettled : IsSettled message to msg.recipients_to (reconciled msg message is_new s).0
  unfolding role_eq
  to-IsSettled =
      IsSettled-other message to msg.recipients_to s_to.0 (reconciled msg message is_new s).0
        (reconcile_role_ne message is_new to bcc msg.recipients_bcc s_cc refl
          ∙ reconcile_role_ne message is_new to cc_role msg.recipients_cc s_to refl)
        (IsSettled-reconcile_role message is_new to msg.recipients_to s)

  pub cc-IsSettled : IsSettled message cc_role msg.recipients_cc (reconciled msg message is_new s).0
  unfolding role_eq
  cc-IsSettled =
      IsSettled-other message cc_role msg.recipients_cc s_cc.0 (reconciled msg message is_new s).0
        (reconcile_role_ne message is_new cc_role bcc msg.recipients_bcc s_cc refl)
        (IsSettled-reconcile_role message is_new cc_role msg.recipients_cc s_to)

  pub bcc-IsSettled : IsSettled message bcc msg.recipients_bcc (reconciled msg message is_new s).0
  bcc-IsSettled = IsSettled-reconcile_role message is_new bcc msg.recipients_bcc s_cc
