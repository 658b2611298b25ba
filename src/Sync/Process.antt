-- ===== src/Sync/Process.antt =====
-- `_process_provider_message`, `_process_provider_removal` and `_reconcile_stale_memberships`.
-- `none` stands for an exception, on which the transaction of the page is rolled back.
use outlook_dictionary.Common.{
  ℕ, ◌+◌, Bool, true, false, not, ◌&&◌, ◌||◌, Option, none, some, List, [], ◌∷◌, ◌++◌,
  if◌then◌else◌, ltb, ◌==◌,
}
use outlook_dictionary.Sql.{select, first, update_where, delete_where, rowcount}
use outlook_dictionary.Sql.Keyed.{get, map_some}
use outlook_dictionary.Text.{normalize}
use outlook_dictionary.Mail.{
  Sender, canonical, sender_eq, Message, MailMessageFolder, to, cc_role, bcc, message_key,
}
use outlook_dictionary.Outbox.{Action, create_event}
use outlook_dictionary.Sync.Provider.{
  Presence, unset, present, Address, ProviderMessage, Db, Scope, email_text, has_null_address,
}
use outlook_dictionary.Sync.Participants.{reconcile_role}

-- The value of an insert: null if the field is absent.
abbrev pub initial {ℓ} : {A : Type ℓ} → Presence A → Option A
initial unset = none
initial (present v) = v

abbrev pub initial_flag : Presence Bool → Bool
initial_flag unset = false
initial_flag (present none) = false
initial_flag (present (some b)) = b

abbrev pub optional_eq : Option ℕ → Option ℕ → Bool
optional_eq none none = true
optional_eq none (some b) = false
optional_eq (some a) none = false
optional_eq (some a) (some b) = a == b

abbrev pub flag_eq : Bool → Bool → Bool
flag_eq true b = b
flag_eq false b = not b

-- A scalar field: the new value, and whether it differs from the stored one.
unfoldable pub merge : Presence ℕ → Option ℕ → Option ℕ × Bool
merge unset stored = (stored, false)
merge (present v) stored = if optional_eq stored v then (stored, false) else (v, true)

-- A flag, where null changes nothing.
unfoldable pub merge_flag : Presence Bool → Bool → Bool × Bool
merge_flag unset stored = (stored, false)
merge_flag (present none) stored = (stored, false)
merge_flag (present (some b)) stored = if flag_eq stored b then (stored, false) else (b, true)

-- 2. Scalar field mutations.
unfoldable pub merge_fields : ProviderMessage → Message → Message × Bool
merge_fields msg m =
    let (subject, c1) = merge msg.subject m.subject in
    let (body, c2) = merge msg.body m.body in
    let (body_preview, c3) = merge msg.body_preview m.body_preview in
    let (received_date_time, c4) = merge msg.received_date_time m.received_date_time in
    let (has_attachments, c5) = merge_flag msg.has_attachments m.has_attachments in
    let (is_read, c6) = merge_flag msg.is_read m.is_read in
    (
      record m {
        subject = subject;
        body = body;
        body_preview = body_preview;
        received_date_time = received_date_time;
        has_attachments = has_attachments;
        is_read = is_read;
      },
      c1 || c2 || c3 || c4 || c5 || c6,
    )

abbrev pub stored_sender_eq : Option Sender → Address → Bool
stored_sender_eq none a = false
stored_sender_eq (some s) a = sender_eq s a.name (normalize (email_text a))

-- 3. Sender reconciliation.
unfoldable pub merge_sender : Presence Address → Option Sender → Option Sender × Bool
merge_sender unset stored = (stored, false)
merge_sender (present none) none = (none, false)
merge_sender (present none) (some s) = (none, true)
merge_sender (present (some a)) stored =
    if stored_sender_eq stored a
    then (stored, false)
    else (some (canonical a.name (normalize (email_text a))), true)

-- 5. The membership in the folder; a new one changes a message that was there before.
abbrev pub in_folder : ℕ → ℕ → MailMessageFolder → Bool
in_folder message folder p = p.mail_message_id == message && p.mail_folder_id == folder

unfoldable pub reconcile_membership :
    Scope → Bool → ℕ → List MailMessageFolder → List MailMessageFolder × Bool
reconcile_membership scope is_new message rows =
    elim (first (in_folder message scope.folder_id) rows) [
      | none ↦ (
        rows
            ++ record {
              mail_message_id = message;
              mail_folder_id = scope.folder_id;
              tenant_id = scope.tenant_id;
              mail_account_id = scope.mail_account_id;
              resync_generation = scope.resync_generation;
            }
              ∷ [],
        not is_new,
      )
      | some _ ↦ (
        update_where (in_folder message scope.folder_id)
            (λ p. record p { resync_generation = scope.resync_generation }) rows,
        false,
      )
    ]

-- 6. Version increment and outbox event: the message is written back, and one event is added.
unfoldable pub publish : Scope → Action → (version : ℕ) → Message → Db → Option (Db × Bool)
publish scope action version m db =
    map_some
      (λ events. (
        record db {
          messages = update_where (λ r. r.id == m.id) (λ _. m) db.messages;
          events = events;
          next_uuid = db.next_uuid + 1;
        },
        true,
      ))
      (create_event db.next_uuid scope.tenant_id m.id version action scope.now db.events)

unfoldable pub emit : Scope → Bool → Bool → Message → Db → Option (Db × Bool)
emit scope true changed m db = publish scope Action.created 1 m db
emit scope false true m db =
    publish scope Action.updated (m.version + 1) (record m { version = m.version + 1 }) db
emit scope false false m db =
    some (record db { messages = update_where (λ r. r.id == m.id) (λ _. m) db.messages }, false)

-- `get_by_provider_id_for_update`
abbrev pub is_provider_message : ℕ → ℕ → Message → Bool
is_provider_message account provider_id m =
    m.mail_account_id == account && m.provider_message_id == provider_id

unfoldable pub find_message : ℕ → ℕ → List Message → Option Message
find_message account provider_id rows = first (is_provider_message account provider_id) rows

-- The row of the insert.
abbrev pub new_message : Scope → ProviderMessage → ℕ → Message
new_message scope msg id = record {
  id = id;
  tenant_id = scope.tenant_id;
  mail_account_id = scope.mail_account_id;
  provider_message_id = msg.provider_message_id;
  version = 1;
  is_deleted = false;
  subject = initial msg.subject;
  body = initial msg.body;
  body_preview = initial msg.body_preview;
  sender = none;
  received_date_time = initial msg.received_date_time;
  has_attachments = initial_flag msg.has_attachments;
  is_read = initial_flag msg.is_read;
}

-- INSERT … ON CONFLICT DO NOTHING, on the rows that are there at that time: the message, whether
-- it is new, and the tables.
unfoldable pub insert_message : Scope → ProviderMessage → Db → Message × Bool × Db
insert_message scope msg db =
    let row = new_message scope msg db.next_uuid in
    let db' = record db { next_uuid = db.next_uuid + 1 } in
    elim (find_message scope.mail_account_id msg.provider_message_id db.messages) [
      | some m ↦ (m, false, db')
      | none ↦ (row, true, record db' { messages = db.messages ++ row ∷ [] })
    ]

-- 1. Fetch or create; `others` is what other transactions commit between the two statements.
unfoldable pub obtain_message : Scope → ProviderMessage → (Db → Db) → Db → Message × Bool × Db
obtain_message scope msg others db =
    elim (find_message scope.mail_account_id msg.provider_message_id db.messages) [
      | some m ↦ (m, false, db)
      | none ↦ insert_message scope msg (others db)
    ]

-- Steps 2 to 6.
unfoldable pub reconcile_message :
    Scope → ProviderMessage → Message → Bool → Db → Option (Db × Bool)
reconcile_message scope msg m is_new db =
    let (m₂, fields_changed) = if is_new then (m, false) else merge_fields msg m in
    let (sender, sender_changed) = merge_sender msg.sender m₂.sender in
    let to_state =
      reconcile_role m.id is_new to msg.recipients_to (db.participants, db.next_uuid, false) in
    let cc_state = reconcile_role m.id is_new cc_role msg.recipients_cc to_state in
    let (participants, next, recipients_changed) =
      reconcile_role m.id is_new bcc msg.recipients_bcc cc_state in
    let (memberships, folder_changed) = reconcile_membership scope is_new m.id db.memberships in
    emit scope is_new (fields_changed || sender_changed || recipients_changed || folder_changed)
      (record m₂ { sender = sender })
      (record db { participants = participants; next_uuid = next; memberships = memberships })

-- `_process_provider_message`, on a message without a null address
unfoldable pub process_addressed :
    Scope → ProviderMessage → (others : Db → Db) → Db → Option (Db × Bool)
process_addressed scope msg others db =
    let (m, is_new, db') = obtain_message scope msg others db in
    reconcile_message scope msg m is_new db'

-- `_process_provider_message`: it reads every address that is present, whatever the tables hold, so a
-- null raises in any case, and undoes what was done before.
unfoldable pub process_provider_message :
    Scope → ProviderMessage → (others : Db → Db) → Db → Option (Db × Bool)
unfolding process_addressed
process_provider_message scope msg others db =
    if has_null_address msg then none else process_addressed scope msg others db

-- The version increment and the event of a membership that was removed.
abbrev pub bumped : Message → Message
bumped m = record m { version = m.version + 1 }

-- `_process_provider_removal`, on the message that it finds
unfoldable pub remove_from_folder : Scope → Action → Message → Db → Option (Db × Bool)
remove_from_folder scope action m db =
    if ltb 0 (rowcount (in_folder m.id scope.folder_id) db.memberships)
    then publish scope action (m.version + 1) (bumped m)
        (record db { memberships = delete_where (in_folder m.id scope.folder_id) db.memberships })
    else some (db, false)

-- `_process_provider_removal`
unfoldable pub process_provider_removal : Scope → (removal_id : ℕ) → Db → Option (Db × Bool)
process_provider_removal scope removal_id db =
    elim (find_message scope.mail_account_id removal_id db.messages) [
      | none ↦ some (db, false)
      | some m ↦ remove_from_folder scope Action.folder_removed m db
    ]

-- One round of the loop of `_reconcile_stale_memberships`; the result of the removal is not read.
unfoldable pub reconcile_stale : Scope → MailMessageFolder → Db → Option Db
reconcile_stale scope pivot db = elim (get message_key pivot.mail_message_id db.messages) [
  | none ↦ some db
  | some m ↦
      map_some (λ r. r.0)
        (publish scope Action.stale_membership_reconciled (m.version + 1) (bumped m) (record db {
          memberships = delete_where (in_folder m.id scope.folder_id) db.memberships;
        }))
]

-- `get_stale_memberships`
abbrev pub is_stale : Scope → MailMessageFolder → Bool
is_stale scope p =
    p.mail_folder_id == scope.folder_id && ltb p.resync_generation scope.resync_generation

unfoldable pub reconcile_all : Scope → List MailMessageFolder → Db → Option Db
reconcile_all scope [] db = some db
reconcile_all scope (p ∷ ps) db = elim (reconcile_stale scope p db) [
  | none ↦ none
  | some db' ↦ reconcile_all scope ps db'
]

-- `_reconcile_stale_memberships`
unfoldable pub reconcile_stale_memberships : Scope → Db → Option Db
reconcile_stale_memberships scope db =
    reconcile_all scope (select (is_stale scope) db.memberships) db
