-- ===== src/Examples/Syncs.antt =====
-- The handlers of one page at a folder with one message.
use outlook_dictionary.Common.{refl, true, false, none, some, [], ◌∷◌, arith}
use outlook_dictionary.Sql.{first, select, update_where, delete_where}
use outlook_dictionary.Text.{normalize, strip, lstrip, rstrip}
use outlook_dictionary.Mail.{Message, to, role_eq}
use outlook_dictionary.Outbox.{Action, new_event, create_event}
use outlook_dictionary.Sync.Provider.{unset, present, ProviderMessage, Db, Scope, has_null_address}
use outlook_dictionary.Sync.Process.{
  find_message, reconcile_message, merge_fields, merge, merge_flag, merge_sender,
  reconcile_membership, emit, publish, process_provider_message, process_provider_removal,
  reconcile_stale_memberships, obtain_message,
}
use outlook_dictionary.Sync.Invariant.{IsCovered, versions, up_to}
use outlook_dictionary.Sync.Again.{Quiet}
use outlook_dictionary.Sync.Idempotence.{process_provider_message-again}
use outlook_dictionary.Sync.Participants.{
  reconcile_role, must_replace, entries_eq, sorted, insert_entry, new_participants,
}
use outlook_dictionary.Sync.Coverage.{Reports}
use outlook_dictionary.Sync.Handlers.{
  Answers, process_provider_message-Reports, process_provider_removal-Reports,
}
use outlook_dictionary.Sync.Stale.{Swept, reconcile_stale_memberships-Swept}

abbrev pub scope : Scope
scope = record {
  tenant_id = 3;
  mail_account_id = 4;
  folder_id = 5;
  resync_generation = 2;
  now = 100;
}

abbrev stored : Message
stored = record {
  id = 7;
  tenant_id = 3;
  mail_account_id = 4;
  provider_message_id = 70;
  version = 1;
  is_deleted = false;
  subject = some 21;
  body = none;
  body_preview = none;
  sender = none;
  received_date_time = some 50;
  has_attachments = false;
  is_read = false;
}

-- The message is in the folder since generation 1.
abbrev pub db : Db
db = record {
  messages = stored ∷ [];
  memberships =
      record {
        mail_message_id = 7;
        mail_folder_id = 5;
        tenant_id = 3;
        mail_account_id = 4;
        resync_generation = 1;
      }
      ∷ [];
  participants = [];
  events = new_event 8 3 7 1 Action.created 90 ∷ [];
  next_uuid = 9;
}

pub db-IsCovered : IsCovered db
unfolding first versions up_to
db-IsCovered = record {
  message_keys = (refl, tt);
  keyed = ((refl, refl), tt);
  fresh = λ id above. ground arith;
  covered = λ id. ground arith;
}

-- The message is read now, and has one recipient.
abbrev pub read_message : ProviderMessage
read_message = record {
  provider_message_id = 70;
  subject = unset;
  body = unset;
  body_preview = unset;
  sender = unset;
  recipients_to = present (some (record { name = []; email = some [] } ∷ []));
  recipients_cc = unset;
  recipients_bcc = unset;
  received_date_time = unset;
  has_attachments = unset;
  is_read = present (some true);
}

process_provider_message-Reports_example :
    Answers
      (has_null_address read_message)
      (obtain_message scope read_message (λ db. db) db).2
      (process_provider_message scope read_message (λ db. db) db)
process_provider_message-Reports_example =
    process_provider_message-Reports scope read_message (λ db. db) db db-IsCovered db-IsCovered

process_provider_removal-Reports_example : Reports db (process_provider_removal scope 70 db)
process_provider_removal-Reports_example = process_provider_removal-Reports scope 70 db db-IsCovered

reconcile_stale_memberships-Swept_example : Swept scope (reconcile_stale_memberships scope db)
unfolding first
reconcile_stale_memberships-Swept_example =
    reconcile_stale_memberships-Swept scope db db-IsCovered (refl, tt)

-- The tables after `read_message` was processed.
abbrev read_db : Db
read_db = record {
  messages = record stored { is_read = true; version = 2 } ∷ [];
  memberships =
      record {
        mail_message_id = 7;
        mail_folder_id = 5;
        tenant_id = 3;
        mail_account_id = 4;
        resync_generation = 2;
      }
      ∷ [];
  participants = record { id = 9; mail_message_id = 7; name = none; email = []; role = to } ∷ [];
  events = new_event 8 3 7 1 Action.created 90 ∷ new_event 10 3 7 2 Action.updated 100 ∷ [];
  next_uuid = 11;
}

process_provider_message-again_example :
    Quiet read_db (process_provider_message scope read_message (λ db. db) read_db)
unfolding process_provider_message obtain_message find_message reconcile_message merge_fields merge
    merge_flag merge_sender reconcile_role must_replace reconcile_membership emit publish
    create_event first select update_where delete_where entries_eq sorted insert_entry
    new_participants normalize strip lstrip rstrip role_eq
process_provider_message-again_example =
    process_provider_message-again scope read_message db read_db true refl
