-- ===== src/Mail.antt =====
-- The tables of mail (packages/models/src/mip_models/mail.py) that synchronisation writes and the
-- outbox worker reads. Identifiers, instants, and the texts and JSON values that the program only
-- stores and compares are numbers; names and addresses, which it normalises, are texts.
use outlook_dictionary.Common.{ℕ, Bool, true, false, Option, none, some, [], ◌&&◌}
use outlook_dictionary.Text.{Text, text_eq, normalize}

-- `MailMessage.sender`: the document that synchronisation writes, the shape of the Graph API, a
-- plain text, or any other JSON value. A null column is `none`.
pub data Sender : Type 0 where
  canonical : (name email : Text) → Sender
  graph_shape : Option Text → Sender
  plain : Text → Sender
  other_json : ℕ → Sender

-- `message.sender != sender_dict`, negated
unfoldable pub sender_eq : Sender → Text → Text → Bool
sender_eq (canonical n e) name email = text_eq n name && text_eq e email
sender_eq (graph_shape a) name email = false
sender_eq (plain t) name email = false
sender_eq (other_json j) name email = false

abbrev address_text : Option Text → Text
address_text none = []
address_text (some a) = normalize a

-- `canonical_sender_email`; an address that is missing or empty gives the empty text.
unfoldable pub canonical_sender_email : Option Sender → Text
canonical_sender_email none = []
canonical_sender_email (some (canonical _ email)) = normalize email
canonical_sender_email (some (graph_shape address)) = address_text address
canonical_sender_email (some (plain t)) = normalize t
canonical_sender_email (some (other_json _)) = []

-- `MailMessage`
pub record Message : Type 0 where
  pub id : ℕ
  pub tenant_id : ℕ
  pub mail_account_id : ℕ
  pub provider_message_id : ℕ
  pub version : ℕ
  pub is_deleted : Bool
  pub subject : Option ℕ
  pub body : Option ℕ
  pub body_preview : Option ℕ
  pub sender : Option Sender
  pub received_date_time : Option ℕ
  pub has_attachments : Bool
  pub is_read : Bool

-- A message in a folder.
pub record MailMessageFolder : Type 0 where
  pub mail_message_id : ℕ
  pub mail_folder_id : ℕ
  pub tenant_id : ℕ
  pub mail_account_id : ℕ
  pub resync_generation : ℕ

-- `ParticipantRole`
pub data ParticipantRole : Type 0 where
  to cc_role bcc : ParticipantRole

unfoldable pub role_eq : ParticipantRole → ParticipantRole → Bool
role_eq to to = true
role_eq cc_role cc_role = true
role_eq bcc bcc = true
role_eq _ _ = false

-- `MailMessageParticipant`
pub record Participant : Type 0 where
  pub id : ℕ
  pub mail_message_id : ℕ
  pub name : Option Text
  pub email : Text
  pub role : ParticipantRole

abbrev pub message_key : Message → ℕ
message_key m = m.id
