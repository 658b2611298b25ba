-- ===== src/Sync/Provider.antt =====
-- What the mail provider sends (packages/providers/src/mip_providers/base.py), the mail tables, and
-- the scope of one folder's synchronisation.
use outlook_dictionary.Common.{ℕ, Bool, false, ◌||◌, Option, none, some, List, [], ◌∷◌, is_none}
use outlook_dictionary.Text.{Text}
use outlook_dictionary.Mail.{Message, MailMessageFolder, Participant}
use outlook_dictionary.Outbox.{Events}

-- A field of an update: absent (`UNSET`), or present with a value or with null.
pub data Presence {ℓ} (A : Type ℓ) : Type ℓ where
  unset : Presence A
  present : Option A → Presence A

-- `ProviderEmailAddress`; the adapter hands on an address that is null.
pub record Address : Type 0 where
  pub name : Text
  pub email : Option Text

-- The address, where it is no null.
abbrev pub email_text : Address → Text
email_text a = elim a.email [ none ↦ [] | some t ↦ t ]

abbrev pub is_null_address : Address → Bool
is_null_address a = is_none a.email

abbrev pub any_null_address : List Address → Bool
any_null_address [] = false
any_null_address (a ∷ rest) = is_null_address a || any_null_address rest

abbrev pub sender_is_null : Presence Address → Bool
sender_is_null unset = false
sender_is_null (present none) = false
sender_is_null (present (some a)) = is_null_address a

abbrev pub list_has_null : Presence (List Address) → Bool
list_has_null unset = false
list_has_null (present none) = false
list_has_null (present (some addresses)) = any_null_address addresses

-- `ProviderMessage`, less the metadata that the program never reads.
pub record ProviderMessage : Type 0 where
  pub provider_message_id : ℕ
  pub subject : Presence ℕ
  pub body : Presence ℕ
  pub body_preview : Presence ℕ
  pub sender : Presence Address
  pub recipients_to : Presence (List Address)
  pub recipients_cc : Presence (List Address)
  pub recipients_bcc : Presence (List Address)
  pub received_date_time : Presence ℕ
  pub has_attachments : Presence Bool
  pub is_read : Presence Bool

-- A null among the addresses that are present, of which `.strip()` is called.
abbrev pub has_null_address : ProviderMessage → Bool
has_null_address msg =
    sender_is_null msg.sender
    || list_has_null msg.recipients_to
    || list_has_null msg.recipients_cc
    || list_has_null msg.recipients_bcc

abbrev pub any_has_null : List ProviderMessage → Bool
any_has_null [] = false
any_has_null (msg ∷ msgs) = has_null_address msg || any_has_null msgs

-- The tables, and the identifier that the next `uuid4()` returns: identifiers do not repeat.
pub record Db : Type 0 where
  pub messages : List Message
  pub memberships : List MailMessageFolder
  pub participants : List Participant
  pub events : Events
  pub next_uuid : ℕ

-- The arguments that all page mutations share, and the time of the page.
pub record Scope : Type 0 where
  pub tenant_id : ℕ
  pub mail_account_id : ℕ
  pub folder_id : ℕ
  pub resync_generation : ℕ
  pub now : ℕ
