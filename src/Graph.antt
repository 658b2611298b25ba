-- ===== src/Graph.antt =====
-- The adapter of the Microsoft Graph API (packages/providers/src/mip_providers/mail/graph.py): how a
-- response becomes a page or an exception, and a list of mail folders.
pub mod Statuses
pub mod Links
pub mod Folders
use outlook_dictionary.Common.{
  ℕ, Bool, true, false, ◌&&◌, Option, none, some, List, [], ◌∷◌, if◌then◌else◌, leb, ◌==◌,
}
use outlook_dictionary.Text.{Text}
use outlook_dictionary.Sync.Provider.{Presence, unset, present, Address, ProviderMessage}
use outlook_dictionary.Folder.{
  DeltaPage, Raised, Fetch, got, raised, auth_expired, provider_permission, provider_not_found,
  delta_cursor_expired, provider_rate_limited, provider_error, other,
}

-- The `emailAddress` of a recipient; a name that is missing or null is `none`.
pub record RawAddress : Type 0 where
  pub address : Presence Text
  pub name : Option Text

-- A recipient: an object, with or without an address, or another JSON value.
pub data RecipientJson : Type 0 where
  object : Option RawAddress → RecipientJson
  other_value : RecipientJson

pub data RecipientsJson : Type 0 where
  array : List RecipientJson → RecipientsJson
  no_array : RecipientsJson

-- A date: a text, as the instant that `fromisoformat` reads, or another JSON value.
pub data DateJson : Type 0 where
  date_text : ℕ → DateJson
  no_text : DateJson

-- A message of the response. Null is `present none`.
pub record RawMessage : Type 0 where
  pub id : ℕ
  pub subject : Presence ℕ
  pub body : Presence ℕ
  pub body_preview : Presence ℕ
  pub sender : Presence RecipientJson
  pub to_recipients : Presence RecipientsJson
  pub cc_recipients : Presence RecipientsJson
  pub bcc_recipients : Presence RecipientsJson
  pub received_date_time : Presence DateJson
  pub has_attachments : Presence Bool
  pub is_read : Presence Bool

-- An item of the response: with "@removed" or without.
pub data Item : Type 0 where
  removed : ℕ → Item
  message : RawMessage → Item

-- The body of a success; 0 is the empty link.
pub record Body : Type 0 where
  pub value : List Item
  pub next_link : Option ℕ
  pub delta_link : Option ℕ

-- A response; the header retry-after counts if it is made of digits.
pub record Response : Type 0 where
  pub status_code : ℕ
  pub retry_after : Option ℕ
  pub body : Body

-- What the HTTP client does.
pub data Reply : Type 0 where
  responds : Response → Reply
  breaks_off : Reply

abbrev pub text_or_empty : Option Text → Text
text_or_empty none = []
text_or_empty (some t) = t

-- `.get("address", "")`
abbrev pub given_address : Presence Text → Option Text
given_address unset = some []
given_address (present address) = address

abbrev pub address_of : Option RawAddress → Address
address_of none = record { name = []; email = some [] }
address_of (some a) = record { name = text_or_empty a.name; email = given_address a.address }

-- `_parse_recipient`
unfoldable pub parse_recipient : Presence RecipientJson → Presence Address
parse_recipient unset = unset
parse_recipient (present none) = present none
parse_recipient (present (some (object a))) = present (some (address_of a))
parse_recipient (present (some other_value)) = present (some (address_of none))

-- The loop of `_parse_recipients_list`.
unfoldable pub addresses : List RecipientJson → List Address
addresses [] = []
addresses (object a ∷ rs) = address_of a ∷ addresses rs
addresses (other_value ∷ rs) = addresses rs

-- `_parse_recipients_list`
unfoldable pub parse_recipients_list : Presence RecipientsJson → Presence (List Address)
parse_recipients_list unset = unset
parse_recipients_list (present none) = present none
parse_recipients_list (present (some no_array)) = present none
parse_recipients_list (present (some (array rs))) = present (some (addresses rs))

-- `_parse_datetime`
unfoldable pub parse_datetime : Presence DateJson → Presence ℕ
parse_datetime unset = unset
parse_datetime (present none) = present none
parse_datetime (present (some (date_text t))) = present (some t)
parse_datetime (present (some no_text)) = present none

-- `_map_provider_message`
unfoldable pub map_provider_message : RawMessage → ProviderMessage
map_provider_message item = record {
  provider_message_id = item.id;
  subject = item.subject;
  body = item.body;
  body_preview = item.body_preview;
  sender = parse_recipient item.sender;
  recipients_to = parse_recipients_list item.to_recipients;
  recipients_cc = parse_recipients_list item.cc_recipients;
  recipients_bcc = parse_recipients_list item.bcc_recipients;
  received_date_time = parse_datetime item.received_date_time;
  has_attachments = item.has_attachments;
  is_read = item.is_read;
}

unfoldable pub messages_of : List Item → List ProviderMessage
messages_of [] = []
messages_of (removed id ∷ items) = messages_of items
messages_of (message m ∷ items) = map_provider_message m ∷ messages_of items

unfoldable pub removals_of : List Item → List ℕ
removals_of [] = []
removals_of (removed id ∷ items) = id ∷ removals_of items
removals_of (message m ∷ items) = removals_of items

-- A link that is there and not empty.
abbrev pub link : Option ℕ → Option ℕ
link none = none
link (some l) = if l == 0 then none else some l

-- The end of `get_message_delta`: next_continuation, has_more and is_delta_checkpoint.
abbrev pub continuation_of : Option ℕ → Option ℕ → Option ℕ × Bool × Bool
continuation_of (some next) delta = (some next, true, false)
continuation_of none (some delta) = (some delta, false, true)
continuation_of none none = (none, false, true)

unfoldable pub page_of : Body → DeltaPage
page_of body =
    let (continuation, has_more, is_checkpoint) =
      continuation_of (link body.next_link) (link body.delta_link) in
    record {
      messages = messages_of body.value;
      removals = removals_of body.value;
      next_continuation = continuation;
      has_more = has_more;
      is_delta_checkpoint = is_checkpoint;
    }

abbrev pub is_success : ℕ → Bool
is_success code = leb 200 code && leb code 299

-- `_raise_for_status` at a code that is no success, with the header retry-after.
unfoldable pub raise_for_status : (status_code : ℕ) → (retry_after : Option ℕ) → Raised
raise_for_status code retry_after =
    if code == 401
    then record { kind = auth_expired; status_code = some code; retry_after = none }
    else if code == 403
    then record { kind = provider_permission; status_code = some code; retry_after = none }
    else if code == 404
    then record { kind = provider_not_found; status_code = some code; retry_after = none }
    else if code == 410
    then record { kind = delta_cursor_expired; status_code = some code; retry_after = none }
    else if code == 429
    then record { kind = provider_rate_limited; status_code = some code; retry_after = retry_after }
    else record { kind = provider_error; status_code = some code; retry_after = none }

-- `get_message_delta`, after the request was sent
unfoldable pub get_message_delta : Reply → Fetch
unfolding raise_for_status page_of
get_message_delta breaks_off =
    raised (record { kind = other; status_code = none; retry_after = none })
get_message_delta (responds r) =
    if is_success r.status_code
    then got (page_of r.body)
    else raised (raise_for_status r.status_code r.retry_after)
