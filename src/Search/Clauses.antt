-- ===== src/Search/Clauses.antt =====
-- What the filters of a query ask of a document, as Elasticsearch documents term, terms and range. It
-- serves the hypothesis on Elasticsearch, which is not part of the repository.
use outlook_dictionary.Common.{
  ℕ, Bool, true, false, not, ◌&&◌, ◌||◌, Option, none, some, List, [], ◌∷◌, ◌==◌, leb,
}
use outlook_dictionary.Mail.{ParticipantRole}
use outlook_dictionary.Text.{Text}
use outlook_dictionary.Worker.Process.{Document}
use outlook_dictionary.Gateway.Synthesis.{is_listed}
use outlook_dictionary.Search.{
  Filter, term_tenant_id, term_is_deleted, term_is_read, term_has_attachments,
  terms_mail_account_id, terms_folder_ids, terms_sender_email, terms_participants_email,
  range_received_date_time,
}

abbrev pub is_member : ℕ → List ℕ → Bool
is_member a [] = false
is_member a (x ∷ xs) = a == x || is_member a xs

abbrev pub meets : List ℕ → List ℕ → Bool
meets [] ys = false
meets (x ∷ xs) ys = is_member x ys || meets xs ys

abbrev pub any_email : List (Option Text × Text × ParticipantRole) → List Text → Bool
any_email [] emails = false
any_email ((name, email, role) ∷ ps) emails = is_listed email emails || any_email ps emails

abbrev pub same_bool : Bool → Bool → Bool
same_bool true b = b
same_bool false b = not b

abbrev pub has_sender : Option Text → List Text → Bool
has_sender none emails = false
has_sender (some email) emails = is_listed email emails

abbrev pub at_least : Option ℕ → Option ℕ → Bool
at_least none t = true
at_least (some low) none = false
at_least (some low) (some t) = leb low t

abbrev pub at_most : Option ℕ → Option ℕ → Bool
at_most none t = true
at_most (some high) none = false
at_most (some high) (some t) = leb t high

-- A field that is missing matches no clause.
unfoldable pub matches : Filter → Document → Bool
unfolding is_listed
matches (term_tenant_id id) d = d.tenant_id == id
matches (term_is_deleted b) d = same_bool d.is_deleted b
matches (term_is_read b) d = same_bool d.is_read b
matches (term_has_attachments b) d = same_bool d.has_attachments b
matches (terms_mail_account_id ids) d = is_member d.mail_account_id ids
matches (terms_folder_ids ids) d = meets d.folder_ids ids
matches (terms_sender_email emails) d = has_sender d.sender_email emails
matches (terms_participants_email emails) d = any_email d.participants emails
matches (range_received_date_time low high) d =
    at_least low d.received_date_time && at_most high d.received_date_time

unfoldable pub matches_all : List Filter → Document → Bool
unfolding matches
matches_all [] d = true
matches_all (f ∷ fs) d = matches f d && matches_all fs d
