-- ===== src/Sync/Participants.antt =====
-- The participants of one role (step 4 of `_process_provider_message`), with
-- `MailMessageParticipantRepository.delete_by_role`.
use outlook_dictionary.Common.{
  ℕ, ◌+◌, Bool, true, false, not, ◌&&◌, ◌||◌, Option, none, some, List, [], ◌∷◌, ◌++◌, map,
  if◌then◌else◌, ltb, ◌==◌,
}
use outlook_dictionary.Sql.{select, delete_where, rowcount}
use outlook_dictionary.Text.{Text, normalize, text_eq, text_le}
use outlook_dictionary.Mail.{ParticipantRole, role_eq, Participant}
use outlook_dictionary.Sync.Provider.{Presence, unset, present, Address, email_text}

-- `(name, email)`, as Python compares it: the name first.
abbrev pub Entry : Type 0
Entry = Text × Text

unfoldable pub entry_le : Entry → Entry → Bool
entry_le (n, e) (n', e') = if text_eq n n' then text_le e e' else text_le n n'

unfoldable pub insert_entry : Entry → List Entry → List Entry
insert_entry x [] = x ∷ []
insert_entry x (y ∷ ys) = if entry_le x y then x ∷ y ∷ ys else y ∷ insert_entry x ys

-- `sorted`
unfoldable pub sorted : List Entry → List Entry
unfolding insert_entry
sorted [] = []
sorted (x ∷ xs) = insert_entry x (sorted xs)

unfoldable pub entries_eq : List Entry → List Entry → Bool
entries_eq [] [] = true
entries_eq [] (y ∷ ys) = false
entries_eq (x ∷ xs) [] = false
entries_eq ((n, e) ∷ xs) ((n', e') ∷ ys) = (text_eq n n' && text_eq e e') && entries_eq xs ys

-- `p.name or ""`
abbrev pub or_empty : Option Text → Text
or_empty none = []
or_empty (some t) = t

-- `p.name or None`
abbrev pub or_null : Text → Option Text
or_null [] = none
or_null (c ∷ cs) = some (c ∷ cs)

abbrev pub stored_entry : Participant → Entry
stored_entry p = (or_empty p.name, normalize p.email)

abbrev pub sent_entry : Address → Entry
sent_entry a = (a.name, normalize (email_text a))

-- The rows of one message and role.
abbrev pub of_role : ℕ → ParticipantRole → Participant → Bool
of_role message role p = p.mail_message_id == message && role_eq p.role role

-- The rows that are added, with the identifiers from `id` on.
unfoldable pub new_participants : ℕ → ParticipantRole → ℕ → List Address → List Participant
new_participants message role id [] = []
new_participants message role id (a ∷ rest) =
    record {
      id = id;
      mail_message_id = message;
      name = or_null a.name;
      email = normalize (email_text a);
      role = role;
    }
    ∷ new_participants message role (id + 1) rest

abbrev pub count_new : ℕ → List Address → ℕ
count_new id [] = id
count_new id (a ∷ rest) = count_new (id + 1) rest

-- The participants, the next identifier, and `aggregate_changed`.
abbrev pub State : Type 0
State = List Participant × ℕ × Bool

-- The recipients differ from the rows, in whatever order, or the message is new.
unfoldable pub must_replace : ℕ → ParticipantRole → Bool → List Address → List Participant → Bool
must_replace message role is_new recipients rows =
    not (
      entries_eq (sorted (map stored_entry (select (of_role message role) rows)))
        (sorted (map sent_entry recipients)))
    || is_new

-- One round of the loop over the roles.
unfoldable pub reconcile_role : ℕ → Bool → ParticipantRole → Presence (List Address) → State → State
reconcile_role message is_new role unset s = s
reconcile_role message is_new role (present none) (rows, next, changed) = (
  delete_where (of_role message role) rows,
  next,
  changed || ltb 0 (rowcount (of_role message role) rows),
)
reconcile_role message is_new role (present (some recipients)) (rows, next, changed) =
    if must_replace message role is_new recipients rows
    then (
      delete_where (of_role message role) rows ++ new_participants message role next recipients,
      count_new next recipients,
      changed || not is_new,
    )
    else (rows, next, changed)
