-- ===== src/Sync/Repeat.antt =====
-- The steps of `_process_provider_message` on a message that was just processed: the second time
-- each of them finds nothing to change.
use mathlib.Core.Path.{subst}
use outlook_dictionary.Common.{
  ℕ, ◌+◌, ◌≡◌, refl, sym, ap, ◌∙◌, inl, inr, Bool, true, false, not, ◌||◌, Option, none, some, List,
  [], ◌∷◌, ◌++◌, map, arith, if◌then◌else◌, Bool-cases,
}
use outlook_dictionary.Sql.{select, delete_where, rowcount}
use outlook_dictionary.Text.{Text, normalize}
use outlook_dictionary.Text.Laws.{normalize-normalize, text_eq_refl}
use outlook_dictionary.Mail.{
  Sender, sender_eq, Message, ParticipantRole, to, cc_role, bcc, role_eq, Participant,
}
use outlook_dictionary.Sync.Provider.{
  Presence, unset, present, Address, ProviderMessage, email_text,
}
use outlook_dictionary.Sync.Participants.{
  Entry, count_new, sorted, entries_eq, stored_entry, sent_entry, of_role, new_participants,
  must_replace, reconcile_role, State, or_null, or_empty,
}
use outlook_dictionary.Sync.Process.{merge, merge_flag, merge_fields, merge_sender}

pub merge-again : (p : Presence ℕ) (v : Option ℕ) → merge p (merge p v).0 ≡ ((merge p v).0, false)
unfolding merge
merge-again unset v = refl
merge-again (present none) none = refl
merge-again (present none) (some a) = refl
merge-again (present (some b)) none = ground arith
merge-again (present (some b)) (some a) = ground arith

pub merge_flag-again :
    (p : Presence Bool) (v : Bool) → merge_flag p (merge_flag p v).0 ≡ ((merge_flag p v).0, false)
unfolding merge_flag
merge_flag-again unset v = refl
merge_flag-again (present none) v = refl
merge_flag-again (present (some true)) true = refl
merge_flag-again (present (some true)) false = refl
merge_flag-again (present (some false)) true = refl
merge_flag-again (present (some false)) false = refl

-- The scalar fields of a message that was just merged do not change again.
pub merge_fields-again :
    (msg : ProviderMessage) (m : Message)
    → merge_fields msg (merge_fields msg m).0 ≡ ((merge_fields msg m).0, false)
unfolding merge_fields
merge_fields-again msg m = rw (
  merge-again msg.subject m.subject,
  merge-again msg.body m.body,
  merge-again msg.body_preview m.body_preview,
  merge-again msg.received_date_time m.received_date_time,
  merge_flag-again msg.has_attachments m.has_attachments,
  merge_flag-again msg.is_read m.is_read,
)

pub merge_sender-again :
    (p : Presence Address) (v : Option Sender)
    → merge_sender p (merge_sender p v).0 ≡ ((merge_sender p v).0, false)
unfolding merge_sender sender_eq
merge_sender-again unset v = refl
merge_sender-again (present none) none = refl
merge_sender-again (present none) (some s) = refl
merge_sender-again (present (some a)) v =
    ground (arith, text_eq_refl a.name, text_eq_refl (normalize (email_text a)))

-- The rows of one role after they were replaced.
select-delete :
    (p : Participant → Bool) (rows added : List Participant)
    → select p (delete_where p rows ++ added) ≡ select p added
unfolding select delete_where
select-delete p [] added = refl
select-delete p (r ∷ rows) added = ground (arith, select-delete p rows added)

role_eq_refl : (r : ParticipantRole) → role_eq r r ≡ true
unfolding role_eq
role_eq_refl to = refl
role_eq_refl cc_role = refl
role_eq_refl bcc = refl

select-new :
    (message : ℕ) (role : ParticipantRole) (id : ℕ) (xs : List Address)
    → select (of_role message role) (new_participants message role id xs)
      ≡ new_participants message role id xs
unfolding select new_participants
select-new message role id [] = refl
select-new message role id (a ∷ xs) =
    ground (arith, select-new message role (id + 1) xs, role_eq_refl role)

or_empty-null : (t : Text) → or_empty (or_null t) ≡ t
or_empty-null [] = refl
or_empty-null (c ∷ cs) = refl

stored-new :
    (message : ℕ) (role : ParticipantRole) (id : ℕ) (xs : List Address)
    → map stored_entry (new_participants message role id xs) ≡ map sent_entry xs
unfolding new_participants
stored-new message role id [] = refl
stored-new message role id (a ∷ xs) = ground (
  arith,
  stored-new message role (id + 1) xs,
  or_empty-null a.name,
  normalize-normalize (email_text a),
)

entries_eq_refl : (xs : List Entry) → entries_eq xs xs ≡ true
unfolding entries_eq
entries_eq_refl [] = refl
entries_eq_refl ((n, e) ∷ xs) = ground (arith, text_eq_refl n, text_eq_refl e, entries_eq_refl xs)

-- The rows of a role are what the field asks for.
unfoldable pub IsSettled : ℕ → ParticipantRole → Presence (List Address) → List Participant → Type 0
IsSettled message role unset rows = Unit
IsSettled message role (present none) rows = select (of_role message role) rows ≡ []
IsSettled message role (present (some xs)) rows =
    entries_eq (sorted (map stored_entry (select (of_role message role) rows)))
      (sorted (map sent_entry xs))
    ≡ true

delete_none :
    (p : Participant → Bool) (rows : List Participant)
    → select p rows ≡ []
    → (delete_where p rows ≡ rows) × (rowcount p rows ≡ 0)
unfolding select delete_where rowcount
delete_none p [] h = (refl, refl)
delete_none p (r ∷ rows) h = elim (Bool-cases (p r)) [
  | inl hit ↦ absurd (ground arith)
  | inr miss ↦ ground (arith, delete_none p rows)
]

select-deleted :
    (p : Participant → Bool) (rows : List Participant) → select p (delete_where p rows) ≡ []
unfolding select delete_where
select-deleted p [] = refl
select-deleted p (r ∷ rows) = ground (arith, select-deleted p rows)

-- The rows of another role stay.
select-delete_ne :
    (message : ℕ) (role other : ParticipantRole) (rows : List Participant)
    → role_eq other role ≡ false
    → select (of_role message role) (delete_where (of_role message other) rows)
      ≡ select (of_role message role) rows
unfolding select delete_where role_eq
select-delete_ne message role other [] h = refl
select-delete_ne message role other (r ∷ rows) h =
    ground (arith, select-delete_ne message role other rows h)

pub IsSettled-reconcile_role :
    (message : ℕ) (is_new : Bool) (role : ParticipantRole) (p : Presence (List Address)) (s : State)
    → IsSettled message role p (reconcile_role message is_new role p s).0
unfolding IsSettled reconcile_role must_replace
IsSettled-reconcile_role message is_new role unset s = tt
IsSettled-reconcile_role message is_new role (present none) s =
    select-deleted (of_role message role) s.0
IsSettled-reconcile_role message is_new role (present (some xs)) s =
    elim (Bool-cases (must_replace message role is_new xs s.0)) [
      | inl replaced ↦
          subst (λ (b : Bool). IsSettled message role (present (some xs)) (outcome b).0)
            (sym replaced)
            (ap (λ entries. entries_eq (sorted entries) (sorted (map sent_entry xs)))
                (ap (map stored_entry) (
                    select-delete (of_role message role) s.0 (new_participants message role s.1 xs)
                    ∙ select-new message role s.1 xs)
                  ∙ stored-new message role s.1 xs)
              ∙ entries_eq_refl (sorted (map sent_entry xs)))
      | inr same ↦ ground (arith, same)
    ]
  where
    outcome : Bool → State
    outcome b =
        if b
        then (
          delete_where (of_role message role) s.0 ++ new_participants message role s.1 xs,
          count_new s.1 xs,
          s.2 || not is_new,
        )
        else (s.0, s.1, s.2)

pub reconcile_role-settled :
    (message : ℕ) (role : ParticipantRole) (p : Presence (List Address)) (rows : List Participant)
    (next : ℕ) (changed : Bool)
    → IsSettled message role p rows
    → reconcile_role message false role p (rows, next, changed) ≡ (rows, next, changed)
unfolding IsSettled reconcile_role must_replace
reconcile_role-settled message role unset rows next changed h = refl
reconcile_role-settled message role (present none) rows next changed h =
    ground (arith, delete_none (of_role message role) rows h)
reconcile_role-settled message role (present (some xs)) rows next changed h = ground (arith, h)

select-new_ne :
    (message : ℕ) (role other : ParticipantRole) (id : ℕ) (xs : List Address)
    (rows : List Participant)
    → role_eq other role ≡ false
    → select (of_role message role) (rows ++ new_participants message other id xs)
      ≡ select (of_role message role) rows
unfolding select new_participants
select-new_ne message role other id [] [] h = refl
select-new_ne message role other id (a ∷ xs) [] h =
    ground (arith, select-new_ne message role other (id + 1) xs [] h)
select-new_ne message role other id xs (r ∷ rows) h =
    ground (arith, select-new_ne message role other id xs rows h)

-- One round leaves the rows of the other roles.
pub reconcile_role_ne :
    (message : ℕ) (is_new : Bool) (role other : ParticipantRole) (p : Presence (List Address))
    (s : State)
    → role_eq other role ≡ false
    → select (of_role message role) (reconcile_role message is_new other p s).0
      ≡ select (of_role message role) s.0
unfolding reconcile_role
reconcile_role_ne message is_new role other unset s h = refl
reconcile_role_ne message is_new role other (present none) s h =
    select-delete_ne message role other s.0 h
reconcile_role_ne message is_new role other (present (some xs)) s h = ground (
  arith,
  select-new_ne message role other s.1 xs (delete_where (of_role message other) s.0) h,
  select-delete_ne message role other s.0 h,
)

pub IsSettled-other :
    (message : ℕ) (role : ParticipantRole) (p : Presence (List Address))
    (rows rows' : List Participant)
    → select (of_role message role) rows' ≡ select (of_role message role) rows
    → IsSettled message role p rows
    → IsSettled message role p rows'
unfolding IsSettled
IsSettled-other message role unset rows rows' e h = tt
IsSettled-other message role (present none) rows rows' e h = e ∙ h
IsSettled-other message role (present (some xs)) rows rows' e h =
    ap (λ found. entries_eq (sorted (map stored_entry found)) (sorted (map sent_entry xs))) e ∙ h
