-- ===== src/Sync/Stale.antt =====
-- `_reconcile_stale_memberships`: the sweep after a full synchronisation.
use mathlib.Core.Path.{subst}
use outlook_dictionary.Common.{
  ℕ, suc, ◌≡◌, refl, sym, ap, inl, inr, Bool, true, false, Option, none, some, List, [], ◌∷◌, arith,
  if◌then◌else◌, ◌==◌, ◌||◌, is_some, Bool-cases, Option-cases, All,
}
use outlook_dictionary.Sql.{first, delete_where, select, update_where}
use outlook_dictionary.Sql.Keyed.{get, map_some, get-replace}
use outlook_dictionary.Mail.{Message, MailMessageFolder, message_key}
use outlook_dictionary.Outbox.{Action}
use outlook_dictionary.Sync.Provider.{Db, Scope}
use outlook_dictionary.Sync.Process.{
  publish, bumped, in_folder, reconcile_stale, reconcile_all, reconcile_stale_memberships, is_stale,
}
use outlook_dictionary.Sync.Invariant.{
  CoveredTo, IsCovered, published, publish_next, publish-IsCovered,
}
use outlook_dictionary.Sync.Coverage.{CoveredTo-others, get-CoveredTo}

-- The messages of the rounds that are left.
unfoldable pub listed : ℕ → List MailMessageFolder → Bool
listed id [] = false
listed id (p ∷ ps) = (p.mail_message_id == id) || listed id ps

-- Every stale membership is the business of a round that is left.
abbrev pub IsPending : Scope → List MailMessageFolder → MailMessageFolder → Type 0
IsPending scope ps p = is_stale scope p ≡ true → listed p.mail_message_id ps ≡ true

-- The foreign key: the message of the membership is there.
abbrev pub HasMessage : List Message → MailMessageFolder → Type 0
HasMessage messages p = is_some (get message_key p.mail_message_id messages) ≡ true

-- What the sweep leaves: it does not raise, the tables are covered, and no membership is stale.
unfoldable pub Swept : Scope → Option Db → Type 0
Swept scope none = ⊥
Swept scope (some db) = IsCovered db × (select (is_stale scope) db.memberships ≡ [])

none_pending :
    (scope : Scope) (rows : List MailMessageFolder)
    → All (IsPending scope []) rows
    → select (is_stale scope) rows ≡ []
unfolding select listed
none_pending scope [] h = refl
none_pending scope (p ∷ rows) h = ground (arith, none_pending scope rows h.1)

All-IsPending :
    (scope : Scope) (p : MailMessageFolder) (ps rows : List MailMessageFolder)
    → All (IsPending scope ps) rows
    → All (IsPending scope (p ∷ ps)) rows
unfolding listed
All-IsPending scope p ps [] h = tt
All-IsPending scope p ps (r ∷ rows) h =
    (λ stale. ground (arith, h.0 stale), All-IsPending scope p ps rows h.1)

-- At first the rounds are the stale memberships themselves.
IsPending-at_first :
    (scope : Scope) (rows : List MailMessageFolder)
    → All (IsPending scope (select (is_stale scope) rows)) rows
unfolding select listed
IsPending-at_first scope [] = tt
IsPending-at_first scope (p ∷ rows) = elim (Bool-cases (is_stale scope p)) [
  | inl stale ↦
      subst (λ ps. All (IsPending scope ps) (p ∷ rows))
        (sym (ap (λ b. if b then p ∷ rest else rest) stale))
        ((λ _. ground arith), All-IsPending scope p rest rows (IsPending-at_first scope rows))
  | inr fresh ↦
      subst (λ ps. All (IsPending scope ps) (p ∷ rows))
        (sym (ap (λ b. if b then p ∷ rest else rest) fresh))
        ((λ stale. ground (arith, fresh)), IsPending-at_first scope rows)
]
  where
    rest : List MailMessageFolder
    rest = select (is_stale scope) rows

-- A round removes the membership that it is about.
IsPending-next :
    (scope : Scope) (p : MailMessageFolder) (ps rows : List MailMessageFolder)
    → All (IsPending scope (p ∷ ps)) rows
    → All (IsPending scope ps) (delete_where (in_folder p.mail_message_id scope.folder_id) rows)
unfolding delete_where listed
IsPending-next scope p ps [] h = tt
IsPending-next scope p ps (r ∷ rows) h =
    elim (Bool-cases (in_folder p.mail_message_id scope.folder_id r)) [
      | inl removed ↦ rw removed (IsPending-next scope p ps rows h.1)
      | inr kept ↦
          rw kept ((λ stale. ground (arith, h.0 stale)), IsPending-next scope p ps rows h.1)
    ]

All-select :
    (P : MailMessageFolder → Type 0) (g : MailMessageFolder → Bool) (rows : List MailMessageFolder)
    → All P rows
    → All P (select g rows)
unfolding select
All-select P g [] h = tt
All-select P g (r ∷ rows) h = elim (Bool-cases (g r)) [
  | inl kept ↦ rw kept (h.0, All-select P g rows h.1)
  | inr out ↦ rw out (All-select P g rows h.1)
]

-- A message that is written back is still there, as are the others.
HasMessage-replace :
    (m : Message) (messages : List Message) (rows : List MailMessageFolder)
    → is_some (get message_key m.id messages) ≡ true
    → All (HasMessage messages) rows
    → All (HasMessage (update_where (λ r. r.id == m.id) (λ _. m) messages)) rows
HasMessage-replace m messages [] there h = tt
HasMessage-replace m messages (p ∷ rows) there h = (
  ground (arith, get-replace message_key p.mail_message_id m messages, h.0, there),
  HasMessage-replace m messages rows there h.1,
)

-- One round: the memberships that it leaves, and what it keeps.
pub record Round (scope : Scope) (p : MailMessageFolder) (ps : List MailMessageFolder) (db db' : Db)
    : Type 0 where
  pub covered : IsCovered db'
  pub swept :
      db'.memberships ≡ delete_where (in_folder p.mail_message_id scope.folder_id) db.memberships
  pub messages : All (HasMessage db'.messages) ps

get-key : (k : ℕ) (m : Message) (rows : List Message) → get message_key k rows ≡ some m → m.id ≡ k
unfolding first
get-key k m [] e = cc
get-key k m (r ∷ rows) e = ground (arith, get-key k m rows)

module _ (scope : Scope) (p : MailMessageFolder) (db : Db) (h : IsCovered db) where
  -- The tables after the membership is removed, and after the publication.
  abbrev pub without : Message → Db
  without m = record db {
    memberships = delete_where (in_folder m.id scope.folder_id) db.memberships;
  }

  abbrev pub after : Message → Db
  after m =
      published scope Action.stale_membership_reconciled (suc m.version) (bumped m) (without m)

  module _ (m : Message) (found : get message_key p.mail_message_id db.messages ≡ some m) where
    here : get message_key m.id db.messages ≡ some m
    here =
        subst (λ k. get message_key k db.messages ≡ some m)
          (sym (get-key p.mail_message_id m db.messages found)) found

    due : CoveredTo m.id m.version (without m)
    due =
        CoveredTo-others m.id m.version db.next_uuid
          (delete_where (in_folder m.id scope.folder_id) db.memberships) db.participants db
          (get-CoveredTo m db h here) (omega arith)

    pub round_found : reconcile_stale scope p db ≡ some (after m)
    unfolding reconcile_stale
    round_found =
        rw (found, reconcile_stale)
          (ap (map_some (λ r. r.0)) (
            subst
              (λ v.
                publish scope Action.stale_membership_reconciled v (bumped m) (without m)
                ≡ some (after m, true))
              (omega arith)
              (publish_next scope Action.stale_membership_reconciled m.version (bumped m)
                (without m) due)))

    pub Round-after :
        (ps : List MailMessageFolder)
        → All (HasMessage db.messages) ps
        → Round scope p ps db (after m)
    Round-after ps there = record {
      covered =
          publish-IsCovered scope Action.stale_membership_reconciled m.version (bumped m)
            (without m) due (omega arith);
      swept =
          ap (λ k. delete_where (in_folder k scope.folder_id) db.memberships)
            (get-key p.mail_message_id m db.messages found);
      messages = HasMessage-replace (bumped m) db.messages ps (ap is_some here) there;
    }

-- All rounds, while the messages of the memberships that are left are there.
reconcile_all-Swept :
    (scope : Scope) (ps : List MailMessageFolder) (db : Db)
    → IsCovered db
    → All (HasMessage db.messages) ps
    → All (IsPending scope ps) db.memberships
    → Swept scope (reconcile_all scope ps db)
unfolding reconcile_all Swept
reconcile_all-Swept scope [] db h there pending = (h, none_pending scope db.memberships pending)
reconcile_all-Swept scope (p ∷ ps) db h there pending =
    elim (Option-cases (get message_key p.mail_message_id db.messages)) [
      | inl absent ↦ absurd (ground (arith, absent, there.0))
      | inr (m, found) ↦
          (let round = Round-after scope p db h m found ps there.1 in
            rw (round_found scope p db h m found, reconcile_all)
              (reconcile_all-Swept scope ps (after scope p db h m) round.covered round.messages (
                subst (All (IsPending scope ps)) (sym round.swept)
                  (IsPending-next scope p ps db.memberships pending))))
    ]

-- The sweep does not raise and keeps the tables covered, if every membership has its message; and
-- then no membership of the folder is of an earlier generation than the current one.
pub reconcile_stale_memberships-Swept :
    (scope : Scope) (db : Db)
    → IsCovered db
    → All (HasMessage db.messages) db.memberships
    → Swept scope (reconcile_stale_memberships scope db)
unfolding reconcile_stale_memberships
reconcile_stale_memberships-Swept scope db h there =
    reconcile_all-Swept scope (select (is_stale scope) db.memberships) db h
      (All-select (HasMessage db.messages) (is_stale scope) db.memberships there)
      (IsPending-at_first scope db.memberships)
