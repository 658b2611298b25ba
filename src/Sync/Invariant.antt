-- ===== src/Sync/Invariant.antt =====
-- The outbox covers the versions of every message: the events of a message, in the order in which
-- they were added, announce the versions 1, 2, …, up to its current one.
use mathlib.Core.Path.{subst}
use outlook_dictionary.Common.{
  ℕ, zero, suc, ◌+◌, ◌≤◌, ◌≡◌, ◌≢◌, refl, ◌∙◌, sym, ap, inl, inr, true, false, Option, none, some,
  List, [], ◌∷◌, ◌++◌, arith, if◌then◌else◌, ◌==◌, ==→eq, is_some, Bool-cases, All, All-append,
}
use outlook_dictionary.Sql.{first, update_where}
use outlook_dictionary.Sql.Keyed.{get, HasUniqueKeys, map_some, get-replace, replace-HasUniqueKeys}
use outlook_dictionary.Mail.{Message, message_key}
use outlook_dictionary.Outbox.{Action, OutboxEvent, Events, new_event, same_key, create_event}
use outlook_dictionary.Sync.Provider.{Db, Scope}
use outlook_dictionary.Sync.Process.{publish}

-- The versions that the events of one message announce.
unfoldable pub versions : ℕ → Events → List ℕ
versions id [] = []
versions id (e ∷ es) =
    if e.aggregate_id == id then e.aggregate_version ∷ versions id es else versions id es

-- 1, 2, …, n
unfoldable pub up_to : ℕ → List ℕ
up_to zero = []
up_to (suc n) = up_to n ++ suc n ∷ []

abbrev pub version_of : Option Message → ℕ
version_of none = 0
version_of (some m) = m.version

-- The idempotency key of an event is made of its own columns.
abbrev pub IsKeyed : OutboxEvent → Type 0
IsKeyed e = (e.idempotency_key.0 ≡ e.aggregate_id) × (e.idempotency_key.1 ≡ e.aggregate_version)

-- What holds of the tables apart from one message `k`, whose events announce 1 to `n`.
pub record CoveredTo (k n : ℕ) (db : Db) : Type 0 where
  pub message_keys : HasUniqueKeys message_key db.messages
  pub keyed : All IsKeyed db.events
  pub fresh : (id : ℕ) → db.next_uuid ≤ id → get message_key id db.messages ≡ none
  pub there : is_some (get message_key k db.messages) ≡ true
  pub rest :
      (id : ℕ)
      → id ≢ k
      → versions id db.events ≡ up_to (version_of (get message_key id db.messages))
  pub at : versions k db.events ≡ up_to n

pub record IsCovered (db : Db) : Type 0 where
  pub message_keys : HasUniqueKeys message_key db.messages
  pub keyed : All IsKeyed db.events
  pub fresh : (id : ℕ) → db.next_uuid ≤ id → get message_key id db.messages ≡ none
  pub covered :
      (id : ℕ) → versions id db.events ≡ up_to (version_of (get message_key id db.messages))

All-le : (n m : ℕ) (xs : List ℕ) → n ≤ m → All (λ x. x ≤ n) xs → All (λ x. x ≤ m) xs
All-le n m [] h a = tt
All-le n m (x ∷ xs) h a = (omega arith, All-le n m xs h a.1)

up_to-le : (n : ℕ) → All (λ x. x ≤ n) (up_to n)
unfolding up_to
up_to-le zero = tt
up_to-le (suc n) =
    All-append (λ x. x ≤ suc n) (up_to n) (suc n ∷ [])
      (All-le n (suc n) (up_to n) (omega arith) (up_to-le n)) (omega arith, tt)

versions-append :
    (id : ℕ) (e : OutboxEvent) (es : Events)
    → (e.aggregate_id == id) ≡ true
    → versions id (es ++ e ∷ []) ≡ versions id es ++ e.aggregate_version ∷ []
unfolding versions
versions-append id e [] h = ground arith
versions-append id e (x ∷ es) h = ground (arith, versions-append id e es h)

versions-append_ne :
    (id : ℕ) (e : OutboxEvent) (es : Events)
    → (e.aggregate_id == id) ≡ false
    → versions id (es ++ e ∷ []) ≡ versions id es
unfolding versions
versions-append_ne id e [] h = ground arith
versions-append_ne id e (x ∷ es) h = ground (arith, versions-append_ne id e es h)

-- The next version is announced by no event yet.
same_key_absent :
    (k n : ℕ) (es : Events)
    → All IsKeyed es
    → All (λ x. x ≤ n) (versions k es)
    → first (same_key k (suc n)) es ≡ none
unfolding versions first
same_key_absent k n [] keyed bound = refl
same_key_absent k n (e ∷ es) keyed bound = ground (arith, same_key_absent k n es keyed.1)

create_event_next :
    (k n id tenant now : ℕ) (action : Action) (es : Events)
    → All IsKeyed es
    → versions k es ≡ up_to n
    → create_event id tenant k (suc n) action now es
      ≡ some (es ++ new_event id tenant k (suc n) action now ∷ [])
unfolding create_event
create_event_next k n id tenant now action es keyed at =
    rw (same_key_absent k n es keyed (rw at (up_to-le n)))

-- The covering after a message is written back, for events that differ at that message only.
module _ (n : ℕ) (m : Message) (db : Db) (h : CoveredTo m.id n db) (es : Events)
    (same : versions m.id es ≡ up_to m.version)
    (others : (id : ℕ) → (m.id == id) ≡ false → versions id es ≡ versions id db.events) where
  stored : map_some (λ _. m) (get message_key m.id db.messages) ≡ some m
  stored = ground (arith, h.there)

  pub replace-covered :
      (id : ℕ)
      → versions id es
        ≡ up_to (
            version_of (get message_key id (update_where (λ r. r.id == m.id) (λ _. m) db.messages)))
  replace-covered id = elim (Bool-cases (m.id == id)) [
    | inl here ↦
        subst
          (λ k.
            versions k es
            ≡ up_to (
                version_of
                  (get message_key k (update_where (λ r. r.id == m.id) (λ _. m) db.messages))))
          (==→eq m.id id here)
          (ground (arith, same, get-replace message_key m.id m db.messages, stored))
    | inr other ↦
        others id other
        ∙ h.rest id (ground arith)
        ∙ ap (λ o. up_to (version_of o))
            (sym (
              get-replace message_key id m db.messages
              ∙ ap
                  (λ b.
                    if b
                    then map_some (λ _. m) (get message_key m.id db.messages)
                    else get message_key id db.messages)
                  other))
  ]

-- The tables after a publication.
abbrev pub published : Scope → Action → ℕ → Message → Db → Db
published scope action version m db = record db {
  messages = update_where (λ r. r.id == m.id) (λ _. m) db.messages;
  events = db.events ++ new_event db.next_uuid scope.tenant_id m.id version action scope.now ∷ [];
  next_uuid = db.next_uuid + 1;
}

module _ (scope : Scope) (action : Action) (n : ℕ) (m : Message) (db : Db)
    (h : CoveredTo m.id n db) where
  -- A publication of the next version does not raise.
  pub publish_next :
      publish scope action (suc n) m db ≡ some (published scope action (suc n) m db, true)
  unfolding publish
  publish_next = rw (
      create_event_next m.id n db.next_uuid scope.tenant_id scope.now action db.events h.keyed h.at)

  pub publish-IsCovered : m.version ≡ suc n → IsCovered (published scope action (suc n) m db)
  unfolding up_to
  publish-IsCovered v = record {
    message_keys = replace-HasUniqueKeys message_key m db.messages h.message_keys;
    keyed = All-append IsKeyed db.events (event ∷ []) h.keyed ((refl, refl), tt);
    fresh =
        λ id above. ground (arith, get-replace message_key id m db.messages, h.fresh id, h.there);
    covered =
        replace-covered n m db h (db.events ++ event ∷ [])
          (versions-append m.id event db.events (ground arith) ∙ ground (arith, h.at, v))
          (λ id. versions-append_ne id event db.events);
  }
    where
      event : OutboxEvent
      event = new_event db.next_uuid scope.tenant_id m.id (suc n) action scope.now
