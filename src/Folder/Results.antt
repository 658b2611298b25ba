-- ===== src/Folder/Results.antt =====
-- The result of a synchronisation: its counts and its state.
use outlook_dictionary.Common.{
  ℕ, suc, ◌+◌, ◌≤◌, ◌≡◌, refl, Bool, true, false, Option, none, some, List, [], ◌∷◌, arith,
  if◌then◌else◌, length, is_some, choose,
}
use outlook_dictionary.Sync.Provider.{ProviderMessage, Db, Scope}
use outlook_dictionary.Sync.Process.{process_provider_message}
use outlook_dictionary.Sync.Lease.{SyncStateValue, delta_tracking, renews, write_fenced}
use outlook_dictionary.Folder.{Store, DeltaPage, Failure, SyncResult}
use outlook_dictionary.Folder.Page.{
  Locals, process_messages, process_removals, next_state, sweep, store_cursor, finish_page,
  process_page,
}
use outlook_dictionary.Folder.Loop.{result_of, refused}

-- What every result tells: as many changes as messages and removals at the most, a state in which
-- the folder is followed if there is no error, a time to wait only with an error, and that no
-- resynchronisation took place.
pub record IsTruthful (r : SyncResult) : Type 0 where
  pub counts : r.messages_mutated ≤ r.messages_processed + r.removals_processed
  pub finished : r.error ≡ none → r.state ≡ delta_tracking
  pub waits : r.error ≡ none → r.retry_after ≡ none
  pub no_resync : r.resync_triggered ≡ false

-- What holds of the local variables.
pub record IsCounted (l : Locals) : Type 0 where
  pub counts : l.total_mutated ≤ l.total_processed + l.total_removals
  pub no_resync : l.resync_triggered ≡ false

pub failed-IsTruthful :
    (l : Locals) (state : SyncStateValue) (f : Failure) (r : Option ℕ)
    → IsCounted l
    → IsTruthful (result_of l state (some f) r)
failed-IsTruthful l state f r h = record {
  counts = h.counts;
  finished = λ e. cc;
  waits = λ e. cc;
  no_resync = refl;
}

pub refused-IsTruthful : (state : SyncStateValue) (f : Failure) → IsTruthful (refused state f)
refused-IsTruthful state f = record {
  counts = omega arith;
  finished = λ e. cc;
  waits = λ e. cc;
  no_resync = refl;
}

abbrev Bounded : (bound : ℕ) → Option (Db × ℕ) → Type 0
Bounded bound none = Unit
Bounded bound (some (db, n)) = n ≤ bound

process_messages-le :
    (scope : Scope) (msgs : List ProviderMessage) (db : Db)
    → Bounded (length msgs) (process_messages scope msgs db)
unfolding process_messages
process_messages-le scope [] db = omega arith
process_messages-le scope (msg ∷ msgs) db =
    go (process_messages-le scope msgs) (process_provider_message scope msg (λ db. db) db)
  where
    rest :
        (mutated : Bool) (o : Option (Db × ℕ))
        → Bounded (length msgs) o
        → Bounded (suc (length msgs)) (elim o as (λ _. Option (Db × ℕ)) [
          | none ↦ none
          | some (db'', n) ↦ some (db'', (if mutated then n + 1 else n))
        ])
    rest mutated none h = tt
    rest true (some (db'', n)) h = omega arith
    rest false (some (db'', n)) h = omega arith

    go :
        ((db' : Db) → Bounded (length msgs) (process_messages scope msgs db'))
        → (o : Option (Db × Bool))
        → Bounded (suc (length msgs)) (elim o as (λ _. Option (Db × ℕ)) [
          | none ↦ none
          | some (db', mutated) ↦ elim (process_messages scope msgs db') as (λ _. Option (Db × ℕ)) [
            | none ↦ none
            | some (db'', n) ↦ some (db'', (if mutated then n + 1 else n))
          ]
        ])
    go others none = tt
    go others (some (db', mutated)) = rest mutated (process_messages scope msgs db') (others db')

-- The transaction of a page: the counts agree, and after a commit the state is that of the page.
pub record IsPaged (p : DeltaPage) (r : Locals × Option Store) : Type 0 where
  pub counted : IsCounted r.0
  pub stored : is_some r.1 ≡ true → r.0.current_state ≡ next_state p

module _ (scope : Scope) (id worker v duration : ℕ) (p : DeltaPage) where
  store_cursor-IsPaged :
      (l : Locals) (st : Store)
      → IsCounted l
      → IsPaged p (store_cursor scope id worker v duration p l st)
  unfolding store_cursor
  store_cursor-IsPaged l st h = record {
    counted = record { counts = h.counts; no_resync = h.no_resync };
    stored = λ _. refl;
  }

  finish_page-IsPaged :
      (n : ℕ) (l : Locals) (st : Store)
      → n ≤ length p.messages
      → IsCounted l
      → IsPaged p (finish_page scope id worker v duration p n l st)
  unfolding finish_page
  finish_page-IsPaged n l st le h = removed (process_removals scope p.removals st.mail).1
    where
      k : ℕ
      k = (process_removals scope p.removals st.mail).0

      l' : Locals
      l' = record l { total_removals = l.total_removals + k }

      l'' : Locals
      l'' = record l' {
        total_processed = l.total_processed + length p.messages;
        total_mutated = l.total_mutated + (n + k);
      }

      counted' : IsCounted l'
      counted' = record { counts = omega (arith, h.counts); no_resync = h.no_resync }

      counted'' : IsCounted l''
      counted'' = record { counts = omega (arith, h.counts, le); no_resync = h.no_resync }

      swept :
          (o : Option Db)
          → IsPaged p (elim o as (λ _. Locals × Option Store) [
            | none ↦ (l'', none)
            | some mail' ↦
                store_cursor scope id worker v duration p l'' (record st { mail = mail' })
          ])
      swept none = record { counted = counted''; stored = λ e. cc }
      swept (some mail') = store_cursor-IsPaged l'' (record st { mail = mail' }) counted''

      removed :
          (o : Option Db)
          → IsPaged p (elim o as (λ _. Locals × Option Store) [
            | none ↦ (l', none)
            | some mail ↦ elim (sweep scope l.resync_triggered p mail) [
              | none ↦ (l'', none)
              | some mail' ↦
                  store_cursor scope id worker v duration p l'' (record st { mail = mail' })
            ]
          ])
      removed none = record { counted = counted'; stored = λ e. cc }
      removed (some mail) = swept (sweep scope l.resync_triggered p mail)

  pub process_page-IsPaged :
      (l : Locals) (st : Store)
      → IsCounted l
      → IsPaged p (process_page scope id worker v duration p l st)
  unfolding process_page
  process_page-IsPaged l st h =
      choose (IsPaged p) _ _ _
        (go (process_messages scope p.messages st.mail)
          (process_messages-le scope p.messages st.mail))
        raised
    where
      raised : IsPaged p (l, none)
      raised = record { counted = h; stored = λ e. cc }

      go :
          (o : Option (Db × ℕ))
          → Bounded (length p.messages) o
          → IsPaged p (elim o as (λ _. Locals × Option Store) [
            | none ↦ (l, none)
            | some (mail, mutated) ↦ finish_page scope id worker v duration p mutated l (record st {
              sync_states = (write_fenced id worker v (renews duration) scope.now st.sync_states).0;
              mail = mail;
            })
          ])
      go none le = raised
      go (some (mail, n)) le = finish_page-IsPaged n l _ le h
