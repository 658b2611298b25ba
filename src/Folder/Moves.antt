-- ===== src/Folder/Moves.antt =====
-- What a synchronisation does to the committed tables: a sequence of moves.
use outlook_dictionary.Common.{ℕ, ◌≡◌, refl, true, false, Option, none, some, if◌then◌else◌}
use outlook_dictionary.Transaction.{run_statement, commit_all, meanwhile, end_block, roll_back}
use outlook_dictionary.Sync.Lease.{writes, Write, make}
use outlook_dictionary.Folder.{Folder, Store, DeltaPage}
use outlook_dictionary.Folder.Page.{Locals, process_page}
use outlook_dictionary.Folder.Loop.{Call, Lease, Session, scope_of, write}

-- One move under a lease: a statement of this worker under this very lease, what others commit during
-- a call of the provider, or a whole page under the lease.
pub data Move (call : Call) (lease : Lease) (st : Store) : Store → Type 0 where
  leases :
      (w : Write) (now : ℕ)
      → Move call lease st (record st {
        sync_states =
            make
              (writes lease.sync_state_id call.worker_id lease.lease_version w now)
              st.sync_states;
      })
  waits : (n : ℕ) → Move call lease st ((call.rounds n).others st)
  applies :
      (folder : Folder) (n : ℕ) (p : DeltaPage) (l : Locals) (st' : Store)
      → (process_page
          (scope_of call lease folder (call.rounds n) l)
          lease.sync_state_id
          call.worker_id
          lease.lease_version
          call.lease_duration
          p
          l
          st).1
        ≡ some st'
      → Move call lease st st'

pub data Moves (call : Call) (lease : Lease) (st : Store) : Store → Type 0 where
  here : Moves call lease st st
  next :
      {st' st'' : Store}
      → Moves call lease st st'
      → Move call lease st' st''
      → Moves call lease st st''

module _ (call : Call) (lease : Lease) (start : Store) where
  -- Both what the session sees and what is committed is reached by moves.
  pub record Within (s : Session) : Type 0 where
    pub seen : Moves call lease start s.seen
    pub durable : Moves call lease start s.durable

  pub run_statement-Within :
      (after : Store) (s : Session)
      → Move call lease s.seen after
      → Within s
      → Within (run_statement after s)
  unfolding run_statement
  run_statement-Within after s m h = record { seen = next h.seen m; durable = h.durable }

  pub write-Within :
      (w : Write) (now : ℕ) (s : Session) → Within s → Within (write call lease w now s).0
  unfolding write make
  write-Within w now s h = run_statement-Within _ s (leases w now) h

  pub commit_all-Within : (s : Session) → Within s → Within (commit_all s)
  unfolding commit_all
  commit_all-Within s h = record { seen = h.seen; durable = h.seen }

  pub meanwhile-Within :
      (n : ℕ) (s : Session) → Within s → Within (meanwhile (call.rounds n).others s)
  unfolding meanwhile
  meanwhile-Within n s h = record {
    seen = next h.durable (waits n);
    durable = next h.durable (waits n);
  }

  pub end_block-Within :
      (after : Option Store) (s : Session)
      → ((st' : Store) → after ≡ some st' → Move call lease s.seen st')
      → Within s
      → Within (end_block after s)
  unfolding end_block roll_back
  end_block-Within none s m h =
      elim s.in_transaction as (λ b. Within (if b then s else roll_back s)) [
        | true ↦ h
        | false ↦ record { seen = h.durable; durable = h.durable }
      ]
  end_block-Within (some st') s m h =
      elim s.in_transaction
        as (λ b. Within (
          if b
          then record s { seen = st' }
          else record { seen = st'; durable = st'; in_transaction = false })) [
            | true ↦ record { seen = next h.seen (m st' refl); durable = h.durable }
            | false ↦ record { seen = next h.seen (m st' refl); durable = next h.seen (m st' refl) }
          ]
