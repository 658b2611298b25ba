-- ===== src/Folder/Loop.antt =====
-- `SyncOrchestrator.sync_folder`. Each pass of its loop has a `Round`, which holds what the
-- surroundings answer in that pass; the passes that are left are the argument of the recursion.
use outlook_dictionary.Common.{
  ℕ, zero, suc, ◌+◌, Bool, true, false, not, ◌&&◌, ◌||◌, Option, none, some, List, [], ◌∷◌, ◌++◌,
  if◌then◌else◌, leb, ◌==◌,
}
use outlook_dictionary.Sql.{first}
use outlook_dictionary.Sql.Keyed.{get}
use outlook_dictionary.Transaction.{Transaction, run_statement, commit_all, meanwhile, end_block}
use outlook_dictionary.Sync.Provider.{Scope}
use outlook_dictionary.Sync.Lease.{
  SyncState, SyncStateValue, pending_initial_sync, syncing, auth_required, error,
  acquire_sync_lease, Write, renews, updates, releases, write_fenced,
}
use outlook_dictionary.Folder.{
  Folder, folder_key, Store, DeltaPage, Raised, Fetch, got, raised, is_provider_error,
  is_auth_expired, is_denied, is_rate_limited, is_cursor_expired, truthy, is_complete, Failure,
  lease_acquisition_failed, folder_not_found, max_pagination_depth, lease_lost,
  token_refresh_failed, loop_detected, page_failed, fetch_failed, SyncResult,
}
use outlook_dictionary.Folder.Page.{Locals, process_page}

-- What `refresh_mail_account_credentials` does: it raises, or returns a token. It may leave a
-- transaction open.
pub record Refresh : Type 0 where
  pub succeeds : Bool
  pub leaves_transaction : Bool

-- One pass: the clock, what others commit during the calls of the provider and the refresh, the
-- answer of the provider, and, if the access token has expired, the refresh and the answer to the
-- second call.
pub record Round : Type 0 where
  pub now : ℕ
  pub others : Store → Store
  pub answer : Fetch
  pub refresh : Refresh
  pub second_answer : Fetch

-- The arguments of the call that do not change; `rounds` by the number of passes that are left.
pub record Call : Type 0 where
  pub mail_folder_id : ℕ
  pub worker_id : ℕ
  pub lease_duration : ℕ
  pub has_auth_service : Bool
  pub started_at : ℕ
  pub new_id : ℕ
  pub rounds : ℕ → Round
  pub ended_at : ℕ
  pub release_raises : Bool

-- What the call knows after step 2.
pub record Lease : Type 0 where
  pub sync_state_id : ℕ
  pub lease_version : ℕ

abbrev pub max_pages_per_sync : ℕ
max_pages_per_sync = 1000

abbrev pub Session : Type 0
Session = Transaction Store

unfoldable pub contains : ℕ → List ℕ → Bool
contains t [] = false
contains t (x ∷ xs) = x == t || contains t xs

-- `page.next_continuation == sync_token or page.next_continuation in seen_tokens`
abbrev pub is_repeated : Option ℕ → Option ℕ → List ℕ → Bool
is_repeated none current seen = false
is_repeated (some t) none seen = contains t seen
is_repeated (some t) (some c) seen = t == c || contains t seen

abbrev pub remember : Option ℕ → List ℕ → List ℕ
remember none seen = seen
remember (some t) seen = t ∷ seen

-- `getattr(err, "retry_after", None) or d`
abbrev pub retry_or : ℕ → Option ℕ → ℕ
retry_or d none = d
retry_or d (some n) = if n == 0 then d else n

-- `getattr(err, "status_code", None) and err.status_code >= 500`
abbrev pub is_server_error : Option ℕ → Bool
is_server_error none = false
is_server_error (some c) = leb 500 c

abbrev pub result_of : Locals → SyncStateValue → Option Failure → Option ℕ → SyncResult
result_of l state failure retry_after = record {
  state = state;
  messages_processed = l.total_processed;
  messages_mutated = l.total_mutated;
  removals_processed = l.total_removals;
  resync_triggered = false;
  error = failure;
  retry_after = retry_after;
}

-- How a pass goes on: with a page, with another pass, or with a return.
pub data Next : Type 0 where
  page : DeltaPage → Locals → Session → Next
  again : Locals → Session → Next
  return : Session × SyncResult → Next

-- `get_by_folder_id`
unfoldable pub state_of_folder : ℕ → Store → Option SyncState
state_of_folder folder_id st = first (λ s. s.mail_folder_id == folder_id) st.sync_states

abbrev pub locals_of : SyncState → Locals
locals_of state = record {
  sync_token = state.sync_token;
  resync_generation = state.resync_generation;
  current_state = state.state;
  resync_triggered = false;
  refresh_attempted = false;
  seen_tokens = [];
  total_processed = 0;
  total_mutated = 0;
  total_removals = 0;
}

-- A return before the loop.
abbrev pub refused : SyncStateValue → Failure → SyncResult
refused state failure = record {
  state = state;
  messages_processed = 0;
  messages_mutated = 0;
  removals_processed = 0;
  resync_triggered = false;
  error = some failure;
  retry_after = none;
}

module _ (call : Call) where
  module _ (lease : Lease) where
    -- One fenced statement, without its commit.
    unfoldable pub write : Write → (now : ℕ) → Session → Session × Bool
    unfolding run_statement
    write w now s =
        let (rows, ok) =
          write_fenced lease.sync_state_id call.worker_id lease.lease_version w now
            s.seen.sync_states in
        (run_statement (record s.seen { sync_states = rows }) s, ok)

    -- The statement, and the commit.
    unfoldable pub write_and_commit : Write → (now : ℕ) → Session → Session
    unfolding write commit_all
    write_and_commit w now s = commit_all (write w now s).0

    -- A return that gives the lease back and keeps the state.
    unfoldable pub give_up : Failure → Option ℕ → ℕ → Locals → Session → Session × SyncResult
    unfolding write_and_commit
    give_up failure retry_after now l s =
        (write_and_commit releases now s, result_of l l.current_state (some failure) retry_after)

    -- A return that stores a state in which an operator has to act, and clears the lock.
    unfoldable pub stop_in : SyncStateValue → Failure → ℕ → Locals → Session → Session × SyncResult
    unfolding write_and_commit
    stop_in state failure now l s = (
      write_and_commit
          (updates (record {
            state = state;
            sync_token = none;
            resync_generation = none;
            clear_lock = true;
            clear_sync_token = false;
          }))
          now s,
      result_of l state (some failure) none,
    )

    -- `except Exception` around the loop: an exception of the release is suppressed, and leaves the
    -- lease, and the transaction of the statement.
    unfoldable pub fail : Failure → Locals → Session → Session × SyncResult
    unfolding write_and_commit run_statement
    fail failure l s = (
      (if call.release_raises
          then run_statement s.seen s
          else write_and_commit releases call.ended_at s),
      record (result_of l l.current_state (some failure) none) {
        resync_triggered = l.resync_triggered;
      },
    )

    -- 4. The lease is released, and the call returns.
    unfoldable pub succeed : Locals → Session → Session × SyncResult
    unfolding write_and_commit
    succeed l s = (
      write_and_commit releases call.ended_at s,
      record (result_of l l.current_state none none) { resync_triggered = l.resync_triggered },
    )

    -- The 410 workflow: the local variables, and the statement, which is not committed.
    unfoldable pub resync : ℕ → Locals → Session → Locals × Session
    unfolding write
    resync now l s =
        let l' = record l {
          resync_triggered = true;
          resync_generation = l.resync_generation + 1;
          sync_token = none;
          current_state = syncing;
        } in
        (
          l',
          (write
              (updates (record {
                state = syncing;
                sync_token = none;
                resync_generation = some (l.resync_generation + 1);
                clear_lock = false;
                clear_sync_token = true;
              }))
              now s).0,
        )

    -- The second call of the provider; whatever it raises, an operator has to act.
    abbrev pub second_fetch : Round → Fetch → Locals → Session → Next
    second_fetch round (got p) l s = page p l s
    second_fetch round (raised err) l s =
        return (stop_in auth_required (fetch_failed err) round.now l s)

    -- `except AuthExpiredError`: the token is refreshed once, and the page is asked for once more.
    unfoldable pub on_auth_expired : Round → Raised → Locals → Session → Next
    on_auth_expired round err l s =
        if not l.refresh_attempted && call.has_auth_service
        then (let s' = record s { in_transaction = round.refresh.leaves_transaction } in
            let l' = record l { refresh_attempted = true } in
            if round.refresh.succeeds
            then second_fetch round round.second_answer l' s'
            else return (stop_in auth_required token_refresh_failed round.now l' s'))
        else return (stop_in auth_required (fetch_failed err) round.now l s)

    -- The `except` clauses of the fetch, in their order.
    unfoldable pub on_error : Round → Raised → Locals → Session → Next
    unfolding on_auth_expired
    on_error round err l s =
        if is_auth_expired err.kind
        then on_auth_expired round err l s
        else if is_denied err.kind
        then return (stop_in error (fetch_failed err) round.now l s)
        else if is_rate_limited err.kind
        then return (give_up (fetch_failed err) (some (retry_or 30 err.retry_after)) round.now l s)
        else if is_provider_error err.kind
        then (if is_server_error err.status_code
            then return
                (give_up (fetch_failed err) (some (retry_or 5 err.retry_after)) round.now l s)
            else return (fail (fetch_failed err) l s))
        else if is_cursor_expired err.kind
        then (let (l', s') = resync round.now l s in again l' s')
        else return (fail (fetch_failed err) l s)

    abbrev pub answered : Round → Fetch → Locals → Session → Next
    answered round (got p) l s = page p l s
    answered round (raised err) l s = on_error round err l s

    -- 3b. The call of the provider.
    unfoldable pub fetch : Round → Locals → Session → Next
    unfolding on_error meanwhile
    fetch round l s = answered round round.answer l (meanwhile round.others s)

    -- 3a. The lease is renewed before the call.
    unfoldable pub renew_and_fetch : Round → Locals → Session → Next
    unfolding write commit_all fetch
    renew_and_fetch round l s =
        let (s', renewed) = write (renews call.lease_duration) round.now s in
        if renewed
        then fetch round l (commit_all s')
        else return (commit_all s', result_of l l.current_state (some lease_lost) none)

    module _ (folder : Folder) where
      abbrev pub scope_of : Round → Locals → Scope
      scope_of round l = record {
        tenant_id = folder.tenant_id;
        mail_account_id = folder.mail_account_id;
        folder_id = call.mail_folder_id;
        resync_generation = l.resync_generation;
        now = round.now;
      }

      module _ (continue : Locals → Session → Session × SyncResult) where
        -- After the transaction of the page.
        abbrev pub after_page : DeltaPage → Locals → Option Store → Session → Session × SyncResult
        after_page p l none s = fail page_failed l s
        after_page p l (some _) s = if is_complete p then succeed l s else continue l s

        -- 3c. The page in its transaction.
        unfoldable pub apply_page : Round → DeltaPage → Locals → Session → Session × SyncResult
        unfolding end_block succeed fail
        apply_page round p l s =
            let (l', after) =
              process_page (scope_of round l) lease.sync_state_id call.worker_id lease.lease_version
                call.lease_duration p l s.seen in
            after_page p l' after (end_block after s)

        -- A continuation that was seen before ends the loop.
        unfoldable pub take_page : Round → DeltaPage → Locals → Session → Session × SyncResult
        unfolding give_up apply_page contains
        take_page round p l s =
            if p.has_more && truthy p.next_continuation
            then (if is_repeated p.next_continuation l.sync_token l.seen_tokens
                then give_up loop_detected none round.now l s
                else apply_page round p
                    (record l { seen_tokens = remember p.next_continuation l.seen_tokens }) s)
            else apply_page round p l s

        abbrev pub go_on : Round → Next → Session × SyncResult
        go_on round (page p l s) = take_page round p l s
        go_on round (again l s) = continue l s
        go_on round (return r) = r

        unfoldable pub pass : Round → Locals → Session → Session × SyncResult
        pass round l s = go_on round (renew_and_fetch round l s)

      -- 3. The main loop, with the passes that are left.
      unfoldable pub loop : ℕ → Locals → Session → Session × SyncResult
      loop zero l s = give_up max_pagination_depth none call.ended_at l s
      loop (suc left) l s = pass (loop left) (call.rounds left) l s

  -- The state of a folder that has none.
  abbrev pub new_sync_state : Folder → SyncState
  new_sync_state folder = record {
    id = call.new_id;
    tenant_id = folder.tenant_id;
    mail_folder_id = call.mail_folder_id;
    state = pending_initial_sync;
    sync_token = none;
    resync_generation = 1;
    locked_by = none;
    locked_until = none;
    lease_version = 1;
    updated_at = call.started_at;
  }

  -- 2. The lease is acquired, and the loop runs.
  unfoldable pub acquire_and_loop : Folder → SyncState → Session → Session × SyncResult
  unfolding run_statement commit_all
  acquire_and_loop folder state s =
      let (rows, acquired) =
        acquire_sync_lease state.id call.worker_id call.started_at call.lease_duration
          s.seen.sync_states in
      let s' = run_statement (record s.seen { sync_states = rows }) s in
      elim acquired [
        | none ↦ (s', refused state.state lease_acquisition_failed)
        | some v ↦
            loop (record { sync_state_id = state.id; lease_version = v }) folder max_pages_per_sync
              (locals_of state) (commit_all s')
      ]

  -- 1. The folder and its state, which is created if it is missing.
  unfoldable pub start_folder : Folder → Session → Session × SyncResult
  unfolding run_statement state_of_folder
  start_folder folder s = elim (state_of_folder call.mail_folder_id s.seen) [
    | some state ↦ acquire_and_loop folder state s
    | none ↦
        let state = new_sync_state folder in
        acquire_and_loop folder state
          (run_statement (record s.seen { sync_states = s.seen.sync_states ++ state ∷ [] }) s)
  ]

  unfoldable pub sync_folder : Session → Session × SyncResult
  unfolding run_statement
  sync_folder s =
      let s' = run_statement s.seen s in
      elim (get folder_key call.mail_folder_id s.seen.folders) [
        | none ↦ (s', refused error folder_not_found)
        | some folder ↦ start_folder folder s'
      ]
