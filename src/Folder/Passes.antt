-- ===== src/Folder/Passes.antt =====
-- The passes of the loop: every call of the loop ends within the moves, and in a property `P` of
-- the session that every return establishes.
use outlook_dictionary.Common.{
  ℕ, zero, suc, ◌≡◌, true, false, not, ◌&&◌, Option, none, some, choose, choose_by,
}
use outlook_dictionary.Transaction.{run_statement, commit_all, meanwhile}
use outlook_dictionary.Sync.Lease.{
  SyncStateValue, Write, renews, updates, releases, auth_required, error,
}
use outlook_dictionary.Folder.{
  Folder, Store, DeltaPage, Raised, Fetch, got, raised, Failure, SyncResult, is_complete,
  is_provider_error, is_auth_expired, is_denied, is_rate_limited, is_cursor_expired, truthy,
  fetch_failed, token_refresh_failed, page_failed, loop_detected, max_pagination_depth,
}
use outlook_dictionary.Folder.Page.{Locals, process_page}
use outlook_dictionary.Folder.Loop.{
  Call, Lease, Session, Round, scope_of, write, write_and_commit, give_up, stop_in, fail, succeed,
  resync, second_fetch, on_auth_expired, on_error, answered, fetch, renew_and_fetch, after_page,
  apply_page, take_page, go_on, pass, loop, Next, page, again, return, is_repeated, is_server_error,
  retry_or,
}
use outlook_dictionary.Folder.Moves.{
  Within, write-Within, commit_all-Within, meanwhile-Within, end_block-Within, applies,
}

-- What a return that clears the lock writes.
abbrev pub stops : SyncStateValue → Write
stops state = updates (record {
  state = state;
  sync_token = none;
  resync_generation = none;
  clear_lock = true;
  clear_sync_token = false;
})

module _ (call : Call) (lease : Lease) (start : Store) (P : Session → Type 0)
    (released : (now : ℕ) (s : Session) → P (write_and_commit call lease releases now s))
    (stopped : (state : SyncStateValue) (now : ℕ) (s : Session)
      → P (write_and_commit call lease (stops state) now s))
    (lost : (now : ℕ) (s : Session)
      → Within call lease start s
      → (write call lease (renews call.lease_duration) now s).1 ≡ false
      → P (commit_all (write call lease (renews call.lease_duration) now s).0))
    (stuck : call.release_raises ≡ true → (s : Session) → P (run_statement s.seen s)) where
  abbrev pub Ends : Session × SyncResult → Type 0
  Ends (s, _) = Within call lease start s × P s

  abbrev GoesOn : Next → Type 0
  GoesOn (page p l s) = Within call lease start s
  GoesOn (again l s) = Within call lease start s
  GoesOn (return r) = Ends r

  write_and_commit-Within :
      (w : Write) (now : ℕ) (s : Session)
      → Within call lease start s
      → Within call lease start (write_and_commit call lease w now s)
  unfolding write_and_commit
  write_and_commit-Within w now s h =
      commit_all-Within call lease start _ (write-Within call lease start w now s h)

  give_up-Ends :
      (f : Failure) (r : Option ℕ) (now : ℕ) (l : Locals) (s : Session)
      → Within call lease start s
      → Ends (give_up call lease f r now l s)
  unfolding give_up
  give_up-Ends f r now l s h = (write_and_commit-Within releases now s h, released now s)

  stop_in-Ends :
      (state : SyncStateValue) (f : Failure) (now : ℕ) (l : Locals) (s : Session)
      → Within call lease start s
      → Ends (stop_in call lease state f now l s)
  unfolding stop_in
  stop_in-Ends state f now l s h =
      (write_and_commit-Within (stops state) now s h, stopped state now s)

  fail-Ends :
      (f : Failure) (l : Locals) (s : Session)
      → Within call lease start s
      → Ends (fail call lease f l s)
  unfolding fail run_statement
  fail-Ends f l s h =
      choose_by (λ s'. Within call lease start s' × P s') call.release_raises _ _
        (λ raises. (record { seen = h.seen; durable = h.durable }, stuck raises s))
        (λ _. (write_and_commit-Within releases call.ended_at s h, released call.ended_at s))

  succeed-Ends :
      (l : Locals) (s : Session) → Within call lease start s → Ends (succeed call lease l s)
  unfolding succeed
  succeed-Ends l s h =
      (write_and_commit-Within releases call.ended_at s h, released call.ended_at s)

  on_auth_expired-GoesOn :
      (round : Round) (err : Raised) (l : Locals) (s : Session)
      → Within call lease start s
      → GoesOn (on_auth_expired call lease round err l s)
  unfolding on_auth_expired
  on_auth_expired-GoesOn round err l s h =
      choose GoesOn (not l.refresh_attempted && call.has_auth_service) _ _
        (choose GoesOn round.refresh.succeeds _ _ (second round.second_answer)
          (stop_in-Ends auth_required token_refresh_failed round.now _ s' h'))
        (stop_in-Ends auth_required (fetch_failed err) round.now l s h)
    where
      s' : Session
      s' = record s { in_transaction = round.refresh.leaves_transaction }

      h' : Within call lease start s'
      h' = record { seen = h.seen; durable = h.durable }

      l' : Locals
      l' = record l { refresh_attempted = true }

      second : (f : Fetch) → GoesOn (second_fetch call lease round f l' s')
      second (got p) = h'
      second (raised e) = stop_in-Ends auth_required (fetch_failed e) round.now l' s' h'

  on_error-GoesOn :
      (round : Round) (err : Raised) (l : Locals) (s : Session)
      → Within call lease start s
      → GoesOn (on_error call lease round err l s)
  unfolding on_error resync
  on_error-GoesOn round err l s h =
      choose GoesOn (is_auth_expired err.kind) _ _ (on_auth_expired-GoesOn round err l s h) (
        choose GoesOn (is_denied err.kind) _ _
          (stop_in-Ends error (fetch_failed err) round.now l s h)
          (choose GoesOn (is_rate_limited err.kind) _ _
            (give_up-Ends (fetch_failed err) (some (retry_or 30 err.retry_after)) round.now l s h)
            (choose GoesOn (is_provider_error err.kind) _ _
              (choose GoesOn (is_server_error err.status_code) _ _
                (give_up-Ends (fetch_failed err) (some (retry_or 5 err.retry_after)) round.now l s
                  h)
                (fail-Ends (fetch_failed err) l s h))
              (choose GoesOn (is_cursor_expired err.kind) _ _
                (write-Within call lease start _ round.now s h)
                (fail-Ends (fetch_failed err) l s h)))))

  renew_and_fetch-GoesOn :
      (n : ℕ) (l : Locals) (s : Session)
      → Within call lease start s
      → GoesOn (renew_and_fetch call lease (call.rounds n) l s)
  unfolding renew_and_fetch fetch
  renew_and_fetch-GoesOn n l s h =
      choose_by GoesOn (write call lease (renews call.lease_duration) now s).1 _ _
        (λ _. answered-GoesOn (call.rounds n).answer)
        (λ missed. (commit_all-Within call lease start _ after, lost now s h missed))
    where
      now : ℕ
      now = (call.rounds n).now

      s' : Session
      s' = commit_all (write call lease (renews call.lease_duration) now s).0

      after : Within call lease start (write call lease (renews call.lease_duration) now s).0
      after = write-Within call lease start (renews call.lease_duration) now s h

      waited : Within call lease start (meanwhile (call.rounds n).others s')
      waited = meanwhile-Within call lease start n s' (commit_all-Within call lease start _ after)

      answered-GoesOn :
          (f : Fetch)
          → GoesOn (answered call lease (call.rounds n) f l (meanwhile (call.rounds n).others s'))
      answered-GoesOn (got p) = waited
      answered-GoesOn (raised err) = on_error-GoesOn (call.rounds n) err l _ waited

  module _ (folder : Folder) where
    module _ (continue : Locals → Session → Session × SyncResult)
        (continues : (l : Locals) (s : Session)
          → Within call lease start s
          → Ends (continue l s)) where
      apply_page-Ends :
          (n : ℕ) (p : DeltaPage) (l : Locals) (s : Session)
          → Within call lease start s
          → Ends (apply_page call lease folder continue (call.rounds n) p l s)
      unfolding apply_page
      apply_page-Ends n p l s h =
          after_page-Ends done.1
            (end_block-Within call lease start done.1 s (λ st' e. applies folder n p l st' e) h)
        where
          done : Locals × Option Store
          done =
              process_page (scope_of call lease folder (call.rounds n) l) lease.sync_state_id
                call.worker_id lease.lease_version call.lease_duration p l s.seen

          after_page-Ends :
              (o : Option Store) {s' : Session}
              → Within call lease start s'
              → Ends (after_page call lease folder continue p done.0 o s')
          after_page-Ends none h' = fail-Ends page_failed done.0 _ h'
          after_page-Ends (some st') h' =
              choose Ends (is_complete p) _ _ (succeed-Ends done.0 _ h') (continues done.0 _ h')

      take_page-Ends :
          (n : ℕ) (p : DeltaPage) (l : Locals) (s : Session)
          → Within call lease start s
          → Ends (take_page call lease folder continue (call.rounds n) p l s)
      unfolding take_page
      take_page-Ends n p l s h =
          choose Ends (p.has_more && truthy p.next_continuation) _ _
            (choose Ends (is_repeated p.next_continuation l.sync_token l.seen_tokens) _ _
              (give_up-Ends loop_detected none (call.rounds n).now l s h)
              (apply_page-Ends n p _ s h))
            (apply_page-Ends n p l s h)

      pass-Ends :
          (n : ℕ) (l : Locals) (s : Session)
          → Within call lease start s
          → Ends (pass call lease folder continue (call.rounds n) l s)
      unfolding pass
      pass-Ends n l s h =
          go (renew_and_fetch call lease (call.rounds n) l s) (renew_and_fetch-GoesOn n l s h)
        where
          go :
              (next : Next)
              → GoesOn next
              → Ends (go_on call lease folder continue (call.rounds n) next)
          go (page p l s) h = take_page-Ends n p l s h
          go (again l s) h = continues l s h
          go (return r) h = h

    pub loop-Ends :
        (left : ℕ) (l : Locals) (s : Session)
        → Within call lease start s
        → Ends (loop call lease folder left l s)
    unfolding loop
    loop-Ends zero l s h = give_up-Ends max_pagination_depth none call.ended_at l s h
    loop-Ends (suc left) l s h = pass-Ends (loop call lease folder left) (loop-Ends left) left l s h
