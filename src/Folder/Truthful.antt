-- ===== src/Folder/Truthful.antt =====
-- The result of `sync_folder`, on every path through its loop.
use outlook_dictionary.Common.{
  ℕ, zero, suc, ◌≡◌, refl, ap, ◌∙◌, true, false, not, ◌&&◌, Option, none, some, if◌then◌else◌,
  is_some, choose, choose_by, arith,
}
use outlook_dictionary.Transaction.{end_block}
use outlook_dictionary.Sync.Provider.{Scope}
use outlook_dictionary.Sync.Lease.{SyncStateValue, delta_tracking, auth_required, error, renews}
use outlook_dictionary.Folder.{
  Folder, Store, DeltaPage, Raised, Fetch, got, raised, Failure, SyncResult, is_complete,
  is_provider_error, is_auth_expired, is_denied, is_rate_limited, is_cursor_expired, truthy,
  fetch_failed, ErrorClass, provider_error, auth_expired, provider_permission, provider_not_found,
  delta_cursor_expired, provider_rate_limited, other, token_refresh_failed, lease_lost,
  loop_detected, page_failed, max_pagination_depth,
}
use outlook_dictionary.Folder.Page.{Locals, next_state, process_page}
use outlook_dictionary.Folder.Loop.{
  Call, Lease, Session, Round, scope_of, write, give_up, stop_in, fail, succeed, second_fetch,
  on_auth_expired, on_error, answered, fetch, renew_and_fetch, after_page, apply_page, take_page,
  go_on, pass, loop, Next, page, again, return, is_repeated, remember, is_server_error, retry_or,
}
use outlook_dictionary.Folder.Results.{
  IsTruthful, IsCounted, IsPaged, failed-IsTruthful, process_page-IsPaged,
}

-- The cursor error is an error of the provider, and the clause for those comes first.
expired_is_provider : (k : ErrorClass) → is_provider_error k ≡ false → is_cursor_expired k ≡ false
expired_is_provider provider_error e = refl
expired_is_provider auth_expired e = refl
expired_is_provider provider_permission e = refl
expired_is_provider provider_not_found e = refl
expired_is_provider delta_cursor_expired e = cc
expired_is_provider provider_rate_limited e = refl
expired_is_provider other e = refl

abbrev pub Tells : Session × SyncResult → Type 0
Tells (s, r) = IsTruthful r

-- How a pass may go on: never with another pass before a page.
abbrev TellsNext : Next → Type 0
TellsNext (page p l s) = IsCounted l
TellsNext (again l s) = ⊥
TellsNext (return r) = Tells r

module _ (call : Call) (lease : Lease) where
  give_up-Tells :
      (f : Failure) (r : Option ℕ) (now : ℕ) (l : Locals) (s : Session)
      → IsCounted l
      → Tells (give_up call lease f r now l s)
  unfolding give_up
  give_up-Tells f r now l s h = failed-IsTruthful l l.current_state f r h

  stop_in-Tells :
      (state : SyncStateValue) (f : Failure) (now : ℕ) (l : Locals) (s : Session)
      → IsCounted l
      → Tells (stop_in call lease state f now l s)
  unfolding stop_in
  stop_in-Tells state f now l s h = failed-IsTruthful l state f none h

  fail-Tells :
      (f : Failure) (l : Locals) (s : Session) → IsCounted l → Tells (fail call lease f l s)
  unfolding fail
  fail-Tells f l s h = record {
    counts = h.counts;
    finished = λ e. cc;
    waits = λ e. cc;
    no_resync = h.no_resync;
  }

  succeed-Tells :
      (l : Locals) (s : Session)
      → IsCounted l
      → l.current_state ≡ delta_tracking
      → Tells (succeed call lease l s)
  unfolding succeed
  succeed-Tells l s h followed = record {
    counts = h.counts;
    finished = λ e. followed;
    waits = λ e. refl;
    no_resync = h.no_resync;
  }

  on_auth_expired-Tells :
      (round : Round) (err : Raised) (l : Locals) (s : Session)
      → IsCounted l
      → TellsNext (on_auth_expired call lease round err l s)
  unfolding on_auth_expired
  on_auth_expired-Tells round err l s h =
      choose TellsNext (not l.refresh_attempted && call.has_auth_service) _ _
        (choose TellsNext round.refresh.succeeds _ _ (second round.second_answer)
          (stop_in-Tells auth_required token_refresh_failed round.now l' s' h'))
        (stop_in-Tells auth_required (fetch_failed err) round.now l s h)
    where
      s' : Session
      s' = record s { in_transaction = round.refresh.leaves_transaction }

      l' : Locals
      l' = record l { refresh_attempted = true }

      h' : IsCounted l'
      h' = record { counts = h.counts; no_resync = h.no_resync }

      second : (f : Fetch) → TellsNext (second_fetch call lease round f l' s')
      second (got p) = h'
      second (raised e) = stop_in-Tells auth_required (fetch_failed e) round.now l' s' h'

  on_error-Tells :
      (round : Round) (err : Raised) (l : Locals) (s : Session)
      → IsCounted l
      → TellsNext (on_error call lease round err l s)
  unfolding on_error
  on_error-Tells round err l s h =
      choose TellsNext (is_auth_expired err.kind) _ _ (on_auth_expired-Tells round err l s h) (
        choose TellsNext (is_denied err.kind) _ _
          (stop_in-Tells error (fetch_failed err) round.now l s h)
          (choose TellsNext (is_rate_limited err.kind) _ _
            (give_up-Tells (fetch_failed err) (some (retry_or 30 err.retry_after)) round.now l s h)
            (choose_by TellsNext (is_provider_error err.kind) _ _
              (λ _.
                choose TellsNext (is_server_error err.status_code) _ _
                  (give_up-Tells (fetch_failed err) (some (retry_or 5 err.retry_after)) round.now l
                    s h)
                  (fail-Tells (fetch_failed err) l s h))
              (λ foreign.
                choose_by TellsNext (is_cursor_expired err.kind) _ _
                  (λ expired.
                    absurd (ground (arith, expired_is_provider err.kind foreign, expired)))
                  (λ _. fail-Tells (fetch_failed err) l s h)))))

  renew_and_fetch-Tells :
      (round : Round) (l : Locals) (s : Session)
      → IsCounted l
      → TellsNext (renew_and_fetch call lease round l s)
  unfolding renew_and_fetch fetch
  renew_and_fetch-Tells round l s h =
      choose TellsNext (write call lease (renews call.lease_duration) round.now s).1 _ _
        (tells round.answer _) (failed-IsTruthful l l.current_state lease_lost none h)
    where
      tells : (f : Fetch) (s' : Session) → TellsNext (answered call lease round f l s')
      tells (got p) s' = h
      tells (raised err) s' = on_error-Tells round err l s' h

  module _ (folder : Folder) where
    module _ (continue : Locals → Session → Session × SyncResult)
        (continues : (l : Locals) (s : Session) → IsCounted l → Tells (continue l s)) where
      apply_page-Tells :
          (round : Round) (p : DeltaPage) (l : Locals) (s : Session)
          → IsCounted l
          → Tells (apply_page call lease folder continue round p l s)
      unfolding apply_page next_state
      apply_page-Tells round p l s h = tells done.1 (end_block done.1 s) paged.stored
        where
          scope : Scope
          scope = scope_of call lease folder round l

          done : Locals × Option Store
          done =
              process_page scope lease.sync_state_id call.worker_id lease.lease_version
                call.lease_duration p l s.seen

          paged : IsPaged p done
          paged =
              process_page-IsPaged scope lease.sync_state_id call.worker_id lease.lease_version
                call.lease_duration p l s.seen h

          tells :
              (o : Option Store) (s' : Session)
              → (is_some o ≡ true → done.0.current_state ≡ next_state p)
              → Tells (after_page call lease folder continue p done.0 o s')
          tells none s' stored = fail-Tells page_failed done.0 s' paged.counted
          tells (some st') s' stored =
              choose_by Tells (is_complete p) _ _
                (λ complete. succeed-Tells done.0 s' paged.counted (
                  stored refl
                  ∙ ap (λ b. if b then delta_tracking else SyncStateValue.syncing) complete))
                (λ _. continues done.0 s' paged.counted)

      take_page-Tells :
          (round : Round) (p : DeltaPage) (l : Locals) (s : Session)
          → IsCounted l
          → Tells (take_page call lease folder continue round p l s)
      unfolding take_page
      take_page-Tells round p l s h =
          choose Tells (p.has_more && truthy p.next_continuation) _ _
            (choose Tells (is_repeated p.next_continuation l.sync_token l.seen_tokens) _ _
              (give_up-Tells loop_detected none round.now l s h)
              (apply_page-Tells round p
                (record l { seen_tokens = remember p.next_continuation l.seen_tokens }) s
                (record { counts = h.counts; no_resync = h.no_resync })))
            (apply_page-Tells round p l s h)

      pass-Tells :
          (round : Round) (l : Locals) (s : Session)
          → IsCounted l
          → Tells (pass call lease folder continue round l s)
      unfolding pass
      pass-Tells round l s h =
          tells (renew_and_fetch call lease round l s) (renew_and_fetch-Tells round l s h)
        where
          tells :
              (next : Next) → TellsNext next → Tells (go_on call lease folder continue round next)
          tells (page p l s) h = take_page-Tells round p l s h
          tells (again l s) h = absurd h
          tells (return r) h = h

    pub loop-Tells :
        (left : ℕ) (l : Locals) (s : Session)
        → IsCounted l
        → Tells (loop call lease folder left l s)
    unfolding loop
    loop-Tells zero l s h = give_up-Tells max_pagination_depth none call.ended_at l s h
    loop-Tells (suc left) l s h =
        pass-Tells (loop call lease folder left) (loop-Tells left) (call.rounds left) l s h
