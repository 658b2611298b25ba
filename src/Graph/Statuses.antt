-- ===== src/Graph/Statuses.antt =====
-- The HTTP status of the Graph API and the end of the synchronisation of a folder.
use outlook_dictionary.Common.{ℕ, ◌≡◌, ◌||◌, Option, some, if◌then◌else◌, leb, ◌==◌, arith}
use outlook_dictionary.Sync.Lease.{error}
use outlook_dictionary.Folder.{fetch_failed}
use outlook_dictionary.Folder.Page.{Locals}
use outlook_dictionary.Folder.Loop.{
  Call, Lease, Round, Session, Next, return, on_error, on_auth_expired, stop_in, give_up, fail,
  retry_or,
}
use outlook_dictionary.Graph.{raise_for_status}

-- The reaction to each status: 401 leads to a refresh, 403 and 404 need an operator, 429 waits as
-- long as the header says or 30 seconds, a server error waits 5 seconds, and any other status, also
-- 410, ends the synchronisation in the state in which it is.
unfoldable pub by_status : Call → Lease → Round → (code : ℕ) → Option ℕ → Locals → Session → Next
by_status call lease round code retry_after l s =
    let err = raise_for_status code retry_after in
    if code == 401
    then on_auth_expired call lease round err l s
    else if code == 403 || code == 404
    then return (stop_in call lease error (fetch_failed err) round.now l s)
    else if code == 429
    then return
        (give_up call lease (fetch_failed err) (some (retry_or 30 retry_after)) round.now l s)
    else if leb 500 code
    then return (give_up call lease (fetch_failed err) (some 5) round.now l s)
    else return (fail call lease (fetch_failed err) l s)

-- For the first fetch of a pass, which exception clause runs is determined by the status of the
-- response that the adapter raised it for: a refresh and a second fetch at 401, whose own errors are
-- not told apart by their status; an operator at 403 and 404, a wait at 429 and at server errors, and
-- the end of the synchronisation at any other status, also at 410.
pub on_error-by_status :
    (call : Call) (lease : Lease) (round : Round) (code : ℕ) (retry_after : Option ℕ) (l : Locals)
    (s : Session)
    → on_error call lease round (raise_for_status code retry_after) l s
      ≡ by_status call lease round code retry_after l s
unfolding on_error by_status raise_for_status
on_error-by_status call lease round code retry_after l s = ground arith
