-- ===== src/Worker/Elastic.antt =====
-- The Elasticsearch clients: `ElasticsearchMailAdapter.index_message` (es_adapter.py) and
-- `ElasticsearchIndexProvisioner.ensure_index` (es_provisioning.py), on what the HTTP client returns.
use outlook_dictionary.Common.{
  ℕ, Bool, true, false, ◌&&◌, ◌||◌, Option, none, List, [], ◌∷◌, if◌then◌else◌, ◌==◌,
}
use outlook_dictionary.Text.{Text, codes, lower, contains, is_empty}

-- How a request ends: a response with its status, its text and the number of its Retry-After
-- header, if it has one that `float` accepts; a timeout or network error; any other exception.
pub data Answer : Type 0 where
  response : (status : ℕ) (body : Text) (retry_after : Option ℕ) → Answer
  network_error : Answer
  other_exception : Answer

-- How `index_message` ends: an `IndexResult`, or one of the exceptions that the worker tells apart.
pub data Indexing : Type 0 where
  result : (success is_conflict : Bool) (status : ℕ) → Indexing
  permanent : Indexing
  retryable : (retry_after : Option ℕ) → Indexing
  unclassified : Indexing

-- `status in (500, 502, 503, 504, 429)`
unfoldable pub is_transient : ℕ → Bool
is_transient s = s == 500 || s == 502 || s == 503 || s == 504 || s == 429

-- The test on the text of a 409.
unfoldable pub is_version_conflict : Text → Bool
is_version_conflict body =
    contains (codes "version_conflict_engine_exception") (lower body)
    || contains (codes "version conflict") (lower body)
    || contains (codes "version") (lower body)
    || is_empty (lower body)

-- `index_message`
unfoldable pub index_message : Answer → Indexing
index_message (response status body retry_after) =
    if status == 200 || status == 201
    then result true false status
    else if status == 409
    then (if is_version_conflict body then result true true 409 else permanent)
    else if is_transient status
    then retryable retry_after
    else permanent
index_message network_error = retryable none
index_message other_exception = unclassified

-- How `update_embeddings` ends: its Boolean, or one of the exceptions that are told apart.
pub data Updating : Type 0 where
  updated : Bool → Updating
  update_permanent : Updating
  update_retryable : (retry_after : Option ℕ) → Updating
  update_unclassified : Updating

-- `update_embeddings`
unfoldable pub update_embeddings : Answer → Updating
unfolding is_transient
update_embeddings (response status body retry_after) =
    if status == 200 || status == 201
    then updated true
    else if status == 404
    then updated false
    else if status == 409
    then updated false
    else if is_transient status
    then update_retryable retry_after
    else update_permanent
update_embeddings network_error = update_retryable none
update_embeddings other_exception = update_unclassified

-- How `ensure_index` ends: it returns, or raises `ElasticsearchProvisioningError`, or another error.
pub data Provision : Type 0 where
  ensured : Provision
  refused : (retryable_status : Bool) → Provision
  failed : Provision

abbrev pub member : ℕ → List ℕ → Bool
member a [] = false
member a (x ∷ xs) = a == x || member a xs

-- The PUT of `ensure_index`, with the tenants whose index is known to exist.
unfoldable pub create_index : ℕ → Answer → List ℕ → Provision × List ℕ
create_index tenant (response status body _) known =
    if status == 200 || status == 201
    then (ensured, tenant ∷ known)
    else if status == 400 && contains (codes "resource_already_exists_exception") body
    then (ensured, tenant ∷ known)
    else (refused (is_transient status), known)
create_index tenant network_error known = (failed, known)
create_index tenant other_exception known = (failed, known)

-- `ensure_index` without `force`: the cache, then HEAD, then PUT.
unfoldable pub ensure_index : ℕ → (probe put : Answer) → List ℕ → Provision × List ℕ
unfolding create_index
ensure_index tenant (response status _ _) put known =
    if member tenant known
    then (ensured, known)
    else if status == 200
    then (ensured, tenant ∷ known)
    else create_index tenant put known
ensure_index tenant network_error put known =
    if member tenant known then (ensured, known) else (failed, known)
ensure_index tenant other_exception put known =
    if member tenant known then (ensured, known) else (failed, known)
