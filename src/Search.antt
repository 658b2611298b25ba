-- ===== src/Search.antt =====
-- Searching mail: the requests of apps/api/app/api/search/schemas.py, the filters of an Elasticsearch
-- query, and `ElasticsearchSearchAdapter.search` (apps/api/app/search/elasticsearch_search.py).
pub mod Clauses
pub mod Service
pub mod Allowed
pub mod Isolated
pub mod Plan
pub mod Dates
pub mod Ranges
pub mod NaturalLanguage
pub mod Dispatch
pub mod Scoped
use outlook_dictionary.Common.{
  ℕ, Bool, true, false, not, ◌&&◌, ◌||◌, Option, none, some, List, [], ◌∷◌, if◌then◌else◌, ◌==◌,
  leb,
}
use outlook_dictionary.Mail.{ParticipantRole}
use outlook_dictionary.Text.{Text}
use outlook_dictionary.Worker.Process.{Document}
use outlook_dictionary.Gateway.Synthesis.{is_listed}

pub data SearchMode : Type 0 where
  lexical semantic hybrid : SearchMode

-- `MailSearchRequest`
pub record MailSearchRequest : Type 0 where
  pub query : Option Text
  pub folder_ids : Option (List ℕ)
  pub account_ids : Option (List ℕ)
  pub is_read : Option Bool
  pub has_attachments : Option Bool
  pub from_date : Option ℕ
  pub from_sender_emails : Option (List Text)
  pub participant_emails : Option (List Text)
  pub to_date : Option ℕ
  pub search_after : Option (List ℕ)
  pub page_size : ℕ
  pub search_mode : SearchMode

-- The clauses of `must_filters`: term, terms and range, each on its field.
pub data Filter : Type 0 where
  term_tenant_id : ℕ → Filter
  term_is_deleted term_is_read term_has_attachments : Bool → Filter
  terms_mail_account_id terms_folder_ids : List ℕ → Filter
  terms_sender_email terms_participants_email : List Text → Filter
  range_received_date_time : (gte lte : Option ℕ) → Filter

-- The `knn` clause.
pub record Knn : Type 0 where
  pub query_vector : List ℕ
  pub k : ℕ
  pub num_candidates : ℕ
  pub filters : List Filter

-- The body of the request: the filters of the bool query, its multi_match text, the size, the knn
-- clause, whether the score sorts first, and the cursor.
pub record SearchBody : Type 0 where
  pub filters : List Filter
  pub multi_match : Option Text
  pub size : ℕ
  pub knn : Option Knn
  pub sorts_by_score : Bool
  pub search_after : Option (List ℕ)

-- A hit of the response, its `_source` being a document that the outbox worker has written.
pub record EsHit : Type 0 where
  pub source : Document
  pub sort : List ℕ

-- How the HTTP request ends: a response with its status and, at 200, its hits; a timeout or network
-- error; any other exception.
pub data SearchReply : Type 0 where
  replied : (status : ℕ) → List EsHit → SearchReply
  search_network_error search_exception : SearchReply

-- How `search` ends: hits, `SearchInvalidQueryError`, `SearchServiceUnavailableError`, or another
-- exception.
pub data Searched : Type 0 where
  hits : List EsHit → Searched
  invalid_query unavailable search_failed : Searched

unfoldable pub search : SearchReply → Searched
search (replied status es_hits) =
    if status == 200
    then hits es_hits
    else if status == 404
    then hits []
    else if status == 400
    then invalid_query
    else unavailable
search search_network_error = unavailable
search search_exception = search_failed
