-- ===== src/Search/Dispatch.antt =====
-- The request that `search_natural_language` builds from a plan, and its dispatch
-- (apps/api/app/search/nl_service.py).
use outlook_dictionary.Common.{
  ℕ, Bool, ◌||◌, Option, none, some, List, [], ◌∷◌, if◌then◌else◌, is_some,
}
use outlook_dictionary.Text.{Text}
use outlook_dictionary.Gateway.Synthesis.{SearchSynthesis}
use outlook_dictionary.Search.{SearchMode, MailSearchRequest}
use outlook_dictionary.Search.Service.{
  SearchItem, SearchOutcome, response_of, rejected_query, service_unavailable, other_failure,
  search_mail,
}
use outlook_dictionary.Search.Plan.{
  MailQueryPlan, ParticipantHint, Understanding, understood, understand_query,
}
use outlook_dictionary.Search.NaturalLanguage.{
  NaturalWorld, NamedTables, NaturalQuery, NaturalOutcome, natural_response, natural_error,
  not_understood, search_raised, unsupported_query_capability, Resolved, resolved, refused,
  and_then, resolve_named, account_candidates, folder_candidates, resolve_sender,
  resolve_participants, resolve_dates, from_of, to_of, mode_of, query_or_none, validate_request,
}

-- What is resolved before the request is built.
pub record Entities : Type 0 where
  pub account_ids : Option (List ℕ)
  pub folder_ids : Option (List ℕ)
  pub from_sender_emails : Option (List Text)
  pub participant_emails : Option (List Text)
  pub dates : Option (ℕ × ℕ)

-- `has_any_filter`; a list that is resolved is never empty.
abbrev pub has_any_filter : MailQueryPlan → Entities → Bool
has_any_filter plan e =
    is_some e.account_ids
    || (is_some e.folder_ids
        || (is_some e.from_sender_emails
            || (is_some e.participant_emails
                || (is_some plan.is_read || (is_some plan.has_attachments || is_some e.dates)))))

abbrev pub request_of : NaturalQuery → MailQueryPlan → Entities → SearchMode → MailSearchRequest
request_of q plan e mode = record {
  query = query_or_none plan.query;
  folder_ids = e.folder_ids;
  account_ids = e.account_ids;
  is_read = plan.is_read;
  has_attachments = plan.has_attachments;
  from_date = from_of e.dates;
  from_sender_emails = e.from_sender_emails;
  participant_emails = e.participant_emails;
  to_date = to_of e.dates;
  search_after = q.search_after;
  page_size = q.page_size;
  search_mode = mode;
}

module _ (world : NaturalWorld) (tables : NamedTables) (q : NaturalQuery) where
  -- The entities, in the order in which they are resolved.
  unfoldable pub resolve_entities : MailQueryPlan → Resolved Entities
  unfolding account_candidates folder_candidates
  resolve_entities plan =
      and_then (resolve_named (account_candidates world tables q.tenant_id) plan.account)
        (λ accounts.
          and_then (resolve_named (folder_candidates world tables q.tenant_id) plan.folder)
            (λ folders. and_then (resolve_sender world tables q.tenant_id plan.sender) (λ senders.
              and_then (resolve_participants world tables q.tenant_id plan.participants)
                (λ participants.
                  and_then (resolve_dates world q.user_timezone plan.date_range) (λ dates.
                    resolved (record {
                      account_ids = accounts;
                      folder_ids = folders;
                      from_sender_emails = senders;
                      participant_emails = participants;
                      dates = dates;
                    }))))))

  abbrev pub checked_recipients : List ParticipantHint → Resolved (Unit {0})
  checked_recipients [] = resolved tt
  checked_recipients (_ ∷ _) = refused unsupported_query_capability

  -- The `MailSearchRequest` of a plan.
  unfoldable pub build_request : MailQueryPlan → Resolved MailSearchRequest
  unfolding resolve_entities mode_of
  build_request plan = and_then (checked_recipients plan.recipients) (λ _.
      and_then (resolve_entities plan) (λ e.
        and_then (mode_of plan (has_any_filter plan e))
          (λ mode. validate_request (request_of q plan e mode))))

  -- The synthesis, if it is asked for; an exception of the provider is swallowed.
  abbrev pub synthesis_of :
      Option (Text → List SearchItem → Option SearchSynthesis)
      → List SearchItem
      → Option SearchSynthesis
  synthesis_of none items = none
  synthesis_of (some provider) [] = none
  synthesis_of (some provider) (i ∷ items) =
      if q.synthesize then provider q.natural_query (i ∷ items) else none

  unfoldable pub finish_search : SearchOutcome → NaturalOutcome
  finish_search (response_of items cursor) =
      natural_response items cursor (synthesis_of world.synthesis_provider items)
  finish_search rejected_query = search_raised rejected_query
  finish_search service_unavailable = search_raised service_unavailable
  finish_search other_failure = search_raised other_failure

  abbrev pub dispatch_request : Resolved MailSearchRequest → NaturalOutcome
  dispatch_request (refused e) = natural_error e
  dispatch_request (resolved r) = finish_search (search_mail world.searches q.tenant_id r)

  abbrev pub dispatch_plan : Understanding → NaturalOutcome
  dispatch_plan (understood plan) = dispatch_request (build_request plan)
  dispatch_plan u = not_understood u

  -- `search_natural_language`
  unfoldable pub search_natural_language : NaturalOutcome
  unfolding build_request finish_search search_mail understand_query
  search_natural_language = dispatch_plan (understand_query world.plans q.natural_query)
