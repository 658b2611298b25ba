-- ===== src/Search/Plan.antt =====
-- The plan of a natural-language query (packages/models/src/mip_models/search.py), and
-- `GatewayQueryUnderstandingProvider.understand_query`
-- (packages/ai/src/mip_ai/query_understanding/gateway.py).
use outlook_dictionary.Common.{
  ℕ, Bool, true, false, ◌&&◌, Option, none, some, List, if◌then◌else◌, leb, ltb, is_none,
}
use outlook_dictionary.Text.{Text, strip, is_empty}
use outlook_dictionary.Gateway.{
  LlmConfig, Completion, GatewayResult, content, gateway_rate_limit, gateway_transient,
  gateway_configuration, gateway_permanent, execute_structured_request,
}

pub record ParticipantHint : Type 0 where
  pub name : Option Text
  pub email : Option Text

pub data DateKind : Type 0 where
  today yesterday this_week last_week this_month last_month this_year last_year : DateKind
  past_days weekday_of : DateKind

pub data Period : Type 0 where
  full_day morning afternoon evening : Period

-- `DateRangeIntent`; a negative number of days or weekday, which the validation refuses, has no
-- representation here.
pub record DateRangeIntent : Type 0 where
  pub kind : DateKind
  pub days : Option ℕ
  pub weekday : Option ℕ
  pub period : Option Period

abbrev pub is_positive : Option ℕ → Bool
is_positive none = false
is_positive (some n) = ltb 0 n

abbrev pub is_weekday : Option ℕ → Bool
is_weekday none = false
is_weekday (some n) = leb n 6

-- `validate_date_range`
unfoldable pub validate_date_range : DateRangeIntent → Bool
validate_date_range r = elim r.kind [
  | past_days ↦ is_positive r.days && is_none r.weekday
  | weekday_of ↦ is_weekday r.weekday && is_none r.days
  | _ ↦ is_none r.days && is_none r.weekday
]

pub data RetrievalIntent : Type 0 where
  keyword semantic_intent mixed : RetrievalIntent

-- `MailQueryPlan`
pub record MailQueryPlan : Type 0 where
  pub query : Option Text
  pub sender : Option ParticipantHint
  pub participants : List ParticipantHint
  pub recipients : List ParticipantHint
  pub folder : Option Text
  pub account : Option Text
  pub is_read : Option Bool
  pub has_attachments : Option Bool
  pub date_range : Option DateRangeIntent
  pub retrieval_intent : RetrievalIntent

pub data Understanding : Type 0 where
  understood : MailQueryPlan → Understanding
  understanding_rate_limit understanding_transient : Understanding
  understanding_configuration understanding_permanent malformed_plan : Understanding

abbrev pub has_valid_dates : Option DateRangeIntent → Bool
has_valid_dates none = true
has_valid_dates (some r) = validate_date_range r

-- The model's content, and what the schema makes of it before its own validator runs.
pub record PlanWorld : Type 0 where
  pub config : LlmConfig
  pub complete : Text → Completion
  pub parse : Text → Option MailQueryPlan

module _ (world : PlanWorld) where
  unfoldable pub read_plan : GatewayResult → Understanding
  unfolding validate_date_range
  read_plan (content text) = elim (world.parse text) [
    | none ↦ malformed_plan
    | some plan ↦ if has_valid_dates plan.date_range then understood plan else malformed_plan
  ]
  read_plan gateway_rate_limit = understanding_rate_limit
  read_plan gateway_transient = understanding_transient
  read_plan gateway_configuration = understanding_configuration
  read_plan gateway_permanent = understanding_permanent

  -- `understand_query`
  unfoldable pub understand_query : Text → Understanding
  unfolding read_plan execute_structured_request strip
  understand_query query =
      if is_empty (strip query)
      then malformed_plan
      else read_plan (execute_structured_request world.config (world.complete (strip query)))
