-- ===== src/Examples/Searches.antt =====
-- Searches on an index of one document.
use Prim.Native.Nat.{◌%◌}
use outlook_dictionary.Common.{
  ℕ, ◌+◌, ◌-◌, refl, inl, true, false, none, some, [], ◌∷◌, if◌then◌else◌, arith, choose_by,
}
use outlook_dictionary.Text.{codes, strip, lstrip, rstrip, is_space, text_eq}
use outlook_dictionary.Schedule.Polling.{take_rows}
use outlook_dictionary.Worker.Process.{Document}
use outlook_dictionary.Gateway.{LlmConfig, choices, execute_structured_request, classify}
use outlook_dictionary.Gateway.Synthesis.{
  Hit, SearchSynthesis, SynthesisWorld, synthesize, build_context, gather, piece, read_output,
  check_citations, all_listed, is_listed, unique_citations, dedup, count_unique,
}
use outlook_dictionary.Gateway.Grounded.{IsGrounded, synthesize-IsGrounded}
use outlook_dictionary.Search.{MailSearchRequest, lexical, SearchBody, SearchReply, replied}
use outlook_dictionary.Search.Clauses.{matches_all}
use outlook_dictionary.Search.Service.{SearchWorld, search_mail}
use outlook_dictionary.Search.Isolated.{
  AllSelected, HonoursFilters, IsIsolated, search_mail-IsIsolated,
}
use outlook_dictionary.Search.Plan.{
  weekday_of, morning, DateRangeIntent, keyword, MailQueryPlan, validate_date_range,
}
use outlook_dictionary.Search.Dates.{Calendar, Zone, WallClock, local_range}
use outlook_dictionary.Search.Ranges.{IsRange, local_range-IsRange}
use outlook_dictionary.Search.NaturalLanguage.{
  NaturalWorld, NamedTables, NaturalQuery, zone_not_found,
}

abbrev document : Document
document = record {
  id = 1;
  tenant_id = 3;
  mail_account_id = 4;
  provider_message_id = 5;
  version = 1;
  is_deleted = false;
  subject = none;
  body = none;
  body_preview = none;
  sender = none;
  sender_email = none;
  participants = [];
  received_date_time = some 500;
  has_attachments = false;
  is_read = true;
  folder_ids = 6 ∷ [];
}

abbrev index : ℕ → SearchBody → SearchReply
index tenant_id body =
    if matches_all body.filters document
    then replied 200 (record { source = document; sort = 1 ∷ [] } ∷ [])
    else replied 200 []

index-HonoursFilters : HonoursFilters index
index-HonoursFilters tenant_id body =
    choose_by (AllSelected body) (matches_all body.filters document) _ _ (λ e. (inl e, tt))
      (λ _. tt)

abbrev searches : SearchWorld
searches = record { elasticsearch = index; embedding_provider = none; is_json_object = λ j. false }

abbrev request : MailSearchRequest
request = record {
  query = none;
  folder_ids = some (6 ∷ []);
  account_ids = none;
  is_read = some true;
  has_attachments = none;
  from_date = some 400;
  from_sender_emails = none;
  participant_emails = none;
  to_date = none;
  search_after = none;
  page_size = 1;
  search_mode = lexical;
}

search_mail-IsIsolated_example : IsIsolated searches 3 request (search_mail searches 3 request)
search_mail-IsIsolated_example =
    search_mail-IsIsolated searches 3 request index-HonoursFilters (omega arith)

-- Months of thirty days, and years of twelve.
abbrev calendar : Calendar
calendar = record {
  last_day = 3600;
  month_start = λ d. d - d % 30;
  next_month_start = λ d. some (d - d % 30 + 30);
  year_start = λ d. d - d % 360;
  year_end = λ d. d - d % 360 + 359;
}

-- The last Wednesday, in the morning.
abbrev wednesday : DateRangeIntent
wednesday = record { kind = weekday_of; days = none; weekday = some 2; period = some morning }

abbrev now : WallClock
now = record { day = 1000; time = 5 }

local_range-IsRange_example : IsRange calendar wednesday now (local_range calendar wednesday now)
unfolding validate_date_range
local_range-IsRange_example =
    local_range-IsRange calendar wednesday now
      (λ day le. (omega arith, omega arith, omega arith, omega arith)) (omega arith) refl

abbrev config : LlmConfig
config = record {
  is_ollama = false;
  require_structured_output = true;
  supports_response_format = true;
}

abbrev plan : MailQueryPlan
plan = record {
  query = some (codes "bill");
  sender = none;
  participants = [];
  recipients = [];
  folder = none;
  account = some (codes "work");
  is_read = some true;
  has_attachments = none;
  date_range = none;
  retrieval_intent = keyword;
}

abbrev zone : Zone
zone = record { to_local = λ t. now; to_utc = λ w. w.day }

abbrev world : NaturalWorld
world = record {
  plans = record {
    config = config;
    complete = λ query. choices (codes "{}" ∷ []);
    parse = λ text. some plan;
  };
  searches = searches;
  synthesis_provider = none;
  ilike = text_eq;
  calendar = calendar;
  utc = zone;
  hours_east = λ hours. zone;
  hours_west = λ hours. zone;
  zone_info = λ name. zone_not_found;
  now = 1000;
}

abbrev named : NamedTables
named = record {
  accounts =
      record {
        id = 4;
        tenant_id = 3;
        is_active = true;
        email_address = codes "a@b";
        display_name = some (codes "work");
      }
      ∷ [];
  folders = [];
  participants = [];
  messages = [];
}

abbrev query : NaturalQuery
query = record {
  tenant_id = 3;
  natural_query = codes "read mail about a bill at work";
  user_timezone = codes "UTC";
  page_size = 25;
  search_after = none;
  synthesize = false;
}

abbrev hit : Hit
hit = record {
  id = codes "a1";
  subject = some (codes "Bill");
  sender = none;
  body = none;
  body_preview = some (codes "10 EUR");
}

-- The model cites the hit twice.
abbrev model : SynthesisWorld
model = record {
  config = config;
  complete = λ query context. choices (codes "10 EUR" ∷ []);
  validate = λ text. some (record {
    answer = text;
    citations = codes "a1" ∷ codes "a1" ∷ [];
    insufficient_evidence = false;
  });
}

abbrev answer : SearchSynthesis
answer = record {
  answer = codes "10 EUR";
  citations = codes "a1" ∷ [];
  insufficient_evidence = false;
}

synthesize-IsGrounded_example : IsGrounded (hit ∷ []) answer
unfolding synthesize build_context gather piece take_rows read_output check_citations all_listed
    is_listed unique_citations dedup count_unique text_eq execute_structured_request classify strip
    lstrip rstrip is_space
synthesize-IsGrounded_example =
    synthesize-IsGrounded model (codes "How much?") (hit ∷ []) answer refl
