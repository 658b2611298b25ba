-- ===== src/Search/NaturalLanguage.antt =====
-- `NaturalLanguageSearchService.search_natural_language` (apps/api/app/search/nl_service.py), with a
-- database session, as the endpoint always gives one.
use outlook_dictionary.Common.{
  ℕ, ◌-◌, Bool, false, not, ◌&&◌, ◌||◌, Option, none, some, List, [], ◌∷◌, map, if◌then◌else◌, ◌==◌,
  length, leb, is_some,
}
use outlook_dictionary.Sql.{select, first}
use outlook_dictionary.Mail.{Message, Participant}
use outlook_dictionary.Text.{Text, codes, strip, lower, normalize, is_empty, text_eq}
use outlook_dictionary.Gateway.Synthesis.{SearchSynthesis, dedup, is_listed}
use outlook_dictionary.Search.{SearchMode, lexical, semantic, hybrid, MailSearchRequest}
use outlook_dictionary.Search.Service.{SearchWorld, SearchItem, SearchOutcome, text_of}
use outlook_dictionary.Search.Plan.{
  ParticipantHint, DateRangeIntent, keyword, semantic_intent, mixed, MailQueryPlan, Understanding,
  PlanWorld,
}
use outlook_dictionary.Search.Dates.{Calendar, Zone, translate_date_range}

-- `MailAccount` and `MailFolder`, as far as names are resolved on them.
pub record NamedAccount : Type 0 where
  pub id : ℕ
  pub tenant_id : ℕ
  pub is_active : Bool
  pub email_address : Text
  pub display_name : Option Text

pub record NamedFolder : Type 0 where
  pub id : ℕ
  pub tenant_id : ℕ
  pub name : Text

pub record NamedTables : Type 0 where
  pub accounts : List NamedAccount
  pub folders : List NamedFolder
  pub participants : List Participant
  pub messages : List Message

-- The exceptions of the service itself, and the two that the libraries raise in it.
pub data NaturalError : Type 0 where
  unsupported_query_capability entity_ambiguity entity_resolution invalid_timezone : NaturalError
  date_overflow invalid_request : NaturalError

pub data Resolved {ℓ} (A : Type ℓ) : Type ℓ where
  resolved : A → Resolved A
  refused : NaturalError → Resolved A

abbrev pub and_then {ℓ κ} : {A : Type ℓ} {B : Type κ} → Resolved A → (A → Resolved B) → Resolved B
and_then (resolved a) f = f a
and_then (refused e) f = refused e

-- What `ZoneInfo` makes of a name.
pub data ZoneAnswer : Type 0 where
  zone_found : Zone → ZoneAnswer
  zone_not_found zone_exception : ZoneAnswer

-- `time_zone offset`: hours east, or west, of UTC; and ILIKE of the database, on '%hint%'.
pub record NaturalWorld : Type 0 where
  pub plans : PlanWorld
  pub searches : SearchWorld
  pub synthesis_provider : Option (Text → List SearchItem → Option SearchSynthesis)
  pub ilike : (hint text : Text) → Bool
  pub calendar : Calendar
  pub utc : Zone
  pub hours_east : ℕ → Zone
  pub hours_west : ℕ → Zone
  pub zone_info : Text → ZoneAnswer
  pub now : ℕ

-- The arguments of the call that are not the plan's.
pub record NaturalQuery : Type 0 where
  pub tenant_id : ℕ
  pub natural_query : Text
  pub user_timezone : Text
  pub page_size : ℕ
  pub search_after : Option (List ℕ)
  pub synthesize : Bool

-- A `NaturalLanguageSearchResponse`, or what is raised.
pub data NaturalOutcome : Type 0 where
  natural_response : List SearchItem → Option (List ℕ) → Option SearchSynthesis → NaturalOutcome
  natural_error : NaturalError → NaturalOutcome
  not_understood : Understanding → NaturalOutcome
  search_raised : SearchOutcome → NaturalOutcome

abbrev upper_char : ℕ → ℕ
upper_char c = if leb 97 c && leb c 122 then c - 32 else c

-- Exactly one candidate.
abbrev pub resolve_one {ℓ} : {A : Type ℓ} → List A → Resolved A
resolve_one [] = refused entity_resolution
resolve_one (x ∷ []) = resolved x
resolve_one (x ∷ y ∷ rest) = refused entity_ambiguity

-- The ids of a hint, if there is one.
abbrev pub resolve_named : (Text → List ℕ) → Option Text → Resolved (Option (List ℕ))
resolve_named candidates hint =
    if is_empty (text_of hint)
    then resolved none
    else and_then (resolve_one (candidates (text_of hint))) (λ id. resolved (some (id ∷ [])))

abbrev pub given_email : Option Text → Text
given_email none = []
given_email (some t) = normalize t

module _ (world : NaturalWorld) (tables : NamedTables) (tenant_id : ℕ) where
  -- ILIKE on a column that may be null.
  abbrev pub matches_name : Text → Option Text → Bool
  matches_name hint none = false
  matches_name hint (some name) = world.ilike hint name

  -- `_resolve_account`
  unfoldable pub account_candidates : Text → List ℕ
  account_candidates hint =
      map (λ a. a.id)
        (select
          (λ a.
            a.tenant_id == tenant_id
            && (a.is_active
                && (world.ilike hint a.email_address || matches_name hint a.display_name)))
          tables.accounts)

  -- `_resolve_folder`
  unfoldable pub folder_candidates : Text → List ℕ
  folder_candidates hint =
      map (λ f. f.id)
        (select (λ f. f.tenant_id == tenant_id && world.ilike hint f.name) tables.folders)

  -- The distinct addresses of the participants of a name, in messages of the tenant.
  unfoldable pub address_candidates : Text → List Text
  unfolding first dedup
  address_candidates hint =
      dedup
        (map (λ p. p.email)
          (select
            (λ p.
              is_some
                (first (λ m. m.id == p.mail_message_id && m.tenant_id == tenant_id) tables.messages)
              && matches_name hint p.name)
            tables.participants))
        []

  -- `_resolve_sender`, and one round of `_resolve_participants`
  unfoldable pub resolve_address : ParticipantHint → Resolved Text
  unfolding address_candidates normalize strip
  resolve_address hint =
      if not (is_empty (given_email hint.email))
      then resolved (given_email hint.email)
      else if is_empty (text_of hint.name)
      then refused entity_resolution
      else and_then (resolve_one (address_candidates (text_of hint.name)))
          (λ email. resolved (lower email))

  abbrev pub resolve_sender : Option ParticipantHint → Resolved (Option (List Text))
  resolve_sender none = resolved none
  resolve_sender (some hint) = and_then (resolve_address hint) (λ a. resolved (some (a ∷ [])))

  -- `_resolve_participants`
  unfoldable pub resolve_addresses : List ParticipantHint → Resolved (List Text)
  unfolding resolve_address
  resolve_addresses [] = resolved []
  resolve_addresses (h ∷ hints) =
      and_then (resolve_address h)
        (λ a. and_then (resolve_addresses hints) (λ rest. resolved (a ∷ rest)))

  abbrev pub resolve_participants : List ParticipantHint → Resolved (Option (List Text))
  resolve_participants [] = resolved none
  resolve_participants (h ∷ hints) =
      and_then (resolve_addresses (h ∷ hints)) (λ emails. resolved (some emails))

-- The zone of a name: the names of UTC, the database of zones, and the fallback for three names.
unfoldable pub resolve_zone : NaturalWorld → Text → Resolved Zone
unfolding is_listed text_eq
resolve_zone world name =
    if is_listed (map upper_char name)
      (codes "UTC" ∷ codes "Z" ∷ codes "GMT" ∷ codes "UTC+0" ∷ codes "UTC-0" ∷ [])
    then resolved world.utc
    else elim (world.zone_info name) [
      | zone_found zone ↦ resolved zone
      | zone_exception ↦ refused invalid_timezone
      | zone_not_found ↦
          if text_eq name (codes "America/Los_Angeles")
          then resolved (world.hours_west 7)
          else if text_eq name (codes "America/New_York")
          then resolved (world.hours_west 4)
          else if text_eq name (codes "Europe/London")
          then resolved (world.hours_east 1)
          else refused invalid_timezone
    ]

abbrev pub dates_or_overflow : Option (ℕ × ℕ) → Resolved (Option (ℕ × ℕ))
dates_or_overflow none = refused date_overflow
dates_or_overflow (some range) = resolved (some range)

-- The dates of the plan, if it has any.
abbrev pub resolve_dates : NaturalWorld → Text → Option DateRangeIntent → Resolved (Option (ℕ × ℕ))
resolve_dates world name none = resolved none
resolve_dates world name (some r) =
    and_then (resolve_zone world name)
      (λ zone. dates_or_overflow (translate_date_range world.calendar zone r world.now))

abbrev pub from_of : Option (ℕ × ℕ) → Option ℕ
from_of none = none
from_of (some (from, to)) = some from

abbrev pub to_of : Option (ℕ × ℕ) → Option ℕ
to_of none = none
to_of (some (from, to)) = some to

abbrev pub raw_text : Option Text → Text
raw_text none = []
raw_text (some t) = t

-- The retrieval intent: the mode, or a plan that cannot be executed.
unfoldable pub mode_of : MailQueryPlan → (has_any_filter : Bool) → Resolved SearchMode
unfolding strip
mode_of plan has_any_filter = elim plan.retrieval_intent [
  | keyword ↦
      if is_empty (raw_text plan.query) && not has_any_filter
      then refused unsupported_query_capability
      else resolved lexical
  | semantic_intent ↦
      if is_empty (text_of plan.query)
      then refused unsupported_query_capability
      else resolved semantic
  | mixed ↦
      if is_empty (text_of plan.query)
      then refused unsupported_query_capability
      else resolved hybrid
]

abbrev pub query_or_none : Option Text → Option Text
query_or_none none = none
query_or_none (some t) = if is_empty (strip t) then none else some t

abbrev pub length_of {ℓ} : {A : Type ℓ} → Option (List A) → ℕ
length_of none = 0
length_of (some xs) = length xs

-- The limits that `MailSearchRequest` validates and that a plan can exceed.
abbrev pub validate_request : MailSearchRequest → Resolved MailSearchRequest
validate_request r =
    if leb (length_of r.query) 200 && leb (length_of r.participant_emails) 10
    then resolved r
    else refused invalid_request
