-- ===== src/Gateway/Synthesis.antt =====
-- `GatewaySearchSynthesisProvider.synthesize` (packages/ai/src/mip_ai/synthesis/gateway.py).
use outlook_dictionary.Common.{
  ℕ, suc, ◌+◌, Bool, true, false, not, ◌&&◌, ◌||◌, Option, none, some, List, [], ◌∷◌, ◌++◌,
  if◌then◌else◌, length, ltb,
}
use outlook_dictionary.Text.{Text, codes, strip, is_empty, text_eq}
use outlook_dictionary.Schedule.Polling.{take_rows}
use outlook_dictionary.Gateway.{
  LlmConfig, Completion, GatewayResult, content, gateway_rate_limit, gateway_transient,
  gateway_configuration, gateway_permanent, execute_structured_request,
}

-- `SearchSender`
pub record SearchSender : Type 0 where
  pub name : Option Text
  pub email : Option Text

-- `SearchHit`, as far as the synthesis reads it.
pub record Hit : Type 0 where
  pub id : Text
  pub subject : Option Text
  pub sender : Option SearchSender
  pub body : Option Text
  pub body_preview : Option Text

-- `SearchSynthesis`, the citations as the ids of their messages.
pub record SearchSynthesis : Type 0 where
  pub answer : Text
  pub citations : List Text
  pub insufficient_evidence : Bool

pub data SynthesisResult : Type 0 where
  synthesized : SearchSynthesis → SynthesisResult
  malformed_output synthesis_transient synthesis_configuration synthesis_permanent : SynthesisResult

abbrev pub max_hits : ℕ
max_hits = 15

abbrev pub max_body_chars : ℕ
max_body_chars = 750

abbrev pub max_subject_chars : ℕ
max_subject_chars = 150

abbrev pub max_total_budget : ℕ
max_total_budget = 12000

-- `value or other`
abbrev pub or_else : Option Text → Text → Text
or_else none other = other
or_else (some []) other = other
or_else (some (c ∷ cs)) other = c ∷ cs

-- A text that is longer than the limit is cut, with three dots.
abbrev pub shorten : ℕ → Text → Text
shorten limit t = if ltb limit (length t) then take_rows limit t ++ codes "..." else t

-- A hit without a sender prints as `None`.
abbrev pub sender_of : Option SearchSender → Text
sender_of none = codes "None"
sender_of (some s) = or_else s.email (or_else s.name (codes "Unknown"))

abbrev pub newline : Text
newline = 10 ∷ []

-- `piece`
unfoldable pub piece : Hit → Text
unfolding take_rows
piece h =
    newline
    ++ (codes "--- START EMAIL "
        ++ (h.id
            ++ (codes " ---"
                ++ (newline
                    ++ (codes "Subject: "
                        ++ (shorten max_subject_chars (or_else h.subject [])
                            ++ (newline
                                ++ (codes "Sender: "
                                    ++ (sender_of h.sender
                                        ++ (newline
                                            ++ (codes "Body snippet:"
                                                ++ (newline
                                                    ++ (shorten max_body_chars (
                                                          or_else h.body
                                                            (or_else h.body_preview []))
                                                        ++ (newline
                                                            ++ (codes "--- END EMAIL "
                                                            ++ (h.id
                                                            ++ (codes " ---"
                                                            ++ newline)))))))))))))))))

-- The loop over the selected hits: the context, and the ids that may be cited.
unfoldable pub gather : List Hit → (context : Text) → (ids : List Text) → Text × List Text
gather [] context ids = (context, ids)
gather (h ∷ hits) context ids = elim (ltb max_total_budget (length context + length (piece h))) [
  | true ↦ (context, h.id ∷ ids)
  | false ↦ gather hits (context ++ piece h) (h.id ∷ ids)
]

-- The context of a request, and the ids that may be cited.
unfoldable pub build_context : List Hit → Text × List Text
unfolding gather take_rows
build_context hits = gather (take_rows max_hits hits) [] []

-- `id in ids`
unfoldable pub is_listed : Text → List Text → Bool
unfolding text_eq
is_listed t [] = false
is_listed t (u ∷ us) = text_eq t u || is_listed t us

unfoldable pub all_listed : List Text → List Text → Bool
unfolding is_listed
all_listed [] ids = true
all_listed (c ∷ cs) ids = is_listed c ids && all_listed cs ids

-- The rebuilding of the citations, each once, in their order.
unfoldable pub dedup : List Text → (seen : List Text) → List Text
unfolding is_listed
dedup [] seen = []
dedup (c ∷ cs) seen = elim (is_listed c seen) [
  | true ↦ dedup cs seen
  | false ↦ c ∷ dedup cs (c ∷ seen)
]

-- The number of different citations.
unfoldable pub count_unique : List Text → (seen : List Text) → ℕ
unfolding is_listed
count_unique [] seen = 0
count_unique (c ∷ cs) seen = elim (is_listed c seen) [
  | true ↦ count_unique cs seen
  | false ↦ suc (count_unique cs (c ∷ seen))
]

unfoldable pub unique_citations : List Text → List Text
unfolding dedup count_unique
unique_citations cs = if ltb (count_unique cs []) (length cs) then dedup cs [] else cs

abbrev pub is_none_left : List Text → Bool
is_none_left [] = true
is_none_left (_ ∷ _) = false

-- The checks on an output that has the form of the schema.
unfoldable pub check_citations : List Text → SearchSynthesis → SynthesisResult
unfolding all_listed unique_citations
check_citations ids s =
    let citations = unique_citations s.citations in
    if not (all_listed s.citations ids)
    then malformed_output
    else if not s.insufficient_evidence && is_none_left citations
    then malformed_output
    else synthesized (record s { citations = citations })

-- The network and the schema: what the model completes for a query and its context, and what
-- `model_validate_json` makes of a content.
pub record SynthesisWorld : Type 0 where
  pub config : LlmConfig
  pub complete : (query context : Text) → Completion
  pub validate : Text → Option SearchSynthesis

module _ (world : SynthesisWorld) where
  unfoldable pub read_output : List Text → GatewayResult → SynthesisResult
  unfolding check_citations
  read_output ids (content text) = elim (world.validate text) [
    | none ↦ malformed_output
    | some s ↦ check_citations ids s
  ]
  read_output ids gateway_rate_limit = synthesis_transient
  read_output ids gateway_transient = synthesis_transient
  read_output ids gateway_configuration = synthesis_configuration
  read_output ids gateway_permanent = synthesis_permanent

  abbrev pub synthesize_hits : Text → List Hit → SynthesisResult
  synthesize_hits query [] = malformed_output
  synthesize_hits query (h ∷ hits) =
      let (context, ids) = build_context (h ∷ hits) in
      read_output ids (execute_structured_request world.config (world.complete query context))

  -- `synthesize`
  unfoldable pub synthesize : Text → List Hit → SynthesisResult
  unfolding build_context read_output execute_structured_request strip
  synthesize query hits =
      if is_empty (strip query) then malformed_output else synthesize_hits query hits
