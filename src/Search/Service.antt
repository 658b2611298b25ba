-- ===== src/Search/Service.antt =====
-- `SearchService.search_mail` (apps/api/app/search/service.py).
use outlook_dictionary.Common.{
  ℕ, ◌*◌, Bool, true, false, not, ◌&&◌, ◌||◌, Option, none, some, List, [], ◌∷◌, ◌++◌, map,
  if◌then◌else◌, ◌==◌, length, leb, is_none,
}
use outlook_dictionary.Mail.{ParticipantRole, Sender, canonical, graph_shape, plain, other_json}
use outlook_dictionary.Text.{Text, strip, is_empty}
use outlook_dictionary.Worker.Process.{Document}
use outlook_dictionary.Gateway.Synthesis.{SearchSender}
use outlook_dictionary.Search.{
  SearchMode, lexical, semantic, hybrid, MailSearchRequest, Filter, term_tenant_id, term_is_deleted,
  term_is_read, term_has_attachments, terms_mail_account_id, terms_folder_ids, terms_sender_email,
  terms_participants_email, range_received_date_time, Knn, SearchBody, EsHit, SearchReply, Searched,
  hits, invalid_query, unavailable, search_failed, search,
}

-- What surrounds a search: Elasticsearch on the index of the tenant; the embedding provider, if there
-- is one, with its vectors, an exception being `none`; and which JSON values are objects.
pub record SearchWorld : Type 0 where
  pub elasticsearch : (tenant_id : ℕ) → SearchBody → SearchReply
  pub embedding_provider : Option (Text → Option (List (List ℕ)))
  pub is_json_object : ℕ → Bool

-- An item of `MailSearchResponse`.
pub record SearchItem : Type 0 where
  pub id : ℕ
  pub mail_account_id : ℕ
  pub subject : Option ℕ
  pub sender : Option SearchSender
  pub sender_email : Option Text
  pub body_preview : Option ℕ
  pub participants : List (Option Text × Text × ParticipantRole)
  pub received_date_time : Option ℕ
  pub folder_ids : List ℕ
  pub is_read : Bool
  pub has_attachments : Bool

-- A `MailSearchResponse`, or one of the exceptions.
pub data SearchOutcome : Type 0 where
  response_of : List SearchItem → (next_page_cursor : Option (List ℕ)) → SearchOutcome
  rejected_query service_unavailable other_failure : SearchOutcome

-- A filter for a list that is given and not empty.
abbrev pub terms_if {ℓ} : {A : Type ℓ} → (List A → Filter) → Option (List A) → List Filter
terms_if f none = []
terms_if f (some []) = []
terms_if f (some (x ∷ xs)) = f (x ∷ xs) ∷ []

abbrev pub term_if : (Bool → Filter) → Option Bool → List Filter
term_if f none = []
term_if f (some b) = f b ∷ []

abbrev pub range_if : Option ℕ → Option ℕ → List Filter
range_if none none = []
range_if (some low) high = range_received_date_time (some low) high ∷ []
range_if none (some high) = range_received_date_time none (some high) ∷ []

-- `must_filters`
unfoldable pub must_filters : (tenant_id : ℕ) → MailSearchRequest → List Filter
must_filters tenant_id r =
    term_tenant_id tenant_id
    ∷ term_is_deleted false
    ∷ (terms_if terms_mail_account_id r.account_ids
        ++ (terms_if terms_folder_ids r.folder_ids
            ++ (terms_if terms_sender_email r.from_sender_emails
                ++ (terms_if terms_participants_email r.participant_emails
                    ++ (term_if term_is_read r.is_read
                        ++ (term_if term_has_attachments r.has_attachments
                            ++ range_if r.from_date r.to_date))))))

-- `query_text`
abbrev pub text_of : Option Text → Text
text_of none = []
text_of (some t) = strip t

abbrev pub is_lexical : SearchMode → Bool
is_lexical lexical = true
is_lexical semantic = false
is_lexical hybrid = false

abbrev pub is_semantic : SearchMode → Bool
is_semantic lexical = false
is_semantic semantic = true
is_semantic hybrid = false

-- The first vector, unless it is empty.
abbrev pub first_vector : Option (List (List ℕ)) → Option (List ℕ)
first_vector none = none
first_vector (some []) = none
first_vector (some ([] ∷ _)) = none
first_vector (some ((x ∷ xs) ∷ _)) = some (x ∷ xs)

module _ (world : SearchWorld) where
  -- `query_vector`
  unfoldable pub query_vector : MailSearchRequest → Option (List ℕ)
  unfolding strip
  query_vector r =
      if is_lexical r.search_mode || is_empty (text_of r.query)
      then none
      else elim world.embedding_provider [
        | none ↦ none
        | some embed ↦ first_vector (embed (text_of r.query))
      ]

  abbrev pub knn_of : List Filter → (page_size : ℕ) → Option (List ℕ) → Option Knn
  knn_of filters page_size none = none
  knn_of filters page_size (some vector) = some (record {
    query_vector = vector;
    k = page_size;
    num_candidates = if leb 100 (page_size * 5) then page_size * 5 else 100;
    filters = filters;
  })

  abbrev pub cursor_of : Option (List ℕ) → Option (List ℕ)
  cursor_of none = none
  cursor_of (some []) = none
  cursor_of (some (x ∷ xs)) = some (x ∷ xs)

  -- `body`
  unfoldable pub search_body : (tenant_id : ℕ) → MailSearchRequest → SearchBody
  unfolding must_filters query_vector strip
  search_body tenant_id r =
      let filters = must_filters tenant_id r in
      let vector = query_vector r in
      let text = text_of r.query in
      record {
        filters = filters;
        multi_match =
            if not (is_empty text) && (not (is_semantic r.search_mode) || is_none vector)
            then some text
            else none;
        size = r.page_size;
        knn = knn_of filters r.page_size vector;
        sorts_by_score = not (is_empty text);
        search_after = cursor_of r.search_after;
      }

  abbrev pub sender_object : Option Sender → Option SearchSender
  sender_object none = none
  sender_object (some (canonical name email)) =
      some (record { name = some name; email = some email })
  sender_object (some (graph_shape _)) = some (record { name = none; email = none })
  sender_object (some (plain _)) = none
  sender_object (some (other_json j)) =
      if world.is_json_object j then some (record { name = none; email = none }) else none

  abbrev pub email_of_object : Option SearchSender → Option Text → Option Text
  email_of_object none other = other
  email_of_object (some s) other = s.email

  -- `sender_email_val`
  abbrev pub sender_email_of : Option Text → Option SearchSender → Option Text
  sender_email_of none object = email_of_object object none
  sender_email_of (some []) object = email_of_object object (some [])
  sender_email_of (some (c ∷ cs)) object = some (c ∷ cs)

  -- `SearchHit` of a source
  unfoldable pub item_of : Document → SearchItem
  item_of d = record {
    id = d.id;
    mail_account_id = d.mail_account_id;
    subject = d.subject;
    sender = sender_object d.sender;
    sender_email = sender_email_of d.sender_email (sender_object d.sender);
    body_preview = d.body_preview;
    participants = d.participants;
    received_date_time = d.received_date_time;
    folder_ids = d.folder_ids;
    is_read = d.is_read;
    has_attachments = d.has_attachments;
  }

  -- `hits_array[-1].get("sort")`
  abbrev pub last_sort : List EsHit → Option (List ℕ)
  last_sort [] = none
  last_sort (h ∷ []) = some h.sort
  last_sort (h ∷ g ∷ rest) = last_sort (g ∷ rest)

  unfoldable pub respond : (page_size : ℕ) → Searched → SearchOutcome
  unfolding item_of
  respond page_size (hits found) =
      response_of (map (λ h. item_of h.source) found)
        (if length found == page_size then last_sort found else none)
  respond page_size invalid_query = rejected_query
  respond page_size unavailable = service_unavailable
  respond page_size search_failed = other_failure

  -- `search_mail`
  unfoldable pub search_mail : (tenant_id : ℕ) → MailSearchRequest → SearchOutcome
  unfolding search_body respond search
  search_mail tenant_id r =
      respond r.page_size (search (world.elasticsearch tenant_id (search_body tenant_id r)))
