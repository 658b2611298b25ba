-- ===== src/Search/Scoped.antt =====
-- What a natural-language search can return.
use outlook_dictionary.Common.{ℕ, ◌≡◌, ◌⊎◌, true, Option, none, some, List, [], ◌∷◌, map, All}
use outlook_dictionary.Text.{Text, is_empty}
use outlook_dictionary.Search.{MailSearchRequest}
use outlook_dictionary.Search.Service.{item_of, text_of}
use outlook_dictionary.Search.Allowed.{IsAllowed}
use outlook_dictionary.Search.Isolated.{documents_of}
use outlook_dictionary.Search.Plan.{MailQueryPlan, understood, understand_query}
use outlook_dictionary.Search.NaturalLanguage.{
  NaturalWorld, NamedTables, NaturalQuery, NaturalOutcome, natural_response, Resolved, resolved,
  refused, account_candidates, folder_candidates,
}
use outlook_dictionary.Search.Dispatch.{Entities}

-- What holds of a result, if there is one.
abbrev Holds {ℓ} : {A : Type ℓ} → (A → Type 0) → Resolved A → Type 0
Holds P (resolved a) = P a
Holds P (refused e) = Unit

-- No filter for a blank hint; for any other, the id of its only candidate.
abbrev pub IsNamed : (candidates : Text → List ℕ) → (hint : Option Text) → Option (List ℕ) → Type 0
IsNamed candidates hint ids =
    (is_empty (text_of hint) ≡ true) × (ids ≡ none)
    ⊎ (id : ℕ) × (candidates (text_of hint) ≡ id ∷ []) × (ids ≡ some (id ∷ []))

module _ (world : NaturalWorld) (tables : NamedTables) (q : NaturalQuery) where
  -- The request says what the plan says: an account or a folder is the only one of the tenant that
  -- its hint names, and the flags and the page are as given.
  abbrev pub IsRequestOf : MailQueryPlan → MailSearchRequest → Type 0
  IsRequestOf plan r =
      IsNamed (account_candidates world tables q.tenant_id) plan.account r.account_ids
      × IsNamed (folder_candidates world tables q.tenant_id) plan.folder r.folder_ids
      × (r.is_read ≡ plan.is_read)
      × (r.has_attachments ≡ plan.has_attachments)
      × (r.page_size ≡ q.page_size)
      × (plan.recipients ≡ [])

  abbrev AreNamed : MailQueryPlan → Entities → Type 0
  AreNamed plan e =
      IsNamed (account_candidates world tables q.tenant_id) plan.account e.account_ids
      × IsNamed (folder_candidates world tables q.tenant_id) plan.folder e.folder_ids

  -- A response is that of a search for what an understood plan says.
  abbrev pub IsScoped : NaturalOutcome → Type 0
  IsScoped (natural_response items cursor synthesis) =
      (plan : MailQueryPlan) × (r : MailSearchRequest) × (understand_query world.plans
          q.natural_query
        ≡ understood plan)
      × IsRequestOf plan r
      × (items ≡ map (item_of world.searches) (documents_of world.searches q.tenant_id r))
      × All (IsAllowed q.tenant_id r) (documents_of world.searches q.tenant_id r)
  IsScoped _ = Unit
