-- ===== src/Search/Isolated.antt =====
-- A search returns only messages of its tenant that the request asks for.
use outlook_dictionary.Common.{
  ℕ, ◌≤◌, ◌≡◌, ◌⊎◌, inl, inr, refl, sym, ap, ◌∙◌, true, Option, none, some, List, [], ◌∷◌, map,
  if◌then◌else◌, ◌==◌, length, arith, All, All-map, suc, is_some, choose, Bool-cases,
}
use outlook_dictionary.Worker.Process.{Document}
use outlook_dictionary.Search.{
  MailSearchRequest, Knn, SearchBody, EsHit, SearchReply, replied, search_network_error,
  search_exception, hits, search,
}
use outlook_dictionary.Search.Clauses.{matches_all}
use outlook_dictionary.Search.Service.{
  SearchWorld, SearchOutcome, response_of, must_filters, query_vector, knn_of, search_body, item_of,
  last_sort, respond, search_mail,
}
use outlook_dictionary.Search.Allowed.{IsAllowed, must_filters-IsAllowed}

-- How Elasticsearch comes to return a document: it matches the filters of the query, or is found by
-- the knn clause and matches the filters of that.
abbrev pub KnnSelected : Option Knn → Document → Type 0
KnnSelected none d = ⊥
KnnSelected (some knn) d = matches_all knn.filters d ≡ true

abbrev pub IsSelected : SearchBody → Document → Type 0
IsSelected body d = (matches_all body.filters d ≡ true) ⊎ KnnSelected body.knn d

abbrev pub AllSelected : SearchBody → SearchReply → Type 0
AllSelected body (replied status found) = All (λ h. IsSelected body h.source) found
AllSelected body search_network_error = Unit
AllSelected body search_exception = Unit

-- Elasticsearch returns only documents that the query selects.
abbrev pub HonoursFilters : (ℕ → SearchBody → SearchReply) → Type 0
HonoursFilters elasticsearch =
    (tenant_id : ℕ) (body : SearchBody) → AllSelected body (elasticsearch tenant_id body)

body-IsAllowed :
    (world : SearchWorld) (tenant_id : ℕ) (r : MailSearchRequest) (d : Document)
    → IsSelected (search_body world tenant_id r) d
    → IsAllowed tenant_id r d
unfolding search_body
body-IsAllowed world tenant_id r d (inl h) = must_filters-IsAllowed tenant_id r d h
body-IsAllowed world tenant_id r d (inr h) =
    must_filters-IsAllowed tenant_id r d (go (query_vector world r) h)
  where
    go :
        (vector : Option (List ℕ))
        → KnnSelected (knn_of world (must_filters tenant_id r) r.page_size vector) d
        → matches_all (must_filters tenant_id r) d ≡ true
    go none h = elim h [ ]
    go (some vector) h = h

-- The documents that a reply of Elasticsearch returned.
abbrev pub returned : SearchReply → List Document
returned (replied status found) = if status == 200 then map (λ (h : EsHit). h.source) found else []
returned search_network_error = []
returned search_exception = []

abbrev pub documents_of : SearchWorld → ℕ → MailSearchRequest → List Document
documents_of world tenant_id r =
    returned (world.elasticsearch tenant_id (search_body world tenant_id r))

-- The items are those of the documents that Elasticsearch returned, which are all allowed; there is
-- a cursor exactly if the page is full.
abbrev IsIsolatedFor : SearchWorld → ℕ → MailSearchRequest → List Document → SearchOutcome → Type 0
IsIsolatedFor world tenant_id r documents (response_of items cursor) =
    (items ≡ map (item_of world) documents)
    × All (IsAllowed tenant_id r) documents
    × (is_some cursor ≡ (length items == r.page_size))
IsIsolatedFor world tenant_id r documents _ = Unit

abbrev pub IsIsolated : SearchWorld → ℕ → MailSearchRequest → SearchOutcome → Type 0
IsIsolated world tenant_id r = IsIsolatedFor world tenant_id r (documents_of world tenant_id r)

items_of-sources :
    (world : SearchWorld) (found : List EsHit)
    → map (λ (h : EsHit). item_of world h.source) found
      ≡ map (item_of world) (map (λ (h : EsHit). h.source) found)
items_of-sources world [] = refl
items_of-sources world (h ∷ found) =
    ap (λ rest. item_of world h.source ∷ rest) (items_of-sources world found)

sources-All :
    (P : Document → Type 0) (found : List EsHit)
    → All (λ h. P h.source) found
    → All P (map (λ (h : EsHit). h.source) found)
sources-All P [] h = tt
sources-All P (x ∷ found) (h, k) = (h, sources-All P found k)

last_sort_some :
    (world : SearchWorld) (h : EsHit) (found : List EsHit)
    → is_some (last_sort world (h ∷ found)) ≡ true
last_sort_some world h [] = refl
last_sort_some world h (g ∷ found) = last_sort_some world g found

length-items :
    (world : SearchWorld) (found : List EsHit)
    → length (map (λ (h : EsHit). item_of world h.source) found) ≡ length found
length-items world [] = refl
length-items world (h ∷ found) = ap suc (length-items world found)

full_page :
    (world : SearchWorld) (page_size : ℕ) (found : List EsHit)
    → 1 ≤ page_size
    → is_some (if length found == page_size then last_sort world found else none)
      ≡ (length found == page_size)
full_page world page_size [] le = ground (arith, le)
full_page world page_size (h ∷ found) le = ground (arith, last_sort_some world h found)

hits-IsIsolatedFor :
    (world : SearchWorld) (tenant_id : ℕ) (r : MailSearchRequest) (found : List EsHit)
    → 1 ≤ r.page_size
    → All (λ h. IsSelected (search_body world tenant_id r) h.source) found
    → IsIsolatedFor world tenant_id r
        (map (λ (h : EsHit). h.source) found)
        (respond world r.page_size (hits found))
unfolding respond
hits-IsIsolatedFor world tenant_id r found le h = (
  items_of-sources world found,
  sources-All (IsAllowed tenant_id r) found (
      All-map (λ h. IsSelected (search_body world tenant_id r) h.source)
        (λ h. IsAllowed tenant_id r h.source) found (λ h. body-IsAllowed world tenant_id r h.source)
        h),
  full_page world r.page_size found le
      ∙ ap (λ n. n == r.page_size) (sym (length-items world found)),
)

reply-IsIsolatedFor :
    (world : SearchWorld) (tenant_id : ℕ) (r : MailSearchRequest) (reply : SearchReply)
    → 1 ≤ r.page_size
    → AllSelected (search_body world tenant_id r) reply
    → IsIsolatedFor world tenant_id r (returned reply) (respond world r.page_size (search reply))
unfolding search respond
reply-IsIsolatedFor world tenant_id r (replied status found) le h =
    elim (Bool-cases (status == 200)) [
      | inl ok ↦ rw ok (hits-IsIsolatedFor world tenant_id r found le h)
      | inr other ↦ rw other (
          choose (λ s. IsIsolatedFor world tenant_id r [] (respond world r.page_size s))
            (status == 404) _ _ (hits-IsIsolatedFor world tenant_id r [] le tt)
            (choose (λ s. IsIsolatedFor world tenant_id r [] (respond world r.page_size s))
              (status == 400) _ _ tt tt))
    ]
reply-IsIsolatedFor world tenant_id r search_network_error le h = tt
reply-IsIsolatedFor world tenant_id r search_exception le h = tt

-- If Elasticsearch returns only what matches the filters of the query, or of its knn clause, the
-- items of a search are those of exactly the documents that Elasticsearch returned for it; these are
-- of the tenant, not deleted, and meet every constraint of the request; and there is a cursor exactly
-- if the page, of one item at least, is full.
pub search_mail-IsIsolated :
    (world : SearchWorld) (tenant_id : ℕ) (r : MailSearchRequest)
    → HonoursFilters world.elasticsearch
    → 1 ≤ r.page_size
    → IsIsolated world tenant_id r (search_mail world tenant_id r)
unfolding search_mail
search_mail-IsIsolated world tenant_id r honours le =
    reply-IsIsolatedFor world tenant_id r
      (world.elasticsearch tenant_id (search_body world tenant_id r)) le
      (honours tenant_id (search_body world tenant_id r))
