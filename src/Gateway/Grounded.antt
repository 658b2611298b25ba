-- ===== src/Gateway/Grounded.antt =====
-- What the model is shown, and what a synthesis may cite.
use mathlib.Core.Path.{subst}
use mathlib.Core.List.{append-nil, append_assoc}
use outlook_dictionary.Common.{
  ℕ, suc, ◌+◌, ◌≤◌, ◌≡◌, ◌⊎◌, inl, inr, refl, sym, ◌∙◌, Bool, true, false, not, ◌&&◌, Option, none,
  some, List, [], ◌∷◌, ◌++◌, map, length, length-append, ltb, arith, All-map, choose, choose_by,
}
use outlook_dictionary.Text.{Text, strip, is_empty}
use outlook_dictionary.Schedule.Polling.{take_rows}
use outlook_dictionary.Gateway.{
  GatewayResult, content, gateway_rate_limit, gateway_transient, gateway_configuration,
  gateway_permanent, execute_structured_request,
}
use outlook_dictionary.Gateway.Synthesis.{
  Hit, SearchSynthesis, SynthesisResult, synthesized, malformed_output, max_hits, max_total_budget,
  piece, gather, build_context, is_listed, all_listed, unique_citations, is_none_left,
  check_citations, SynthesisWorld, read_output, synthesize_hits, synthesize,
}
use outlook_dictionary.Gateway.Citations.{
  NoneTwice, AllListed, all_listed-AllListed, unique_citations-NoneTwice,
  unique_citations-AllListed,
}

-- The pieces of some hits, one after another.
unfoldable pub evidence : List Hit → Text
evidence [] = []
evidence (h ∷ hits) = piece h ++ evidence hits

abbrev pub ids_of : List Hit → List Text
ids_of = map (λ h. h.id)

-- The context is the pieces of the first hits that fit, and one more hit at most may be cited.
abbrev Fits : List Hit → Text → List Text → Text × List Text → Type 0
Fits hits context ids (context', ids') =
    (n : ℕ) × (context' ≡ context ++ evidence (take_rows n hits))
    × (length context' ≤ max_total_budget)
    × ((t : Text)
        → is_listed t ids' ≡ true
        → (is_listed t ids ≡ true) ⊎ (is_listed t (ids_of (take_rows (suc n) hits)) ≡ true))

gather-Fits :
    (hits : List Hit) (context : Text) (ids : List Text)
    → length context ≤ max_total_budget
    → Fits hits context ids (gather hits context ids)
unfolding gather evidence take_rows is_listed
gather-Fits [] context ids le = (0, sym (append-nil context), le, λ t h. inl h)
gather-Fits (h ∷ hits) context ids le =
    go (ltb max_total_budget (length context + length (piece h))) refl
      (gather-Fits hits (context ++ piece h) (h.id ∷ ids))
  where
    listed :
        (rest : List Hit) (t : Text)
        → is_listed t (h.id ∷ ids) ≡ true
        → (is_listed t ids ≡ true) ⊎ (is_listed t (ids_of (h ∷ rest)) ≡ true)
    listed rest t e = ground (arith, e)

    late :
        (n : ℕ) (t : Text)
        → (is_listed t (h.id ∷ ids) ≡ true) ⊎ (is_listed t (ids_of (take_rows n hits)) ≡ true)
        → (is_listed t ids ≡ true) ⊎ (is_listed t (ids_of (h ∷ take_rows n hits)) ≡ true)
    late n t (inl e) = ground (arith, e)
    late n t (inr e) = ground (arith, e)

    go :
        (b : Bool)
        → ltb max_total_budget (length context + length (piece h)) ≡ b
        → (length (context ++ piece h) ≤ max_total_budget
            → Fits hits
                (context ++ piece h)
                (h.id ∷ ids)
                (gather hits (context ++ piece h) (h.id ∷ ids)))
        → Fits (h ∷ hits) context ids (elim b as (λ _. Text × List Text) [
          | true ↦ (context, h.id ∷ ids)
          | false ↦ gather hits (context ++ piece h) (h.id ∷ ids)
        ])
    go true e later = (0, sym (append-nil context), le, λ t e. listed [] t e)
    go false e later =
        let rest = later (ground (arith, e, length-append context (piece h))) in
        (
          suc rest.0,
          rest.1 ∙ append_assoc context (piece h) (evidence (take_rows rest.0 hits)),
          rest.2,
          λ t e. late (suc rest.0) t (rest.3 t e),
        )

-- The hits that a context shows are counted by n; they are among the first fifteen.
abbrev pub IsEvidence : List Hit → (n : ℕ) → Text × List Text → Type 0
IsEvidence hits n (context, ids) =
    (context ≡ evidence (take_rows n (take_rows max_hits hits)))
    × (length context ≤ max_total_budget)
    × ((t : Text)
        → is_listed t ids ≡ true
        → is_listed t (ids_of (take_rows (suc n) (take_rows max_hits hits))) ≡ true)

pub build_context-IsEvidence : (hits : List Hit) → (n : ℕ) × IsEvidence hits n (build_context hits)
unfolding build_context is_listed
build_context-IsEvidence hits =
    let found = gather-Fits (take_rows max_hits hits) [] [] (omega arith) in
    (found.0, (found.1, found.2, λ t e. only t (found.3 t e)))
  where
    only : {B : Type 0} (t : Text) → (is_listed t [] ≡ true) ⊎ B → B
    only t (inl e) = cc
    only t (inr b) = b

-- What holds of an answer: the hits that were shown are the first n of the first fifteen, as far as
-- they fit into the budget; every citation is one of them or the next; none is cited twice; and
-- without a citation the evidence is called insufficient.
abbrev pub IsGrounded : List Hit → SearchSynthesis → Type 0
IsGrounded hits s =
    (n : ℕ) × ((build_context hits).0 ≡ evidence (take_rows n (take_rows max_hits hits)))
    × (length (build_context hits).0 ≤ max_total_budget)
    × AllListed (ids_of (take_rows (suc n) (take_rows max_hits hits))) s.citations
    × NoneTwice s.citations
    × ((s.insufficient_evidence ≡ true) ⊎ (is_none_left s.citations ≡ false))

-- What the checks let through.
abbrev Checked : List Text → SynthesisResult → Type 0
Checked ids (synthesized s) =
    AllListed ids s.citations
    × NoneTwice s.citations
    × ((s.insufficient_evidence ≡ true) ⊎ (is_none_left s.citations ≡ false))
Checked ids _ = Unit

check_citations-Checked :
    (ids : List Text) (s : SearchSynthesis) → Checked ids (check_citations ids s)
unfolding check_citations
check_citations-Checked ids s =
    choose_by (Checked ids) (not (all_listed s.citations ids)) _ _ (λ _. tt)
      (λ all.
        choose_by (Checked ids)
          (not s.insufficient_evidence && is_none_left (unique_citations s.citations)) _ _ (λ _. tt)
          (λ some_left. (
            unique_citations-AllListed s.citations ids
                (all_listed-AllListed s.citations ids (ground (arith, all))),
            unique_citations-NoneTwice s.citations,
            left s.insufficient_evidence (is_none_left (unique_citations s.citations)) some_left,
          )))
  where
    left :
        (insufficient none_left : Bool)
        → not insufficient && none_left ≡ false
        → (insufficient ≡ true) ⊎ (none_left ≡ false)
    left true b h = inl refl
    left false b h = inr h

read_output-Checked :
    (world : SynthesisWorld) (ids : List Text) (r : GatewayResult)
    → Checked ids (read_output world ids r)
unfolding read_output
read_output-Checked world ids (content text) = go (world.validate text)
  where
    go :
        (o : Option SearchSynthesis)
        → Checked ids (elim o as (λ _. SynthesisResult) [
          | none ↦ malformed_output
          | some s ↦ check_citations ids s
        ])
    go none = tt
    go (some s) = check_citations-Checked ids s
read_output-Checked world ids gateway_rate_limit = tt
read_output-Checked world ids gateway_transient = tt
read_output-Checked world ids gateway_configuration = tt
read_output-Checked world ids gateway_permanent = tt

synthesize-Checked :
    (world : SynthesisWorld) (query : Text) (hits : List Hit)
    → Checked (build_context hits).1 (synthesize world query hits)
unfolding synthesize
synthesize-Checked world query hits =
    choose (Checked (build_context hits).1) (is_empty (strip query)) _ _ tt (go hits)
  where
    go : (hits : List Hit) → Checked (build_context hits).1 (synthesize_hits world query hits)
    go [] = tt
    go (h ∷ hits) = read_output-Checked world (build_context (h ∷ hits)).1 (
        execute_structured_request world.config (world.complete query (build_context (h ∷ hits)).0))

-- The context of a synthesis is the pieces of the first n hits, n chosen so that it has 12000
-- characters at most, of the first fifteen; an answer cites only those hits or the next one, none of
-- them twice, and has a citation unless it calls the evidence insufficient.
pub synthesize-IsGrounded :
    (world : SynthesisWorld) (query : Text) (hits : List Hit) (s : SearchSynthesis)
    → synthesize world query hits ≡ synthesized s
    → IsGrounded hits s
synthesize-IsGrounded world query hits s e =
    let checked : Checked (build_context hits).1 (synthesized s) =
      subst (Checked (build_context hits).1) e (synthesize-Checked world query hits) in
    let found = build_context-IsEvidence hits in
    (
      found.0,
      found.1.0,
      found.1.1,
      All-map (λ t. is_listed t (build_context hits).1 ≡ true)
          (λ t. is_listed t (ids_of (take_rows (suc found.0) (take_rows max_hits hits))) ≡ true)
          s.citations found.1.2 checked.0,
      checked.1,
      checked.2,
    )
