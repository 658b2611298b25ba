-- ===== src/Gateway/Citations.antt =====
-- What the checks on citations leave.
use mathlib.Core.Path.{subst}
use outlook_dictionary.Common.{
  ◌≤◌, ◌≡◌, refl, sym, inl, inr, true, false, List, [], ◌∷◌, length, arith, All, Bool-cases,
}
use outlook_dictionary.Text.{Text, text_eq}
use outlook_dictionary.Text.Laws.{text_eq→eq, text_eq_refl}
use outlook_dictionary.Gateway.Synthesis.{
  is_listed, all_listed, dedup, count_unique, unique_citations,
}

-- No text is listed twice.
abbrev pub NoneTwice : List Text → Type 0
NoneTwice [] = Unit
NoneTwice (c ∷ cs) = (is_listed c cs ≡ false) × NoneTwice cs

-- Every text is in the list.
abbrev pub AllListed : List Text → List Text → Type 0
AllListed ids cs = All (λ c. is_listed c ids ≡ true) cs

pub all_listed-AllListed : (cs ids : List Text) → all_listed cs ids ≡ true → AllListed ids cs
unfolding all_listed
all_listed-AllListed [] ids h = tt
all_listed-AllListed (c ∷ cs) ids h = ground (arith, h, all_listed-AllListed cs ids)

dedup-All : (P : Text → Type 0) (cs seen : List Text) → All P cs → All P (dedup cs seen)
unfolding dedup
dedup-All P [] seen h = tt
dedup-All P (c ∷ cs) seen (h, k) =
    elim (is_listed c seen)
      as (λ b.
        All P
          (elim b as (λ _. List Text) [ true ↦ dedup cs seen | false ↦ c ∷ dedup cs (c ∷ seen) ])) [
            | true ↦ dedup-All P cs seen k
            | false ↦ (h, dedup-All P cs (c ∷ seen) k)
          ]

differs :
    (x c : Text) (seen : List Text)
    → is_listed x seen ≡ true
    → is_listed c seen ≡ false
    → text_eq x c ≡ false
differs x c seen h k = elim (Bool-cases (text_eq x c)) [ inl e ↦ cc (text_eq→eq x c e) | inr e ↦ e ]

-- What has been seen is not kept.
dedup-fresh :
    (x : Text) (cs seen : List Text) → is_listed x seen ≡ true → is_listed x (dedup cs seen) ≡ false
unfolding dedup is_listed
dedup-fresh x [] seen h = refl
dedup-fresh x (c ∷ cs) seen h = elim (Bool-cases (is_listed c seen)) [
  | inl e ↦ ground (arith, e, dedup-fresh x cs seen h)
  | inr e ↦ ground (arith, e, h, differs x c seen h e, dedup-fresh x cs (c ∷ seen))
]

listed_first : (c : Text) (cs : List Text) → is_listed c (c ∷ cs) ≡ true
unfolding is_listed
listed_first c cs = ground (arith, text_eq_refl c)

dedup-NoneTwice : (cs seen : List Text) → NoneTwice (dedup cs seen)
unfolding dedup
dedup-NoneTwice [] seen = tt
dedup-NoneTwice (c ∷ cs) seen =
    elim (is_listed c seen)
      as (λ b.
        NoneTwice
          (elim b as (λ _. List Text) [ true ↦ dedup cs seen | false ↦ c ∷ dedup cs (c ∷ seen) ])) [
            | true ↦ dedup-NoneTwice cs seen
            | false ↦
                (dedup-fresh c cs (c ∷ seen) (listed_first c seen), dedup-NoneTwice cs (c ∷ seen))
          ]

count_unique-le : (cs seen : List Text) → count_unique cs seen ≤ length cs
unfolding count_unique
count_unique-le [] seen = omega arith
count_unique-le (c ∷ cs) seen =
    ground (arith, count_unique-le cs seen, count_unique-le cs (c ∷ seen))

dedup_same : (cs seen : List Text) → count_unique cs seen ≡ length cs → dedup cs seen ≡ cs
unfolding count_unique dedup
dedup_same [] seen h = refl
dedup_same (c ∷ cs) seen h = ground (arith, h, count_unique-le cs seen, dedup_same cs (c ∷ seen))

-- The test on the counts only spares a rebuilding that would change nothing.
pub unique_citations-dedup : (cs : List Text) → unique_citations cs ≡ dedup cs []
unfolding unique_citations
unique_citations-dedup cs = ground (arith, count_unique-le cs [], dedup_same cs [])

pub unique_citations-NoneTwice : (cs : List Text) → NoneTwice (unique_citations cs)
unique_citations-NoneTwice cs =
    subst NoneTwice (sym (unique_citations-dedup cs)) (dedup-NoneTwice cs [])

pub unique_citations-AllListed :
    (cs ids : List Text) → AllListed ids cs → AllListed ids (unique_citations cs)
unique_citations-AllListed cs ids h =
    subst (AllListed ids) (sym (unique_citations-dedup cs))
      (dedup-All (λ c. is_listed c ids ≡ true) cs [] h)
