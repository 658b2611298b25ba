-- ===== src/Search/Allowed.antt =====
-- What the filters of a search ask of a document.
use outlook_dictionary.Common.{
  ℕ, ◌≤◌, ◌≡◌, refl, Bool, true, false, ◌&&◌, Option, none, some, List, [], ◌∷◌, ◌++◌, ◌==◌, ==→eq,
  arith,
}
use outlook_dictionary.Worker.Process.{Document}
use outlook_dictionary.Search.{
  MailSearchRequest, Filter, term_is_read, term_has_attachments, terms_mail_account_id,
  terms_folder_ids, terms_sender_email, terms_participants_email,
}
use outlook_dictionary.Search.Clauses.{
  is_member, meets, any_email, same_bool, has_sender, at_least, at_most, matches, matches_all,
}
use outlook_dictionary.Search.Service.{terms_if, term_if, range_if, must_filters}

-- Nothing is asked where no list, or an empty one, is given.
abbrev pub Asked {ℓ} : {A : Type ℓ} → (List A → Type 0) → Option (List A) → Type 0
Asked P none = Unit
Asked P (some []) = Unit
Asked P (some (x ∷ xs)) = P (x ∷ xs)

abbrev pub AskedBool : Bool → Option Bool → Type 0
AskedBool b none = Unit
AskedBool b (some wanted) = b ≡ wanted

-- The instant is in the range, as far as it is bounded.
abbrev pub NotBefore : Option ℕ → Option ℕ → Type 0
NotBefore none t = Unit
NotBefore (some low) none = ⊥
NotBefore (some low) (some t) = low ≤ t

abbrev pub NotAfter : Option ℕ → Option ℕ → Type 0
NotAfter none t = Unit
NotAfter (some high) none = ⊥
NotAfter (some high) (some t) = t ≤ high

-- A document that the tenant may see, that is not deleted, and that the request asks for.
pub record IsAllowed (tenant_id : ℕ) (r : MailSearchRequest) (d : Document) : Type 0 where
  pub of_tenant : d.tenant_id ≡ tenant_id
  pub is_live : d.is_deleted ≡ false
  pub of_account : Asked (λ ids. is_member d.mail_account_id ids ≡ true) r.account_ids
  pub in_folder : Asked (λ ids. meets d.folder_ids ids ≡ true) r.folder_ids
  pub from_sender : Asked (λ emails. has_sender d.sender_email emails ≡ true) r.from_sender_emails
  pub with_participant :
      Asked (λ emails. any_email d.participants emails ≡ true) r.participant_emails
  pub as_read : AskedBool d.is_read r.is_read
  pub as_attached : AskedBool d.has_attachments r.has_attachments
  pub not_before : NotBefore r.from_date d.received_date_time
  pub not_after : NotAfter r.to_date d.received_date_time

split_all :
    (xs ys : List Filter) (d : Document)
    → matches_all (xs ++ ys) d ≡ true
    → (matches_all xs d ≡ true) × (matches_all ys d ≡ true)
unfolding matches_all
split_all [] ys d h = (refl, h)
split_all (x ∷ xs) ys d h = ground (arith, h, split_all xs ys d)

terms_if-Asked {ℓ} :
    {A : Type ℓ} (f : List A → Filter) (P : List A → Type 0) (o : Option (List A)) (d : Document)
    → ((xs : List A) → matches (f xs) d ≡ true → P xs)
    → matches_all (terms_if f o) d ≡ true
    → Asked P o
unfolding matches_all
terms_if-Asked f P none d give h = tt
terms_if-Asked f P (some []) d give h = tt
terms_if-Asked f P (some (x ∷ xs)) d give h = give (x ∷ xs) (only (matches (f (x ∷ xs)) d) h)
  where
    only : (b : Bool) → b && true ≡ true → b ≡ true
    only b h = ground (arith, h)

term_if-AskedBool :
    (f : Bool → Filter) (value : Bool) (o : Option Bool) (d : Document)
    → ((b : Bool) → matches (f b) d ≡ same_bool value b)
    → matches_all (term_if f o) d ≡ true
    → AskedBool value o
unfolding matches_all
term_if-AskedBool f value none d give h = tt
term_if-AskedBool f value (some b) d give h = same value b (ground (arith, h, give b))
  where
    same : (v b : Bool) → same_bool v b ≡ true → v ≡ b
    same true true h = refl
    same true false h = cc
    same false true h = cc
    same false false h = refl

range_if-Range :
    (low high : Option ℕ) (d : Document)
    → matches_all (range_if low high) d ≡ true
    → NotBefore low d.received_date_time × NotAfter high d.received_date_time
unfolding matches_all matches
range_if-Range none none d h = (tt, tt)
range_if-Range (some low) high d h = go low high d.received_date_time h
  where
    go :
        (low : ℕ) (high t : Option ℕ)
        → (at_least (some low) t && at_most high t) && true ≡ true
        → NotBefore (some low) t × NotAfter high t
    go low none none h = cc
    go low none (some t) h = (ground (arith, h), tt)
    go low (some high) none h = cc
    go low (some high) (some t) h = (ground (arith, h), ground (arith, h))
range_if-Range none (some high) d h = go high d.received_date_time h
  where
    go :
        (high : ℕ) (t : Option ℕ)
        → at_most (some high) t && true ≡ true
        → Unit {0} × NotAfter (some high) t
    go high none h = cc
    go high (some t) h = (tt, ground (arith, h))

pub must_filters-IsAllowed :
    (tenant_id : ℕ) (r : MailSearchRequest) (d : Document)
    → matches_all (must_filters tenant_id r) d ≡ true
    → IsAllowed tenant_id r d
unfolding must_filters matches_all matches
must_filters-IsAllowed tenant_id r d h =
    let both = fixed (d.tenant_id == tenant_id) d.is_deleted _ h in
    let a = split_all (terms_if terms_mail_account_id r.account_ids) _ d both.2 in
    let b = split_all (terms_if terms_folder_ids r.folder_ids) _ d a.1 in
    let c = split_all (terms_if terms_sender_email r.from_sender_emails) _ d b.1 in
    let e = split_all (terms_if terms_participants_email r.participant_emails) _ d c.1 in
    let f = split_all (term_if term_is_read r.is_read) _ d e.1 in
    let g = split_all (term_if term_has_attachments r.has_attachments) _ d f.1 in
    let range = range_if-Range r.from_date r.to_date d g.1 in
    record {
      of_tenant = ==→eq d.tenant_id tenant_id both.0;
      is_live = both.1;
      of_account =
          terms_if-Asked terms_mail_account_id (λ ids. is_member d.mail_account_id ids ≡ true)
            r.account_ids d (λ xs k. k) a.0;
      in_folder =
          terms_if-Asked terms_folder_ids (λ ids. meets d.folder_ids ids ≡ true) r.folder_ids d
            (λ xs k. k) b.0;
      from_sender =
          terms_if-Asked terms_sender_email (λ emails. has_sender d.sender_email emails ≡ true)
            r.from_sender_emails d (λ xs k. k) c.0;
      with_participant =
          terms_if-Asked terms_participants_email (λ emails. any_email d.participants emails ≡ true)
            r.participant_emails d (λ xs k. k) e.0;
      as_read = term_if-AskedBool term_is_read d.is_read r.is_read d (λ b. refl) f.0;
      as_attached =
          term_if-AskedBool term_has_attachments d.has_attachments r.has_attachments d (λ b. refl)
            g.0;
      not_before = range.0;
      not_after = range.1;
    }
  where
    fixed :
        (tenant deleted rest : Bool)
        → tenant && (same_bool deleted false && rest) ≡ true
        → (tenant ≡ true) × (deleted ≡ false) × (rest ≡ true)
    fixed true true rest h = cc
    fixed true false rest h = (refl, refl, h)
    fixed false deleted rest h = cc
