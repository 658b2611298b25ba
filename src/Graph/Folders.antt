-- ===== src/Graph/Folders.antt =====
-- `get_folders`: the list of the mail folders, page by page.
use outlook_dictionary.Common.{
  ℕ, zero, suc, ◌≤◌, ◌≡◌, refl, sym, ap, ◌∙◌, Bool, true, ◌||◌, Option, none, some, List, [], ◌∷◌,
  ◌++◌, arith, if◌then◌else◌, map,
}
use outlook_dictionary.Text.{Text, text_eq}
use outlook_dictionary.Sync.Provider.{Presence, unset, present}
use outlook_dictionary.Folder.{Raised, other}
use outlook_dictionary.Graph.{is_success, raise_for_status, link}

-- An item of the response; a parent that is missing or null is `none`.
pub record FolderItem : Type 0 where
  pub id : ℕ
  pub display_name : Presence Text
  pub parent_folder_id : Option Text

-- `ProviderFolder`
pub record ProviderFolder : Type 0 where
  pub provider_folder_id : ℕ
  pub name : Option Text
  pub parent_id : Option Text
  pub is_active : Bool

pub record FolderResponse : Type 0 where
  pub status_code : ℕ
  pub retry_after : Option ℕ
  pub value : List FolderItem
  pub next_link : Option ℕ

-- What the HTTP client does at an address.
pub data FolderReply : Type 0 where
  responds : FolderResponse → FolderReply
  breaks_off : FolderReply

-- The list, an exception, or no end within the fuel.
pub data Listing : Type 0 where
  listed : List ProviderFolder → Listing
  fails : Raised → Listing
  goes_on : Listing

-- `parent_id in ("", "0", "null", None)`
abbrev pub real_parent : Option Text → Option Text
real_parent none = none
real_parent (some t) =
    if text_eq t [] || (text_eq t (48 ∷ []) || text_eq t (110 ∷ 117 ∷ 108 ∷ 108 ∷ []))
    then none
    else some t

-- `item.get("displayName", "")`
abbrev pub name_of : Presence Text → Option Text
name_of unset = some []
name_of (present name) = name

abbrev pub folder_of : FolderItem → ProviderFolder
folder_of item = record {
  provider_folder_id = item.id;
  name = name_of item.display_name;
  parent_id = real_parent item.parent_folder_id;
  is_active = true;
}

module _ (client : ℕ → FolderReply) where
  -- `while url`, with the number of requests that are left.
  unfoldable pub list_from : (fuel : ℕ) → Option ℕ → List ProviderFolder → Listing
  list_from zero none folders = listed folders
  list_from zero (some url) folders = goes_on
  list_from (suc fuel) none folders = listed folders
  list_from (suc fuel) (some url) folders = elim (client url) [
    | breaks_off ↦ fails (record { kind = other; status_code = none; retry_after = none })
    | responds r ↦
        if is_success r.status_code
        then list_from fuel (link r.next_link) (folders ++ map folder_of r.value)
        else fails (raise_for_status r.status_code r.retry_after)
  ]

  unfoldable pub get_folders : (fuel : ℕ) → (first_url : ℕ) → Listing
  unfolding list_from
  get_folders fuel first_url = list_from fuel (some first_url) []

  -- The pages that follow each other from an address on, all of which are served.
  pub data Pages : Option ℕ → List FolderItem → ℕ → Type 0 where
    end : Pages none [] 0
    page :
        (url : ℕ) (r : FolderResponse) (items : List FolderItem) (n : ℕ)
        → client url ≡ responds r
        → is_success r.status_code ≡ true
        → Pages (link r.next_link) items n
        → Pages (some url) (r.value ++ items) (suc n)

  map-append :
      (xs ys : List FolderItem) → map folder_of (xs ++ ys) ≡ map folder_of xs ++ map folder_of ys
  map-append [] ys = refl
  map-append (x ∷ xs) ys = ap (λ zs. folder_of x ∷ zs) (map-append xs ys)

  append_assoc : (xs ys zs : List ProviderFolder) → (xs ++ ys) ++ zs ≡ xs ++ (ys ++ zs)
  append_assoc [] ys zs = refl
  append_assoc (x ∷ xs) ys zs = ap (λ ws. x ∷ ws) (append_assoc xs ys zs)

  append_nil : (xs : List ProviderFolder) → xs ++ [] ≡ xs
  append_nil [] = refl
  append_nil (x ∷ xs) = ap (λ ws. x ∷ ws) (append_nil xs)

  list_from-Pages :
      (fuel : ℕ) (url : Option ℕ) (items : List FolderItem) (n : ℕ) (folders : List ProviderFolder)
      → Pages url items n
      → n ≤ fuel
      → list_from fuel url folders ≡ listed (folders ++ map folder_of items)
  unfolding list_from
  list_from-Pages zero _ _ _ folders end le = ap listed (sym (append_nil folders))
  list_from-Pages (suc fuel) _ _ _ folders end le = ap listed (sym (append_nil folders))
  list_from-Pages zero _ _ _ folders (page url r items n served ok rest) le =
      absurd (omega (arith, le))
  list_from-Pages (suc fuel) _ _ _ folders (page url r items n served ok rest) le =
      rw (served, list_from)
        (rw ok (
          list_from-Pages fuel (link r.next_link) items n (folders ++ map folder_of r.value) rest
            (omega (arith, le))
          ∙ ap listed (
              append_assoc folders (map folder_of r.value) (map folder_of items)
              ∙ ap (λ xs. folders ++ xs) (sym (map-append r.value items)))))

  -- If the pages come to an end and all are served, the listing ends after as many requests, with
  -- the folders of all pages in their order.
  pub get_folders-Pages :
      (fuel url : ℕ) (items : List FolderItem) (n : ℕ)
      → Pages (some url) items n
      → n ≤ fuel
      → get_folders fuel url ≡ listed (map folder_of items)
  unfolding get_folders
  get_folders-Pages fuel url items n pages le = list_from-Pages fuel (some url) items n [] pages le
