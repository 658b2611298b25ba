-- ===== src/Schedule/Due.antt =====
-- What a discovery tick plans and starts.
use mathlib.Core.Path.{subst}
use outlook_dictionary.Common.{
  ℕ, ◌⊎◌, ◌==◌, ◌+◌, ◌≡◌, refl, ◌∙◌, inl, inr, Bool, true, false, ◌||◌, some, List, [], ◌∷◌, ◌++◌,
  arith, Bool-cases, All, All-append, All-map, choose_by,
}
use outlook_dictionary.Credential.{Account}
use outlook_dictionary.Sync.Lease.{SyncState, SyncStateValue, delta_tracking, auth_required, error}
use outlook_dictionary.Folder.{Folder}
use outlook_dictionary.Graph.Folders.{ProviderFolder}
use outlook_dictionary.Schedule.{JobQueue}
use outlook_dictionary.Schedule.Discovery.{
  is_sync_due, active_folders, state_of, due_of, plan, is_existing, new_folders, discover_folders,
}

-- A state that a discovery leaves alone.
abbrev pub is_at_rest : SyncStateValue → Bool
is_at_rest delta_tracking = true
is_at_rest auth_required = true
is_at_rest error = true
is_at_rest _ = false

module _ (now : ℕ) (states : List SyncState) where
  -- The folder has no state, or one that is not at rest.
  abbrev pub IsUnsettled : ℕ → Type 0
  IsUnsettled id = (s : SyncState) → state_of id states ≡ some s → is_at_rest s.state ≡ false

  due-at_rest : (s : SyncState) → is_sync_due now (some s) ≡ true → is_at_rest s.state ≡ false
  unfolding is_sync_due
  due-at_rest s due = ground (arith, due)

  due_of-IsUnsettled : (fs : List Folder) → All IsUnsettled (due_of now states fs)
  unfolding due_of
  due_of-IsUnsettled [] = tt
  due_of-IsUnsettled (f ∷ fs) = elim (Bool-cases (is_sync_due now (state_of f.id states))) [
    | inl due ↦ rw due (
      (λ s e. due-at_rest s (subst (λ o. is_sync_due now o ≡ true) e due)),
      due_of-IsUnsettled fs,
    )
    | inr rests ↦ rw rests (due_of-IsUnsettled fs)
  ]

  -- The plan of a tick contains no folder whose state is DELTA_TRACKING, AUTH_REQUIRED or ERROR at
  -- that time.
  pub plan-IsUnsettled :
      (folders : List Folder) (accounts : List Account)
      → All IsUnsettled (plan now states folders accounts).1
  unfolding plan
  plan-IsUnsettled folders [] = tt
  plan-IsUnsettled folders (a ∷ accounts) =
      go (active_folders a.id folders) (plan-IsUnsettled folders accounts)
    where
      go :
          (fs : List Folder)
          → All IsUnsettled (plan now states folders accounts).1
          → All IsUnsettled
              (elim fs as (λ _. List Account × List ℕ) [
                | [] ↦
                    (a ∷ (plan now states folders accounts).0, (plan now states folders accounts).1)
                | f ∷ fs ↦ (
                  (plan now states folders accounts).0,
                  due_of now states (f ∷ fs) ++ (plan now states folders accounts).1,
                )
              ]).1
      go [] h = h
      go (f ∷ fs) h =
          All-append IsUnsettled (due_of now states (f ∷ fs)) (plan now states folders accounts).1
            (due_of-IsUnsettled (f ∷ fs)) h

abbrev pub includes : ℕ → List ℕ → Bool
includes a [] = false
includes a (x ∷ xs) = a == x || includes a xs

module _ (arq : JobQueue ℕ) where
  abbrev pub IsQueued : arq.Queue → ℕ → Type 0
  IsQueued q id = arq.holds q id ≡ true

  abbrev pub IsNew : arq.Queue → ℕ → Type 0
  IsNew q id = arq.holds q id ≡ false

  -- Enqueuing a job adds no other one.
  abbrev pub AddsOnly : Type 0
  AddsOnly = (q : arq.Queue) (j k : ℕ) → IsQueued (arq.enqueue_job q j).0 k → IsQueued q k ⊎ (k ≡ j)

  -- A due folder that the queue does not hold.
  abbrev pub IsComing : arq.Queue → List ℕ → ℕ → Type 0
  IsComing q ids id = IsNew q id × (includes id ids ≡ true)

  -- With a queue, every due folder is queued, and the folders that the tick synchronises itself are
  -- those that the queue did not hold before; without one, it synchronises them all.
  abbrev pub IsLaunched : Bool → List ℕ → arq.Queue → arq.Queue × List ℕ → Type 0
  IsLaunched true ids q (q', runs) =
      All (IsQueued q') ids
      × All (λ id. IsNew q id → includes id runs ≡ true) ids
      × All (IsComing q ids) runs
  IsLaunched false ids q (q', runs) = (q' ≡ q) × (runs ≡ ids)

-- The account has the folder of the provider.
abbrev pub IsKnown : ℕ → List Folder → ProviderFolder → Type 0
IsKnown account_id rows p = is_existing account_id p.provider_folder_id rows ≡ true

is_existing-append :
    (account_id provider_id : ℕ) (xs ys : List Folder)
    → is_existing account_id provider_id (xs ++ ys)
      ≡ (is_existing account_id provider_id xs || is_existing account_id provider_id ys)
unfolding is_existing
is_existing-append account_id provider_id [] ys = refl
is_existing-append account_id provider_id (x ∷ xs) ys =
    ground (arith, is_existing-append account_id provider_id xs ys)

module _ (account : Account) (existing : List Folder) where
  -- The folder is there already or among the new ones.
  abbrev IsCaught : List Folder → ProviderFolder → Type 0
  IsCaught new p =
      (is_existing account.id p.provider_folder_id existing
        || is_existing account.id p.provider_folder_id new)
      ≡ true

  new_folders-IsCaught :
      (n : ℕ) (ps : List ProviderFolder) → All (IsCaught (new_folders account existing n ps)) ps
  unfolding new_folders is_existing
  new_folders-IsCaught n [] = tt
  new_folders-IsCaught n (p ∷ ps) =
      choose_by (λ new. All (IsCaught new) (p ∷ ps))
        (is_existing account.id p.provider_folder_id existing) (new_folders account existing n ps)
        (row ∷ new_folders account existing (n + 1) ps)
        (λ known. (ground (arith, known), new_folders-IsCaught n ps))
        (λ unknown. (
          ground arith,
          All-map (IsCaught (new_folders account existing (n + 1) ps))
              (IsCaught (row ∷ new_folders account existing (n + 1) ps)) ps
              (λ q caught. ground (arith, caught)) (new_folders-IsCaught (n + 1) ps),
        ))
    where
      row : Folder
      row = record {
        id = n;
        tenant_id = account.tenant_id;
        mail_account_id = account.id;
        provider_folder_id = p.provider_folder_id;
        is_active = p.is_active;
      }

  -- After a discovery the account has every folder that the provider named, and the folders that it
  -- had stand before the new ones.
  pub discover_folders-IsKnown :
      (n : ℕ) (ps : List ProviderFolder)
      → All (IsKnown account.id (discover_folders account existing n ps)) ps
  unfolding discover_folders
  discover_folders-IsKnown n ps =
      All-map (IsCaught (new_folders account existing n ps))
        (IsKnown account.id (discover_folders account existing n ps)) ps
        (λ p caught.
          is_existing-append account.id p.provider_folder_id existing
            (new_folders account existing n ps)
          ∙ caught)
        (new_folders-IsCaught n ps)
