-- ===== src/Examples/Schedules.antt =====
-- The schedule with a queue that is the list of its jobs.
use outlook_dictionary.Common.{
  ℕ, ◌≡◌, Bool, true, false, not, ◌&&◌, ◌||◌, none, List, [], ◌∷◌, All, arith, if◌then◌else◌, ◌==◌,
  choose_by,
}
use outlook_dictionary.Outbox.{Events, new_event, Action}
use outlook_dictionary.Credential.{Account, active}
use outlook_dictionary.Schedule.{JobQueue}
use outlook_dictionary.Schedule.Polling.{OutboxJob}
use outlook_dictionary.Schedule.Discovery.{plan}
use outlook_dictionary.Schedule.Due.{IsUnsettled, plan-IsUnsettled}
use outlook_dictionary.Schedule.Job.{TokenLoad, loaded}
use outlook_dictionary.Examples.Folders.{folder, state}

module _ {J : Type 0} (same : J → J → Bool) (reflexive : (j : J) → same j j ≡ true) where
  unfoldable listed : List J → J → Bool
  listed [] j = false
  listed (k ∷ ks) j = same k j || listed ks j

  unfoldable push : List J → J → List J × Bool
  unfolding listed
  push q j = if listed q j then (q, false) else (j ∷ q, true)

  push-reports : (q : List J) (j : J) → (push q j).1 ≡ not (listed q j)
  unfolding push
  push-reports q j = ground arith

  push-holds : (q : List J) (j : J) → listed (push q j).0 j ≡ true
  unfolding push listed
  push-holds q j =
      choose_by (λ (r : List J × Bool). listed r.0 j ≡ true) (listed q j) _ _ (λ held. held)
        (λ _. ground (arith, reflexive j))

  push-keeps : (q : List J) (j k : J) → listed q k ≡ true → listed (push q j).0 k ≡ true
  unfolding push listed
  push-keeps q j k held =
      choose_by (λ (r : List J × Bool). listed r.0 k ≡ true) (listed q j) _ _ (λ _. held)
        (λ _. ground (arith, held))

  abbrev list_queue : JobQueue J
  list_queue = record {
    Queue = List J;
    holds = listed;
    enqueue_job = push;
    reports = push-reports;
    holds_job = push-holds;
    keeps = push-keeps;
  }

same_id : (j : ℕ) → (j == j) ≡ true
same_id j = ground arith

abbrev same_claim : OutboxJob → OutboxJob → Bool
same_claim a b = a.0 == b.0 && a.1 == b.1

-- An event that waits since 90.
abbrev events : Events
events = new_event 8 3 7 1 Action.created 90 ∷ []

abbrev account : Account
account = record {
  id = 4;
  tenant_id = 3;
  is_active = true;
  deleted_at = none;
  last_sync_at = none;
  status = active;
  credential_generation = 1;
  refresh_locked_by = none;
  refresh_locked_until = none;
  refresh_lease_version = 1;
}

plan-IsUnsettled_example :
    All (IsUnsettled 100 (state ∷ [])) (plan 100 (state ∷ []) (folder ∷ []) (account ∷ [])).1
plan-IsUnsettled_example = plan-IsUnsettled 100 (state ∷ []) (folder ∷ []) (account ∷ [])

abbrev id_queue : JobQueue ℕ
id_queue = list_queue (λ a b. a == b) same_id

abbrev load : Account → TokenLoad
load a = loaded
