-- ===== src/Examples/Leases.antt =====
-- Two workers at one synchronisation.
use outlook_dictionary.Common.{◌≡◌, refl, false, none, some, List, [], ◌∷◌}
use outlook_dictionary.Sql.{first}
use outlook_dictionary.Sql.Keyed.{get}
use outlook_dictionary.Sync.Lease.{
  SyncState, syncing, sync_state_key, is_free, take, acquire_sync_lease, releases, renews,
  write_fenced, LeaseCall, writes, make_all,
}
use outlook_dictionary.Sync.Takeover.{taken_lease_refuses}

-- Worker 50 has the lease 1 until 100.
abbrev held : List SyncState
held =
    record {
      id = 1;
      tenant_id = 3;
      mail_folder_id = 5;
      state = syncing;
      sync_token = none;
      resync_generation = 0;
      locked_by = some 50;
      locked_until = some 100;
      lease_version = 1;
      updated_at = 40;
    }
    ∷ []

-- Worker 51 takes it at 120, and renews it at 130.
abbrev calls : List LeaseCall
calls = writes 1 51 2 (renews 60) 130 ∷ []

taken_lease_refuses_example :
    (let after = make_all calls (acquire_sync_lease 1 51 120 60 held).0 in
      ((write_fenced 1 50 1 releases 140 after).1 ≡ false)
      × (get sync_state_key 1 (write_fenced 1 50 1 releases 140 after).0
          ≡ get sync_state_key 1 after))
unfolding acquire_sync_lease first is_free take
taken_lease_refuses_example =
    taken_lease_refuses 1 51 120 60 2 held
      (record {
        id = 1;
        tenant_id = 3;
        mail_folder_id = 5;
        state = syncing;
        sync_token = none;
        resync_generation = 0;
        locked_by = some 50;
        locked_until = some 100;
        lease_version = 1;
        updated_at = 40;
      })
      (refl, tt) refl refl calls 50 releases 140
