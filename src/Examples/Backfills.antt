-- ===== src/Examples/Backfills.antt =====
-- A backfill of two messages, of which Elasticsearch knows one.
use outlook_dictionary.Common.{
  ℕ, refl, Bool, true, false, none, List, [], ◌∷◌, if◌then◌else◌, ◌==◌, arith,
}
use outlook_dictionary.Sql.{rowcount}
use outlook_dictionary.Mail.{Message}
use outlook_dictionary.Worker.Elastic.{response}
use outlook_dictionary.Backfill.{vectors, BackfillWorld, run, is_ahead}
use outlook_dictionary.Backfill.Settled.{Settled}
use outlook_dictionary.Backfill.Run.{row_of, run-Settled}

abbrev message : (id : ℕ) → (is_deleted : Bool) → Message
message id is_deleted = record {
  id = id;
  tenant_id = 3;
  mail_account_id = 4;
  provider_message_id = id;
  version = 1;
  is_deleted = is_deleted;
  subject = none;
  body = none;
  body_preview = none;
  sender = none;
  received_date_time = none;
  has_attachments = false;
  is_read = false;
}

abbrev table : List Message
table = message 5 false ∷ message 4 true ∷ message 2 false ∷ []

abbrev world : BackfillWorld
world = record {
  now = 100;
  batch_size = 1;
  embed = λ batch. vectors (7 ∷ []);
  update = λ m v. response (if m.id == 2 then 200 else 404) [] none;
  is_cancelled = λ cursor. false;
}

run-Settled_example : Settled 3 table (row_of world 3 table none) (run world 3 3 table none)
unfolding rowcount is_ahead
run-Settled_example =
    run-Settled world 3 table 0 3 none refl (refl, (refl, (refl, tt))) refl (λ e. cc) (λ e. cc)
      (omega arith)
