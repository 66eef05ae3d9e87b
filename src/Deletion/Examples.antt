-- ===== src/Deletion/Examples.antt =====
-- The theorems of erasure at concrete tables.
use personalisation_kings.Base.{
  ◌+◌, ◌≡◌, refl, true, false, ◌&&◌, none, some, [], ◌∷◌, All, Memᴰ, String, str_eq, find_many,
}
use personalisation_kings.Storage.Keys.{
  StorageClass, object_key, is_key_char, all_key_chars, is_safe_segment, key_segments,
  is_object_key_for_tenant,
}
use personalisation_kings.Deletion.Json.{scalar, text, Occurs, json_contains_exact}
use personalisation_kings.Deletion.Plan.{
  DeletionPlan, lookup_field, texts_of, texts_at, plan_of, parse_plan, items_of, plan_json,
  parse_plan-plan_json,
}
use personalisation_kings.Deletion.Tables.{
  RequestStatus, DeletionRequest, DesignVersion, Session, Snapshot, Db, distinct,
}
use personalisation_kings.Deletion.Prepare.{
  is_affected, derivatives_of_revision, derivatives_of, session_derivatives, make_plan, retire_rows,
  store_plan, decide, prepare_deletion,
}
use personalisation_kings.Deletion.Worker.{
  Environment, renew_deletion_claim, delete_rows, finalize_deletion, deletion_plan_keys_are_safe,
  erase_objects, finish, erase, attempt_deletion,
}
use personalisation_kings.Deletion.Boundary.{
  is_customer_class, attempt_deletion-erased, attempt_deletion_complete,
}
use personalisation_kings.Deletion.Eligible.{source_ids, IsUnordered, prepare_deletion-eligible}

abbrev upload_key : String
upload_key = "temporary_upload/m2/a"

abbrev plan : DeletionPlan
plan = record {
  source_version_ids = "v1" ∷ [];
  source_asset_ids = "a1" ∷ [];
  derivative_version_ids = [];
  derivative_asset_ids = [];
  session_ids = [];
  object_keys = upload_key ∷ [];
}

parse_plan-plan_json_example : parse_plan (some (plan_json plan)) ≡ some plan
parse_plan-plan_json_example = parse_plan-plan_json plan

abbrev request : DeletionRequest
request = record {
  id = "r1";
  merchant_id = "m2";
  is_asset = true;
  subject_id = "a1";
  status = RequestStatus.processing;
  live_deleted_at = none;
  claimed_at = some 5;
  next_attempt_at = 0;
  attempts = 1;
  last_error = none;
  eligibility_reason = none;
  execution_plan = none;
  created_at = 1;
}

abbrev resumed : DeletionRequest
resumed = record request { execution_plan = some (plan_json plan) }

abbrev tables : Db
tables = record {
  requests = request ∷ resumed ∷ [];
  versions =
      record {
        id = "v1";
        merchant_id = "m2";
        asset_id = "a1";
        object_key = upload_key;
        is_deleted = false;
        deleted_at = none;
      }
      ∷ [];
  assets = record { id = "a1"; merchant_id = "m2"; is_upload = true } ∷ [];
  designs = record { merchant_id = "m2"; scene_graph = text "v2" } ∷ [];
  sessions = [];
  revisions = [];
  ordered_revisions = [];
  snapshots = [];
  proofs = [];
  audit = [];
}

abbrev first_tables : Db
first_tables = record tables { requests = request ∷ [] }

abbrev resumed_tables : Db
resumed_tables = record tables { requests = resumed ∷ [] }

abbrev environment : Environment
environment = record {
  clock = λ n. 10 + n;
  storage_error = λ k. none;
  summary = scalar;
  refused = none;
}

erasing : Unit {0}
unfolding attempt_deletion erase erase_objects finish renew_deletion_claim finalize_deletion
    delete_rows deletion_plan_keys_are_safe is_object_key_for_tenant key_segments is_safe_segment
    all_key_chars is_key_char parse_plan plan_of texts_at lookup_field texts_of plan_json items_of
    prepare_deletion decide store_plan make_plan session_derivatives derivatives_of
    derivatives_of_revision retire_rows distinct json_contains_exact
erasing = tt

attempt_deletion-erased_example :
    (class : StorageClass) × (id : String) × (object_key class "m2" id ≡ some upload_key)
    × (is_customer_class class ≡ true)
unfolding erasing
attempt_deletion-erased_example =
    attempt_deletion-erased environment request 6 first_tables upload_key (Memᴰ.head refl)

attempt_deletion_complete_example :
    (attempt_deletion environment resumed 6 resumed_tables).erased ≡ plan.object_keys
unfolding erasing
attempt_deletion_complete_example =
    attempt_deletion_complete environment resumed 6 resumed_tables plan refl refl

abbrev prepared_tables : Db
prepared_tables = retire_rows request 6 plan (record first_tables {
  requests =
      record request {
        execution_plan = some (plan_json plan);
        eligibility_reason = some "Eligible unordered customer upload";
      }
      ∷ [];
})

prepare_deletion-eligible_example :
    All
      (λ (d : DesignVersion). ¬ (Occurs "v1" d.scene_graph))
      (find_many (λ (d : DesignVersion). str_eq d.merchant_id "m2") tables.designs)
    × All
        (λ (x : Snapshot). ¬ (Occurs "v1" x.snapshot))
        (find_many (λ (x : Snapshot). str_eq x.merchant_id "m2") tables.snapshots)
    × All (IsUnordered first_tables) (
        find_many
          (λ (s : Session).
            str_eq s.merchant_id "m2"
            && is_affected (source_ids request first_tables) first_tables.revisions s)
          tables.sessions)
unfolding erasing
prepare_deletion-eligible_example =
    prepare_deletion-eligible request 6 first_tables {plan = plan} {db' = prepared_tables} "v1" refl
      refl
