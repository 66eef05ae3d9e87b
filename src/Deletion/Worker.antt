-- ===== src/Deletion/Worker.antt =====
-- The erasure worker: `claimDeletionRequest`, `renewDeletionClaim`, `finalizeDeletion` and
-- `processNextDeletionRequest` of apps/worker-maintenance/src/deletion.ts.
use personalisation_kings.Base.{
  ℕ, suc, ◌+◌, ◌*◌, Bool, false, not, ◌&&◌, ◌||◌, Option, none, some, List, [], ◌∷◌, ◌++◌, String,
  str_eq, any, all, ltb, leb, if◌then◌else◌, find_many, delete_many, update_many, length,
}
use personalisation_kings.Backoff.{retry_delay_ms}
use personalisation_kings.Storage.Keys.{
  StorageClass, temporary_upload, draft_customisation_asset, order_bound_customer_asset,
  preview_derivative, quarantined_file, is_object_key_for_tenant,
}
use personalisation_kings.Deletion.Json.{Json}
use personalisation_kings.Deletion.Plan.{DeletionPlan, parse_plan}
use personalisation_kings.Deletion.Tables.{
  Date, RequestStatus, is_processing, is_waiting, DeletionRequest, AssetVersion, Asset, is_archived,
  Session, Revision, ProofJob, live_storage_deleted, Db, member,
}
use personalisation_kings.Deletion.Prepare.{
  Attempt, done, threw, holds_claim, write_request, already_deleted, blocked, planned,
  prepare_deletion,
}

abbrev pub maximum_attempts : ℕ
maximum_attempts = 10

abbrev pub stale_claim_ms : ℕ
stale_claim_ms = 15 * 60 * 1000

-- `claimedAt < now - staleClaimMs`, false for null.
abbrev pub is_stale : Date → Option Date → Bool
is_stale now none = false
is_stale now (some at) = ltb (at + stale_claim_ms) now

abbrev pub is_claimable : Date → DeletionRequest → Bool
is_claimable now r =
    ((is_waiting r.status && leb r.next_attempt_at now)
      || (is_processing r.status && is_stale now r.claimed_at))
    && ltb r.attempts maximum_attempts

-- `ORDER BY "createdAt" ASC LIMIT 1`
unfoldable pub first_created : List DeletionRequest → Option DeletionRequest
first_created [] = none
first_created (r ∷ rs) = elim (first_created rs) [
  | none ↦ some r
  | some q ↦ if ltb q.created_at r.created_at then some q else some r
]

abbrev pub claimed : Date → DeletionRequest → DeletionRequest
claimed now r = record r {
  status = RequestStatus.processing;
  claimed_at = some now;
  attempts = r.attempts + 1;
  last_error = none;
}

-- `claimDeletionRequest`: the row as it is claimed, and the tables.
unfoldable pub claim_deletion_request : Date → Db → Option (DeletionRequest × Db)
claim_deletion_request now db = elim (first_created (find_many (is_claimable now) db.requests)) [
  | none ↦ none
  | some r ↦ some (
    claimed now r,
    record db { requests = update_many (λ q. str_eq q.id r.id) (claimed now) db.requests },
  )
]

-- `renewDeletionClaim`: the request with its new claim, and the tables.
unfoldable pub renew_deletion_claim : DeletionRequest → Date → Db → Attempt (DeletionRequest × Db)
renew_deletion_claim request now db =
    elim (write_request request (λ r. record r { claimed_at = some now })
      "Deletion request claim was lost before storage deletion" db) [
        | done written ↦ done (record request { claimed_at = some now }, written)
        | threw message ↦ threw message
      ]

-- The sessions that finalization deletes.
abbrev pub is_retired_session : DeletionRequest → DeletionPlan → Session → Bool
is_retired_session request plan s =
    member plan.session_ids s.id
    && (str_eq s.merchant_id request.merchant_id && is_archived s.status)

abbrev pub is_retired_version : DeletionRequest → DeletionPlan → AssetVersion → Bool
is_retired_version request plan v =
    member (plan.derivative_version_ids ++ plan.source_version_ids) v.id
    && (str_eq v.merchant_id request.merchant_id && v.is_deleted)

-- `versions: { none: {} }` among the versions that are left.
abbrev pub is_retired_asset : DeletionRequest → DeletionPlan → List AssetVersion → Asset → Bool
is_retired_asset request plan versions a =
    member (plan.derivative_asset_ids ++ plan.source_asset_ids) a.id
    && (str_eq a.merchant_id request.merchant_id
        && not (any (λ (v : AssetVersion). str_eq v.asset_id a.id) versions))

-- The three `deleteMany`; a session's revisions, and their proof jobs, go with it by the cascade of
-- the schema.
unfoldable pub delete_rows : DeletionRequest → DeletionPlan → Db → Db
delete_rows request plan db =
    let gone = find_many (is_retired_session request plan) db.sessions in
    let left =
      delete_many (λ (r : Revision). any (λ (s : Session). str_eq s.id r.session_id) gone)
        db.revisions in
    let versions = delete_many (is_retired_version request plan) db.versions in
    record db {
      sessions = delete_many (is_retired_session request plan) db.sessions;
      revisions = left;
      proofs =
          find_many
            (λ (p : ProofJob). any (λ (r : Revision). str_eq r.id p.customisation_revision_id) left)
            db.proofs;
      versions = versions;
      assets = delete_many (is_retired_asset request plan versions) db.assets;
    }

-- `finalizeDeletion`. `summary` is the JSON of the three counts, and `refused` an error of the
-- database, such as a row that another one still refers to.
unfoldable pub finalize_deletion :
    Option String → Json → DeletionRequest → Date → DeletionPlan → Db → Attempt Db
unfolding delete_rows
finalize_deletion (some message) summary request now plan db = threw message
finalize_deletion none summary request now plan db =
    elim (write_request request
      (λ r. record r {
        status = RequestStatus.live_deleted;
        live_deleted_at = some now;
        claimed_at = none;
        last_error = none;
        execution_plan = some summary;
      })
      "Deletion request claim was lost before finalization" (delete_rows request plan db)) [
        | done written ↦ done (record written {
          audit =
              written.audit
              ++ live_storage_deleted request.id (length plan.source_version_ids)
                  (length plan.derivative_version_ids) (length plan.session_ids)
                ∷ [];
        })
        | threw message ↦ threw message
      ]

-- What an attempt has done when it stops: the request with its last claim, the tables, the objects
-- that are gone from storage, and the error that stopped it.
pub record Progress : Type 0 where
  pub request : DeletionRequest
  pub db : Db
  pub erased : List String
  pub error : Option String

-- `erasableStorageClasses`
abbrev pub erasable_classes : List StorageClass
erasable_classes =
    temporary_upload ∷ draft_customisation_asset ∷ order_bound_customer_asset ∷ quarantined_file
    ∷ preview_derivative ∷ []

-- `deletionPlanKeysAreSafe`
unfoldable pub deletion_plan_keys_are_safe : List String → String → Bool
deletion_plan_keys_are_safe keys merchant_id =
    all (λ k. is_object_key_for_tenant k merchant_id erasable_classes) keys

-- What the environment gives to an attempt: the times of its steps, the error of storage on each
-- key, the summary, and an error of the last transaction.
pub record Environment : Type 0 where
  pub clock : ℕ → Date
  pub storage_error : String → Option String
  pub summary : Json
  pub refused : Option String

-- The loop over the keys; `n` counts the renewals.
unfoldable pub erase_objects : Environment → ℕ → List String → DeletionRequest → Db → Progress
erase_objects env n [] request db = record { request = request; db = db; erased = []; error = none }
erase_objects env n (key ∷ keys) request db = elim (renew_deletion_claim request (env.clock n) db) [
  | threw message ↦ record { request = request; db = db; erased = []; error = some message }
  | done (renewed, db₁) ↦ elim (env.storage_error key) [
    | some message ↦ record { request = renewed; db = db₁; erased = []; error = some message }
    | none ↦
        let rest = erase_objects env (suc n) keys renewed db₁ in
        record rest { erased = key ∷ rest.erased }
  ]
]

-- The last renewal and `finalizeDeletion`.
unfoldable pub finish : Environment → ℕ → DeletionPlan → Progress → Progress
finish env n plan p = elim (p.error) [
  | some message ↦ p
  | none ↦ elim (renew_deletion_claim p.request (env.clock n) p.db) [
    | threw message ↦ record p { error = some message }
    | done (renewed, db₁) ↦
        elim (finalize_deletion env.refused env.summary renewed (env.clock (suc n)) plan db₁) [
          | threw message ↦ record p { request = renewed; db = db₁; error = some message }
          | done db₂ ↦ record p { request = renewed; db = db₂ }
        ]
  ]
]

-- `deletionPlanKeysAreSafe`, the loop and the last transaction.
unfoldable pub erase : Environment → DeletionPlan → DeletionRequest → Db → Progress
unfolding erase_objects finish
erase env plan request db =
    if deletion_plan_keys_are_safe plan.object_keys request.merchant_id
    then finish env (length plan.object_keys) plan (erase_objects env 0 plan.object_keys request db)
    else record {
      request = request;
      db = db;
      erased = [];
      error = some "Deletion plan contains an object outside the merchant erasure boundary";
    }

-- The `try` block: the plan that is stored, or else the one that is prepared now.
unfoldable pub attempt_deletion : Environment → DeletionRequest → Date → Db → Progress
attempt_deletion env request now db = elim (parse_plan request.execution_plan) [
  | some plan ↦ erase env plan request db
  | none ↦ elim (prepare_deletion request now db) [
    | threw message ↦ record { request = request; db = db; erased = []; error = some message }
    | done (prepared, db₁) ↦ elim prepared [
      | already_deleted ↦ record { request = request; db = db₁; erased = []; error = none }
      | blocked ↦ record { request = request; db = db₁; erased = []; error = none }
      | planned plan ↦ erase env plan request db₁
    ]
  ]
]

abbrev pub released : Date → String → ℕ → DeletionRequest → DeletionRequest
released now message attempts r = record r {
  status = if leb maximum_attempts attempts then RequestStatus.failed else RequestStatus.pending;
  claimed_at = none;
  next_attempt_at = now + retry_delay_ms attempts;
  last_error = some message;
}

-- The `catch` block.
unfoldable pub settle_deletion : Date → Progress → Db
settle_deletion now p = elim (p.error) [
  | none ↦ p.db
  | some message ↦
      let db = p.db in
      record db {
        requests =
            update_many (holds_claim p.request) (released now message p.request.attempts)
              db.requests;
      }
]

-- `processNextDeletionRequest`: the objects that it erased, and the tables.
unfoldable pub process_next_deletion : Environment → Date → Date → Db → Option (List String × Db)
process_next_deletion env now later db = elim (claim_deletion_request now db) [
  | none ↦ none
  | some (request, db₁) ↦
      let p = attempt_deletion env request now db₁ in some (p.erased, settle_deletion later p)
]
