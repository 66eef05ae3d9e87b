-- ===== src/Deletion/Prepare.antt =====
-- `prepareDeletion`, `blockRequest` and `assertDeletionClaim` of
-- apps/worker-maintenance/src/deletion.ts: whether an upload may be erased, and what goes with it.
use personalisation_kings.Base.{
  Bool, true, not, ◌&&◌, ◌||◌, Option, none, some, List, [], ◌∷◌, ◌++◌, ◌==◌, String, str_eq, any,
  is_some, opt_eq, if◌then◌else◌, map, count, find_first, find_many, update_many,
}
use personalisation_kings.Deletion.Json.{Json, json_contains_exact}
use personalisation_kings.Deletion.Plan.{DeletionPlan, plan_json}
use personalisation_kings.Deletion.Tables.{
  Date, RequestStatus, is_processing, DeletionRequest, AssetVersion, Asset, DesignVersion,
  SessionStatus, is_in_production, Session, Revision, Snapshot, ProofJob, deletion_blocked,
  live_storage_deleted, Db, member, distinct,
}

-- What a transaction gives: its result, or the message of the error that rolls it back.
pub data Attempt (A : Type 0) : Type 0 where
  done : A → Attempt A
  threw : String → Attempt A

-- `where: { id, merchantId, status: "processing", claimedAt }`
abbrev pub holds_claim : DeletionRequest → DeletionRequest → Bool
holds_claim request r =
    str_eq r.id request.id
    && (str_eq r.merchant_id request.merchant_id
        && (is_processing r.status && opt_eq r.claimed_at request.claimed_at))

-- `asset: { kind: "upload" }`
abbrev pub is_upload : List Asset → AssetVersion → Bool
is_upload assets v =
    any
      (λ (a : Asset). str_eq a.id v.asset_id && (str_eq a.merchant_id v.merchant_id && a.is_upload))
      assets

-- The `where` clause of the source versions.
abbrev pub is_source : DeletionRequest → List Asset → AssetVersion → Bool
is_source request assets v =
    str_eq v.merchant_id request.merchant_id
    && ((if request.is_asset
          then str_eq v.asset_id request.subject_id
          else str_eq v.id request.subject_id)
        && (not (is_some v.deleted_at) && is_upload assets v))

-- A write of the request under its claim, with the message of the error when the claim is lost.
abbrev pub write_request :
    DeletionRequest → (DeletionRequest → DeletionRequest) → String → Db → Attempt Db
write_request request f message db =
    if count (holds_claim request) db.requests == 1
    then done (record db { requests = update_many (holds_claim request) f db.requests })
    else threw message

pub data Prepared : Type 0 where
  already_deleted blocked : Prepared
  planned : DeletionPlan → Prepared

-- `blockRequest`
unfoldable pub block_request : DeletionRequest → String → Db → Attempt (Prepared × Db)
block_request request reason db =
    elim (write_request request
      (λ r. record r {
        status = RequestStatus.blocked_ordered;
        claimed_at = none;
        eligibility_reason = some reason;
        last_error = none;
      })
      "Deletion request claim was lost before it could be blocked" db) [
        | done written ↦ done (
          blocked,
          record written { audit = written.audit ++ deletion_blocked request.id reason ∷ [] },
        )
        | threw message ↦ threw message
      ]

-- The branch without source versions.
unfoldable pub close_request : DeletionRequest → Date → Db → Attempt (Prepared × Db)
close_request request now db =
    elim (write_request request
      (λ r. record r {
        status = RequestStatus.live_deleted;
        live_deleted_at = some now;
        claimed_at = none;
        eligibility_reason = some "No live customer upload remained";
      })
      "Deletion request claim was lost during preparation" db) [
        | done written ↦ done (
          already_deleted,
          record written { audit = written.audit ++ live_storage_deleted request.id 0 0 0 ∷ [] },
        )
        | threw message ↦ threw message
      ]

abbrev pub revisions_of : Session → List Revision → List Revision
revisions_of s revisions = find_many (λ (r : Revision). str_eq r.session_id s.id) revisions

abbrev pub mentions : List String → Json → Json → Bool
mentions ids render_spec customer_inputs =
    json_contains_exact ids render_spec || json_contains_exact ids customer_inputs

-- The filter of `affectedSessions`.
abbrev pub is_affected : List String → List Revision → Session → Bool
is_affected ids revisions s =
    mentions ids s.render_spec s.customer_inputs
    || any (λ (r : Revision). mentions ids r.render_spec r.customer_inputs)
        (revisions_of s revisions)

-- The revision has a line item or an artwork snapshot.
abbrev pub is_bound : Db → Revision → Bool
is_bound db r =
    member db.ordered_revisions r.id
    || any (λ (x : Snapshot). str_eq x.customisation_revision_id r.id) db.snapshots

-- The test of `ordered`.
abbrev pub is_ordered : Db → Session → Bool
is_ordered db s = is_in_production s.status || any (is_bound db) (revisions_of s db.revisions)

abbrev pub version_of : Db → Option String → List AssetVersion
version_of db none = []
version_of db (some id) = elim (find_first (λ (v : AssetVersion). str_eq v.id id) db.versions) [
  | none ↦ []
  | some v ↦ v ∷ []
]

-- The preview and the proof of a revision.
unfoldable pub derivatives_of_revision : Db → Revision → List AssetVersion
derivatives_of_revision db r =
    version_of db r.preview_asset_version_id
    ++ (elim (find_first (λ (p : ProofJob). str_eq p.customisation_revision_id r.id) db.proofs) [
      | none ↦ []
      | some p ↦ version_of db p.proof_asset_version_id
    ])

unfoldable pub derivatives_of : Db → List Revision → List AssetVersion
derivatives_of db [] = []
derivatives_of db (r ∷ rs) = derivatives_of_revision db r ++ derivatives_of db rs

unfoldable pub session_derivatives : Db → List Session → List AssetVersion
session_derivatives db [] = []
session_derivatives db (s ∷ ss) =
    derivatives_of db (revisions_of s db.revisions) ++ session_derivatives db ss

unfoldable pub make_plan : List AssetVersion → List AssetVersion → List Session → DeletionPlan
make_plan sources derivatives affected = record {
  source_version_ids = map (λ (v : AssetVersion). v.id) sources;
  source_asset_ids = distinct (map (λ (v : AssetVersion). v.asset_id) sources);
  derivative_version_ids = distinct (map (λ (v : AssetVersion). v.id) derivatives);
  derivative_asset_ids = distinct (map (λ (v : AssetVersion). v.asset_id) derivatives);
  session_ids = map (λ (s : Session). s.id) affected;
  object_keys = distinct (map (λ (v : AssetVersion). v.object_key) (sources ++ derivatives));
}

abbrev pub of_sessions : List String → Db → String → Bool
of_sessions ids db revision_id =
    any (λ (r : Revision). str_eq r.id revision_id && member ids r.session_id) db.revisions

-- The writes that take the plan's rows out of use.
unfoldable pub retire_rows : DeletionRequest → Date → DeletionPlan → Db → Db
retire_rows request now plan db = record db {
  versions =
      update_many
        (λ (v : AssetVersion).
          member (plan.source_version_ids ++ plan.derivative_version_ids) v.id
          && str_eq v.merchant_id request.merchant_id)
        (λ v. record v { is_deleted = true; deleted_at = some now }) db.versions;
  sessions =
      update_many
        (λ (s : Session). member plan.session_ids s.id && str_eq s.merchant_id request.merchant_id)
        (λ s. record s { status = SessionStatus.archived; expires_at = some now }) db.sessions;
  proofs =
      update_many
        (λ (p : ProofJob).
          str_eq p.merchant_id request.merchant_id
          && of_sessions plan.session_ids db p.customisation_revision_id)
        (λ p. record p {
          is_failed = true;
          claimed_at = none;
          last_error = some "Cancelled by customer upload erasure";
        })
        db.proofs;
}

unfoldable pub store_plan : DeletionRequest → Date → DeletionPlan → Db → Attempt (Prepared × Db)
unfolding retire_rows
store_plan request now plan db =
    elim (write_request request
      (λ r. record r {
        execution_plan = some (plan_json plan);
        eligibility_reason = some "Eligible unordered customer upload";
        last_error = none;
      })
      "Deletion request claim was lost during preparation" (retire_rows request now plan db)) [
        | done written ↦ done (planned plan, written)
        | threw message ↦ threw message
      ]

-- The checks on what refers to the upload, and the plan if none of them holds.
unfoldable pub decide : DeletionRequest → Date → List AssetVersion → Db → Attempt (Prepared × Db)
decide request now sources db =
    let ids = map (λ (v : AssetVersion). v.id) sources in
    let affected =
      find_many
        (λ (s : Session).
          str_eq s.merchant_id request.merchant_id && is_affected ids db.revisions s)
        db.sessions in
    if any
      (λ (d : DesignVersion).
        str_eq d.merchant_id request.merchant_id && json_contains_exact ids d.scene_graph)
      db.designs
    then block_request request "Customer upload is referenced by an immutable design version" db
    else if any
        (λ (x : Snapshot).
          str_eq x.merchant_id request.merchant_id && json_contains_exact ids x.snapshot)
        db.snapshots
    then block_request request "Customer upload is retained in an order artwork snapshot" db
    else if any (is_ordered db) affected
    then block_request request "Customer upload is linked to an order or production record" db
    else store_plan request now (make_plan sources (session_derivatives db affected) affected) db

-- `prepareDeletion`
unfoldable pub prepare_deletion : DeletionRequest → Date → Db → Attempt (Prepared × Db)
prepare_deletion request now db =
    if count (holds_claim request) db.requests == 1
    then elim (find_many (is_source request db.assets) db.versions) [
      | [] ↦ close_request request now db
      | ◌∷◌ v vs ↦ decide request now (v ∷ vs) db
    ]
    else threw "Deletion request claim was lost before preparation"
