-- ===== src/Deletion/Tables.antt =====
-- The rows that the erasure of apps/worker-maintenance/src/deletion.ts reads and writes, from
-- packages/db/prisma/schema.prisma. Keys are text, since JSON columns name rows by them.
use personalisation_kings.Base.{
  ℕ, Bool, true, false, not, Option, List, [], ◌∷◌, String, str_eq, any, find_many,
}
use personalisation_kings.Deletion.Json.{Json}

abbrev pub Date : Type 0
Date = ℕ

-- `DeletionRequestStatus`; a later step outside this worker moves a request to `completed`.
pub data RequestStatus : Type 0 where
  pending processing blocked_ordered live_deleted completed failed : RequestStatus

abbrev pub is_processing : RequestStatus → Bool
is_processing RequestStatus.processing = true
is_processing _ = false

-- `status IN ('pending', 'failed')`
abbrev pub is_waiting : RequestStatus → Bool
is_waiting RequestStatus.pending = true
is_waiting RequestStatus.failed = true
is_waiting _ = false

-- `DeletionRequest`; `is_asset` is `subjectType === "Asset"`.
pub record DeletionRequest : Type 0 where
  pub id : String
  pub merchant_id : String
  pub is_asset : Bool
  pub subject_id : String
  pub status : RequestStatus
  pub live_deleted_at : Option Date
  pub claimed_at : Option Date
  pub next_attempt_at : Date
  pub attempts : ℕ
  pub last_error : Option String
  pub eligibility_reason : Option String
  pub execution_plan : Option Json
  pub created_at : Date

-- `AssetVersion`; `is_deleted` is `validationStatus = deleted`.
pub record AssetVersion : Type 0 where
  pub id : String
  pub merchant_id : String
  pub asset_id : String
  pub object_key : String
  pub is_deleted : Bool
  pub deleted_at : Option Date

-- `Asset`; `is_upload` is `kind = upload`.
pub record Asset : Type 0 where
  pub id : String
  pub merchant_id : String
  pub is_upload : Bool

pub record DesignVersion : Type 0 where
  pub merchant_id : String
  pub scene_graph : Json

pub data SessionStatus : Type 0 where
  draft committed ordered ready needs_review failed cancelled archived : SessionStatus

abbrev pub is_archived : SessionStatus → Bool
is_archived SessionStatus.archived = true
is_archived _ = false

-- `["ordered", "ready", "needs_review"].includes(status)`
abbrev pub is_in_production : SessionStatus → Bool
is_in_production SessionStatus.ordered = true
is_in_production SessionStatus.ready = true
is_in_production SessionStatus.needs_review = true
is_in_production _ = false

pub record Session : Type 0 where
  pub id : String
  pub merchant_id : String
  pub status : SessionStatus
  pub render_spec : Json
  pub customer_inputs : Json
  pub expires_at : Option Date

pub record Revision : Type 0 where
  pub id : String
  pub session_id : String
  pub render_spec : Json
  pub customer_inputs : Json
  pub preview_asset_version_id : Option String

pub record Snapshot : Type 0 where
  pub merchant_id : String
  pub customisation_revision_id : String
  pub snapshot : Json

-- `ProofJob`; `is_failed` is `status = failed`.
pub record ProofJob : Type 0 where
  pub merchant_id : String
  pub customisation_revision_id : String
  pub proof_asset_version_id : Option String
  pub is_failed : Bool
  pub claimed_at : Option Date
  pub last_error : Option String

-- An audit event of an erasure, by its action.
pub data Audit : Type 0 where
  deletion_blocked : String → String → Audit
  live_storage_deleted : String → ℕ → ℕ → ℕ → Audit

-- The tables. `ordered_revisions` are the revisions that line items refer to.
pub record Db : Type 0 where
  pub requests : List DeletionRequest
  pub versions : List AssetVersion
  pub assets : List Asset
  pub designs : List DesignVersion
  pub sessions : List Session
  pub revisions : List Revision
  pub ordered_revisions : List String
  pub snapshots : List Snapshot
  pub proofs : List ProofJob
  pub audit : List Audit

abbrev pub member : List String → String → Bool
member ids id = any (λ x. str_eq x id) ids

-- `[...new Set(ids)]`
unfoldable pub distinct : List String → List String
distinct [] = []
distinct (x ∷ xs) = x ∷ find_many (λ y. not (str_eq x y)) (distinct xs)
