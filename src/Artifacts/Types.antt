-- ===== src/Artifacts/Types.antt =====
-- `GeneratedArtifact` of packages/db/prisma/schema.prisma, with what its print job says of it, and
-- the audit events of its operations. A date is its milliseconds.
use personalisation_kings.Base.{
  ℕ, Bool, true, not, ◌&&◌, Option, none, some, List, String, ltb, is_some,
}
use personalisation_kings.Connector.Types.{PrintJobStatus}

abbrev pub Date : Type 0
Date = ℕ

-- `attempt_finished_at` and `print_job_status` are those of the artifact's print job.
pub record Artifact : Type 0 where
  pub id : String
  pub merchant_id : String
  pub object_key : String
  pub byte_size : ℕ
  pub bytes_deleted_at : Option Date
  pub cleanup_claimed_at : Option Date
  pub cleanup_claim_token : Option ℕ
  pub cleanup_attempts : ℕ
  pub next_cleanup_attempt_at : Date
  pub last_cleanup_error : Option String
  pub download_lease_until : Option Date
  pub retention_hold_at : Option Date
  pub retention_hold_until : Option Date
  pub retention_hold_reason : Option String
  pub retention_hold_set_by_user_id : Option String
  pub created_at : Date
  pub attempt_finished_at : Option Date
  pub print_job_status : PrintJobStatus

pub data AuditEvent : Type 0 where
  cleanup_production_bytes download_url_create : String → AuditEvent
  retention_hold_set retention_hold_released : String → AuditEvent

pub record Db : Type 0 where
  pub artifacts : List Artifact
  pub audit : List AuditEvent

-- `artifactRetentionHeld`, and the condition under `NOT` of the claim.
unfoldable pub artifact_retention_held : Date → Artifact → Bool
artifact_retention_held now a =
    is_some a.retention_hold_at
    && elim (a.retention_hold_until) [ none ↦ true | some until ↦ ltb now until ]

-- `artifactBytesAvailable`
unfoldable pub artifact_bytes_available : Artifact → Bool
artifact_bytes_available a = not (is_some a.bytes_deleted_at) && not (is_some a.cleanup_claimed_at)

-- `{ OR: [{ downloadLeaseUntil: null }, { downloadLeaseUntil: { lt: now } }] }`
unfoldable pub is_unleased : Date → Artifact → Bool
is_unleased now a = elim (a.download_lease_until) [ none ↦ true | some until ↦ ltb until now ]
