-- ===== src/Artifacts/Access.antt =====
-- The routes of a production artifact: `POST` of download/route.ts, and `POST` and `DELETE` of
-- retention-hold/route.ts, under apps/web-admin/app/api/generated-artifacts/[artifactId]. Access to
-- a route is checked before, and gives the merchant. And the read of an object by
-- apps/api/src/objects.ts.
use personalisation_kings.Base.{
  ℕ, ◌+◌, ◌*◌, max, Bool, true, ◌&&◌, ◌==◌, Option, none, some, [], ◌∷◌, ◌++◌, String, leb, ltb,
  is_some, str_eq, if◌then◌else◌, count, find_first, update_many, any,
}
use personalisation_kings.Storage.Keys.{is_object_key}
use personalisation_kings.Artifacts.Types.{
  Date, Artifact, AuditEvent, download_url_create, retention_hold_set, retention_hold_released, Db,
  artifact_bytes_available,
}

pub data Answer : Type 0 where
  granted not_found invalid_key invalid_hold bytes_unavailable cleanup_in_progress : Answer

abbrev pub is_owned : String → String → Artifact → Bool
is_owned id merchant_id a = str_eq a.id id && str_eq a.merchant_id merchant_id

-- An `updateMany` of which exactly one row must be hit, or else `refusal`.
abbrev pub update_one :
    Answer → AuditEvent → (Artifact → Bool) → (Artifact → Artifact) → Db → Answer × Db
update_one refusal event p f db =
    if count p db.artifacts == 1
    then (
      granted,
      record { artifacts = update_many p f db.artifacts; audit = db.audit ++ event ∷ [] },
    )
    else (refusal, record db { artifacts = update_many p f db.artifacts })

-- `GREATEST(COALESCE("downloadLeaseUntil", leaseUntil), leaseUntil)`
abbrev pub leased : Date → Artifact → Artifact
leased until a = record a {
  download_lease_until = elim (a.download_lease_until) [
    | none ↦ some until
    | some old ↦ some (max old until)
  ];
}

abbrev pub can_lease : Artifact → Artifact → Bool
can_lease found a =
    is_owned found.id found.merchant_id a
    && (str_eq a.object_key found.object_key && artifact_bytes_available a)

unfoldable pub issue_download : (String → String → Bool) → Date → String → String → Db → Answer × Db
unfolding artifact_bytes_available
issue_download is_production_artifact_key now merchant_id id db =
    elim (find_first (is_owned id merchant_id) db.artifacts) [
      | none ↦ (not_found, db)
      | some a ↦
          if is_object_key a.object_key && is_production_artifact_key a.object_key merchant_id
          then update_one bytes_unavailable (download_url_create id) (can_lease a)
              (leased (now + 330000)) db
          else (invalid_key, db)
    ]

abbrev pub maximum_hold_ms : ℕ
maximum_hold_ms = 10 * 365 * 24 * 60 * 60 * 1000

abbrev pub is_hold_expiry : Date → Option Date → Bool
is_hold_expiry now none = true
is_hold_expiry now (some until) = ltb now until && leb until (now + maximum_hold_ms)

-- The body of the request, as `holdSchema` lets it through, and the user of the session.
pub record Hold : Type 0 where
  pub until : Option Date
  pub reason : String
  pub user_id : String

abbrev pub held : Date → Hold → Artifact → Artifact
held now hold a = record a {
  retention_hold_at = some now;
  retention_hold_until = hold.until;
  retention_hold_reason = some hold.reason;
  retention_hold_set_by_user_id = some hold.user_id;
}

unfoldable pub set_retention_hold : Date → Hold → String → String → Db → Answer × Db
unfolding artifact_bytes_available
set_retention_hold now hold merchant_id id db =
    if is_hold_expiry now hold.until
    then elim (find_first (is_owned id merchant_id) db.artifacts) [
      | none ↦ (not_found, db)
      | some a ↦
          if is_some a.bytes_deleted_at
          then (invalid_hold, db)
          else update_one cleanup_in_progress (retention_hold_set id)
              (λ x. is_owned id merchant_id x && artifact_bytes_available x) (held now hold) db
    ]
    else (invalid_hold, db)

abbrev pub unheld : Date → Artifact → Artifact
unheld now a = record a {
  retention_hold_at = none;
  retention_hold_until = none;
  retention_hold_reason = none;
  retention_hold_set_by_user_id = none;
  next_cleanup_attempt_at = now;
}

unfoldable pub release_retention_hold : Date → String → String → Db → Answer × Db
release_retention_hold now merchant_id id db =
    update_one not_found (retention_hold_released id)
      (λ x. is_owned id merchant_id x && is_some x.retention_hold_at) (unheld now) db

abbrev pub can_read : String → Artifact → Bool
can_read key a = str_eq a.object_key key && artifact_bytes_available a

-- The read of an object by `handleObjectRequest`, up to whether there is one to send: a live asset
-- version has the key, which is what `is_version` says, or an artifact is leased for the read.
unfoldable pub serve_object : Bool → Date → String → Db → Bool × Db
unfolding artifact_bytes_available
serve_object is_version now key db = if is_version then (true, db) else (
  any (can_read key) db.artifacts,
  record db { artifacts = update_many (can_read key) (leased (now + 300000)) db.artifacts },
)
