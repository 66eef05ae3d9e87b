-- ===== src/Artifacts/Cleanup.antt =====
-- The removal of expired artifacts: `cleanupExpiredGeneratedArtifacts` of
-- apps/worker-maintenance/src/artifact-cleanup.ts. Counters of telemetry are left out.
use Prim.Native.String.{◌++◌ as concat}
use text.Mathlib.Text.{starts_with}
use personalisation_kings.Base.{
  ℕ, suc, ◌+◌, ◌*◌, Bool, true, false, not, ◌&&◌, ◌==◌, Option, none, some, List, [], ◌∷◌, ◌++◌,
  String, leb, ltb, is_some, str_eq, opt_eq, if◌then◌else◌, count, find_first, find_many,
  update_many, take, length,
}
use personalisation_kings.Backoff.{retry_delay_ms}
use personalisation_kings.Connector.Types.{PrintJobStatus}
use personalisation_kings.Artifacts.Types.{
  Date, Artifact, cleanup_production_bytes, Db, artifact_retention_held, is_unleased,
}

abbrev pub stale_claim_ms : ℕ
stale_claim_ms = 15 * 60 * 1000

abbrev pub day_ms : ℕ
day_ms = 24 * 60 * 60 * 1000

abbrev pub is_settled : PrintJobStatus → Bool
is_settled PrintJobStatus.queued = false
is_settled PrintJobStatus.running = false
is_settled _ = true

abbrev pub is_unclaimed : Date → Option Date → Bool
is_unclaimed now none = true
is_unclaimed now (some at) = ltb (at + stale_claim_ms) now

-- The `where` clause of the query and of the claim; `days` is the merchant's retention.
unfoldable pub is_expired : Date → String → ℕ → Artifact → Bool
unfolding artifact_retention_held is_unleased
is_expired now merchant_id days a =
    str_eq a.merchant_id merchant_id
    && (not (is_some a.bytes_deleted_at)
        && (ltb (a.created_at + days * day_ms) now
            && (leb a.next_cleanup_attempt_at now
                && (starts_with a.object_key
                      (concat "production_artifact/" (concat merchant_id "/"))
                    && (is_unclaimed now a.cleanup_claimed_at
                        && (is_unleased now a
                            && (not (artifact_retention_held now a)
                                && (is_some a.attempt_finished_at
                                    && is_settled a.print_job_status))))))))

abbrev pub claimed : Date → ℕ → Artifact → Artifact
claimed now token a = record a {
  cleanup_claimed_at = some now;
  cleanup_claim_token = some token;
  cleanup_attempts = a.cleanup_attempts + 1;
  last_cleanup_error = none;
}

abbrev pub is_named : String → Artifact → Bool
is_named id a = str_eq a.id id

abbrev pub claims : Date → String → ℕ → String → Artifact → Bool
claims now merchant_id days id a = is_named id a && is_expired now merchant_id days a

-- `where: { id, merchantId, bytesDeletedAt: null, cleanupClaimToken }`
abbrev pub holds_claim : Artifact → ℕ → Artifact → Bool
holds_claim artifact token a =
    is_named artifact.id a
    && (str_eq a.merchant_id artifact.merchant_id
        && (not (is_some a.bytes_deleted_at) && opt_eq a.cleanup_claim_token (some token)))

abbrev pub emptied : Date → Artifact → Artifact
emptied at a = record a {
  bytes_deleted_at = some at;
  cleanup_claimed_at = none;
  cleanup_claim_token = none;
  last_cleanup_error = none;
  download_lease_until = none;
}

abbrev pub postponed : Date → ℕ → String → Artifact → Artifact
postponed at attempts message a = record a {
  next_cleanup_attempt_at = at + retry_delay_ms attempts;
  last_cleanup_error = some message;
}

-- What a run has done so far; `erased` are the keys whose objects are gone.
pub record Progress : Type 0 where
  pub db : Db
  pub erased : List String
  pub deleted : ℕ
  pub failures : ℕ
  pub bytes_deleted : ℕ

-- The errors of storage and of the last transaction, and the clock where they end. A message is
-- cut to 1000 characters by the code.
pub record Environment : Type 0 where
  pub storage_error : String → Option String
  pub refused : String → Option String
  pub finished : Date

-- The `catch` block.
unfoldable pub postpone : Environment → ℕ → Artifact → String → Progress → Progress
postpone env token artifact message p = record p {
  failures = p.failures + 1;
  db = record (p.db) {
    artifacts =
        update_many (holds_claim artifact token)
          (postponed env.finished artifact.cleanup_attempts message) p.db.artifacts;
  };
}

-- The transaction after the object is gone.
unfoldable pub complete : Environment → ℕ → Artifact → Progress → Progress
complete env token artifact p =
    if count (holds_claim artifact token) p.db.artifacts == 1
    then record p {
      deleted = p.deleted + 1;
      db = record {
        artifacts = update_many (holds_claim artifact token) (emptied env.finished) p.db.artifacts;
        audit = p.db.audit ++ cleanup_production_bytes artifact.id ∷ [];
      };
    }
    else record p {
      db = record (p.db) {
        artifacts = update_many (holds_claim artifact token) (emptied env.finished) p.db.artifacts;
      };
    }

-- The `try` block, for the row as it is claimed.
unfoldable pub erase_artifact : Environment → ℕ → Artifact → Progress → Progress
unfolding postpone complete
erase_artifact env token artifact p = elim (env.storage_error artifact.object_key) [
  | some message ↦ postpone env token artifact message p
  | none ↦
      let gone : Progress = record p {
        erased = artifact.object_key ∷ p.erased;
        bytes_deleted = p.bytes_deleted + artifact.byte_size;
      } in
      elim (env.refused artifact.id) [
        | some message ↦ postpone env token artifact message gone
        | none ↦ complete env token artifact gone
      ]
]

-- `orderBy: { createdAt: "asc" }`
unfoldable pub insert_by_age : Artifact → List Artifact → List Artifact
insert_by_age a [] = a ∷ []
insert_by_age a (b ∷ bs) =
    let rest = insert_by_age a bs in if ltb b.created_at a.created_at then b ∷ rest else a ∷ b ∷ bs

unfoldable pub by_age : List Artifact → List Artifact
unfolding insert_by_age
by_age [] = []
by_age (a ∷ rest) = insert_by_age a (by_age rest)

-- A row of `merchantSettings`.
pub record Setting : Type 0 where
  pub merchant_id : String
  pub production_artifact_retention_days : ℕ

-- The query of a merchant's candidates.
unfoldable pub find_candidates : Date → ℕ → Setting → Db → List Artifact
unfolding is_expired by_age
find_candidates now batch_size s db = take batch_size (
    by_age
      (find_many (is_expired now s.merchant_id s.production_artifact_retention_days) db.artifacts))

-- `isProductionArtifactKey` of packages/storage/src/artifact.ts.
module _ (is_production_artifact_key : String → String → Bool) (env : Environment)
    (now : Date) where
  -- A claim that was won: the row is read again by its token.
  unfoldable pub erase_claimed : String → ℕ → String → Progress → Progress
  unfolding erase_artifact
  erase_claimed merchant_id token id p =
      elim (find_first
        (λ (a : Artifact).
          is_named id a
          && (str_eq a.merchant_id merchant_id && opt_eq a.cleanup_claim_token (some token)))
        p.db.artifacts) [
          | none ↦ p
          | some artifact ↦
              if is_production_artifact_key artifact.object_key artifact.merchant_id
              then erase_artifact env token artifact p
              else p
        ]

  -- One round of the inner loop; `token` is the round's `randomUUID()`.
  unfoldable pub clean_candidate : String → ℕ → ℕ → String → Progress → Progress
  unfolding is_expired erase_claimed
  clean_candidate merchant_id days token id p =
      let claimed_p : Progress = record p {
        db = record (p.db) {
          artifacts =
              update_many (claims now merchant_id days id) (claimed now token) p.db.artifacts;
        };
      } in
      if count (claims now merchant_id days id) p.db.artifacts == 1
      then erase_claimed merchant_id token id claimed_p
      else claimed_p

  unfoldable pub clean_candidates : String → ℕ → ℕ → List Artifact → Progress → Progress
  clean_candidates merchant_id days token [] p = p
  clean_candidates merchant_id days token (a ∷ rest) p =
      clean_candidates merchant_id days (suc token) rest
        (clean_candidate merchant_id days token a.id p)

  -- One round of the outer loop.
  unfoldable pub clean_setting : ℕ → ℕ → Setting → Progress → Progress
  unfolding find_candidates clean_candidates
  clean_setting batch_size token s p =
      if ltb s.production_artifact_retention_days 1
      then p
      else clean_candidates s.merchant_id s.production_artifact_retention_days token
          (find_candidates now batch_size s p.db) p

  unfoldable pub clean_settings : ℕ → ℕ → List Setting → Progress → Progress
  unfolding clean_setting
  clean_settings batch_size token [] p = p
  clean_settings batch_size token (s ∷ rest) p =
      clean_settings batch_size (token + length (find_candidates now batch_size s p.db)) rest
        (clean_setting batch_size token s p)

  -- `cleanupExpiredGeneratedArtifacts`
  unfoldable pub cleanup_expired_generated_artifacts : ℕ → ℕ → List Setting → Db → Progress
  unfolding clean_settings
  cleanup_expired_generated_artifacts batch_size token settings db =
      clean_settings batch_size token settings
        (record { db = db; erased = []; deleted = 0; failures = 0; bytes_deleted = 0 })
