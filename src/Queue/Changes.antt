-- ===== src/Queue/Changes.antt =====
-- The writes to the proof queue from outside its workers: the erasure of uploads, `prepareDeletion`
-- of apps/worker-maintenance/src/deletion.ts; a committed revision's preview, apps/api/src/preview.ts;
-- and `recreateMissingProofJobs` of apps/worker-maintenance/src/reconciliation.ts.
use personalisation_kings.Base.{
  Bool, not, ◌&&◌, Option, none, some, List, [], ◌∷◌, ◌++◌, ◌==◌, any, if◌then◌else◌, find_many,
  update_many,
}
use personalisation_kings.Queue.Proof.{Date, RowId, ProofJobStatus, erased, ProofJob}

abbrev pub cancelled : ProofJob → ProofJob
cancelled j = record j {
  status = ProofJobStatus.failed;
  claimed_at = none;
  last_error = some erased;
}

-- `is_planned` says of a revision that it is of a session of the plan.
unfoldable pub cancel_proof_jobs : RowId → (RowId → Bool) → List ProofJob → List ProofJob
cancel_proof_jobs merchant_id is_planned =
    update_many (λ j. j.merchant_id == merchant_id && is_planned j.customisation_revision_id)
      cancelled

abbrev pub stays : (RowId → Bool) → ProofJob → Bool
stays is_gone j = not (is_gone j.customisation_revision_id)

-- The jobs that go with their revisions, when the sessions or the merchant are deleted.
unfoldable pub remove_proof_jobs : (RowId → Bool) → List ProofJob → List ProofJob
remove_proof_jobs is_gone = find_many (stays is_gone)

-- A row with the defaults of the schema.
abbrev pub new_proof_job : RowId → RowId → RowId → Date → ProofJob
new_proof_job id merchant_id revision_id now = record {
  id = id;
  merchant_id = merchant_id;
  customisation_revision_id = revision_id;
  proof_asset_version_id = none;
  status = ProofJobStatus.queued;
  attempts = 0;
  claimed_at = none;
  next_attempt_at = now;
  last_error = none;
  created_at = now;
  updated_at = now;
}

abbrev pub is_for : RowId → ProofJob → Bool
is_for revision_id j = j.customisation_revision_id == revision_id

-- The `create` of the preview's transaction; `none` is the error of a second job of the revision.
unfoldable pub create_proof_job :
    RowId → RowId → RowId → Date → List ProofJob → Option (List ProofJob)
create_proof_job id merchant_id revision_id now jobs =
    if any (is_for revision_id) jobs
    then none
    else some (jobs ++ new_proof_job id merchant_id revision_id now ∷ [])

-- The insert of the recreation; `is_eligible` says whether the revision, its session and its preview
-- still meet the conditions of the statement.
unfoldable pub recreate_proof_job :
    Bool → RowId → RowId → RowId → Date → List ProofJob → List ProofJob
recreate_proof_job is_eligible id merchant_id revision_id now jobs =
    if is_eligible && not (any (is_for revision_id) jobs)
    then jobs ++ new_proof_job id merchant_id revision_id now ∷ []
    else jobs
