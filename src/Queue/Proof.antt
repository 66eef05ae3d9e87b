-- ===== src/Queue/Proof.antt =====
-- The proof queue: `claimProofJob`, `failProofJob` and `processNextProofJob` of
-- apps/worker-proof/src/index.ts. Rendering and object storage are not under this model: a step is
-- given what they return. A claim is fenced by its time, `claimedAt`.
use text.Mathlib.Text.{starts_with}
use personalisation_kings.Base.{
  ℕ, ◌+◌, ◌*◌, Bool, true, false, not, ◌&&◌, Option, none, some, List, [], ◌∷◌, ◌==◌, String, ltb,
  leb, is_some, opt_eq, if◌then◌else◌, count, find_first, find_many, update_many, str_eq,
}
use Prim.Native.String.{◌++◌ as concat}
use personalisation_kings.Backoff.{retry_delay_ms}

abbrev pub Date : Type 0
Date = ℕ

abbrev pub RowId : Type 0
RowId = ℕ

abbrev pub stale_claim_ms : ℕ
stale_claim_ms = 15 * 60 * 1000

pub data ProofJobStatus : Type 0 where
  queued running ready failed : ProofJobStatus

abbrev pub is_queued : ProofJobStatus → Bool
is_queued ProofJobStatus.queued = true
is_queued _ = false

abbrev pub is_running : ProofJobStatus → Bool
is_running ProofJobStatus.running = true
is_running _ = false

-- What `lastError` of a job says.
pub data ProofNote : Type 0 where
  recovered_stale_claim exhausted_before_completion exhausted_after_stale_claim : ProofNote
  recovered_by_reconciliation erased : ProofNote
  thrown : String → ProofNote

-- `ProofJob`
pub record ProofJob : Type 0 where
  pub id : RowId
  pub merchant_id : RowId
  pub customisation_revision_id : RowId
  pub proof_asset_version_id : Option RowId
  pub status : ProofJobStatus
  pub attempts : ℕ
  pub claimed_at : Option Date
  pub next_attempt_at : Date
  pub last_error : Option ProofNote
  pub created_at : Date
  pub updated_at : Date

-- The claim that a worker holds.
pub record ProofClaim : Type 0 where
  pub id : RowId
  pub merchant_id : RowId
  pub claimed_at : Date

-- `claimedAt: { lt: now - staleClaimMs }`, false for null.
abbrev pub is_stale : Date → Option Date → Bool
is_stale now none = false
is_stale now (some at) = ltb (at + stale_claim_ms) now

-- The first statement of the claim: stale claims go back to the queue.
unfoldable pub recover_stale_claims : Date → List ProofJob → List ProofJob
recover_stale_claims now =
    update_many (λ j. is_running j.status && is_stale now j.claimed_at)
      (λ j. record j {
        status = ProofJobStatus.queued;
        claimed_at = none;
        last_error = some recovered_stale_claim;
      })

abbrev pub is_due : ℕ → Date → ProofJob → Bool
is_due maximum_attempts now j =
    is_queued j.status && (leb j.next_attempt_at now && ltb j.attempts maximum_attempts)

-- `ORDER BY "createdAt" ASC LIMIT 1`
unfoldable pub first_created : List ProofJob → Option ProofJob
first_created [] = none
first_created (j ∷ js) = elim (first_created js) [
  | none ↦ some j
  | some k ↦ if ltb k.created_at j.created_at then some k else some j
]

abbrev pub started : Date → ProofJob → ProofJob
started now j = record j {
  status = ProofJobStatus.running;
  attempts = j.attempts + 1;
  claimed_at = some now;
}

abbrev pub is_candidate : ProofJob → ProofJob → Bool
is_candidate c j = j.id == c.id && (j.merchant_id == c.merchant_id && is_queued j.status)

-- The rest of the claim, on the table with the stale claims recovered.
unfoldable pub claim_due : ℕ → Date → List ProofJob → Option ProofClaim × List ProofJob
claim_due maximum_attempts now jobs =
    elim (first_created (find_many (is_due maximum_attempts now) jobs)) [
      | none ↦ (none, jobs)
      | some c ↦ (
        if count (is_candidate c) jobs == 1
            then some (record { id = c.id; merchant_id = c.merchant_id; claimed_at = now })
            else none,
        update_many (is_candidate c) (started now) jobs,
      )
    ]

unfoldable pub claim_proof_job : ℕ → Date → List ProofJob → Option ProofClaim × List ProofJob
claim_proof_job maximum_attempts now jobs =
    claim_due maximum_attempts now (recover_stale_claims now jobs)

-- `where: { id, merchantId, status: "running", claimedAt }`
abbrev pub holds_claim : ProofClaim → ProofJob → Bool
holds_claim c j =
    j.id == c.id
    && (j.merchant_id == c.merchant_id
        && (is_running j.status && opt_eq j.claimed_at (some c.claimed_at)))

pub data ProofOutcome : Type 0 where
  ready failed retry claim_lost : ProofOutcome

-- The update of the completing transaction; `none` is its "claim was lost" error.
unfoldable pub complete_proof_job : ProofClaim → RowId → List ProofJob → Option (List ProofJob)
complete_proof_job c asset_id jobs =
    if count (holds_claim c) jobs == 1
    then some (
        update_many (holds_claim c)
          (λ j. record j {
            status = ProofJobStatus.ready;
            proof_asset_version_id = some asset_id;
            claimed_at = none;
            last_error = none;
          })
          jobs)
    else none

abbrev pub given_up : ℕ → Date → String → ℕ → ProofJob → ProofJob
given_up maximum_attempts now message attempts j = record j {
  status = if leb maximum_attempts attempts then ProofJobStatus.failed else ProofJobStatus.queued;
  claimed_at = none;
  next_attempt_at = if leb maximum_attempts attempts then now else now + retry_delay_ms attempts;
  last_error = some (thrown message);
}

abbrev pub is_row : ProofClaim → ProofJob → Bool
is_row c j = j.id == c.id && j.merchant_id == c.merchant_id

-- `failProofJob`; its delay in seconds is `retry_delay_ms` in milliseconds.
unfoldable pub fail_proof_job :
    ℕ → Date → String → ProofClaim → List ProofJob → ProofOutcome × List ProofJob
fail_proof_job maximum_attempts now message c jobs = elim (find_first (is_row c) jobs) [
  | none ↦ (claim_lost, jobs)
  | some current ↦ (
    if count (holds_claim c) jobs == 1
        then (if leb maximum_attempts current.attempts then failed else retry)
        else claim_lost,
    update_many (holds_claim c) (given_up maximum_attempts now message current.attempts) jobs,
  )
]

-- The preview of the revision, as `processNextProofJob` reads it. A width of 0 is falsy.
pub record Preview : Type 0 where
  pub is_accepted : Bool
  pub deleted_at : Option Date
  pub content_type : String
  pub width_px : Option ℕ
  pub height_px : Option ℕ
  pub object_key : String

abbrev pub is_truthy : Option ℕ → Bool
is_truthy none = false
is_truthy (some n) = ltb 0 n

-- The preview is usable; `tenant` is the merchant's id as it stands in object keys.
unfoldable pub is_usable_preview : String → Preview → Bool
is_usable_preview tenant p =
    p.is_accepted
    && (not (is_some p.deleted_at)
        && (str_eq p.content_type "image/svg+xml"
            && (is_truthy p.width_px
                && (is_truthy p.height_px
                    && starts_with p.object_key
                        (concat "preview_derivative/" (concat tenant "/"))))))

-- One job after its claim: the preview that is found, and what rendering and storing it gives,
-- an asset or the message of the error that it throws.
pub data Rendered : Type 0 where
  stored : RowId → Rendered
  threw : String → Rendered

unfoldable pub finish_proof_job :
    ℕ
    → Date
    → ProofClaim
    → String
    → Option Preview
    → Rendered
    → List ProofJob
    → ProofOutcome × List ProofJob
finish_proof_job maximum_attempts now c tenant none rendered jobs =
    fail_proof_job maximum_attempts now "The revision preview is unavailable or invalid" c jobs
finish_proof_job maximum_attempts now c tenant (some p) (threw message) jobs =
    fail_proof_job maximum_attempts now
      (if is_usable_preview tenant p
        then message
        else "The revision preview is unavailable or invalid")
      c jobs
finish_proof_job maximum_attempts now c tenant (some p) (stored asset_id) jobs =
    if is_usable_preview tenant p
    then elim (complete_proof_job c asset_id jobs) [
      | none ↦
          fail_proof_job maximum_attempts now "Proof job claim was lost before completion" c jobs
      | some done ↦ (ready, done)
    ]
    else fail_proof_job maximum_attempts now "The revision preview is unavailable or invalid" c jobs
