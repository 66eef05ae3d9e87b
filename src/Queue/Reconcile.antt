-- ===== src/Queue/Reconcile.antt =====
-- Queue reconciliation: apps/worker-maintenance/src/reconciliation.ts. A plan is made from a row
-- as it was read and applied by a compare-and-set on the columns that it was made from.
use personalisation_kings.Base.{
  ℕ, ◌+◌, Bool, true, false, not, ◌&&◌, ◌||◌, Option, none, some, List, [], ◌∷◌, ◌==◌, ltb, leb,
  opt_eq, if◌then◌else◌, take, count, find_many, update_many,
}
use personalisation_kings.Queue.Proof.{
  Date, RowId, stale_claim_ms, ProofJobStatus, ProofNote, exhausted_before_completion,
  exhausted_after_stale_claim, recovered_by_reconciliation, ProofJob,
}

-- The columns that a plan reads, `LeasedJobState`, with the two statuses of either queue.
pub data LeaseStatus : Type 0 where
  waiting leased settled : LeaseStatus

pub record LeasedJobState : Type 0 where
  pub status : LeaseStatus
  pub attempts : ℕ
  pub claimed_at : Option Date

abbrev pub is_waiting : LeaseStatus → Bool
is_waiting waiting = true
is_waiting _ = false

abbrev pub is_leased : LeaseStatus → Bool
is_leased leased = true
is_leased _ = false

-- `failed` and the status of a waiting job are the two that a plan sets.
pub data RepairPlan : Type 0 where
  fail requeue : ProofNote → RepairPlan

-- `job.claimedAt && job.claimedAt.getTime() >= now - staleClaimMs`
abbrev pub is_live_claim : Date → Option Date → Bool
is_live_claim now none = false
is_live_claim now (some at) = leb now (at + stale_claim_ms)

-- `planProofRepair` and `planDeletionRepair`, which differ in the names of the statuses and in
-- their messages.
unfoldable pub plan_repair : LeasedJobState → Date → ℕ → Option RepairPlan
plan_repair job now maximum_attempts =
    if is_waiting job.status && leb maximum_attempts job.attempts
    then some (fail exhausted_before_completion)
    else if not (is_leased job.status) || is_live_claim now job.claimed_at
    then none
    else if leb maximum_attempts job.attempts
    then some (fail exhausted_after_stale_claim)
    else some (requeue recovered_by_reconciliation)

-- `claimedAt: null` or `claimedAt: { lt: staleBefore }`
abbrev pub is_abandoned : Date → Option Date → Bool
is_abandoned now none = true
is_abandoned now (some at) = ltb (at + stale_claim_ms) now

-- The `where` clause of the two repairs.
unfoldable pub needs_repair : Date → ℕ → LeasedJobState → Bool
needs_repair now maximum_attempts job =
    (is_waiting job.status && leb maximum_attempts job.attempts)
    || (is_leased job.status && is_abandoned now job.claimed_at)

abbrev pub proof_lease_status : ProofJobStatus → LeaseStatus
proof_lease_status ProofJobStatus.queued = waiting
proof_lease_status ProofJobStatus.running = leased
proof_lease_status _ = settled

abbrev pub proof_lease : ProofJob → LeasedJobState
proof_lease j = record {
  status = proof_lease_status j.status;
  attempts = j.attempts;
  claimed_at = j.claimed_at;
}

abbrev pub planned_status : RepairPlan → ProofJobStatus
planned_status (fail _) = ProofJobStatus.failed
planned_status (requeue _) = ProofJobStatus.queued

abbrev pub planned_reason : RepairPlan → ProofNote
planned_reason (fail note) = note
planned_reason (requeue note) = note

abbrev pub repaired : RepairPlan → Date → ProofJob → ProofJob
repaired plan now j = record j {
  status = planned_status plan;
  claimed_at = none;
  next_attempt_at = now;
  last_error = some (planned_reason plan);
}

abbrev pub same_status : ProofJobStatus → ProofJobStatus → Bool
same_status ProofJobStatus.queued ProofJobStatus.queued = true
same_status ProofJobStatus.running ProofJobStatus.running = true
same_status ProofJobStatus.ready ProofJobStatus.ready = true
same_status ProofJobStatus.failed ProofJobStatus.failed = true
same_status _ _ = false

-- The compare of `applyRepair`: the row is as it was read.
abbrev pub is_as_read : ProofJob → ProofJob → Bool
is_as_read r j =
    j.id == r.id
    && (j.merchant_id == r.merchant_id
        && (same_status j.status r.status
            && (j.attempts == r.attempts && opt_eq j.claimed_at r.claimed_at)))

-- `applyRepair` on the proof queue: the table, and whether a row was repaired and audited.
unfoldable pub apply_repair : RepairPlan → Date → ProofJob → List ProofJob → ℕ × List ProofJob
apply_repair plan now read jobs = (
  if count (is_as_read read) jobs == 1 then 1 else 0,
  update_many (is_as_read read) (repaired plan now) jobs,
)

-- The loop of `repairProofJobs` over the rows that were read.
unfoldable pub repair_rows : Date → ℕ → List ProofJob → List ProofJob → ℕ × List ProofJob
repair_rows now maximum_attempts [] jobs = (0, jobs)
repair_rows now maximum_attempts (read ∷ rest) jobs =
    elim (plan_repair (proof_lease read) now maximum_attempts) [
      | none ↦ repair_rows now maximum_attempts rest jobs
      | some plan ↦
          let (n, jobs₁) = apply_repair plan now read jobs in
          let (m, jobs₂) = repair_rows now maximum_attempts rest jobs₁ in (n + m, jobs₂)
    ]

-- `orderBy: { updatedAt: "asc" }`, by insertion.
unfoldable pub insert_by_update : ProofJob → List ProofJob → List ProofJob
insert_by_update j [] = j ∷ []
insert_by_update j (k ∷ ks) =
    if leb j.updated_at k.updated_at then j ∷ k ∷ ks else k ∷ insert_by_update j ks

unfoldable pub by_update : List ProofJob → List ProofJob
by_update [] = []
by_update (j ∷ js) = insert_by_update j (by_update js)

abbrev pub is_of : Option RowId → ProofJob → Bool
is_of none j = true
is_of (some m) j = j.merchant_id == m

-- `repairProofJobs`
unfoldable pub repair_proof_jobs : Date → ℕ → ℕ → Option RowId → List ProofJob → ℕ × List ProofJob
repair_proof_jobs now maximum_attempts batch_size merchant_id jobs =
    repair_rows now maximum_attempts
      (take batch_size (
        by_update (
          find_many (λ j. is_of merchant_id j && needs_repair now maximum_attempts (proof_lease j))
            jobs)))
      jobs
