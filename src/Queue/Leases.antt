-- ===== src/Queue/Leases.antt =====
-- What may happen to the proof queue: each transaction that writes to it.
use personalisation_kings.Base.{ℕ, ◌≡◌, Bool, Option, some, List, ◌==◌, String, count, update_many}
use personalisation_kings.Queue.Proof.{
  Date, RowId, ProofJob, ProofClaim, claim_proof_job, holds_claim, given_up, Preview, Rendered,
  finish_proof_job,
}
use personalisation_kings.Queue.Reconcile.{RepairPlan, plan_repair, proof_lease, apply_repair}
use personalisation_kings.Queue.Changes.{
  cancel_proof_jobs, remove_proof_jobs, create_proof_job, recreate_proof_job,
}
use personalisation_kings.Queue.Invariant.{
  IsQueue, claim_proof_job-IsQueue, finish_proof_job-IsQueue, given_up-IsQueue,
  apply_repair-IsQueue, cancel_proof_jobs-IsQueue, remove_proof_jobs-IsQueue,
}
use personalisation_kings.Queue.Creation.{create_proof_job-IsQueue, recreate_proof_job-IsQueue}

-- A worker claims; a worker ends its attempt, or gives it up with attempts that it read before; a
-- repair is applied to a row as it was read before, at any time; an erasure cancels the jobs of its
-- sessions; jobs go with their revisions; and a job is created or recreated, under a new id. A
-- worker's claim may be of any age, and may have been lost.
pub data Step (maximum_attempts : ℕ) (jobs : List ProofJob) : List ProofJob → Type 0 where
  claims : (now : Date) → Step maximum_attempts jobs (claim_proof_job maximum_attempts now jobs).1
  finishes :
      (now : Date) (c : ProofClaim) (tenant : String) (preview : Option Preview)
      (rendered : Rendered)
      → Step maximum_attempts jobs
          (finish_proof_job maximum_attempts now c tenant preview rendered jobs).1
  gives_up :
      (now : Date) (message : String) (attempts : ℕ) (c : ProofClaim)
      → Step maximum_attempts jobs
          (update_many (holds_claim c) (given_up maximum_attempts now message attempts) jobs)
  repairs :
      (now : Date) (read : ProofJob) (plan : RepairPlan)
      → plan_repair (proof_lease read) now maximum_attempts ≡ some plan
      → Step maximum_attempts jobs (apply_repair plan now read jobs).1
  cancels :
      (merchant_id : RowId) (is_planned : RowId → Bool)
      → Step maximum_attempts jobs (cancel_proof_jobs merchant_id is_planned jobs)
  removes : (is_gone : RowId → Bool) → Step maximum_attempts jobs (remove_proof_jobs is_gone jobs)
  creates :
      (id merchant_id revision_id : RowId) (now : Date) (later : List ProofJob)
      → count (λ (k : ProofJob). k.id == id) jobs ≡ 0
      → create_proof_job id merchant_id revision_id now jobs ≡ some later
      → Step maximum_attempts jobs later
  recreates :
      (is_eligible : Bool) (id merchant_id revision_id : RowId) (now : Date)
      → count (λ (k : ProofJob). k.id == id) jobs ≡ 0
      → Step maximum_attempts jobs
          (recreate_proof_job is_eligible id merchant_id revision_id now jobs)

pub data Reach (maximum_attempts : ℕ) (jobs : List ProofJob) : List ProofJob → Type 0 where
  start : Reach maximum_attempts jobs jobs
  next :
      {later latest : List ProofJob}
      → Reach maximum_attempts jobs later
      → Step maximum_attempts later latest
      → Reach maximum_attempts jobs latest

Step-IsQueue :
    {maximum_attempts : ℕ} {jobs later : List ProofJob}
    → Step maximum_attempts jobs later
    → IsQueue maximum_attempts jobs
    → IsQueue maximum_attempts later
Step-IsQueue {maximum_attempts} {jobs} (claims now) q =
    claim_proof_job-IsQueue maximum_attempts now jobs q
Step-IsQueue {maximum_attempts} {jobs} (finishes now c tenant preview rendered) q =
    finish_proof_job-IsQueue maximum_attempts now c tenant preview rendered jobs q
Step-IsQueue {maximum_attempts} {jobs} (gives_up now message attempts c) q =
    given_up-IsQueue maximum_attempts now message attempts c jobs q
Step-IsQueue {maximum_attempts} {jobs} (repairs now read plan planned) q =
    apply_repair-IsQueue maximum_attempts plan now read jobs q
Step-IsQueue {maximum_attempts} {jobs} (cancels merchant_id is_planned) q =
    cancel_proof_jobs-IsQueue maximum_attempts merchant_id is_planned jobs q
Step-IsQueue {maximum_attempts} {jobs} (removes is_gone) q =
    remove_proof_jobs-IsQueue maximum_attempts is_gone jobs q
Step-IsQueue {maximum_attempts} {jobs} (creates id merchant_id revision_id now later fresh made) q =
    create_proof_job-IsQueue maximum_attempts id merchant_id revision_id now jobs fresh made q
Step-IsQueue {maximum_attempts} {jobs} (recreates is_eligible id merchant_id revision_id now fresh)
      q =
    recreate_proof_job-IsQueue maximum_attempts id merchant_id revision_id now jobs fresh
      is_eligible q

-- Whatever the transactions that write to the proof queue do to it, in any order, of workers,
-- repairs, erasures, deletions and creations under new ids, each id stays the id of one job, no revision
-- has two jobs, a job has a claim exactly while it is running, and no job is started more often than is configured. The
-- queue is so at the start.
pub Reach-IsQueue :
    {maximum_attempts : ℕ} {jobs later : List ProofJob}
    → IsQueue maximum_attempts jobs
    → Reach maximum_attempts jobs later
    → IsQueue maximum_attempts later
Reach-IsQueue q start = q
Reach-IsQueue q (next r s) = Step-IsQueue s (Reach-IsQueue q r)
