-- ===== src/Queue/Examples.antt =====
-- The theorems of the proof queue at concrete tables.
use personalisation_kings.Base.{
  ℕ, ◌≤◌, ◌≡◌, refl, true, none, some, List, [], ◌∷◌, ◌++◌, ◌==◌, Memᴰ, arith, Option, is_some,
}
use personalisation_kings.Queue.Proof.{
  Date, ProofJobStatus, is_running, recovered_by_reconciliation, ProofJob, ProofClaim, claim_lost,
  recover_stale_claims, first_created, claim_due, claim_proof_job, Preview, stored,
  finish_proof_job,
}
use personalisation_kings.Queue.Reconcile.{
  plan_repair, needs_repair, apply_repair, repair_rows, insert_by_update, by_update,
  repair_proof_jobs,
}
use personalisation_kings.Queue.Invariant.{IsQueue}
use personalisation_kings.Queue.Leases.{
  start, next, claims, finishes, creates, cancels, Reach-IsQueue,
}
use personalisation_kings.Queue.Changes.{new_proof_job, create_proof_job, cancel_proof_jobs}
use personalisation_kings.Queue.Fencing.{claim-supersedes}
use personalisation_kings.Queue.Repair.{IsHealthy, repair_proof_jobs-heals}

abbrev job : ProofJobStatus → ℕ → Option Date → ProofJob
job status attempts claimed_at = record {
  id = 1;
  merchant_id = 2;
  customisation_revision_id = 3;
  proof_asset_version_id = none;
  status = status;
  attempts = attempts;
  claimed_at = claimed_at;
  next_attempt_at = 0;
  last_error = none;
  created_at = 10;
  updated_at = 10;
}

abbrev waiting_queue : List ProofJob
waiting_queue = job ProofJobStatus.queued 0 none ∷ []

abbrev first_claim : ProofClaim
first_claim = record { id = 1; merchant_id = 2; claimed_at = 100 }

abbrev second_claim : ProofClaim
second_claim = record { id = 1; merchant_id = 2; claimed_at = 1000000 }

abbrev abandoned_queue : List ProofJob
abandoned_queue = job ProofJobStatus.running 1 (some 100) ∷ []

abbrev preview : Preview
preview = record {
  is_accepted = true;
  deleted_at = none;
  content_type = "image/svg+xml";
  width_px = some 10;
  height_px = some 10;
  object_key = "preview_derivative/m2/a.svg";
}

waiting-IsQueue : IsQueue 5 waiting_queue
waiting-IsQueue = record { keyed = keyed; single = single; sound = sound }
  where
    keyed : (a b : ProofJob) → Memᴰ a waiting_queue → Memᴰ b waiting_queue → a.id ≡ b.id → a ≡ b
    keyed a b (Memᴰ.head e) (Memᴰ.head f) ids = cc
    keyed a b (Memᴰ.tail m) n ids = elim m [ ]
    keyed a b (Memᴰ.head e) (Memᴰ.tail n) ids = elim n [ ]

    single :
        (a b : ProofJob)
        → Memᴰ a waiting_queue
        → Memᴰ b waiting_queue
        → a.customisation_revision_id ≡ b.customisation_revision_id
        → a ≡ b
    single a b (Memᴰ.head e) (Memᴰ.head f) ids = cc
    single a b (Memᴰ.tail m) n ids = elim m [ ]
    single a b (Memᴰ.head e) (Memᴰ.tail n) ids = elim n [ ]

    sound :
        (j : ProofJob)
        → Memᴰ j waiting_queue
        → (is_running j.status ≡ is_some j.claimed_at) × (j.attempts ≤ 5)
    sound j (Memᴰ.head e) = ground arith
    sound j (Memᴰ.tail m) = elim m [ ]

abbrev claimed_queue : List ProofJob
claimed_queue = (claim_proof_job 5 100 waiting_queue).1

-- A second revision gets its job while the worker renders.
abbrev longer_queue : List ProofJob
longer_queue = claimed_queue ++ new_proof_job 4 2 5 150 ∷ []

Reach-IsQueue_example : IsQueue 5 (
    cancel_proof_jobs 2
      (λ revision_id. revision_id == 5)
      ((finish_proof_job 5 200 first_claim "m2" (some preview) (stored 9) longer_queue).1))
unfolding claim_proof_job claim_due recover_stale_claims first_created create_proof_job
Reach-IsQueue_example = Reach-IsQueue waiting-IsQueue (
    next
      (next (next (next start (claims 100)) (creates 4 2 5 150 longer_queue refl refl))
        (finishes 200 first_claim "m2" (some preview) (stored 9)))
      (cancels 2 (λ revision_id. revision_id == 5)))

-- The first worker's claim goes stale, and a second worker claims the job.
second_claims :
    claim_proof_job 5 1000000 claimed_queue
    ≡ (some second_claim, (claim_proof_job 5 1000000 claimed_queue).1)
unfolding claim_proof_job claim_due recover_stale_claims first_created
second_claims = refl

claim-supersedes_example :
    finish_proof_job 5 1000001 first_claim "m2"
      (some preview)
      (stored 9)
      (claim_proof_job 5 1000000 claimed_queue).1
    ≡ (claim_lost, (claim_proof_job 5 1000000 claimed_queue).1)
claim-supersedes_example =
    claim-supersedes 5 1000000 1000001 claimed_queue (claim_proof_job 5 1000000 claimed_queue).1
      first_claim second_claim "m2" (some preview) (stored 9)
      ((Reach-IsQueue waiting-IsQueue (next start (claims 100))).keyed) second_claims refl
      (omega arith)

repair_proof_jobs-heals_example : IsHealthy 1000000 5 ProofJobStatus.queued 1 none
unfolding repair_proof_jobs repair_rows by_update insert_by_update plan_repair needs_repair
    apply_repair
repair_proof_jobs-heals_example =
    repair_proof_jobs-heals 1000000 5 100 none abandoned_queue
      (record (job ProofJobStatus.queued 1 none) {
        next_attempt_at = 1000000;
        last_error = some recovered_by_reconciliation;
      })
      (omega arith) (Memᴰ.head refl) refl
