-- ===== src/Queue/Invariant.antt =====
-- What holds of the proof queue, kept by each write of apps/worker-proof/src/index.ts and
-- of apps/worker-maintenance/src/reconciliation.ts and deletion.ts.
use mathlib.Core.Path.{subst}
use personalisation_kings.Base.{
  ℕ, ◌≤◌, ◌≡◌, ◌∙◌, refl, inl, inr, Bool, true, Option, none, some, List, [], ◌∷◌, ◌==◌, String,
  ltb, is_some, if◌then◌else◌, Memᴰ, arith, count, find_first, find_many, update_many, Option-cases,
  some_inj, Bool-cases, IsKeyed, update_many-IsKeyed, mem-update_many, mem-find_many,
}
use personalisation_kings.Queue.Proof.{
  Date, RowId, is_running, ProofJob, ProofClaim, recover_stale_claims, is_due, first_created,
  started, is_candidate, claim_due, claim_proof_job, holds_claim, complete_proof_job, given_up,
  is_row, fail_proof_job, Preview, is_usable_preview, Rendered, stored, threw, finish_proof_job,
}
use personalisation_kings.Queue.Reconcile.{
  RepairPlan, repaired, fail, requeue, is_as_read, apply_repair,
}
use personalisation_kings.Queue.Changes.{cancelled, cancel_proof_jobs, stays, remove_proof_jobs}

-- A job is leased exactly while it runs, and has been started at most as often as is configured.
abbrev pub IsSoundJob : ℕ → ProofJob → Type 0
IsSoundJob maximum_attempts j =
    (is_running j.status ≡ is_some j.claimed_at) × (j.attempts ≤ maximum_attempts)

pub record IsQueue (maximum_attempts : ℕ) (jobs : List ProofJob) : Type 0 where
  pub keyed : IsKeyed (λ (j : ProofJob). j.id) jobs
  pub single : IsKeyed (λ (j : ProofJob). j.customisation_revision_id) jobs
  pub sound : (j : ProofJob) → Memᴰ j jobs → IsSoundJob maximum_attempts j

module _ (maximum_attempts : ℕ) where
  -- A write that keeps the ids and the revisions, and keeps each row that it selects sound.
  update-IsQueue :
      (p : ProofJob → Bool) (f : ProofJob → ProofJob)
      → ((x : ProofJob)
          → ((f x).id ≡ x.id) × ((f x).customisation_revision_id ≡ x.customisation_revision_id))
      → (jobs : List ProofJob)
      → ((x : ProofJob)
          → Memᴰ x jobs
          → p x ≡ true
          → IsSoundJob maximum_attempts x
          → IsSoundJob maximum_attempts (f x))
      → IsQueue maximum_attempts jobs
      → IsQueue maximum_attempts (update_many p f jobs)
  update-IsQueue p f ids jobs keep q = record {
    keyed = update_many-IsKeyed (λ (j : ProofJob). j.id) p f (λ x. (ids x).0) jobs q.keyed;
    single =
        update_many-IsKeyed (λ (j : ProofJob). j.customisation_revision_id) p f (λ x. (ids x).1)
          jobs q.single;
    sound = λ j m.
        let (x, mx, e) = mem-update_many p f jobs m in
        elim (Bool-cases (p x)) [
          | inl t ↦ ground (arith, keep x mx t (q.sound x mx))
          | inr u ↦ ground (arith, q.sound x mx)
        ];
  }

  recover-IsQueue :
      (now : Date) (jobs : List ProofJob)
      → IsQueue maximum_attempts jobs
      → IsQueue maximum_attempts (recover_stale_claims now jobs)
  unfolding recover_stale_claims
  recover-IsQueue now jobs q =
      update-IsQueue _ _ (λ x. (refl, refl)) jobs (λ x m t s. (refl, s.1)) q

  pub first_created-Memᴰ :
      (jobs : List ProofJob) {c : ProofJob} → first_created jobs ≡ some c → Memᴰ c jobs
  unfolding first_created
  first_created-Memᴰ [] h = absurd (ground arith)
  first_created-Memᴰ (j ∷ js) h = elim (Option-cases (first_created js)) [
    | inl alone ↦ Memᴰ.head (ground arith)
    | inr (k, later) ↦ elim (Bool-cases (ltb k.created_at j.created_at)) [
      | inl older ↦ Memᴰ.tail (first_created-Memᴰ js (later ∙ ground arith))
      | inr newer ↦ Memᴰ.head (ground arith)
    ]
  ]

  claim_due-IsQueue :
      (now : Date) (jobs : List ProofJob)
      → IsQueue maximum_attempts jobs
      → IsQueue maximum_attempts (claim_due maximum_attempts now jobs).1
  unfolding claim_due
  claim_due-IsQueue now jobs q =
      elim (Option-cases (first_created (find_many (is_due maximum_attempts now) jobs))) [
        | inl idle ↦ rw (idle, claim_due) q
        | inr (c, found) ↦
            let (mc, due) =
              mem-find_many (is_due maximum_attempts now) jobs
                (first_created-Memᴰ (find_many (is_due maximum_attempts now) jobs) found) in
            rw (found, claim_due)
              (update-IsQueue (is_candidate c) (started now) (λ x. (refl, refl)) jobs
                (λ x m t s.
                  let same : x ≡ c = q.keyed x c m mc (ground arith) in (refl, ground arith))
                q)
      ]

  pub claim_proof_job-IsQueue :
      (now : Date) (jobs : List ProofJob)
      → IsQueue maximum_attempts jobs
      → IsQueue maximum_attempts (claim_proof_job maximum_attempts now jobs).1
  unfolding claim_proof_job
  claim_proof_job-IsQueue now jobs q =
      claim_due-IsQueue now (recover_stale_claims now jobs) (recover-IsQueue now jobs q)

  complete-IsQueue :
      (c : ProofClaim) (asset_id : RowId) (jobs : List ProofJob) {jobs' : List ProofJob}
      → IsQueue maximum_attempts jobs
      → complete_proof_job c asset_id jobs ≡ some jobs'
      → IsQueue maximum_attempts jobs'
  unfolding complete_proof_job
  complete-IsQueue c asset_id jobs q h = elim (Bool-cases (count (holds_claim c) jobs == 1)) [
    | inr lost ↦ absurd (ground arith)
    | inl held ↦
        subst (IsQueue maximum_attempts) (some_inj (rw (held, if◌then◌else◌) at h))
          (update-IsQueue (holds_claim c) _ (λ x. (refl, refl)) jobs (λ x m t s. (refl, s.1)) q)
  ]

  -- The write of a failure, however long ago its attempts were read.
  pub given_up-IsQueue :
      (now : Date) (message : String) (attempts : ℕ) (c : ProofClaim) (jobs : List ProofJob)
      → IsQueue maximum_attempts jobs
      → IsQueue maximum_attempts
          (update_many (holds_claim c) (given_up maximum_attempts now message attempts) jobs)
  given_up-IsQueue now message attempts c jobs q =
      update-IsQueue (holds_claim c) (given_up maximum_attempts now message attempts)
        (λ x. (refl, refl)) jobs (λ x m t s. (ground arith, s.1)) q

  fail-IsQueue :
      (now : Date) (message : String) (c : ProofClaim) (jobs : List ProofJob)
      → IsQueue maximum_attempts jobs
      → IsQueue maximum_attempts (fail_proof_job maximum_attempts now message c jobs).1
  unfolding fail_proof_job
  fail-IsQueue now message c jobs q = elim (Option-cases (find_first (is_row c) jobs)) [
    | inl gone ↦ rw (gone, fail_proof_job) q
    | inr (current, found) ↦
        rw (found, fail_proof_job) (given_up-IsQueue now message current.attempts c jobs q)
  ]

  -- One worker's attempt, whatever rendering and storage give.
  pub finish_proof_job-IsQueue :
      (now : Date) (c : ProofClaim) (tenant : String) (preview : Option Preview)
      (rendered : Rendered) (jobs : List ProofJob)
      → IsQueue maximum_attempts jobs
      → IsQueue maximum_attempts
          (finish_proof_job maximum_attempts now c tenant preview rendered jobs).1
  unfolding finish_proof_job
  finish_proof_job-IsQueue now c tenant none rendered jobs q = fail-IsQueue now _ c jobs q
  finish_proof_job-IsQueue now c tenant (some p) (threw message) jobs q =
      fail-IsQueue now _ c jobs q
  finish_proof_job-IsQueue now c tenant (some p) (stored asset_id) jobs q =
      elim (Bool-cases (is_usable_preview tenant p)) [
        | inr bad ↦ rw bad (fail-IsQueue now _ c jobs q)
        | inl good ↦ elim (Option-cases (complete_proof_job c asset_id jobs)) [
          | inl lost ↦ rw (good, lost, finish_proof_job) (fail-IsQueue now _ c jobs q)
          | inr (done, completes) ↦
              rw (good, completes, finish_proof_job) (complete-IsQueue c asset_id jobs q completes)
        ]
      ]

  pub apply_repair-IsQueue :
      (plan : RepairPlan) (now : Date) (read : ProofJob) (jobs : List ProofJob)
      → IsQueue maximum_attempts jobs
      → IsQueue maximum_attempts (apply_repair plan now read jobs).1
  unfolding apply_repair
  apply_repair-IsQueue (fail note) now read jobs q =
      update-IsQueue (is_as_read read) (repaired (fail note) now) (λ x. (refl, refl)) jobs
        (λ x m t s. (refl, s.1)) q
  apply_repair-IsQueue (requeue note) now read jobs q =
      update-IsQueue (is_as_read read) (repaired (requeue note) now) (λ x. (refl, refl)) jobs
        (λ x m t s. (refl, s.1)) q

  pub cancel_proof_jobs-IsQueue :
      (merchant_id : RowId) (is_planned : RowId → Bool) (jobs : List ProofJob)
      → IsQueue maximum_attempts jobs
      → IsQueue maximum_attempts (cancel_proof_jobs merchant_id is_planned jobs)
  unfolding cancel_proof_jobs
  cancel_proof_jobs-IsQueue merchant_id is_planned jobs q =
      update-IsQueue _ cancelled (λ x. (refl, refl)) jobs (λ x m t s. (refl, s.1)) q

  pub remove_proof_jobs-IsQueue :
      (is_gone : RowId → Bool) (jobs : List ProofJob)
      → IsQueue maximum_attempts jobs
      → IsQueue maximum_attempts (remove_proof_jobs is_gone jobs)
  unfolding remove_proof_jobs
  remove_proof_jobs-IsQueue is_gone jobs q = record {
    keyed = λ a b ma mb ids.
        q.keyed a b ((mem-find_many (stays is_gone) jobs ma).0)
          ((mem-find_many (stays is_gone) jobs mb).0) ids;
    single = λ a b ma mb same.
        q.single a b ((mem-find_many (stays is_gone) jobs ma).0)
          ((mem-find_many (stays is_gone) jobs mb).0) same;
    sound = λ j m. q.sound j ((mem-find_many (stays is_gone) jobs m).0);
  }
