-- ===== src/Queue/Fencing.antt =====
-- A claim fences the worker that holds it: apps/worker-proof/src/index.ts.
use personalisation_kings.Base.{
  update_many-IsKeyed, ℕ, ◌≡◌, ◌≢◌, refl, inl, inr, true, false, Option, none, some, List, ◌==◌,
  String, if◌then◌else◌, Memᴰ, arith, count, find_first, find_many, update_many, Option-cases,
  Bool-cases, update_many-none, mem-find_many, IsKeyed, count_none, mem-update_many, ==_iff, ap,
  ◌∙◌,
}
use personalisation_kings.Queue.Proof.{
  Date, is_queued, ProofJob, ProofClaim, claim_lost, recover_stale_claims, is_due, first_created,
  started, is_candidate, claim_due, claim_proof_job, holds_claim, complete_proof_job, given_up,
  is_row, fail_proof_job, Preview, is_usable_preview, Rendered, stored, threw, finish_proof_job,
}
use personalisation_kings.Queue.Invariant.{first_created-Memᴰ}

fail-fenced :
    (maximum_attempts : ℕ) (now : Date) (message : String) (c : ProofClaim) (jobs : List ProofJob)
    → count (holds_claim c) jobs ≡ 0
    → fail_proof_job maximum_attempts now message c jobs ≡ (claim_lost, jobs)
unfolding fail_proof_job
fail-fenced maximum_attempts now message c jobs h =
    elim (Option-cases (find_first (is_row c) jobs)) [
      | inl gone ↦ rw (gone, fail_proof_job) refl
      | inr (current, found) ↦
          rw (found, fail_proof_job, h)
            (λ i. (
              claim_lost,
              update_many-none (holds_claim c)
                  (given_up maximum_attempts now message current.attempts) jobs h i,
            ))
    ]

-- A worker whose claim no job carries any more changes nothing, whatever it comes back with, and
-- learns that its claim was lost.
pub finish_proof_job-fenced :
    (maximum_attempts : ℕ) (now : Date) (c : ProofClaim) (tenant : String)
    (preview : Option Preview) (rendered : Rendered) (jobs : List ProofJob)
    → count (holds_claim c) jobs ≡ 0
    → finish_proof_job maximum_attempts now c tenant preview rendered jobs ≡ (claim_lost, jobs)
unfolding finish_proof_job complete_proof_job
finish_proof_job-fenced m now c tenant none rendered jobs h = fail-fenced m now _ c jobs h
finish_proof_job-fenced m now c tenant (some p) (threw message) jobs h =
    fail-fenced m now _ c jobs h
finish_proof_job-fenced m now c tenant (some p) (stored asset_id) jobs h =
    elim (Bool-cases (is_usable_preview tenant p)) [
      | inr bad ↦ rw bad (fail-fenced m now _ c jobs h)
      | inl good ↦ rw (good, h) (fail-fenced m now _ c jobs h)
    ]

superseded :
    (now : Date) (cand : ProofJob) (jobs : List ProofJob) (c : ProofClaim)
    → IsKeyed (λ (j : ProofJob). j.id) jobs
    → Memᴰ cand jobs
    → is_queued cand.status ≡ true
    → c.id ≡ cand.id
    → c.claimed_at ≢ now
    → count (holds_claim c) (update_many (is_candidate cand) (started now) jobs) ≡ 0
superseded now cand jobs c keyed mc queued same other =
    count_none (holds_claim c) (update_many (is_candidate cand) (started now) jobs) (λ j m.
      let (x, mx, e) = mem-update_many (is_candidate cand) (started now) jobs m in
      elim (Bool-cases (x.id == cand.id)) [
        | inl t ↦
            let one : x ≡ cand = keyed x cand mx mc ((==_iff x.id cand.id).0 t) in
            let now_started : j ≡ started now cand =
              e
              ∙ (ap (λ z. if is_candidate cand z then started now z else z) one
                  ∙ candidate_self now cand queued) in
            rw now_started (not_held now cand c other)
        | inr u ↦ ground arith
      ])
  where
    candidate_self :
        (now : Date) (c : ProofJob)
        → is_queued c.status ≡ true
        → (if is_candidate c c then started now c else c) ≡ started now c
    candidate_self now c q = ground arith

    not_held :
        (now : Date) (j : ProofJob) (c : ProofClaim)
        → c.claimed_at ≢ now
        → holds_claim c (started now j) ≡ false
    not_held now j c n = ground arith

recover-IsKeyed :
    (now : Date) (jobs : List ProofJob)
    → IsKeyed (λ (j : ProofJob). j.id) jobs
    → IsKeyed (λ (j : ProofJob). j.id) (recover_stale_claims now jobs)
unfolding recover_stale_claims
recover-IsKeyed now jobs q = update_many-IsKeyed (λ (j : ProofJob). j.id) _ _ (λ x. refl) jobs q

-- In a queue in which no two jobs have the same id, once a job is claimed again, the worker that
-- held it before, by a claim of another time, changes nothing with what it still comes back with,
-- and learns that its claim was lost.
pub claim-supersedes :
    (maximum_attempts : ℕ) (now later : Date) (jobs jobs' : List ProofJob) (c c' : ProofClaim)
    (tenant : String) (preview : Option Preview) (rendered : Rendered)
    → IsKeyed (λ (j : ProofJob). j.id) jobs
    → claim_proof_job maximum_attempts now jobs ≡ (some c', jobs')
    → c.id ≡ c'.id
    → c.claimed_at ≢ now
    → finish_proof_job maximum_attempts later c tenant preview rendered jobs' ≡ (claim_lost, jobs')
unfolding claim_proof_job claim_due
claim-supersedes m now later jobs jobs' c c' tenant preview rendered q claims same other =
    let recovered : List ProofJob = recover_stale_claims now jobs in
    let keyed = recover-IsKeyed now jobs q in
    finish_proof_job-fenced m later c tenant preview rendered jobs'
      (elim (Option-cases (first_created (find_many (is_due m now) recovered))) [
        | inl idle ↦
            let got = ap (λ (r : Option ProofClaim × List ProofJob). r.0) claims in
            absurd (ground arith)
        | inr (cand, found) ↦
            let (mc, due) =
              mem-find_many (is_due m now) recovered
                (first_created-Memᴰ m (find_many (is_due m now) recovered) found) in
            let opened = rw (found, claim_due) at claims in
            let got = ap (λ (r : Option ProofClaim × List ProofJob). r.0) opened in
            let table = ap (λ (r : Option ProofClaim × List ProofJob). r.1) opened in
            rw (← table)
              (superseded now cand recovered c keyed mc (ground arith) (ground arith) other)
      ])
