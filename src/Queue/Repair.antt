-- ===== src/Queue/Repair.antt =====
-- The repair of the proof queue: apps/worker-maintenance/src/reconciliation.ts.
use mathlib.Core.Path.{subst}
use personalisation_kings.Base.{
  ℕ, ◌+◌, ◌≤◌, ◌<◌, ◌≡◌, ◌∙◌, refl, sym, ap, ◌⊎◌, inl, inr, Bool, true, false, ◌&&◌, Option, none,
  some, List, [], ◌∷◌, leb, is_some, opt_eq_refl, ==_refl, Memᴰ, arith, length, suc, find_many,
  update_many, take, Option-cases, Bool-cases, mem-update_many, mem-take_all, mem-of-find_many,
  length-find_many,
}
use personalisation_kings.Queue.Proof.{Date, RowId, stale_claim_ms, ProofJobStatus, ProofJob}
use personalisation_kings.Queue.Reconcile.{
  LeasedJobState, RepairPlan, plan_repair, needs_repair, proof_lease, proof_lease_status, repaired,
  fail, requeue, is_as_read, same_status, is_of, apply_repair, repair_rows, insert_by_update,
  by_update, repair_proof_jobs,
}

-- The query of the repair finds just the rows for which there is a plan.
pub plan_repair-needs_repair :
    (job : LeasedJobState) (now : Date) (maximum_attempts : ℕ)
    → is_some (plan_repair job now maximum_attempts) ≡ needs_repair now maximum_attempts job
unfolding plan_repair needs_repair
plan_repair-needs_repair job now maximum_attempts = ground arith

same_status_refl : (s : ProofJobStatus) → same_status s s ≡ true
same_status_refl ProofJobStatus.queued = refl
same_status_refl ProofJobStatus.running = refl
same_status_refl ProofJobStatus.ready = refl
same_status_refl ProofJobStatus.failed = refl

is_as_read_refl : (j : ProofJob) → is_as_read j j ≡ true
is_as_read_refl j =
    rw
      (
        ==_refl j.id,
        ==_refl j.merchant_id,
        same_status_refl j.status,
        ==_refl j.attempts,
        opt_eq_refl j.claimed_at,
      )
      refl

module _ (now : Date) (maximum_attempts : ℕ) where
  abbrev needs : ProofJob → Bool
  needs j = needs_repair now maximum_attempts (proof_lease j)

  -- A row that is repaired needs no repair any more.
  repaired-settled :
      (plan : RepairPlan) (read j : ProofJob)
      → plan_repair (proof_lease read) now maximum_attempts ≡ some plan
      → is_as_read read j ≡ true
      → needs (repaired plan now j) ≡ false
  unfolding plan_repair needs_repair
  repaired-settled (fail note) read j planned same = refl
  repaired-settled (requeue note) read j planned same = ground arith

  -- The rows that still need repair are in the worklist.
  abbrev Waiting : (ProofJob → Bool) → List ProofJob → List ProofJob → Type 0
  Waiting own rows jobs = (j : ProofJob) → Memᴰ j jobs → own j ≡ true → needs j ≡ true → Memᴰ j rows

  mem-cases :
      (read : ProofJob) (rest : List ProofJob) {j : ProofJob}
      → Memᴰ j (read ∷ rest)
      → (j ≡ read) ⊎ Memᴰ j rest
  mem-cases read rest (Memᴰ.head e) = inl e
  mem-cases read rest (Memᴰ.tail m) = inr m

  applied-Waiting :
      (merchant_id : Option RowId) (plan : RepairPlan) (read : ProofJob) (rest jobs : List ProofJob)
      → plan_repair (proof_lease read) now maximum_attempts ≡ some plan
      → Waiting (is_of merchant_id) (read ∷ rest) jobs
      → Waiting (is_of merchant_id) rest (update_many (is_as_read read) (repaired plan now) jobs)
  applied-Waiting merchant_id plan read rest jobs planned w j m own due =
      let (x, mx, e) = mem-update_many (is_as_read read) (repaired plan now) jobs m in
      elim (Bool-cases (is_as_read read x)) [
        | inl t ↦
            let j_repaired : j ≡ repaired plan now x = ground arith in
            let still : needs (repaired plan now x) ≡ true = sym (ap needs j_repaired) ∙ due in
            let gone = repaired-settled plan read x planned t in absurd (ground arith)
        | inr u ↦
            let j_same : j ≡ x = ground arith in
            elim (mem-cases read rest
              (w x mx (sym (ap (is_of merchant_id) j_same) ∙ own) (sym (ap needs j_same) ∙ due))) [
                | inr later ↦ subst (λ y. Memᴰ y rest) (sym j_same) later
                | inl here ↦
                    let self : is_as_read read x ≡ true =
                      ap (is_as_read read) here ∙ is_as_read_refl read in
                    absurd (ground arith)
              ]
      ]

  repair_rows-Waiting :
      (merchant_id : Option RowId) (rows jobs : List ProofJob)
      → Waiting (is_of merchant_id) rows jobs
      → Waiting (is_of merchant_id) [] (repair_rows now maximum_attempts rows jobs).1
  unfolding repair_rows apply_repair
  repair_rows-Waiting merchant_id [] jobs w = w
  repair_rows-Waiting merchant_id (read ∷ rest) jobs w =
      elim (Option-cases (plan_repair (proof_lease read) now maximum_attempts)) [
        | inl fine ↦
            rw (fine, repair_rows)
              (repair_rows-Waiting merchant_id rest jobs (λ j m own due.
                elim (mem-cases read rest (w j m own due)) [
                  | inr later ↦ later
                  | inl here ↦
                      let agree =
                        plan_repair-needs_repair (proof_lease read) now maximum_attempts in
                      let read_due : needs read ≡ true = sym (ap needs here) ∙ due in
                      absurd (ground arith)
                ]))
        | inr (plan, planned) ↦
            rw (planned, repair_rows)
              (repair_rows-Waiting merchant_id rest _
                (applied-Waiting merchant_id plan read rest jobs planned w))
      ]

mem-insert_self : (j : ProofJob) (ks : List ProofJob) → Memᴰ j (insert_by_update j ks)
unfolding insert_by_update
mem-insert_self j [] = Memᴰ.head refl
mem-insert_self j (k ∷ ks) = elim (Bool-cases (leb j.updated_at k.updated_at)) [
  | inl first ↦ rw (first, insert_by_update) (Memᴰ.head refl)
  | inr after ↦ rw (after, insert_by_update) (Memᴰ.tail (mem-insert_self j ks))
]

mem-insert :
    (j : ProofJob) (ks : List ProofJob) {x : ProofJob} → Memᴰ x ks → Memᴰ x (insert_by_update j ks)
unfolding insert_by_update
mem-insert j (k ∷ ks) (Memᴰ.head e) = elim (Bool-cases (leb j.updated_at k.updated_at)) [
  | inl first ↦ rw (first, insert_by_update) (Memᴰ.tail (Memᴰ.head e))
  | inr after ↦ rw (after, insert_by_update) (Memᴰ.head e)
]
mem-insert j (k ∷ ks) (Memᴰ.tail m) = elim (Bool-cases (leb j.updated_at k.updated_at)) [
  | inl first ↦ rw (first, insert_by_update) (Memᴰ.tail (Memᴰ.tail m))
  | inr after ↦ rw (after, insert_by_update) (Memᴰ.tail (mem-insert j ks m))
]
mem-insert j [] m = elim m [ ]

mem-by_update : (js : List ProofJob) {x : ProofJob} → Memᴰ x js → Memᴰ x (by_update js)
unfolding by_update
mem-by_update (j ∷ js) (Memᴰ.head e) =
    subst (λ y. Memᴰ y (insert_by_update j (by_update js))) (sym e)
      (mem-insert_self j (by_update js))
mem-by_update (j ∷ js) (Memᴰ.tail m) = mem-insert j (by_update js) (mem-by_update js m)
mem-by_update [] m = elim m [ ]

length-insert :
    (j : ProofJob) (ks : List ProofJob) → length (insert_by_update j ks) ≡ suc (length ks)
unfolding insert_by_update
length-insert j [] = refl
length-insert j (k ∷ ks) = ground (arith, length-insert j ks)

length-by_update : (js : List ProofJob) → length (by_update js) ≡ length js
unfolding by_update
length-by_update [] = refl
length-by_update (j ∷ js) = omega (arith, length-insert j (by_update js), length-by_update js)

no_repair_needed :
    (now : Date) (maximum_attempts batch_size : ℕ) (merchant_id : Option RowId)
    (jobs : List ProofJob) (j : ProofJob)
    → length jobs ≤ batch_size
    → Memᴰ j (repair_proof_jobs now maximum_attempts batch_size merchant_id jobs).1
    → is_of merchant_id j ≡ true
    → needs_repair now maximum_attempts (proof_lease j) ≡ false
unfolding repair_proof_jobs
no_repair_needed now maximum_attempts batch_size merchant_id jobs j whole m own =
    elim (Bool-cases (needs now maximum_attempts j)) [
      | inr fine ↦ fine
      | inl due ↦
          elim (repair_rows-Waiting now maximum_attempts merchant_id _ jobs listed j m own due) [ ]
    ]
  where
    selects : ProofJob → Bool
    selects x = is_of merchant_id x && needs now maximum_attempts x

    listed :
        Waiting now maximum_attempts
          (is_of merchant_id)
          (take batch_size (
            by_update (
              find_many
                (λ x. is_of merchant_id x && needs_repair now maximum_attempts (proof_lease x))
                jobs)))
          jobs
    listed x mx mine due =
        mem-take_all batch_size _
          (omega (
            arith,
            whole,
            length-by_update (find_many selects jobs),
            length-find_many {0} selects jobs,
          ))
          (mem-by_update _ (mem-of-find_many selects jobs mx (ground arith)))

-- A job that waits has attempts left, and one that runs has a claim that is not stale.
abbrev pub IsHealthy : Date → ℕ → ProofJobStatus → ℕ → Option Date → Type 0
IsHealthy now maximum_attempts ProofJobStatus.queued attempts claimed_at =
    attempts < maximum_attempts
IsHealthy now maximum_attempts ProofJobStatus.running attempts claimed_at =
    (at : Date) × (claimed_at ≡ some at) × (now ≤ at + stale_claim_ms)
IsHealthy now maximum_attempts _ attempts claimed_at = Unit {0}

needs_repair-IsHealthy :
    (now : Date) (maximum_attempts : ℕ) (status : ProofJobStatus) (attempts : ℕ)
    (claimed_at : Option Date)
    → needs_repair now maximum_attempts (record {
      status = proof_lease_status status;
      attempts = attempts;
      claimed_at = claimed_at;
    })
      ≡ false
    → IsHealthy now maximum_attempts status attempts claimed_at
unfolding needs_repair
needs_repair-IsHealthy now m ProofJobStatus.queued attempts claimed_at h = ground arith
needs_repair-IsHealthy now m ProofJobStatus.running attempts (some at) h = (at, refl, ground arith)
needs_repair-IsHealthy now m ProofJobStatus.running attempts none h = absurd (ground arith)
needs_repair-IsHealthy now m ProofJobStatus.ready attempts claimed_at h = tt
needs_repair-IsHealthy now m ProofJobStatus.failed attempts claimed_at h = tt

-- After a repair whose batch is as large as the queue, each job of the merchant that it is for, or
-- of any merchant if it is for none, has attempts left if it waits, and a claim that is not stale if
-- it runs.
pub repair_proof_jobs-heals :
    (now : Date) (maximum_attempts batch_size : ℕ) (merchant_id : Option RowId)
    (jobs : List ProofJob) (j : ProofJob)
    → length jobs ≤ batch_size
    → Memᴰ j (repair_proof_jobs now maximum_attempts batch_size merchant_id jobs).1
    → is_of merchant_id j ≡ true
    → IsHealthy now maximum_attempts j.status j.attempts j.claimed_at
repair_proof_jobs-heals now maximum_attempts batch_size merchant_id jobs j whole m own =
    needs_repair-IsHealthy now maximum_attempts j.status j.attempts j.claimed_at
      (no_repair_needed now maximum_attempts batch_size merchant_id jobs j whole m own)
