-- ===== src/Queue/Creation.antt =====
-- What holds of the proof queue is kept when a job is made: by apps/api/src/preview.ts and by the
-- recreation of apps/worker-maintenance/src/reconciliation.ts.
use mathlib.Core.Path.{subst}
use personalisation_kings.Base.{
  ℕ, ◌≡◌, ◌≢◌, ◌∙◌, refl, sym, ap, arith, inl, inr, Bool, false, not, ◌&&◌, ◌==◌, some, some_inj,
  List, [], ◌∷◌, ◌++◌, Memᴰ, IsKeyed, any, any-false, count, count-zero, mem-append_one, Bool-cases,
  if◌then◌else◌,
}
use personalisation_kings.Queue.Proof.{Date, RowId, ProofJob}
use personalisation_kings.Queue.Changes.{
  new_proof_job, is_for, create_proof_job, recreate_proof_job,
}
use personalisation_kings.Queue.Invariant.{IsSoundJob, IsQueue}

-- A new row, with a key that no row has.
append-IsKeyed :
    (key : ProofJob → RowId) (jobs : List ProofJob) (j : ProofJob)
    → ((k : ProofJob) → Memᴰ k jobs → key k ≢ key j)
    → IsKeyed key jobs
    → IsKeyed key (jobs ++ j ∷ [])
append-IsKeyed key jobs j unused keyed a b ma mb ids = elim (mem-append_one jobs j ma) [
  | inl old ↦ elim (mem-append_one jobs j mb) [
    | inl older ↦ keyed a b old older ids
    | inr new ↦ absurd (unused a old (ids ∙ ap key new))
  ]
  | inr newer ↦ elim (mem-append_one jobs j mb) [
    | inl old ↦ absurd (unused b old (sym ids ∙ ap key newer))
    | inr new ↦ newer ∙ sym new
  ]
]

module _ (maximum_attempts : ℕ) where
  append-IsQueue :
      (j : ProofJob) (jobs : List ProofJob)
      → IsSoundJob maximum_attempts j
      → count (λ (k : ProofJob). k.id == j.id) jobs ≡ 0
      → any (is_for j.customisation_revision_id) jobs ≡ false
      → IsQueue maximum_attempts jobs
      → IsQueue maximum_attempts (jobs ++ j ∷ [])
  append-IsQueue j jobs good fresh alone q = record {
    keyed =
        append-IsKeyed (λ (k : ProofJob). k.id) jobs j
          (λ k m e.
            let missed = count-zero (λ (k : ProofJob). k.id == j.id) jobs fresh m in ground arith)
          q.keyed;
    single =
        append-IsKeyed (λ (k : ProofJob). k.customisation_revision_id) jobs j
          (λ k m e.
            let missed = any-false (is_for j.customisation_revision_id) jobs alone m in
            ground arith)
          q.single;
    sound = λ k m. elim (mem-append_one jobs j m) [
      | inl old ↦ q.sound k old
      | inr new ↦ subst (IsSoundJob maximum_attempts) (sym new) good
    ];
  }

  module _ (id merchant_id revision_id : RowId) (now : Date) (jobs : List ProofJob)
      (fresh : count (λ (k : ProofJob). k.id == id) jobs ≡ 0) where
    append_new-IsQueue :
        any (is_for revision_id) jobs ≡ false
        → IsQueue maximum_attempts jobs
        → IsQueue maximum_attempts (jobs ++ new_proof_job id merchant_id revision_id now ∷ [])
    append_new-IsQueue alone q =
        append-IsQueue (new_proof_job id merchant_id revision_id now) jobs (refl, omega arith) fresh
          alone q

    pub create_proof_job-IsQueue :
        {later : List ProofJob}
        → create_proof_job id merchant_id revision_id now jobs ≡ some later
        → IsQueue maximum_attempts jobs
        → IsQueue maximum_attempts later
    unfolding create_proof_job
    create_proof_job-IsQueue h q = elim (Bool-cases (any (is_for revision_id) jobs)) [
      | inl there ↦ absurd (ground arith)
      | inr missing ↦
          subst (IsQueue maximum_attempts) (some_inj (rw (missing, if◌then◌else◌) at h))
            (append_new-IsQueue missing q)
    ]

    pub recreate_proof_job-IsQueue :
        (is_eligible : Bool)
        → IsQueue maximum_attempts jobs
        → IsQueue maximum_attempts
            (recreate_proof_job is_eligible id merchant_id revision_id now jobs)
    unfolding recreate_proof_job
    recreate_proof_job-IsQueue is_eligible q =
        elim (Bool-cases (is_eligible && not (any (is_for revision_id) jobs))) [
          | inl missing ↦ rw missing (append_new-IsQueue (ground arith) q)
          | inr there ↦ rw there q
        ]
