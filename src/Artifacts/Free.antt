-- ===== src/Artifacts/Free.antt =====
-- When an artifact may go: the conditions of the cleanup of
-- apps/worker-maintenance/src/artifact-cleanup.ts on its fields, apart from the code's tests.
use text.Mathlib.Text.{starts_with}
use Prim.Native.String.{◌++◌ as concat}
use personalisation_kings.Base.{
  ℕ, ◌+◌, ◌*◌, ◌≤◌, ◌<◌, ◌≡◌, ◌≢◌, refl, arith, inl, inr, ◌⊎◌, true, false, Option, none, some,
  String, Option-cases, str_eq_iff, is_some,
}
use personalisation_kings.Connector.Types.{PrintJobStatus}
use personalisation_kings.Artifacts.Types.{Date, Artifact, artifact_retention_held, is_unleased}
use personalisation_kings.Artifacts.Cleanup.{is_expired, is_unclaimed, is_settled}

-- Every lease on the artifact has ended, and it has no hold, or one that has ended.
pub record IsFree (now : Date) (a : Artifact) : Type 0 where
  pub lease :
      (a.download_lease_until ≡ none)
      ⊎ ((until : Date) × (a.download_lease_until ≡ some until) × (until < now))
  pub hold :
      (a.retention_hold_at ≡ none)
      ⊎ ((until : Date) × (a.retention_hold_until ≡ some until) × (until ≤ now))

pub record IsRemovable (now : Date) (merchant_id : String) (days : ℕ) (a : Artifact) : Type 0 where
  pub owned : a.merchant_id ≡ merchant_id
  pub present : a.bytes_deleted_at ≡ none
  pub outlived : a.created_at + days * (24 * 60 * 60 * 1000) < now
  pub due : a.next_cleanup_attempt_at ≤ now
  pub keyed :
      starts_with a.object_key (concat "production_artifact/" (concat merchant_id "/")) ≡ true
  pub unclaimed :
      (a.cleanup_claimed_at ≡ none)
      ⊎ ((at : Date) × (a.cleanup_claimed_at ≡ some at) × (at + 15 * 60 * 1000 < now))
  pub free : IsFree now a
  pub finished : (at : Date) × (a.attempt_finished_at ≡ some at)
  pub unqueued : a.print_job_status ≢ PrintJobStatus.queued
  pub stopped : a.print_job_status ≢ PrintJobStatus.running

pub unleased-IsFree :
    (now : Date) (a : Artifact)
    → is_unleased now a ≡ true
    → artifact_retention_held now a ≡ false
    → IsFree now a
unfolding is_unleased artifact_retention_held
unleased-IsFree now a unleased unheld = record {
  lease = elim (Option-cases a.download_lease_until) [
    | inl clear ↦ inl clear
    | inr (until, e) ↦ inr (until, e, ground arith)
  ];
  hold = elim (Option-cases a.retention_hold_at) [
    | inl clear ↦ inl clear
    | inr (at, e) ↦ elim (Option-cases a.retention_hold_until) [
      | inl ever ↦ absurd (ground arith)
      | inr (until, u) ↦ inr (until, u, ground arith)
    ]
  ];
}

unclaimed_when :
    (now : Date) (o : Option Date)
    → is_unclaimed now o ≡ true
    → (o ≡ none) ⊎ ((at : Date) × (o ≡ some at) × (at + 15 * 60 * 1000 < now))
unclaimed_when now none h = inl refl
unclaimed_when now (some at) h = inr (at, refl, ground arith)

unsettled : (s t : PrintJobStatus) → is_settled s ≡ true → is_settled t ≡ false → s ≢ t
unsettled s t h k e = ground arith

some_when : (o : Option Date) → is_some o ≡ true → (at : Date) × (o ≡ some at)
some_when none h = absurd (ground arith)
some_when (some at) h = (at, refl)

-- What the test of the query and of the claim finds.
pub is_expired-IsRemovable :
    (now : Date) (merchant_id : String) (days : ℕ) (a : Artifact)
    → is_expired now merchant_id days a ≡ true
    → IsRemovable now merchant_id days a
unfolding is_expired
is_expired-IsRemovable now merchant_id days a h = record {
  owned = (str_eq_iff a.merchant_id merchant_id).0 (ground arith);
  present = ground arith;
  outlived = ground arith;
  due = ground arith;
  keyed = ground arith;
  unclaimed = unclaimed_when now a.cleanup_claimed_at (ground arith);
  free = unleased-IsFree now a (ground arith) (ground arith);
  finished = some_when a.attempt_finished_at (ground arith);
  unqueued = unsettled a.print_job_status PrintJobStatus.queued (ground arith) refl;
  stopped = unsettled a.print_job_status PrintJobStatus.running (ground arith) refl;
}
