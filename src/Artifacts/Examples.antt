-- ===== src/Artifacts/Examples.antt =====
-- A printed artifact: its download, its removal a year later, and a download that comes too late.
use personalisation_kings.Base.{
  ◌+◌, ◌*◌, ◌≡◌, ◌≤◌, All, refl, ◌⊎◌, Bool, true, false, none, some, [], ◌∷◌, String, Memᴰ, arith,
}
use personalisation_kings.Connector.Types.{PrintJobStatus}
use personalisation_kings.Artifacts.Types.{
  Date, Artifact, Db, artifact_retention_held, artifact_bytes_available, is_unleased,
}
use personalisation_kings.Artifacts.Cleanup.{
  is_expired, claimed, postponed, Setting, Progress, Environment, postpone, complete,
  erase_artifact, erase_claimed, clean_candidate, clean_candidates, insert_by_age, by_age,
  find_candidates, clean_setting, clean_settings, cleanup_expired_generated_artifacts, day_ms,
}
use personalisation_kings.Artifacts.Access.{issue_download, serve_object}
use personalisation_kings.Artifacts.Reach.{start, after, claiming, serving, Reach-IsFree}
use personalisation_kings.Artifacts.Runs.{cleanup-IsFree}
use personalisation_kings.Artifacts.Free.{IsFree, IsRemovable}
use personalisation_kings.Artifacts.Removals.{cleanup-IsErasable}
use personalisation_kings.Artifacts.Erased.{clean_candidate-erased}

abbrev sheet : Artifact
sheet = record {
  id = "a1";
  merchant_id = "kings";
  object_key = "production_artifact/kings/a1.pdf";
  byte_size = 4000;
  bytes_deleted_at = none;
  cleanup_claimed_at = none;
  cleanup_claim_token = none;
  cleanup_attempts = 0;
  next_cleanup_attempt_at = 0;
  last_cleanup_error = none;
  download_lease_until = some 330000;
  retention_hold_at = none;
  retention_hold_until = none;
  retention_hold_reason = none;
  retention_hold_set_by_user_id = none;
  created_at = 0;
  attempt_finished_at = some 0;
  print_job_status = PrintJobStatus.ready;
}

abbrev tables : Db
tables = record { artifacts = sheet ∷ []; audit = [] }

abbrev later : Date
later = 366 * day_ms

abbrev every_key : String → String → Bool
every_key key merchant_id = true

abbrev quiet : Environment
quiet = record { storage_error = λ key. none; refused = λ id. none; finished = 366 * day_ms + 5 }

abbrev begun : Progress
begun = record { db = tables; erased = []; deleted = 0; failures = 0; bytes_deleted = 0 }

cleaning : Unit {0}
unfolding serve_object is_expired artifact_retention_held artifact_bytes_available is_unleased
    postpone complete erase_artifact erase_claimed clean_candidate clean_candidates insert_by_age
    by_age find_candidates clean_setting clean_settings cleanup_expired_generated_artifacts
    issue_download
cleaning = tt

Reach-IsFree_example : IsFree (later + 60000) (claimed later 7 sheet)
unfolding cleaning
Reach-IsFree_example =
    Reach-IsFree {db = tables} {a = claimed later 7 sheet} {at = later} (later + 60000)
      ((λ at e. absurd (ground arith)), tt)
      (after (after (start tables) (serving false 0 "production_artifact/kings/a1.pdf" tables))
        (claiming later "kings" 365 "a1" 7 tables))
      (Memᴰ.head refl) refl (omega arith)

abbrev yearly : Setting
yearly = record { merchant_id = "kings"; production_artifact_retention_days = 365 }

-- A storage that does not answer, so that the claim is kept.
abbrev failing : Environment
failing = record {
  storage_error = λ key. some "unreachable";
  refused = λ id. none;
  finished = 366 * day_ms + 5;
}

abbrev left_over : Artifact
left_over = postponed (366 * day_ms + 5) 1 "unreachable" (claimed later 7 sheet)

cleanup-IsFree_example : IsFree (later + 60000) left_over
unfolding cleaning
cleanup-IsFree_example =
    cleanup-IsFree every_key failing later 100 7 (yearly ∷ []) tables {a = left_over} {at = later}
      (later + 60000) ((λ at e. absurd (ground arith)), tt) (Memᴰ.head refl) refl (omega arith)

clean_candidate-erased_example :
    ((clean_candidate every_key quiet later "kings" 365 7 "a1" begun).erased ≡ [])
    ⊎ ((a : Artifact) × Memᴰ a (sheet ∷ [])
        × IsRemovable later "kings" 365 a
        × (true ≡ true)
        × ((clean_candidate every_key quiet later "kings" 365 7 "a1" begun).erased
            ≡ a.object_key ∷ []))
clean_candidate-erased_example =
    clean_candidate-erased every_key quiet later "kings" 365 7 "a1" begun refl

-- The run takes the sheet out of storage.
sheet_is_erased :
    (clean_candidate every_key quiet later "kings" 365 7 "a1" begun).erased
    ≡ "production_artifact/kings/a1.pdf" ∷ []
unfolding cleaning
sheet_is_erased = refl

cleanup-IsErasable_example :
    All
      (λ (key : String).
        (s : Setting) × Memᴰ s (yearly ∷ [])
        × (1 ≤ s.production_artifact_retention_days)
        × ((a : Artifact) × Memᴰ a tables.artifacts
            × IsRemovable later s.merchant_id s.production_artifact_retention_days a
            × (true ≡ true)
            × (a.object_key ≡ key)))
      ("production_artifact/kings/a1.pdf" ∷ [])
unfolding cleaning
cleanup-IsErasable_example =
    cleanup-IsErasable every_key quiet later 7 (yearly ∷ []) tables 100 (refl, tt)
