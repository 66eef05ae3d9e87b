-- ===== src/Artifacts/Runs.antt =====
-- A run of the cleanup: it is one order of its statements, and what it claims is free.
use personalisation_kings.Base.{
  ◌≡◌, ◌≤◌, All, Memᴰ, ℕ, suc, ◌+◌, inl, inr, Bool, ◌&&◌, ◌==◌, some, List, [], ◌∷◌, String, ltb,
  length, Bool-cases, Option-cases, str_eq, opt_eq, find_first, count,
}
use personalisation_kings.Artifacts.Types.{Date, Artifact, Db}
use personalisation_kings.Artifacts.Cleanup.{
  claims, is_named, Progress, Environment, erase_artifact, Setting, find_candidates, erase_claimed,
  clean_candidate, clean_candidates, clean_setting, clean_settings,
  cleanup_expired_generated_artifacts,
}
use personalisation_kings.Artifacts.Reach.{
  Step, claiming, completing, postponing, Reach, start, after, Reach-IsFree,
}
use personalisation_kings.Artifacts.Guard.{IsGuarded}
use personalisation_kings.Artifacts.Free.{IsFree}

Reach-trans : {a b c : Db} → Reach a b → Reach b c → Reach a c
Reach-trans r (start db) = r
Reach-trans r (after q s) = after (Reach-trans r q) s

erase_artifact-Step :
    (env : Environment) (token : ℕ) (a : Artifact) (p : Progress)
    → Step p.db ((erase_artifact env token a p).db)
unfolding erase_artifact
erase_artifact-Step env token a p = elim (Option-cases (env.storage_error a.object_key)) [
  | inr (message, failed) ↦ rw (failed, erase_artifact) (postponing env token a message p)
  | inl erased ↦
      let gone : Progress = record p {
        erased = a.object_key ∷ p.erased;
        bytes_deleted = p.bytes_deleted + a.byte_size;
      } in
      elim (Option-cases (env.refused a.id)) [
        | inr (message, failed) ↦
            rw (erased, failed, erase_artifact) (postponing env token a message gone)
        | inl done ↦ rw (erased, done, erase_artifact) (completing env token a gone)
      ]
]

module _ (is_key : String → String → Bool) (env : Environment) (now : Date) where
  erase_claimed-Reach :
      (merchant_id : String) (token : ℕ) (id : String) (p : Progress)
      → Reach p.db ((erase_claimed is_key env now merchant_id token id p).db)
  unfolding erase_claimed
  erase_claimed-Reach merchant_id token id p =
      elim (Option-cases (
        find_first
          (λ (a : Artifact).
            is_named id a
            && (str_eq a.merchant_id merchant_id && opt_eq a.cleanup_claim_token (some token)))
          p.db.artifacts)) [
            | inl lost ↦ rw (lost, erase_claimed) (start p.db)
            | inr (a, found) ↦ elim (Bool-cases (is_key a.object_key a.merchant_id)) [
              | inr bad ↦ rw (found, bad, erase_claimed) (start p.db)
              | inl good ↦
                  rw (found, good, erase_claimed)
                    (after (start p.db) (erase_artifact-Step env token a p))
            ]
          ]

  clean_candidate-Reach :
      (merchant_id : String) (days token : ℕ) (id : String) (p : Progress)
      → Reach p.db ((clean_candidate is_key env now merchant_id days token id p).db)
  unfolding clean_candidate
  clean_candidate-Reach merchant_id days token id p =
      let first = after (start p.db) (claiming now merchant_id days id token p.db) in
      elim (Bool-cases (count (claims now merchant_id days id) p.db.artifacts == 1)) [
        | inr lost ↦ rw (lost, clean_candidate) first
        | inl won ↦
            rw (won, clean_candidate)
              (Reach-trans first (erase_claimed-Reach merchant_id token id _))
      ]

  clean_candidates-Reach :
      (merchant_id : String) (days token : ℕ) (candidates : List Artifact) (p : Progress)
      → Reach p.db ((clean_candidates is_key env now merchant_id days token candidates p).db)
  unfolding clean_candidates
  clean_candidates-Reach merchant_id days token [] p = start p.db
  clean_candidates-Reach merchant_id days token (a ∷ rest) p =
      Reach-trans (clean_candidate-Reach merchant_id days token a.id p) (
        clean_candidates-Reach merchant_id days (suc token) rest
          (clean_candidate is_key env now merchant_id days token a.id p))

  clean_setting-Reach :
      (batch_size token : ℕ) (s : Setting) (p : Progress)
      → Reach p.db ((clean_setting is_key env now batch_size token s p).db)
  unfolding clean_setting
  clean_setting-Reach batch_size token s p =
      elim (Bool-cases (ltb s.production_artifact_retention_days 1)) [
        | inl kept ↦ rw (kept, clean_setting) (start p.db)
        | inr due ↦
            rw (due, clean_setting)
              (clean_candidates-Reach s.merchant_id s.production_artifact_retention_days token
                (find_candidates now batch_size s p.db) p)
      ]

  clean_settings-Reach :
      (batch_size token : ℕ) (settings : List Setting) (p : Progress)
      → Reach p.db ((clean_settings is_key env now batch_size token settings p).db)
  unfolding clean_settings
  clean_settings-Reach batch_size token [] p = start p.db
  clean_settings-Reach batch_size token (s ∷ rest) p =
      Reach-trans (clean_setting-Reach batch_size token s p) (
        clean_settings-Reach batch_size (token + length (find_candidates now batch_size s p.db))
          rest (clean_setting is_key env now batch_size token s p))

  cleanup-Reach :
      (batch_size token : ℕ) (settings : List Setting) (db : Db)
      → Reach db
          ((cleanup_expired_generated_artifacts is_key env now batch_size token settings db).db)
  unfolding cleanup_expired_generated_artifacts
  cleanup-Reach batch_size token settings db = clean_settings-Reach batch_size token settings _

  -- After a whole run of the cleanup, over all the merchants, each artifact that is claimed, by the
  -- run or before, is free from the time of its claim on: every lease on it has ended, and it has
  -- no hold, or one that has ended. In the tables before the run this is so of the claimed
  -- artifacts at the times of their claims.
  pub cleanup-IsFree :
      (batch_size token : ℕ) (settings : List Setting) (db : Db) {a : Artifact} {at : Date}
      (later : Date)
      → All IsGuarded db.artifacts
      → Memᴰ a (
          (cleanup_expired_generated_artifacts is_key env now batch_size token settings
            db).db.artifacts)
      → a.cleanup_claimed_at ≡ some at
      → at ≤ later
      → IsFree later a
  cleanup-IsFree batch_size token settings db later g m e le =
      Reach-IsFree later g (cleanup-Reach batch_size token settings db) m e le
