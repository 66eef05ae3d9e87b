-- ===== src/Artifacts/Removals.antt =====
-- What a whole run of the cleanup, of apps/worker-maintenance/src/artifact-cleanup.ts, takes out of
-- storage.
use personalisation_kings.Base.{
  ℕ, suc, ◌+◌, ◌≤◌, ◌≡◌, refl, arith, inl, inr, Bool, true, List, [], ◌∷◌, String, ltb, length,
  Memᴰ, All, All-Memᴰ, Bool-cases,
}
use personalisation_kings.Artifacts.Types.{Date, Artifact, Db}
use personalisation_kings.Artifacts.Cleanup.{
  Progress, Environment, Setting, find_candidates, clean_candidate, clean_candidates, clean_setting,
  clean_settings, cleanup_expired_generated_artifacts,
}
use personalisation_kings.Artifacts.Free.{IsRemovable}
use personalisation_kings.Artifacts.Erased.{clean_candidate-erased}
use personalisation_kings.Artifacts.Traces.{
  is_claimed_before, IsTraced, IsTraced-later, IsTraced-unused, removable-before, start-rows,
  clean_candidate-rows,
}

module _ (is_key : String → String → Bool) (env : Environment) (now : Date) (first : ℕ)
    (settings : List Setting) (db : Db) where
  -- The key is that of an artifact which a setting let the run remove.
  abbrev pub IsErasable : String → Type 0
  IsErasable key =
      (s : Setting) × Memᴰ s settings
      × (1 ≤ s.production_artifact_retention_days)
      × ((a : Artifact) × Memᴰ a db.artifacts
          × IsRemovable now s.merchant_id s.production_artifact_retention_days a
          × (is_key a.object_key a.merchant_id ≡ true)
          × (a.object_key ≡ key))

  record IsRun (n : ℕ) (p : Progress) : Type 0 where
    begun : first ≤ n
    rows : All (IsTraced now first db n) p.db.artifacts
    keys : All IsErasable p.erased

  IsRun-later : (n m : ℕ) (p : Progress) → n ≤ m → IsRun n p → IsRun m p
  IsRun-later n m p h r = record {
    begun = omega (arith, r.begun);
    rows = IsTraced-later now first db n m p.db.artifacts h r.rows;
    keys = r.keys;
  }

  clean_candidate-IsRun :
      (s : Setting) (n : ℕ) (id : String) (p : Progress)
      → Memᴰ s settings
      → 1 ≤ s.production_artifact_retention_days
      → IsRun n p
      → IsRun
          (suc n)
          (clean_candidate is_key env now s.merchant_id s.production_artifact_retention_days n id p)
  clean_candidate-IsRun s n id p m kept r = record {
    begun = omega (arith, r.begun);
    rows =
        clean_candidate-rows now first db is_key env s.merchant_id
          s.production_artifact_retention_days n id p r.begun r.rows;
    keys =
        elim (clean_candidate-erased is_key env now s.merchant_id
          s.production_artifact_retention_days n id p
          (IsTraced-unused now first db n p.db.artifacts r.rows)) [
            | inl same ↦ rw same r.keys
            | inr (a, ma, removable, good, same) ↦ rw same (
              (
                s,
                m,
                kept,
                (
                  a,
                  removable-before now first db n s.production_artifact_retention_days s.merchant_id
                      a (All-Memᴰ (IsTraced now first db n) p.db.artifacts r.rows ma) removable,
                  removable,
                  good,
                  refl,
                ),
              ),
              r.keys,
            )
          ];
  }

  clean_candidates-IsRun :
      (s : Setting) (n : ℕ) (candidates : List Artifact) (p : Progress)
      → Memᴰ s settings
      → 1 ≤ s.production_artifact_retention_days
      → IsRun n p
      → IsRun (n + length candidates) (
          clean_candidates is_key env now s.merchant_id s.production_artifact_retention_days n
            candidates p)
  unfolding clean_candidates
  clean_candidates-IsRun s n [] p m kept r = IsRun-later n (n + 0) p (omega arith) r
  clean_candidates-IsRun s n (a ∷ rest) p m kept r =
      IsRun-later (suc n + length rest) _ _ (omega arith) (
        clean_candidates-IsRun s (suc n) rest
          (clean_candidate is_key env now s.merchant_id s.production_artifact_retention_days n a.id
            p)
          m kept (clean_candidate-IsRun s n a.id p m kept r))

  clean_setting-IsRun :
      (batch_size n : ℕ) (s : Setting) (p : Progress)
      → Memᴰ s settings
      → IsRun n p
      → IsRun
          (n + length (find_candidates now batch_size s p.db))
          (clean_setting is_key env now batch_size n s p)
  unfolding clean_setting
  clean_setting-IsRun batch_size n s p m r =
      elim (Bool-cases (ltb s.production_artifact_retention_days 1)) [
        | inl kept ↦ rw (kept, clean_setting) (IsRun-later n _ p (omega arith) r)
        | inr due ↦
            rw (due, clean_setting)
              (clean_candidates-IsRun s n (find_candidates now batch_size s p.db) p m (ground arith)
                r)
      ]

  clean_settings-IsRun :
      (batch_size n : ℕ) (rest : List Setting) (p : Progress)
      → ((s : Setting) → Memᴰ s rest → Memᴰ s settings)
      → IsRun n p
      → All IsErasable ((clean_settings is_key env now batch_size n rest p).erased)
  unfolding clean_settings
  clean_settings-IsRun batch_size n [] p into r = r.keys
  clean_settings-IsRun batch_size n (s ∷ rest) p into r =
      clean_settings-IsRun batch_size (n + length (find_candidates now batch_size s p.db)) rest
        (clean_setting is_key env now batch_size n s p) (λ t m. into t (Memᴰ.tail m))
        (clean_setting-IsRun batch_size n s p (into s (Memᴰ.head refl)) r)

  -- Every key that a whole run of the cleanup takes out of storage, over all the merchants, is that
  -- of an artifact of the tables before the run which is then removable for a merchant with a
  -- retention of at least one day: it is the merchant's, its bytes are there, it is older than the
  -- retention, an attempt on it is due, its key is a production key of the merchant, it is not
  -- claimed, or by a claim of more than fifteen minutes ago, every lease on it has ended, it has no
  -- hold, or one that has ended, its attempt is finished and its print job neither queued nor
  -- running. The tokens of the run are ones that no artifact has.
  pub cleanup-IsErasable :
      (batch_size : ℕ)
      → All (λ (a : Artifact). is_claimed_before first a.cleanup_claim_token ≡ true) db.artifacts
      → All IsErasable
          ((cleanup_expired_generated_artifacts is_key env now batch_size first settings db).erased)
  unfolding cleanup_expired_generated_artifacts
  cleanup-IsErasable batch_size h =
      clean_settings-IsRun batch_size first settings _ (λ s m. m)
        (record {
          begun = omega arith;
          rows = start-rows now first db db.artifacts (λ a m. m) h;
          keys = tt;
        })
