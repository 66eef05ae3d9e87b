-- ===== src/Artifacts/Traces.antt =====
-- The rows of the artifacts in the course of a run of the cleanup, of
-- apps/worker-maintenance/src/artifact-cleanup.ts.
use personalisation_kings.Base.{
  ℕ, suc, ◌+◌, ◌≤◌, ◌≡◌, refl, sym, ◌∙◌, arith, inl, inr, ◌⊎◌, Bool, true, false, ◌&&◌, ◌==◌,
  Option, none, some, List, [], ◌∷◌, String, ltb, Memᴰ, All, some_inj, All-update_many, Bool-cases,
  Option-cases, any, str_eq, opt_eq, find_first, count, update_many, is_some,
}
use personalisation_kings.Artifacts.Types.{Date, Artifact, Db}
use personalisation_kings.Artifacts.Cleanup.{
  claims, claimed, is_named, holds_claim, emptied, postponed, Progress, Environment, postpone,
  complete, erase_artifact, erase_claimed, clean_candidate,
}
use personalisation_kings.Artifacts.Free.{IsRemovable}

-- The claim of an artifact, if any, was made under an earlier token.
abbrev pub is_claimed_before : ℕ → Option ℕ → Bool
is_claimed_before n none = true
is_claimed_before n (some token) = ltb token n

is_claimed_before_later :
    (n m : ℕ) (o : Option ℕ) → n ≤ m → is_claimed_before n o ≡ true → is_claimed_before m o ≡ true
is_claimed_before_later n m none h t = refl
is_claimed_before_later n m (some token) h t = ground arith

is_claimed_before-opt_eq :
    (n : ℕ) (o : Option ℕ) → is_claimed_before n o ≡ true → opt_eq o (some n) ≡ false
is_claimed_before-opt_eq n none h = refl
is_claimed_before-opt_eq n (some token) h = ground arith

module _ (now : Date) (first : ℕ) (db : Db) where
  -- A row in the course of the run: as it was before, or claimed by the run, or emptied.
  pub record IsTraced (n : ℕ) (a : Artifact) : Type 0 where
    pub earlier : is_claimed_before n a.cleanup_claim_token ≡ true
    pub origin :
        (Memᴰ a db.artifacts × (is_claimed_before first a.cleanup_claim_token ≡ true))
        ⊎ ((a.cleanup_claimed_at ≡ some now) ⊎ (is_some a.bytes_deleted_at ≡ true))

  pub IsTraced-later :
      (n m : ℕ) (xs : List Artifact) → n ≤ m → All (IsTraced n) xs → All (IsTraced m) xs
  IsTraced-later n m [] h t = tt
  IsTraced-later n m (x ∷ xs) h (t, ts) = (
    record {
      earlier = is_claimed_before_later n m x.cleanup_claim_token h t.earlier;
      origin = t.origin;
    },
    IsTraced-later n m xs h ts,
  )

  pub IsTraced-unused :
      (n : ℕ) (xs : List Artifact)
      → All (IsTraced n) xs
      → any (λ (a : Artifact). opt_eq a.cleanup_claim_token (some n)) xs ≡ false
  IsTraced-unused n [] t = refl
  IsTraced-unused n (x ∷ xs) (t, ts) =
      ground
        (arith, is_claimed_before-opt_eq n x.cleanup_claim_token t.earlier, IsTraced-unused n xs ts)

  -- A row that is removable is as it was before the run.
  pub removable-before :
      (n days : ℕ) (merchant_id : String) (a : Artifact)
      → IsTraced n a
      → IsRemovable now merchant_id days a
      → Memᴰ a db.artifacts
  removable-before n days merchant_id a t r = elim (t.origin) [
    | inl (m, before) ↦ m
    | inr (inr gone) ↦ absurd (ground (arith, r.present))
    | inr (inl ours) ↦ elim (r.unclaimed) [
      | inl never ↦ absurd (ground arith)
      | inr (at, e, stale) ↦ let same : now ≡ at = some_inj (sym ours ∙ e) in absurd (omega arith)
    ]
  ]

  pub start-rows :
      (xs : List Artifact)
      → ((a : Artifact) → Memᴰ a xs → Memᴰ a db.artifacts)
      → All (λ (a : Artifact). is_claimed_before first a.cleanup_claim_token ≡ true) xs
      → All (IsTraced first) xs
  start-rows [] into h = tt
  start-rows (x ∷ xs) into (h, hs) = (
    record { earlier = h; origin = inl (into x (Memᴰ.head refl), h) },
    start-rows xs (λ a m. into a (Memᴰ.tail m)) hs,
  )

  claimed-rows :
      (merchant_id : String) (days n : ℕ) (id : String) (xs : List Artifact)
      → All (IsTraced n) xs
      → All (IsTraced (suc n)) (update_many (claims now merchant_id days id) (claimed now n) xs)
  claimed-rows merchant_id days n id xs t =
      All-update_many (IsTraced (suc n)) (claims now merchant_id days id) (claimed now n)
        (λ a won ta. record { earlier = ground arith; origin = inr (inl refl) }) xs
        (IsTraced-later n (suc n) xs (omega arith) t)

  module _ (is_key : String → String → Bool) (env : Environment) where
    postponed-rows :
        (n attempts : ℕ) (message : String) (c : Artifact) (xs : List Artifact)
        → first ≤ n
        → All (IsTraced (suc n)) xs
        → All
            (IsTraced (suc n))
            (update_many (holds_claim c n) (postponed env.finished attempts message) xs)
    postponed-rows n attempts message c xs h t =
        All-update_many (IsTraced (suc n)) (holds_claim c n)
          (postponed env.finished attempts message)
          (λ a held ta. record {
            earlier = ta.earlier;
            origin = elim (ta.origin) [
              | inl (m, before) ↦
                  let other =
                    is_claimed_before-opt_eq n a.cleanup_claim_token
                      (is_claimed_before_later first n a.cleanup_claim_token h before) in
                  absurd (ground arith)
              | inr changed ↦ inr changed
            ];
          })
          xs t

    emptied-rows :
        (n : ℕ) (c : Artifact) (xs : List Artifact)
        → All (IsTraced (suc n)) xs
        → All (IsTraced (suc n)) (update_many (holds_claim c n) (emptied env.finished) xs)
    emptied-rows n c xs t =
        All-update_many (IsTraced (suc n)) (holds_claim c n) (emptied env.finished)
          (λ a held ta. record { earlier = refl; origin = inr (inr refl) }) xs t

    complete-rows :
        (n : ℕ) (c : Artifact) (p : Progress)
        → All (IsTraced (suc n)) p.db.artifacts
        → All (IsTraced (suc n)) ((complete env n c p).db.artifacts)
    unfolding complete
    complete-rows n c p t = elim (Bool-cases (count (holds_claim c n) p.db.artifacts == 1)) [
      | inl one ↦ rw (one, complete) (emptied-rows n c p.db.artifacts t)
      | inr other ↦ rw (other, complete) (emptied-rows n c p.db.artifacts t)
    ]

    erase_artifact-rows :
        (n : ℕ) (c : Artifact) (p : Progress)
        → first ≤ n
        → All (IsTraced (suc n)) p.db.artifacts
        → All (IsTraced (suc n)) ((erase_artifact env n c p).db.artifacts)
    unfolding erase_artifact postpone
    erase_artifact-rows n c p h t =
        let gone : Progress = record p {
          erased = c.object_key ∷ p.erased;
          bytes_deleted = p.bytes_deleted + c.byte_size;
        } in
        elim (Option-cases (env.storage_error c.object_key)) [
          | inr (message, failed) ↦
              rw (failed, erase_artifact)
                (postponed-rows n c.cleanup_attempts message c p.db.artifacts h t)
          | inl erased ↦ elim (Option-cases (env.refused c.id)) [
            | inr (message, failed) ↦
                rw (erased, failed, erase_artifact)
                  (postponed-rows n c.cleanup_attempts message c p.db.artifacts h t)
            | inl done ↦ rw (erased, done, erase_artifact) (complete-rows n c gone t)
          ]
        ]

    erase_claimed-rows :
        (merchant_id : String) (n : ℕ) (id : String) (p : Progress)
        → first ≤ n
        → All (IsTraced (suc n)) p.db.artifacts
        → All (IsTraced (suc n)) ((erase_claimed is_key env now merchant_id n id p).db.artifacts)
    unfolding erase_claimed
    erase_claimed-rows merchant_id n id p h t =
        elim (Option-cases (
          find_first
            (λ (a : Artifact).
              is_named id a
              && (str_eq a.merchant_id merchant_id && opt_eq a.cleanup_claim_token (some n)))
            p.db.artifacts)) [
              | inl lost ↦ rw (lost, erase_claimed) t
              | inr (a, found) ↦ elim (Bool-cases (is_key a.object_key a.merchant_id)) [
                | inr bad ↦ rw (found, bad, erase_claimed) t
                | inl good ↦ rw (found, good, erase_claimed) (erase_artifact-rows n a p h t)
              ]
            ]

    pub clean_candidate-rows :
        (merchant_id : String) (days n : ℕ) (id : String) (p : Progress)
        → first ≤ n
        → All (IsTraced n) p.db.artifacts
        → All
            (IsTraced (suc n))
            ((clean_candidate is_key env now merchant_id days n id p).db.artifacts)
    unfolding clean_candidate
    clean_candidate-rows merchant_id days n id p h t =
        let after = claimed-rows merchant_id days n id p.db.artifacts t in
        elim (Bool-cases (count (claims now merchant_id days id) p.db.artifacts == 1)) [
          | inr lost ↦ rw (lost, clean_candidate) after
          | inl won ↦ rw (won, clean_candidate) (erase_claimed-rows merchant_id n id _ h after)
        ]
