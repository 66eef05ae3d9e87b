-- ===== src/Artifacts/Erased.antt =====
-- What a round of the cleanup takes out of storage.
use personalisation_kings.Base.{
  ℕ, ◌≡◌, refl, sym, ap, ◌∙◌, arith, inl, inr, ◌⊎◌, Bool, true, false, ◌&&◌, ◌==◌, some, ◌∷◌,
  String, if◌then◌else◌, Memᴰ, Bool-cases, any, Option-cases, &&-true, str_eq, opt_eq, find_first,
  count, update_many, mem-update_many, find_first-Memᴰ, find_first-some, any-false,
}
use personalisation_kings.Artifacts.Types.{Date, Artifact}
use personalisation_kings.Artifacts.Cleanup.{
  is_expired, claimed, claims, is_named, Progress, Environment, postpone, complete, erase_artifact,
  erase_claimed, clean_candidate,
}
use personalisation_kings.Artifacts.Free.{IsRemovable, is_expired-IsRemovable}

erase_artifact-erased :
    (env : Environment) (token : ℕ) (a : Artifact) (p : Progress)
    → ((erase_artifact env token a p).erased ≡ p.erased)
      ⊎ ((erase_artifact env token a p).erased ≡ a.object_key ∷ p.erased)
unfolding erase_artifact postpone complete
erase_artifact-erased env token a p = elim (Option-cases (env.storage_error a.object_key)) [
  | inr (message, failed) ↦ inl (rw (failed, erase_artifact) refl)
  | inl erased ↦ inr (elim (Option-cases (env.refused a.id)) [
    | inr (message, failed) ↦ rw (erased, failed, erase_artifact) refl
    | inl done ↦ ground (arith, erased, done)
  ])
]

-- A row that holds a token after the claim, and that no row held before, is the row claimed.
fresh_row :
    (now : Date) (merchant_id : String) (days token : ℕ) (id : String) (x y : Artifact)
    → y ≡ (if claims now merchant_id days id x then claimed now token x else x)
    → opt_eq y.cleanup_claim_token (some token) ≡ true
    → opt_eq x.cleanup_claim_token (some token) ≡ false
    → (claims now merchant_id days id x ≡ true) × (y ≡ claimed now token x)
fresh_row now merchant_id days token id x y e held unused =
    elim (Bool-cases (claims now merchant_id days id x)) [
      | inl won ↦ (won, rw won at e)
      | inr other ↦
          let same : y ≡ x = rw other at e in
          let tokens = ap (λ (a : Artifact). opt_eq a.cleanup_claim_token (some token)) same in
          absurd (ground arith)
    ]

-- A round of the cleanup erases nothing, or the object of one artifact that is removable at the
-- time of the run: it is the merchant's, its bytes are there, it is older than the retention, an
-- attempt on it is due, its key is a production key of the merchant, it is not claimed, or by a
-- claim of more than fifteen minutes ago, every lease on it has ended, it has no hold, or one that
-- has ended, its attempt is finished and its print job neither queued nor running. The token of
-- the round is one that no artifact has.
pub clean_candidate-erased :
    (is_key : String → String → Bool) (env : Environment) (now : Date) (merchant_id : String)
    (days token : ℕ) (id : String) (p : Progress)
    → any (λ (a : Artifact). opt_eq a.cleanup_claim_token (some token)) p.db.artifacts ≡ false
    → ((clean_candidate is_key env now merchant_id days token id p).erased ≡ p.erased)
      ⊎ ((a : Artifact) × Memᴰ a p.db.artifacts
          × IsRemovable now merchant_id days a
          × (is_key a.object_key a.merchant_id ≡ true)
          × ((clean_candidate is_key env now merchant_id days token id p).erased
              ≡ a.object_key ∷ p.erased))
unfolding clean_candidate erase_claimed
clean_candidate-erased is_key env now merchant_id days token id p fresh =
    let p₁ : Progress = record p {
      db = record (p.db) {
        artifacts = update_many (claims now merchant_id days id) (claimed now token) p.db.artifacts;
      };
    } in
    elim (Bool-cases (count (claims now merchant_id days id) p.db.artifacts == 1)) [
      | inr lost ↦ inl (rw (lost, clean_candidate) refl)
      | inl won ↦
          elim (Option-cases (
            find_first
              (λ (a : Artifact).
                is_named id a
                && (str_eq a.merchant_id merchant_id && opt_eq a.cleanup_claim_token (some token)))
              p₁.db.artifacts)) [
                | inl missing ↦ inl (rw (won, missing, clean_candidate, erase_claimed) refl)
                | inr (y, found) ↦ elim (Bool-cases (is_key y.object_key y.merchant_id)) [
                  | inr bad ↦ inl (rw (won, found, bad, clean_candidate, erase_claimed) refl)
                  | inl good ↦ elim (erase_artifact-erased env token y p₁) [
                    | inl kept ↦ inl (rw (won, found, good, clean_candidate, erase_claimed) kept)
                    | inr gone ↦
                        let (x, mx, e) =
                          mem-update_many (claims now merchant_id days id) (claimed now token)
                            p.db.artifacts (find_first-Memᴰ _ p₁.db.artifacts found) in
                        let tested = find_first-some _ p₁.db.artifacts found in
                        let unused = any-false _ p.db.artifacts fresh mx in
                        let (won_it, same) =
                          fresh_row now merchant_id days token id x y e
                            ((&&-true _ (opt_eq y.cleanup_claim_token (some token))
                              ((&&-true (is_named id y) _ tested).1)).1)
                            unused in
                        let key : y.object_key ≡ x.object_key =
                          ap (λ (a : Artifact). a.object_key) same in
                        inr (
                          x,
                          mx,
                          is_expired-IsRemovable now merchant_id days x (
                              (&&-true (is_named id x) (is_expired now merchant_id days x)
                                won_it).1),
                          ap (λ (a : Artifact). is_key a.object_key a.merchant_id) (sym same)
                              ∙ good,
                          rw (won, found, good, clean_candidate, erase_claimed)
                              (gone ∙ ap (λ k. k ∷ p.erased) key),
                        )
                  ]
                ]
              ]
    ]
