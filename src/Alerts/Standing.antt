-- ===== src/Alerts/Standing.antt =====
-- What the alerts stand at after a check: apps/worker-maintenance/src/operational-checks.ts.
use mathlib.Core.Path.{subst}
use personalisation_kings.Base.{
  ℕ, Memᴰ, All-Memᴰ, sym, ◌≤◌, ◌≡◌, refl, inl, inr, Bool, true, false, not, ◌&&◌, none, List, [],
  ◌∷◌, ◌==◌, All, any, arith, count, find_first, find_many, update_many, Bool-cases, Option-cases,
}
use personalisation_kings.Alerts.Evaluation.{
  Rule, cleanup_backlog, cleanup_stale_claim, cleanup_retries, indefinite_hold_review,
  settings_missing, check_failed, rule_number, artifact_rules, Metrics, Evaluation,
  evaluate_artifact_alerts, evaluate_backlog, evaluate_claims, evaluate_retries, evaluate_holds,
  evaluate_settings,
}
use personalisation_kings.Alerts.Synchronize.{
  Date, RowId, OperationalAlert, AlertDb, is_missing, is_resolved, resolve, has_rule,
  queue_alert_delivery, synchronize_all, resolve_alerts, synchronize_alerts,
}

abbrev pub is_about : Rule → Evaluation → Bool
is_about r e = rule_number e.rule == rule_number r

-- A check raises no rule twice, so each evaluation updates an alert of its own.
pub evaluate_artifact_alerts-once :
    (m : Metrics) (r : Rule) → count (is_about r) (evaluate_artifact_alerts m) ≤ 1
unfolding evaluate_artifact_alerts evaluate_backlog evaluate_claims evaluate_retries evaluate_holds
    evaluate_settings
evaluate_artifact_alerts-once m cleanup_backlog = ground arith
evaluate_artifact_alerts-once m cleanup_stale_claim = ground arith
evaluate_artifact_alerts-once m cleanup_retries = ground arith
evaluate_artifact_alerts-once m indefinite_hold_review = ground arith
evaluate_artifact_alerts-once m settings_missing = ground arith
evaluate_artifact_alerts-once m check_failed = ground arith

module _ (merchant_id : RowId) (now : Date) (es : List Evaluation) where
  -- The rows still to resolve are in the worklist.
  abbrev Listed : List OperationalAlert → OperationalAlert → Type 0
  Listed rows a =
      is_missing merchant_id es a ≡ true → any (λ (w : OperationalAlert). w.id == a.id) rows ≡ true

  Listed-more :
      (w : OperationalAlert) (ws rows : List OperationalAlert)
      → All (Listed ws) rows
      → All (Listed (w ∷ ws)) rows
  Listed-more w ws [] h = tt
  Listed-more w ws (a ∷ rows) (h, hs) = (λ m. ground (arith, h m), Listed-more w ws rows hs)

  missing-Listed :
      (rows : List OperationalAlert)
      → All (Listed (find_many (is_missing merchant_id es) rows)) rows
  missing-Listed [] = tt
  missing-Listed (a ∷ rows) = elim (Bool-cases (is_missing merchant_id es a)) [
    | inl t ↦
        let kept : find_many (is_missing merchant_id es) (a ∷ rows)
            ≡ a ∷ find_many (is_missing merchant_id es) rows =
          rw t refl in
        subst (λ ws. All (Listed ws) (a ∷ rows)) (sym kept)
          (λ m. ground arith, Listed-more a _ rows (missing-Listed rows))
    | inr f ↦
        let dropped : find_many (is_missing merchant_id es) (a ∷ rows)
            ≡ find_many (is_missing merchant_id es) rows =
          rw f refl in
        subst (λ ws. All (Listed ws) (a ∷ rows)) (sym dropped)
          (λ m. absurd (ground arith), missing-Listed rows)
  ]

  resolved-Listed :
      (w : OperationalAlert) (rest rows : List OperationalAlert)
      → All (Listed (w ∷ rest)) rows
      → All (Listed rest) (update_many (λ (x : OperationalAlert). x.id == w.id) (resolve now) rows)
  resolved-Listed w rest [] h = tt
  resolved-Listed w rest (a ∷ rows) (h, hs) =
      (λ m. ground (arith, h), resolved-Listed w rest rows hs)

  gone-Listed :
      (w : OperationalAlert) (rest rows : List OperationalAlert)
      → find_first (λ (x : OperationalAlert). x.id == w.id) rows ≡ none
      → All (Listed (w ∷ rest)) rows
      → All (Listed rest) rows
  gone-Listed w rest [] gone h = tt
  gone-Listed w rest (a ∷ rows) gone (h, hs) =
      (λ m. ground (arith, h m), gone-Listed w rest rows (ground arith) hs)

  unlisted :
      (rows : List OperationalAlert)
      → All (Listed []) rows
      → All (λ a. is_missing merchant_id es a ≡ false) rows
  unlisted [] h = tt
  unlisted (a ∷ rows) (h, hs) = (ground (arith, h), unlisted rows hs)

  -- Every rule is among the artifact rules.
  listed_rule :
      (r : Rule)
      → has_rule es r ≡ false
      → any (λ x. rule_number x == rule_number r && not (has_rule es x)) artifact_rules ≡ true
  listed_rule cleanup_backlog h = ground (arith, h)
  listed_rule cleanup_stale_claim h = ground (arith, h)
  listed_rule cleanup_retries h = ground (arith, h)
  listed_rule indefinite_hold_review h = ground (arith, h)
  listed_rule settings_missing h = ground (arith, h)
  listed_rule check_failed h = ground (arith, h)

  module _ (fingerprint : RowId → Rule → ℕ) where
    resolve_alerts-missing :
        (rows : List OperationalAlert) (db : AlertDb)
        → All (Listed rows) db.alerts
        → All
            (λ a. is_missing merchant_id es a ≡ false)
            (resolve_alerts fingerprint merchant_id now rows db).alerts
    unfolding resolve_alerts queue_alert_delivery
    resolve_alerts-missing [] db h = unlisted db.alerts h
    resolve_alerts-missing (a ∷ rest) db h =
        elim (Option-cases (find_first (λ (r : OperationalAlert). r.id == a.id) db.alerts)) [
          | inl gone ↦
              rw (gone, resolve_alerts)
                (resolve_alerts-missing rest db (gone-Listed a rest db.alerts gone h))
          | inr (r, found) ↦
              rw (found, resolve_alerts)
                (resolve_alerts-missing rest _ (resolved-Listed a rest db.alerts h))
        ]

    resolves-All :
        (db : AlertDb)
        → All
            (λ (a : OperationalAlert).
              a.merchant_id ≡ merchant_id
              → has_rule es a.rule ≡ false
              → is_resolved a.status ≡ true)
            (synchronize_alerts fingerprint merchant_id now true es db).alerts
    unfolding synchronize_alerts
    resolves-All db = settled _ (
        resolve_alerts-missing _ (synchronize_all fingerprint merchant_id now es db)
          (missing-Listed _))
      where
        settled :
            (rows : List OperationalAlert)
            → All (λ a. is_missing merchant_id es a ≡ false) rows
            → All
                (λ (a : OperationalAlert).
                  a.merchant_id ≡ merchant_id
                  → has_rule es a.rule ≡ false
                  → is_resolved a.status ≡ true)
                rows
        settled [] h = tt
        settled (a ∷ rows) (h, hs) =
            (λ own absent. ground (arith, h, listed_rule a.rule absent), settled rows hs)

    -- After a check that looked at every rule, no alert of the merchant is open or acknowledged
    -- whose rule the check did not raise.
    pub synchronize_alerts-resolves :
        (db : AlertDb) (a : OperationalAlert)
        → Memᴰ a (synchronize_alerts fingerprint merchant_id now true es db).alerts
        → a.merchant_id ≡ merchant_id
        → has_rule es a.rule ≡ false
        → is_resolved a.status ≡ true
    synchronize_alerts-resolves db a m = All-Memᴰ _ _ (resolves-All db) m
