-- ===== src/Alerts/Examples.antt =====
-- The theorems of operational alerts at concrete metrics and tables.
use personalisation_kings.Base.{ℕ, ◌+◌, ◌*◌, ◌≤◌, ◌≡◌, refl, true, [], ◌∷◌, Memᴰ, arith, count}
use personalisation_kings.Alerts.Evaluation.{
  Rule, cleanup_backlog, cleanup_stale_claim, rule_number, warning, exact, Metrics, Evaluation,
  evaluate_artifact_alerts,
}
use personalisation_kings.Alerts.Synchronize.{
  RowId, OperationalAlert, is_resolved, AlertDb, new_alert, synchronize_all, resolve_alerts,
  synchronize_alerts, resolve,
}
use personalisation_kings.Alerts.Notices.{IsNotified, synchronize_alerts-IsNotified}
use personalisation_kings.Alerts.Standing.{
  is_about, evaluate_artifact_alerts-once, synchronize_alerts-resolves,
}

abbrev overdue : Metrics
overdue = record {
  oldest_overdue_seconds = 4000;
  oldest_claim_seconds = 0;
  stale_claims = exact 0;
  retrying_three_plus = exact 0;
  retrying_five_plus = exact 0;
  indefinite_holds_over_90_days = exact 0;
  settings_present = true;
}

evaluate_artifact_alerts-once_example :
    count (is_about cleanup_backlog) (evaluate_artifact_alerts overdue) ≤ 1
evaluate_artifact_alerts-once_example = evaluate_artifact_alerts-once overdue cleanup_backlog

abbrev digest : RowId → Rule → ℕ
digest merchant_id rule = 10 * merchant_id + rule_number rule

abbrev no_alerts : AlertDb
no_alerts = record { next_id = 1; alerts = []; deliveries = [] }

no_alerts-IsNotified : IsNotified no_alerts
no_alerts-IsNotified = record {
  keyed = λ a b m n e. elim m [ ];
  allotted = λ a m. elim m [ ];
  known = λ d m. elim m [ ];
  bounded = λ a d m n e. elim m [ ];
  unique = λ id version. omega arith;
}

synchronize_alerts-IsNotified_example :
    IsNotified (synchronize_alerts digest 2 100 true (evaluate_artifact_alerts overdue) no_alerts)
synchronize_alerts-IsNotified_example =
    synchronize_alerts-IsNotified digest 2 100 true (evaluate_artifact_alerts overdue) no_alerts
      no_alerts-IsNotified

abbrev stale_evaluation : Evaluation
stale_evaluation = record { rule = cleanup_stale_claim; severity = warning; summary = "stale" }

abbrev stale_alert : OperationalAlert
stale_alert = new_alert 1 2 21 stale_evaluation 50

-- The alert's rule is not raised any more.
synchronize_alerts-resolves_example : is_resolved (resolve 100 stale_alert).status ≡ true
unfolding synchronize_alerts synchronize_all resolve_alerts
synchronize_alerts-resolves_example =
    synchronize_alerts-resolves 2 100 [] digest
      (record { next_id = 2; alerts = stale_alert ∷ []; deliveries = [] }) (resolve 100 stale_alert)
      (Memᴰ.head refl) refl refl
