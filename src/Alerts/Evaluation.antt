-- ===== src/Alerts/Evaluation.antt =====
-- `evaluateArtifactAlerts` of apps/worker-maintenance/src/operational-checks.ts: the alerts that the
-- metrics of a merchant's artifacts call for.
use personalisation_kings.Base.{
  ℕ, ◌*◌, ◌-◌, Bool, ◌||◌, List, [], ◌∷◌, ◌++◌, String, ltb, leb, if◌then◌else◌,
}

-- `artifactRules`
pub data Rule : Type 0 where
  cleanup_backlog cleanup_stale_claim cleanup_retries : Rule
  indefinite_hold_review settings_missing check_failed : Rule

abbrev pub rule_number : Rule → ℕ
rule_number cleanup_backlog = 0
rule_number cleanup_stale_claim = 1
rule_number cleanup_retries = 2
rule_number indefinite_hold_review = 3
rule_number settings_missing = 4
rule_number check_failed = 5

abbrev pub artifact_rules : List Rule
artifact_rules =
    cleanup_backlog ∷ cleanup_stale_claim ∷ cleanup_retries ∷ indefinite_hold_review
    ∷ settings_missing ∷ check_failed ∷ []

pub data Severity : Type 0 where
  warning critical : Severity

-- A count, as a number or as the text `n+` of one that was capped.
pub data Count : Type 0 where
  exact capped : ℕ → Count

-- `cappedCount`
unfoldable pub capped_count : ℕ → ℕ → Count
capped_count n cap = if leb cap n then capped (cap - 1) else exact n

-- `numericCount`: `parseInt` reads the digits before the plus sign.
unfoldable pub numeric_count : Count → ℕ
numeric_count (exact n) = n
numeric_count (capped n) = n

-- `ArtifactOperationalMetrics`, without the samples.
pub record Metrics : Type 0 where
  pub oldest_overdue_seconds : ℕ
  pub oldest_claim_seconds : ℕ
  pub stale_claims : Count
  pub retrying_three_plus : Count
  pub retrying_five_plus : Count
  pub indefinite_holds_over_90_days : Count
  pub settings_present : Bool

-- `AlertEvaluation`; its details are the metrics.
pub record Evaluation : Type 0 where
  pub rule : Rule
  pub severity : Severity
  pub summary : String

abbrev pub alert : Rule → Severity → String → List Evaluation
alert rule severity summary = record { rule = rule; severity = severity; summary = summary } ∷ []

unfoldable pub evaluate_backlog : Metrics → List Evaluation
evaluate_backlog m =
    if ltb (60 * 60) m.oldest_overdue_seconds
    then alert cleanup_backlog critical "Artifact cleanup backlog exceeds 60 minutes"
    else if ltb (15 * 60) m.oldest_overdue_seconds
    then alert cleanup_backlog warning "Artifact cleanup backlog exceeds 15 minutes"
    else []

unfoldable pub evaluate_claims : Metrics → List Evaluation
unfolding numeric_count
evaluate_claims m =
    if ltb (45 * 60) m.oldest_claim_seconds || leb 10 (numeric_count m.stale_claims)
    then alert cleanup_stale_claim critical "Artifact cleanup claims are critically stale"
    else if ltb 0 (numeric_count m.stale_claims)
    then alert cleanup_stale_claim warning "Artifact cleanup has stale claims"
    else []

unfoldable pub evaluate_retries : Metrics → List Evaluation
unfolding numeric_count
evaluate_retries m =
    if ltb 0 (numeric_count m.retrying_five_plus)
    then alert cleanup_retries critical "Artifact cleanup has five-attempt failures"
    else if ltb 0 (numeric_count m.retrying_three_plus)
    then alert cleanup_retries warning "Artifact cleanup has repeated failures"
    else []

unfoldable pub evaluate_holds : Metrics → List Evaluation
unfolding numeric_count
evaluate_holds m =
    if ltb 0 (numeric_count m.indefinite_holds_over_90_days)
    then alert indefinite_hold_review warning "Indefinite artifact holds require review"
    else []

unfoldable pub evaluate_settings : Metrics → List Evaluation
evaluate_settings m =
    if m.settings_present
    then []
    else alert settings_missing warning "Merchant retention settings are missing"

-- `evaluateArtifactAlerts`
unfoldable pub evaluate_artifact_alerts : Metrics → List Evaluation
evaluate_artifact_alerts m =
    evaluate_backlog m
    ++ (evaluate_claims m ++ (evaluate_retries m ++ (evaluate_holds m ++ evaluate_settings m)))
