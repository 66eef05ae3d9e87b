-- ===== src/Alerts/Synchronize.antt =====
-- `synchronizeAlerts` and `queueAlertDelivery` of apps/worker-maintenance/src/operational-checks.ts:
-- the alerts of a merchant are brought in line with what the last check found.
-- `fingerprint` stands for the digest of a merchant and a rule.
use personalisation_kings.Base.{
  ℕ, ◌+◌, Bool, true, false, not, ◌&&◌, ◌||◌, Option, none, some, List, [], ◌∷◌, ◌++◌, ◌==◌, String,
  if◌then◌else◌, any, find_first, find_many, update_many,
}
use personalisation_kings.Alerts.Evaluation.{
  Rule, rule_number, artifact_rules, Severity, warning, critical, Evaluation,
}

abbrev pub Date : Type 0
Date = ℕ

abbrev pub RowId : Type 0
RowId = ℕ

pub data AlertStatus : Type 0 where
  open_alert acknowledged resolved : AlertStatus

abbrev pub is_resolved : AlertStatus → Bool
is_resolved resolved = true
is_resolved _ = false

-- `OperationalAlert`
pub record OperationalAlert : Type 0 where
  pub id : RowId
  pub merchant_id : RowId
  pub fingerprint : ℕ
  pub rule : Rule
  pub severity : Severity
  pub status : AlertStatus
  pub summary : String
  pub first_triggered_at : Date
  pub last_observed_at : Date
  pub resolved_at : Option Date
  pub acknowledged_at : Option Date
  pub acknowledged_by_user_id : Option RowId
  pub occurrences : ℕ
  pub notification_version : ℕ

-- `OperationalAlertDelivery` as it is queued; `payload` is the alert that it reports.
pub record QueuedDelivery : Type 0 where
  pub alert_id : RowId
  pub notification_version : ℕ
  pub payload : OperationalAlert
  pub transition_at : Date

-- The two tables. `next_id` is the primary key of the next alert.
pub record AlertDb : Type 0 where
  pub next_id : RowId
  pub alerts : List OperationalAlert
  pub deliveries : List QueuedDelivery

-- `queueAlertDelivery`
unfoldable pub queue_alert_delivery : OperationalAlert → Date → AlertDb → AlertDb
queue_alert_delivery a now db = record db {
  deliveries =
      db.deliveries
      ++ record {
        alert_id = a.id;
        notification_version = a.notification_version;
        payload = a;
        transition_at = now;
      }
        ∷ [];
}

abbrev pub new_alert : RowId → RowId → ℕ → Evaluation → Date → OperationalAlert
new_alert id merchant_id fingerprint e now = record {
  id = id;
  merchant_id = merchant_id;
  fingerprint = fingerprint;
  rule = e.rule;
  severity = e.severity;
  status = open_alert;
  summary = e.summary;
  first_triggered_at = now;
  last_observed_at = now;
  resolved_at = none;
  acknowledged_at = none;
  acknowledged_by_user_id = none;
  occurrences = 1;
  notification_version = 1;
}

-- `existing.severity === "warning" && evaluation.severity === "critical"`
unfoldable pub is_escalated : Severity → Severity → Bool
is_escalated warning critical = true
is_escalated _ _ = false

-- `reopened || escalated`
unfoldable pub is_renewed : OperationalAlert → Evaluation → Bool
unfolding is_escalated
is_renewed existing e = is_resolved existing.status || is_escalated existing.severity e.severity

-- The update of an alert that exists.
abbrev pub observed : Bool → Evaluation → Date → OperationalAlert → OperationalAlert
observed renewed e now a = record a {
  severity = e.severity;
  status = if renewed then open_alert else a.status;
  summary = e.summary;
  last_observed_at = now;
  resolved_at = none;
  acknowledged_at = if renewed then none else a.acknowledged_at;
  acknowledged_by_user_id = if renewed then none else a.acknowledged_by_user_id;
  occurrences = a.occurrences + 1;
  notification_version = if renewed then a.notification_version + 1 else a.notification_version;
}

abbrev pub resolve : Date → OperationalAlert → OperationalAlert
resolve now a = record a {
  status = resolved;
  resolved_at = some now;
  last_observed_at = now;
  notification_version = a.notification_version + 1;
}

-- `activeRules.has(rule)`
abbrev pub has_rule : List Evaluation → Rule → Bool
has_rule es r = any (λ (e : Evaluation). rule_number e.rule == rule_number r) es

-- The `where` clause of the alerts to resolve.
abbrev pub is_missing : RowId → List Evaluation → OperationalAlert → Bool
is_missing merchant_id es a =
    a.merchant_id == merchant_id
    && (any (λ r. rule_number r == rule_number a.rule && not (has_rule es r)) artifact_rules
        && not (is_resolved a.status))

module _ (fingerprint : RowId → Rule → ℕ) (merchant_id : RowId) (now : Date) where
  -- One round of the loop over the evaluations.
  unfoldable pub synchronize_alert : Evaluation → AlertDb → AlertDb
  unfolding queue_alert_delivery
  synchronize_alert e db =
      elim (find_first (λ (a : OperationalAlert). a.fingerprint == fingerprint merchant_id e.rule)
        db.alerts) [
          | none ↦
              let created =
                new_alert db.next_id merchant_id (fingerprint merchant_id e.rule) e now in
              queue_alert_delivery created now
                (record db { next_id = db.next_id + 1; alerts = db.alerts ++ created ∷ [] })
          | some existing ↦
              let renewed = is_renewed existing e in
              let written = record db {
                alerts = update_many (λ a. a.id == existing.id) (observed renewed e now) db.alerts;
              } in
              if renewed
              then queue_alert_delivery (observed renewed e now existing) now written
              else written
        ]

  unfoldable pub synchronize_all : List Evaluation → AlertDb → AlertDb
  synchronize_all [] db = db
  synchronize_all (e ∷ es) db = synchronize_all es (synchronize_alert e db)

  -- The loop over the alerts to resolve. Each update is by primary key, on the row as it then is;
  -- it would throw on a row that is gone, which no statement of the transaction makes one.
  unfoldable pub resolve_alerts : List OperationalAlert → AlertDb → AlertDb
  unfolding queue_alert_delivery
  resolve_alerts [] db = db
  resolve_alerts (a ∷ rest) db =
      resolve_alerts rest (elim (find_first (λ (r : OperationalAlert). r.id == a.id) db.alerts) [
        | none ↦ db
        | some r ↦
            queue_alert_delivery (resolve now r) now
              (record db { alerts = update_many (λ x. x.id == a.id) (resolve now) db.alerts })
      ])

  -- `synchronizeAlerts`
  unfoldable pub synchronize_alerts : Bool → List Evaluation → AlertDb → AlertDb
  synchronize_alerts resolve_missing es db =
      let observed_db = synchronize_all es db in
      if resolve_missing
      then resolve_alerts (find_many (is_missing merchant_id es) observed_db.alerts) observed_db
      else observed_db
