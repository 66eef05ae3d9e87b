-- ===== src/Connector/Tests.antt =====
-- The connector on concrete tables: tests, and the theorems at these inputs.
use personalisation_kings.Base.{ℕ, String, none, some, List, [], ◌∷◌, ◌≡◌, refl, map}
use personalisation_kings.Connector.Types.{
  RowId, EventType, order_paid, order_cancelled, LineItem, ConnectorEvent, ConnectionStatus, Store,
  WebhookDelivery, WebhookDeliveryStatus, SessionStatus, CustomisationSession, PrintJobStatus,
  PrintJob, Db, claim_lost,
}
use personalisation_kings.Connector.Ordering.{
  lifecycle_priority, is_stale_order_event, connector_outbox_event_type,
  print_job_lifecycle_transition,
}
use personalisation_kings.Connector.Receipt.{
  answer_existing, new_delivery, record_receipt, receive_for_store, receive_connector_event,
}
use personalisation_kings.Connector.Result.{Result, ok, err}
use personalisation_kings.Connector.Process.Lines.{
  is_allowed_status, is_valid_revision, find_valid_revision, latest_profile, ensure_print_job,
  request_print, sync_line, sync_lines,
}
use personalisation_kings.Connector.Process.Lifecycle.{
  session_of, revision_sessions, sessions_of, apply_transition, apply_transitions, review_sessions,
  retire_sessions, retire_removed, reconcile_removed, end_order,
}
use personalisation_kings.Connector.Process.Transaction.{
  Outcome, stale, processed, completed, complete_connector_delivery, is_stale, upsert_order,
  start_lines, settle_order, publish, apply_event, process_for_store, processing_store,
  process_connector_event,
}

unfoldable pub processing : Unit {0}
unfolding lifecycle_priority is_stale_order_event connector_outbox_event_type
    print_job_lifecycle_transition is_allowed_status is_valid_revision find_valid_revision
    latest_profile ensure_print_job request_print sync_line sync_lines session_of revision_sessions
    sessions_of apply_transition apply_transitions review_sessions retire_sessions retire_removed
    reconcile_removed end_order complete_connector_delivery is_stale upsert_order start_lines
    settle_order publish apply_event process_for_store processing_store process_connector_event
processing = tt

unfoldable pub receiving : Unit {0}
unfolding answer_existing record_receipt receive_for_store receive_connector_event
receiving = tt

abbrev pub shop : Store
shop = record { id = 1; merchant_id = 2; connection_status = ConnectionStatus.connected }

abbrev pub mug : LineItem
mug = record {
  external_line_item_id = "li-1";
  external_product_id = "mug";
  external_variant_id = none;
  quantity = 2;
  customisation_reference = some "ref-1";
}

abbrev pub order_event : EventType → String → ℕ → List LineItem → String → ConnectorEvent
order_event type status at items tag = record {
  event_id = tag;
  event_type = type;
  store_id = 1;
  connector_instance_id = "wp-1";
  nonce = "nonce-0123456789-abcdef";
  content_digest = "sha256=abc";
  payload = record {
    external_order_id = "1001";
    external_order_number = none;
    currency = "GBP";
    order_status = status;
    line_items = items;
    idempotency_key = tag;
    event_timestamp = at;
  };
}

abbrev pub paid : ConnectorEvent
paid = order_event order_paid "processing" 100 (mug ∷ []) "paid-1"

abbrev pub cancel : ConnectorEvent
cancel = order_event order_cancelled "cancelled" 200 (mug ∷ []) "cancel-1"

abbrev pub inbox_row : RowId → RowId → ConnectorEvent → WebhookDelivery
inbox_row id token e = record (new_delivery id shop e 5 50) {
  status = WebhookDeliveryStatus.processing;
  claim_token = some token;
  claimed_at = some 60;
  attempts = 1;
}

abbrev pub empty : Db
empty = record {
  next_id = 100;
  stores = shop ∷ [];
  deliveries = [];
  orders = [];
  line_items = [];
  revisions =
      record {
        id = 20;
        merchant_id = 2;
        session_id = 30;
        design_version_id = 40;
        opaque_reference = "ref-1";
      }
      ∷ [];
  sessions =
      record {
        id = 30;
        store_id = 1;
        external_product_id = "mug";
        external_variant_id = none;
        status = SessionStatus.committed;
      }
      ∷ [];
  print_jobs = [];
  snapshots = [];
  profiles = record { id = 50; merchant_id = 2; active_version_id = some 51; updated_at = 9 } ∷ [];
  outbox = [];
  audit = [];
}

abbrev pub claimed_db : Db
claimed_db = record empty { deliveries = inbox_row 7 70 paid ∷ inbox_row 8 80 cancel ∷ [] }

abbrev pub db_of : Result (Outcome × Db) → Db → Db
db_of (ok r) db = r.1
db_of (err e) db = db

abbrev pub after_paid : Db
after_paid = db_of (process_connector_event 90 7 70 5 paid claimed_db) claimed_db

abbrev pub after_cancel : Db
after_cancel = db_of (process_connector_event 95 8 80 5 cancel after_paid) after_paid

pub paid_runs : process_connector_event 90 7 70 5 paid claimed_db ≡ ok (processed 100, after_paid)
unfolding processing
paid_runs = refl

pub cancel_runs :
    process_connector_event 95 8 80 5 cancel after_paid ≡ ok (processed 100, after_cancel)
unfolding processing
cancel_runs = refl

-- The paid event queues one print job, which the cancellation then stops.
lifecycle_test :
    (map (λ (j : PrintJob). j.status) after_paid.print_jobs ≡ PrintJobStatus.queued ∷ [])
    × (map (λ (j : PrintJob). j.status) after_cancel.print_jobs ≡ PrintJobStatus.cancelled ∷ [])
    × (map (λ (s : CustomisationSession). s.status) after_cancel.sessions
        ≡ SessionStatus.cancelled ∷ [])
unfolding processing
lifecycle_test = (refl, refl, refl)

-- A second worker with another token has lost the claim.
fenced_test : process_connector_event 90 7 71 5 paid claimed_db ≡ err claim_lost
unfolding processing
fenced_test = refl

-- The paid event, arriving after the cancellation, is stale.
late_test :
    process_connector_event 99 7 70 5 paid
      (record after_cancel { deliveries = inbox_row 7 70 paid ∷ [] })
    ≡ ok (stale 100, record after_cancel { deliveries = completed 99 (inbox_row 7 70 paid) ∷ [] })
unfolding processing
late_test = refl
