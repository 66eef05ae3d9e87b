-- ===== src/Connector/Process/Transaction.antt =====
-- The transaction from the check of the claim to its completion.
use personalisation_kings.Base.{
  ◌+◌, Bool, false, ◌&&◌, Option, none, some, List, [], ◌∷◌, ◌++◌, ◌==◌, str_eq, opt_eq,
  if◌then◌else◌, count, find_first, find_many, update_many, delete_many,
}
use personalisation_kings.Connector.Types.{
  RowId, Date, ConnectorEvent, Store, is_connected, WebhookDelivery, WebhookDeliveryStatus,
  is_processing, ExternalOrder, EcommerceLineItem, Db, claim_lost, store_unavailable,
}
use personalisation_kings.Connector.Ordering.{
  is_stale_order_event, is_ending, connector_outbox_event_type,
}
use personalisation_kings.Connector.Result.{Result, ok, err, ◌>>=◌}
use personalisation_kings.Connector.Process.Lines.{Progress, is_actionable_paid, sync_lines}
use personalisation_kings.Connector.Process.Lifecycle.{
  Linked, revision_sessions, sessions_of, reconcile_removed, end_order,
}

pub data Outcome : Type 0 where
  stale processed : RowId → Outcome

-- `WHERE "id" = … AND "status" = 'processing' AND "claimToken" = …`
abbrev pub holds_claim : RowId → RowId → WebhookDelivery → Bool
holds_claim id token d = d.id == id && (is_processing d.status && opt_eq d.claim_token (some token))

abbrev pub completed : Date → WebhookDelivery → WebhookDelivery
completed now d = record d {
  status = WebhookDeliveryStatus.processed;
  processed_at = some now;
  processing_started_at = none;
  claimed_at = none;
  claim_token = none;
  failed_at = none;
  error = none;
}

unfoldable pub complete_connector_delivery : Date → RowId → RowId → Db → Result Db
complete_connector_delivery now id token db =
    if count (holds_claim id token) db.deliveries == 1
    then ok (record db {
      deliveries = update_many (holds_claim id token) (completed now) db.deliveries;
    })
    else err claim_lost

abbrev pub is_order : Store → ConnectorEvent → ExternalOrder → Bool
is_order store e o =
    o.store_id == store.id && str_eq o.external_order_id e.payload.external_order_id

-- The stale test, false when the order is new.
unfoldable pub is_stale : ConnectorEvent → Option ExternalOrder → Bool
is_stale e none = false
is_stale e (some o) =
    is_stale_order_event o.last_event_at o.last_event_type e.event_type e.payload.event_timestamp

abbrev pub write_order : ConnectorEvent → ExternalOrder → ExternalOrder
write_order e o = record o {
  external_order_number = e.payload.external_order_number;
  currency = e.payload.currency;
  status = e.payload.order_status;
  raw_payload = e.payload;
  last_event_at = some e.payload.event_timestamp;
  last_event_type = some e.event_type;
}

abbrev pub new_order : RowId → Store → ConnectorEvent → ExternalOrder
new_order id store e = record {
  id = id;
  merchant_id = store.merchant_id;
  store_id = store.id;
  external_order_id = e.payload.external_order_id;
  external_order_number = e.payload.external_order_number;
  currency = e.payload.currency;
  status = e.payload.order_status;
  raw_payload = e.payload;
  last_event_at = some e.payload.event_timestamp;
  last_event_type = some e.event_type;
}

-- `externalOrder.upsert`, with the id of the row.
unfoldable pub upsert_order : Store → ConnectorEvent → Option ExternalOrder → Db → RowId × Db
upsert_order store e (some o) db =
    (o.id, record db { orders = update_many (is_order store e) (write_order e) db.orders })
upsert_order store e none db = (
  db.next_id,
  record db { next_id = db.next_id + 1; orders = db.orders ++ new_order db.next_id store e ∷ [] },
)

-- The line items that the order had, as links, and the tables without them.
unfoldable pub start_lines : RowId → Db → List Linked × Progress
start_lines order_id db =
    let previous =
      revision_sessions db.revisions
        (find_many (λ (l : EcommerceLineItem). l.order_id == order_id) db.line_items) [] in
    (
      previous,
      record {
        db = record db {
          line_items =
              delete_many (λ (l : EcommerceLineItem). l.order_id == order_id) db.line_items;
        };
        affected_sessions = sessions_of previous [];
        incoming_revisions = [];
        incoming_sessions = [];
      },
    )

unfoldable pub settle_order : Store → RowId → ConnectorEvent → List Linked → Progress → Db
settle_order store order_id e previous p =
    if is_ending e.event_type
    then end_order store order_id e p
    else reconcile_removed store order_id previous p

unfoldable pub publish : Store → RowId → RowId → ConnectorEvent → Db → Db
publish store order_id correlation_id e db = record db {
  next_id = db.next_id + 1;
  outbox =
      db.outbox
      ++ record {
        id = db.next_id;
        merchant_id = store.merchant_id;
        event_type = connector_outbox_event_type e;
        aggregate_id = order_id;
        event_id = e.event_id;
        correlation_id = correlation_id;
      }
        ∷ [];
}

-- An event that is not stale, for an order that may be new.
unfoldable pub apply_event :
    Date
    → RowId
    → RowId
    → RowId
    → Store
    → ConnectorEvent
    → Option ExternalOrder
    → Db
    → Result (Outcome × Db)
apply_event now delivery_id token correlation_id store e existing db =
    let (order_id, db₁) = upsert_order store e existing db in
    let (previous, start) = start_lines order_id db₁ in
    do
      p ← sync_lines store order_id (is_actionable_paid e) e.payload.line_items start
      db' ←
          complete_connector_delivery now delivery_id token
            (publish store order_id correlation_id e (settle_order store order_id e previous p))
      ok (processed order_id, db')

abbrev pub find_order : Store → ConnectorEvent → Db → Option ExternalOrder
find_order store e db = find_first (is_order store e) db.orders

unfoldable pub process_for_store :
    Date → RowId → RowId → RowId → Store → ConnectorEvent → Db → Result (Outcome × Db)
process_for_store now delivery_id token correlation_id store e db = elim (find_order store e db) [
  | none ↦ apply_event now delivery_id token correlation_id store e none db
  | some o ↦
      if is_stale e (some o)
      then (do db' ← complete_connector_delivery now delivery_id token db; ok (stale o.id, db'))
      else apply_event now delivery_id token correlation_id store e (some o) db
]

-- The store of the claimed delivery: still connected, and the one that the event names.
unfoldable pub processing_store : RowId → RowId → ConnectorEvent → Db → Result Store
processing_store delivery_id token e db =
    elim (find_first (holds_claim delivery_id token) db.deliveries) [
      | none ↦ err claim_lost
      | some d ↦ elim (find_first (λ (s : Store). s.id == d.store_id) db.stores) [
        | none ↦ err store_unavailable
        | some s ↦
            if is_connected s.connection_status && s.id == e.store_id
            then ok s
            else err store_unavailable
      ]
    ]

unfoldable pub process_connector_event :
    Date → RowId → RowId → RowId → ConnectorEvent → Db → Result (Outcome × Db)
process_connector_event now delivery_id token correlation_id e db = do
  store ← processing_store delivery_id token e db
  process_for_store now delivery_id token correlation_id store e db
