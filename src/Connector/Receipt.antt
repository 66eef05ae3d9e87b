-- ===== src/Connector/Receipt.antt =====
-- Receipt of a signed event: `receiveConnectorEvent` of packages/connector-processing/src/index.ts.
-- The advisory lock makes the receipts of one store follow one another, so a receipt is a function
-- of the tables. A new delivery has the column defaults of packages/db/prisma/schema.prisma.
pub mod Identity
use personalisation_kings.Base.{
  ◌+◌, Bool, ◌&&◌, ◌||◌, none, some, List, [], ◌∷◌, ◌++◌, ◌==◌, str_eq, if◌then◌else◌, length,
  find_first, find_many, take,
}
use personalisation_kings.Connector.Types.{
  RowId, Date, ConnectorEvent, Store, is_connected, WebhookDelivery, WebhookDeliveryStatus, Db,
}

pub data Receipt : Type 0 where
  unknown_store identity_conflict : Receipt
  duplicate accepted : RowId → Receipt

-- The `OR` of the lookup: a delivery of the store that shares one of the three identities.
abbrev pub shares_identity : RowId → ConnectorEvent → WebhookDelivery → Bool
shares_identity store_id e d =
    d.store_id == store_id
    && (str_eq d.event_id e.event_id
        || (str_eq d.idempotency_key e.payload.idempotency_key || str_eq d.nonce e.nonce))

abbrev pub is_exact : ConnectorEvent → WebhookDelivery → Bool
is_exact e d =
    str_eq d.event_id e.event_id
    && (str_eq d.idempotency_key e.payload.idempotency_key
        && (str_eq d.nonce e.nonce && str_eq d.content_digest e.content_digest))

-- What `existing` decides when it is not empty.
unfoldable pub answer_existing : ConnectorEvent → List WebhookDelivery → Receipt
answer_existing e existing = elim (find_first (is_exact e) existing) [
  | none ↦ identity_conflict
  | some exact ↦ if length existing == 1 then duplicate exact.id else identity_conflict
]

abbrev pub new_delivery : RowId → Store → ConnectorEvent → RowId → Date → WebhookDelivery
new_delivery id store e correlation_id now = record {
  id = id;
  merchant_id = store.merchant_id;
  store_id = store.id;
  event_id = e.event_id;
  idempotency_key = e.payload.idempotency_key;
  nonce = e.nonce;
  content_digest = e.content_digest;
  raw_payload = e;
  status = WebhookDeliveryStatus.pending;
  attempts = 0;
  next_attempt_at = now;
  claimed_at = none;
  claim_token = none;
  correlation_id = some correlation_id;
  processed_at = none;
  processing_started_at = none;
  failed_at = none;
  error = none;
  received_at = now;
}

-- What follows the lookup, on the deliveries that it finds.
unfoldable pub record_receipt :
    Date → RowId → Store → ConnectorEvent → Db → List WebhookDelivery → Receipt × Db
record_receipt now correlation_id store e db (d ∷ ds) = (answer_existing e (d ∷ ds), db)
record_receipt now correlation_id store e db [] = (
  accepted db.next_id,
  record db {
    next_id = db.next_id + 1;
    deliveries = db.deliveries ++ new_delivery db.next_id store e correlation_id now ∷ [];
  },
)

-- The transaction, once the store is known.
unfoldable pub receive_for_store : Date → RowId → Store → ConnectorEvent → Db → Receipt × Db
receive_for_store now correlation_id store e db =
    record_receipt now correlation_id store e db
      (take 4 (find_many (shares_identity store.id e) db.deliveries))

unfoldable pub receive_connector_event : Date → RowId → ConnectorEvent → Db → Receipt × Db
receive_connector_event now correlation_id e db =
    elim (find_first (λ s. s.id == e.store_id) db.stores) [
      | none ↦ (unknown_store, db)
      | some store ↦
          if is_connected store.connection_status
          then receive_for_store now correlation_id store e db
          else (unknown_store, db)
    ]
