-- ===== src/Connector/Types.antt =====
-- The events of packages/connector-contracts/src/index.ts and the rows of
-- packages/db/prisma/schema.prisma that connector processing reads and writes.
-- Primary keys and claim tokens, which the database and `randomUUID` choose and the code only
-- compares, are numbers; so are dates, as milliseconds. Text that the store sends stays `String`.
use personalisation_kings.Base.{ℕ, String, Bool, true, false, Option, List, ◌||◌, str_eq}

abbrev pub RowId : Type 0
RowId = ℕ

abbrev pub Date : Type 0
Date = ℕ

pub data EventType : Type 0 where
  order_paid order_updated order_cancelled order_refunded : EventType

-- `ecommerceLineItemSchema`; the free-form metadata is not read by any operation.
pub record LineItem : Type 0 where
  pub external_line_item_id : String
  pub external_product_id : String
  pub external_variant_id : Option String
  pub quantity : ℕ
  pub customisation_reference : Option String

-- `orderSyncPayloadSchema`
pub record OrderSyncPayload : Type 0 where
  pub external_order_id : String
  pub external_order_number : Option String
  pub currency : String
  pub order_status : String
  pub line_items : List LineItem
  pub idempotency_key : String
  pub event_timestamp : Date

-- `connectorEventEnvelopeSchema`
pub record ConnectorEvent : Type 0 where
  pub event_id : String
  pub event_type : EventType
  pub store_id : RowId
  pub connector_instance_id : String
  pub nonce : String
  pub content_digest : String
  pub payload : OrderSyncPayload

pub data ConnectionStatus : Type 0 where
  pending connected disconnected revoked failed : ConnectionStatus

abbrev pub is_connected : ConnectionStatus → Bool
is_connected ConnectionStatus.connected = true
is_connected _ = false

pub record Store : Type 0 where
  pub id : RowId
  pub merchant_id : RowId
  pub connection_status : ConnectionStatus

pub data WebhookDeliveryStatus : Type 0 where
  pending processing processed failed : WebhookDeliveryStatus

abbrev pub is_pending : WebhookDeliveryStatus → Bool
is_pending WebhookDeliveryStatus.pending = true
is_pending _ = false

abbrev pub is_processing : WebhookDeliveryStatus → Bool
is_processing WebhookDeliveryStatus.processing = true
is_processing _ = false

-- The errors that a processing transaction throws; `transaction_failed` stands for those of the
-- database itself, such as a serialization failure.
pub data ProcessingError : Type 0 where
  invalid_customisation_reference : String → ProcessingError
  invalid_stored_event claim_lost store_unavailable : ProcessingError
  no_active_output_profile transaction_failed : ProcessingError

-- `WebhookDelivery`; `rawPayload` is the event itself, and `error` the error whose message the
-- column holds.
pub record WebhookDelivery : Type 0 where
  pub id : RowId
  pub merchant_id : RowId
  pub store_id : RowId
  pub event_id : String
  pub idempotency_key : String
  pub nonce : String
  pub content_digest : String
  pub raw_payload : ConnectorEvent
  pub status : WebhookDeliveryStatus
  pub attempts : ℕ
  pub next_attempt_at : Date
  pub claimed_at : Option Date
  pub claim_token : Option RowId
  pub correlation_id : Option RowId
  pub processed_at : Option Date
  pub processing_started_at : Option Date
  pub failed_at : Option Date
  pub error : Option ProcessingError
  pub received_at : Date

-- `ExternalOrder`
pub record ExternalOrder : Type 0 where
  pub id : RowId
  pub merchant_id : RowId
  pub store_id : RowId
  pub external_order_id : String
  pub external_order_number : Option String
  pub currency : String
  pub status : String
  pub raw_payload : OrderSyncPayload
  pub last_event_at : Option Date
  pub last_event_type : Option EventType

-- `EcommerceLineItem`
pub record EcommerceLineItem : Type 0 where
  pub id : RowId
  pub merchant_id : RowId
  pub order_id : RowId
  pub external_line_item_id : String
  pub external_product_id : String
  pub external_variant_id : Option String
  pub quantity : ℕ
  pub customisation_revision_id : Option RowId

pub data SessionStatus : Type 0 where
  draft committed ordered ready needs_review failed cancelled archived : SessionStatus

-- `CustomisationSession`
pub record CustomisationSession : Type 0 where
  pub id : RowId
  pub store_id : RowId
  pub external_product_id : String
  pub external_variant_id : Option String
  pub status : SessionStatus

-- `CustomisationRevision`
pub record CustomisationRevision : Type 0 where
  pub id : RowId
  pub merchant_id : RowId
  pub session_id : RowId
  pub design_version_id : RowId
  pub opaque_reference : String

pub data PrintJobStatus : Type 0 where
  queued running ready needs_review failed cancelled : PrintJobStatus

-- The messages that the code writes to `lastError` of a print job.
pub data PrintJobNote : Type 0 where
  removed_after_start removed_before_completion : PrintJobNote
  event_after_start event_before_completion : EventType → PrintJobNote

-- `PrintJob`
pub record PrintJob : Type 0 where
  pub id : RowId
  pub merchant_id : RowId
  pub order_id : RowId
  pub artwork_snapshot_id : RowId
  pub status : PrintJobStatus
  pub last_error : Option PrintJobNote

-- `OrderArtworkSnapshot`
pub record ArtworkSnapshot : Type 0 where
  pub id : RowId
  pub merchant_id : RowId
  pub customisation_revision_id : RowId
  pub design_version_id : RowId
  pub output_profile_version_id : RowId

-- `OutputProfile`
pub record OutputProfile : Type 0 where
  pub id : RowId
  pub merchant_id : RowId
  pub active_version_id : Option RowId
  pub updated_at : Date

pub data OutboxEventType : Type 0 where
  print_jobs_requested print_jobs_lifecycle_review order_synced : OutboxEventType

-- `OutboxEvent`
pub record OutboxEvent : Type 0 where
  pub id : RowId
  pub merchant_id : RowId
  pub event_type : OutboxEventType
  pub aggregate_id : RowId
  pub event_id : String
  pub correlation_id : RowId

pub data AuditAction : Type 0 where
  order_line_items_reconciled order_lifecycle_sync : AuditAction

-- `AuditEvent`, with the counts of its metadata.
pub record AuditEvent : Type 0 where
  pub merchant_id : RowId
  pub action : AuditAction
  pub target_id : RowId
  pub affected_print_jobs : ℕ
  pub affected_sessions : ℕ

-- The tables. `next_id` is the primary key that the database gives to the next row.
pub record Db : Type 0 where
  pub next_id : RowId
  pub stores : List Store
  pub deliveries : List WebhookDelivery
  pub orders : List ExternalOrder
  pub line_items : List EcommerceLineItem
  pub revisions : List CustomisationRevision
  pub sessions : List CustomisationSession
  pub print_jobs : List PrintJob
  pub snapshots : List ArtworkSnapshot
  pub profiles : List OutputProfile
  pub outbox : List OutboxEvent
  pub audit : List AuditEvent

-- `["cancelled", "refunded"].includes(status)`
abbrev pub is_closed_status : String → Bool
is_closed_status s = str_eq "cancelled" s || str_eq "refunded" s
