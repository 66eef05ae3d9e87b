-- ===== src/Connector/Inbox.antt =====
-- The inbox worker: apps/worker-maintenance/src/connector-inbox.ts and
-- `processClaimedConnectorDelivery` of packages/connector-processing/src/index.ts.
-- Each transaction is one step on the tables; what other workers do happens between the steps.
pub mod Invariant
pub mod Steps
pub mod Worker
use Prim.Native.Char.{code}
use text.Mathlib.Text.{starts_with}
use personalisation_kings.Base.{
  utf16_length, ℕ, suc, ◌+◌, ◌-◌, ◌*◌, ◌^◌, min, Bool, true, false, not, ◌&&◌, ◌||◌, Option, none,
  some, List, [], ◌∷◌, ◌==◌, String, ltb, leb, is_some, if◌then◌else◌, all, count, take, find_first,
  find_many, update_many, map,
}
use personalisation_kings.Connector.Types.{
  RowId, Date, LineItem, ConnectorEvent, WebhookDelivery, WebhookDeliveryStatus, is_pending,
  is_processing, Db, ProcessingError, invalid_customisation_reference, invalid_stored_event,
  claim_lost,
}
use personalisation_kings.Backoff.{retry_delay_ms}
use personalisation_kings.Connector.Result.{Result, ok, err}
use personalisation_kings.Connector.Process.Transaction.{
  Outcome, holds_claim, process_connector_event,
}

abbrev pub maximum_attempts : ℕ
maximum_attempts = 10

abbrev pub stale_claim_ms : ℕ
stale_claim_ms = 15 * 60 * 1000

abbrev min_length : ℕ → String → Bool
min_length n s = leb n (utf16_length s)

abbrev opt_min_length : ℕ → Option String → Bool
opt_min_length n none = true
opt_min_length n (some s) = min_length n s

is_valid_line_item : LineItem → Bool
is_valid_line_item l =
    min_length 1 l.external_line_item_id
    && (min_length 1 l.external_product_id
        && (opt_min_length 1 l.external_variant_id
            && (ltb 0 l.quantity && opt_min_length 1 l.customisation_reference)))

-- `connectorEventEnvelopeSchema.safeParse`, on a value of the schema's shape.
unfoldable pub is_valid_event : ConnectorEvent → Bool
unfolding utf16_length is_valid_line_item
is_valid_event e =
    min_length 1 e.event_id
    && (min_length 1 e.connector_instance_id
        && (min_length 16 e.nonce
            && (starts_with e.content_digest "sha256="
                && (min_length 1 e.payload.external_order_id
                    && (opt_min_length 1 e.payload.external_order_number
                        && (utf16_length e.payload.currency == 3
                            && (min_length 1 e.payload.order_status
                                && (all is_valid_line_item e.payload.line_items
                                    && min_length 1 e.payload.idempotency_key))))))))

-- `fault` is an error that the environment makes the transaction throw.
unfoldable pub process_claimed_delivery :
    Date → Option ProcessingError → RowId → RowId → Db → Result (Outcome × Db)
process_claimed_delivery now fault id token db =
    elim (find_first (λ (d : WebhookDelivery). d.id == id) db.deliveries) [
      | none ↦ err claim_lost
      | some d ↦
          if is_valid_event d.raw_payload
          then elim fault [
            | some e ↦ err e
            | none ↦
                process_connector_event now id token
                  (elim d.correlation_id [ none ↦ id | some c ↦ c ]) d.raw_payload db
          ]
          else err invalid_stored_event
    ]

-- The `WHERE` clause of the claim, without the target.
abbrev pub is_claimable : Date → WebhookDelivery → Bool
is_claimable now d =
    not (is_some d.processed_at)
    && (not (is_some d.failed_at)
        && ((is_pending d.status && (ltb d.attempts maximum_attempts && leb d.next_attempt_at now))
            || (is_processing d.status && is_stale_claim d.claimed_at)))
  where
    is_stale_claim : Option Date → Bool
    is_stale_claim none = true
    is_stale_claim (some at) = ltb (at + stale_claim_ms) now

abbrev pub is_target : Option RowId → WebhookDelivery → Bool
is_target none d = true
is_target (some id) d = d.id == id

-- `ORDER BY "receivedAt" ASC LIMIT 1`
unfoldable pub oldest : List WebhookDelivery → Option WebhookDelivery
oldest [] = none
oldest (d ∷ ds) = elim (oldest ds) [
  | none ↦ some d
  | some e ↦ if ltb e.received_at d.received_at then some e else some d
]

abbrev pub claimed : Date → RowId → WebhookDelivery → WebhookDelivery
claimed now token d = record d {
  status = WebhookDeliveryStatus.processing;
  claim_token = some token;
  claimed_at = some now;
  processing_started_at = some now;
  attempts = d.attempts + 1;
  error = none;
}

-- The row as it is claimed, and the tables.
unfoldable pub claim_connector_delivery :
    Date → RowId → Option RowId → Db → Option (WebhookDelivery × Db)
unfolding oldest
claim_connector_delivery now token target db =
    elim (oldest (find_many (λ d. is_target target d && is_claimable now d) db.deliveries)) [
      | none ↦ none
      | some d ↦ some (
        claimed now token d,
        record db {
          deliveries = update_many (λ r. r.id == d.id) (claimed now token) db.deliveries;
        },
      )
    ]

unfoldable pub is_permanent_error : ProcessingError → Bool
is_permanent_error invalid_stored_event = true
is_permanent_error (invalid_customisation_reference _) = true
is_permanent_error _ = false

abbrev pub is_terminal : ProcessingError → ℕ → Bool
is_terminal e attempts = is_permanent_error e || leb maximum_attempts attempts

pub data InboxOutcome : Type 0 where
  processed failed retry claim_was_lost : InboxOutcome

-- The row after an error that is not a lost claim.
abbrev pub released : Date → ProcessingError → ℕ → WebhookDelivery → WebhookDelivery
released now e attempts d = record d {
  status =
      if is_terminal e attempts
      then WebhookDeliveryStatus.failed
      else WebhookDeliveryStatus.pending;
  failed_at = if is_terminal e attempts then some now else none;
  next_attempt_at = now + retry_delay_ms attempts;
  claimed_at = none;
  processing_started_at = none;
  claim_token = none;
  error = some e;
}

-- The `catch` block; `delivery` is the row as it was claimed.
unfoldable pub settle_failure : Date → ProcessingError → RowId → RowId → ℕ → Db → InboxOutcome × Db
settle_failure now claim_lost id token attempts db = (claim_was_lost, db)
settle_failure now e id token attempts db = (
  if count (holds_claim id token) db.deliveries == 1
      then (if is_terminal e attempts then failed else retry)
      else claim_was_lost,
  record db {
    deliveries = update_many (holds_claim id token) (released now e attempts) db.deliveries;
  },
)

-- The result of processing, settled.
unfoldable pub settle : Date → RowId → RowId → ℕ → Result (Outcome × Db) → Db → InboxOutcome × Db
settle now id token attempts (ok (o, db')) db = (processed, db')
settle now id token attempts (err e) db = settle_failure now e id token attempts db

-- One call of the worker; `none` when there is nothing to claim.
unfoldable pub process_next_delivery :
    Date → RowId → Option ProcessingError → Option RowId → Db → Option InboxOutcome × Db
process_next_delivery now token fault target db =
    elim (claim_connector_delivery now token target db) [
      | none ↦ (none, db)
      | some (d, db₁) ↦
          let (outcome, db') =
            settle now d.id token d.attempts (process_claimed_delivery now fault d.id token db₁)
              db₁ in
          (some outcome, db')
    ]

-- What the environment gives to one round: the time, the token and a fault.
pub record Round : Type 0 where
  pub now : Date
  pub token : RowId
  pub fault : Option ProcessingError

-- The loop of `processConnectorInbox`, over the rounds that it may make.
unfoldable pub process_connector_inbox : List Round → Db → ℕ × Db
process_connector_inbox [] db = (0, db)
process_connector_inbox (r ∷ rs) db =
    let (outcome, db₁) = process_next_delivery r.now r.token r.fault none db in
    let (n, db₂) = process_connector_inbox rs db₁ in
    elim outcome [ none ↦ (0, db₁) | some _ ↦ (suc n, db₂) ]

-- `ORDER BY "receivedAt" ASC`, by insertion.
insert_by_receipt : WebhookDelivery → List WebhookDelivery → List WebhookDelivery
insert_by_receipt d [] = d ∷ []
insert_by_receipt d (e ∷ es) =
    if leb d.received_at e.received_at then d ∷ e ∷ es else e ∷ insert_by_receipt d es

by_receipt : List WebhookDelivery → List WebhookDelivery
by_receipt [] = []
by_receipt (d ∷ ds) = insert_by_receipt d (by_receipt ds)

-- The ids that `reconcileConnectorWakeups` enqueues.
unfoldable pub wakeup_candidates : Date → ℕ → Db → List RowId
unfolding insert_by_receipt by_receipt
wakeup_candidates now maximum db =
    map (λ (d : WebhookDelivery). d.id)
      (take maximum (by_receipt (find_many (is_claimable now) db.deliveries)))
