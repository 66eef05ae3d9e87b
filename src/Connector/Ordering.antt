-- ===== src/Connector/Ordering.antt =====
-- Which order events are stale, and what an event asks of a print job:
-- `isStaleOrderEvent`, `lifecyclePriority`, `printJobLifecycleTransition` and
-- `connectorOutboxEventType` of packages/connector-processing/src/index.ts.
pub mod Watermark
use personalisation_kings.Base.{
  ℕ, Bool, true, false, not, ◌&&◌, Option, none, some, ltb, if◌then◌else◌,
}
use personalisation_kings.Connector.Types.{
  Date, EventType, order_paid, order_cancelled, order_refunded, ConnectorEvent, PrintJobStatus,
  OutboxEventType, print_jobs_requested, print_jobs_lifecycle_review, order_synced,
  is_closed_status,
}

unfoldable pub lifecycle_priority : Option EventType → ℕ
lifecycle_priority (some order_cancelled) = 3
lifecycle_priority (some order_refunded) = 2
lifecycle_priority (some order_paid) = 1
lifecycle_priority _ = 0

unfoldable pub is_stale_order_event : Option Date → Option EventType → EventType → Date → Bool
unfolding lifecycle_priority
is_stale_order_event none last_type incoming_type incoming_at = false
is_stale_order_event (some last_at) last_type incoming_type incoming_at =
    if ltb incoming_at last_at
    then true
    else if ltb last_at incoming_at
    then false
    else ltb (lifecycle_priority (some incoming_type)) (lifecycle_priority last_type)

unfoldable pub print_job_lifecycle_transition : PrintJobStatus → Option PrintJobStatus
print_job_lifecycle_transition PrintJobStatus.cancelled = none
print_job_lifecycle_transition PrintJobStatus.queued = some PrintJobStatus.cancelled
print_job_lifecycle_transition PrintJobStatus.failed = some PrintJobStatus.cancelled
print_job_lifecycle_transition _ = some PrintJobStatus.needs_review

abbrev pub is_paid : EventType → Bool
is_paid order_paid = true
is_paid _ = false

-- `event_type === "order.cancelled" || event_type === "order.refunded"`
abbrev pub is_ending : EventType → Bool
is_ending order_cancelled = true
is_ending order_refunded = true
is_ending _ = false

unfoldable pub connector_outbox_event_type : ConnectorEvent → OutboxEventType
connector_outbox_event_type e =
    if is_paid e.event_type && not (is_closed_status e.payload.order_status)
    then print_jobs_requested
    else if is_ending e.event_type
    then print_jobs_lifecycle_review
    else order_synced
