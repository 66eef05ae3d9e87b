-- ===== src/Connector/Process/Endings.antt =====
-- An order that ends: its print jobs and its sessions.
use personalisation_kings.Base.{true, ◌≡◌, refl, ap, arith, All, All-Memᴰ, Memᴰ}
use personalisation_kings.Connector.Types.{RowId, Date, ConnectorEvent, PrintJob, Db}
use personalisation_kings.Connector.Ordering.{is_ending}
use personalisation_kings.Connector.Result.{ok}
use personalisation_kings.Connector.Process.Lifecycle.{end_order}
use personalisation_kings.Connector.Process.Transaction.{
  Outcome, processed, publish, settle_order, process_connector_event,
}
use personalisation_kings.Connector.Process.Runs.{Ran, old, applied, process_connector_event-Ran}
use personalisation_kings.Connector.Process.Claims.{complete-deliveries}
use personalisation_kings.Connector.Process.Transitions.{IsStopped, apply_transitions-stops}

module _ (now : Date) (id token correlation_id : RowId) (e : ConnectorEvent) where
  ending_jobs-All :
      (db : Db) {order_id : RowId} {db' : Db}
      → is_ending e.event_type ≡ true
      → process_connector_event now id token correlation_id e db ≡ ok (processed order_id, db')
      → All (λ (j : PrintJob). j.order_id ≡ order_id → IsStopped j.status) db'.print_jobs
  unfolding publish settle_order end_order
  ending_jobs-All db {order_id} ending h =
      go (process_connector_event-Ran now id token correlation_id e db h) refl
    where
      go :
          {o : Outcome} {db' : Db}
          → Ran now id token correlation_id e db o db'
          → o ≡ processed order_id
          → All (λ (j : PrintJob). j.order_id ≡ order_id → IsStopped j.status) db'.print_jobs
      go (old store got r) same = absurd (ground (arith, r.outcome))
      go {db' = db'} (applied store got r) same =
          let done = (complete-deliveries now id token _ r.completes).1 in
          let mine : r.order_id ≡ order_id = ground (arith, r.outcome) in
          rw (ap (λ (d : Db). d.print_jobs) done, ending, ← mine)
            (apply_transitions-stops _ _ r.order_id r.lines.db.print_jobs)

  -- When a cancellation or a refund is processed, every print job of the order is then cancelled
  -- or awaits review.
  pub process-ending-stops :
      (db : Db) {order_id : RowId} {db' : Db} (j : PrintJob)
      → is_ending e.event_type ≡ true
      → process_connector_event now id token correlation_id e db ≡ ok (processed order_id, db')
      → Memᴰ j db'.print_jobs
      → j.order_id ≡ order_id
      → IsStopped j.status
  process-ending-stops db j ending h m mine = All-Memᴰ _ _ (ending_jobs-All db ending h) m mine
