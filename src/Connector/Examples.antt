-- ===== src/Connector/Examples.antt =====
-- The theorems of the connector at the inputs of the tests.
use mathlib.Core.List.{Permᴰ}
use personalisation_kings.Base.{
  max, ◌≤◌, true, none, some, [], ◌∷◌, ◌++◌, ◌≡◌, refl, arith, ◌⊎◌, inl, count, update_many,
  find_first, str_eq, Memᴰ,
}
use personalisation_kings.Connector.Types.{
  RowId, CustomisationRevision, PrintJob, PrintJobStatus, Db, event_before_completion,
  order_cancelled, print_jobs_requested,
}
use personalisation_kings.Connector.Ordering.Watermark.{observe_all, observe_all-perm}
use personalisation_kings.Connector.Receipt.{
  accepted, duplicate, receive_connector_event, new_delivery,
}
use personalisation_kings.Connector.Receipt.Identity.{IsUnique, receive-duplicate, receive-IsUnique}
use personalisation_kings.Connector.Process.Lines.{job_is_for}
use personalisation_kings.Connector.Process.Transaction.{
  stale, processed, holds_claim, completed, find_order, process_connector_event, processing_store,
}
use personalisation_kings.Connector.Result.{ok}
use personalisation_kings.Connector.Process.Claims.{process-deliveries, process-outbox}
use personalisation_kings.Connector.Process.Transitions.{IsStopped}
use personalisation_kings.Connector.Process.Endings.{process-ending-stops}
use personalisation_kings.Connector.Process.PrintJobs.{IsSound}
use personalisation_kings.Connector.Process.Once.{process-IsSound}
use personalisation_kings.Connector.Process.Production.{process-prints}
use personalisation_kings.Connector.Process.OrderWatermark.{
  event_watermark, order_watermark, last_seen, latest, process-latest,
}
use personalisation_kings.Connector.Process.Convergence.{
  Processed, finished, event, order_by_key, Processed-converges,
}
use personalisation_kings.Connector.Inbox.{is_claimable, process_next_delivery}
use personalisation_kings.Connector.Inbox.Invariant.{IsInbox}
use personalisation_kings.Connector.Inbox.Steps.{receive-IsInbox}
use personalisation_kings.Connector.Inbox.Worker.{process_next-IsInbox, unfinished-claimable}
use personalisation_kings.Connector.Tests.{
  processing, receiving, shop, mug, paid, cancel, empty, claimed_db, after_paid, after_cancel,
  paid_runs, cancel_runs, db_of,
}

empty-IsSound : IsSound claimed_db
empty-IsSound = record {
  allotted = record { snapshots = tt; jobs = tt };
  once = λ o v. omega arith;
}

after_paid-IsSound : IsSound after_paid
after_paid-IsSound = process-IsSound 90 7 70 5 paid claimed_db empty-IsSound paid_runs

process-deliveries_example :
    (count (holds_claim 7 70) claimed_db.deliveries ≡ 1)
    × (after_paid.deliveries ≡ update_many (holds_claim 7 70) (completed 90) claimed_db.deliveries)
process-deliveries_example = process-deliveries 90 7 70 5 paid claimed_db paid_runs

paid_store : processing_store 7 70 paid claimed_db ≡ ok shop
unfolding processing
paid_store = refl

process-outbox_example :
    ((order_id : RowId) × (processed 100 ≡ stale order_id)
      × (after_paid ≡ record claimed_db {
        deliveries = update_many (holds_claim 7 70) (completed 90) claimed_db.deliveries;
      }))
    ⊎ ((order_id row_id : RowId) × (processed 100 ≡ processed order_id)
        × (after_paid.outbox
            ≡ claimed_db.outbox
              ++ record {
                id = row_id;
                merchant_id = 2;
                event_type = print_jobs_requested;
                aggregate_id = order_id;
                event_id = paid.event_id;
                correlation_id = 5;
              }
                ∷ []))
process-outbox_example = process-outbox 90 7 70 5 paid claimed_db paid_store paid_runs

abbrev mug_job : PrintJob
mug_job = record {
  id = 103;
  merchant_id = 2;
  order_id = 100;
  artwork_snapshot_id = 102;
  status = PrintJobStatus.cancelled;
  last_error = some (event_before_completion order_cancelled);
}

process-ending-stops_example : IsStopped mug_job.status
unfolding processing
process-ending-stops_example =
    process-ending-stops 95 8 80 5 cancel after_paid mug_job refl cancel_runs (Memᴰ.head refl) refl

process-IsSound_example : IsSound after_cancel
process-IsSound_example = process-IsSound 95 8 80 5 cancel after_paid after_paid-IsSound cancel_runs

process-prints_example :
    (r : CustomisationRevision) × (find_first
        (λ (x : CustomisationRevision). str_eq x.opaque_reference "ref-1")
        claimed_db.revisions
      ≡ some r)
    × (1 ≤ count (job_is_for 100 r.id after_paid.snapshots) after_paid.print_jobs)
    × (count (job_is_for 100 r.id after_paid.snapshots) after_paid.print_jobs
        ≤ max 1 (count (job_is_for 100 r.id claimed_db.snapshots) claimed_db.print_jobs))
process-prints_example =
    process-prints 90 7 70 5 paid claimed_db mug "ref-1" empty-IsSound.allotted refl paid_runs
      (Memᴰ.head refl) refl

cancel_store : processing_store 8 80 cancel after_paid ≡ ok shop
unfolding processing
cancel_store = refl

-- The cancellation first: the paid event is then stale.
abbrev cancelled_first : Db
cancelled_first = db_of (process_connector_event 95 8 80 5 cancel claimed_db) claimed_db

abbrev paid_late : Db
paid_late = db_of (process_connector_event 99 7 70 5 paid cancelled_first) cancelled_first

in_order : Processed shop "1001" claimed_db (paid ∷ cancel ∷ []) after_cancel
in_order =
    event 90 7 70 5 paid (processed 100) refl paid_store paid_runs
      (event 95 8 80 5 cancel (processed 100) refl cancel_store cancel_runs finished)

out_of_order : Processed shop "1001" claimed_db (cancel ∷ paid ∷ []) paid_late
unfolding processing
out_of_order =
    event 95 8 80 5 cancel (processed 100) refl refl refl
      (event 99 7 70 5 paid (stale 100) refl refl refl finished)

process-latest_example :
    last_seen (find_order shop paid paid_late)
    ≡ some (latest (last_seen (find_order shop paid cancelled_first)) paid.payload.event_timestamp)
unfolding processing
process-latest_example = process-latest 99 7 70 5 paid cancelled_first refl refl

Processed-converges_example :
    order_watermark (order_by_key shop "1001" after_cancel)
    ≡ order_watermark (order_by_key shop "1001" paid_late)
Processed-converges_example =
    Processed-converges refl (∣ Permᴰ.swap refl refl ∣₁) in_order out_of_order

observe_all-perm_example :
    observe_all none (event_watermark paid ∷ event_watermark cancel ∷ [])
    ≡ observe_all none (event_watermark cancel ∷ event_watermark paid ∷ [])
observe_all-perm_example = observe_all-perm none (∣ Permᴰ.swap refl refl ∣₁)

abbrev received : Db
received = (receive_connector_event 50 5 paid empty).1

paid_accepted : receive_connector_event 50 5 paid empty ≡ (accepted 100, received)
unfolding receiving
paid_accepted = refl

receive-duplicate_example : receive_connector_event 55 6 paid received ≡ (duplicate 100, received)
receive-duplicate_example = receive-duplicate 50 55 5 6 paid empty paid_accepted

receive-IsUnique_example : IsUnique (receive_connector_event 50 5 paid empty).1
receive-IsUnique_example = receive-IsUnique 50 5 paid empty (λ i store_id x. omega arith)

empty-IsInbox : IsInbox empty
empty-IsInbox = record {
  consistent = λ d m. elim m [ ];
  keyed = λ d e m n ids. elim m [ ];
  allotted = λ d m. elim m [ ];
}

received-IsInbox : IsInbox received
received-IsInbox = receive-IsInbox 50 5 paid empty empty-IsInbox

process_next-IsInbox_example : IsInbox (process_next_delivery 200 70 none none received).1
process_next-IsInbox_example = process_next-IsInbox 200 70 none none received received-IsInbox

unfinished-claimable_example : is_claimable 60 (new_delivery 100 shop paid 5 50) ≡ true
unfolding receiving
unfinished-claimable_example =
    unfinished-claimable received (new_delivery 100 shop paid 5 50) 60 received-IsInbox
      (Memᴰ.head refl) (inl (refl, omega arith))
