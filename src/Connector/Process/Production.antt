-- ===== src/Connector/Process/Production.antt =====
-- A paid event from its lines to the queue of print jobs.
use mathlib.Core.List.{Memᴰ}
use personalisation_kings.Base.{
  ◌<◌, ◌≤◌, max, String, Bool, true, Option, none, some, List, [], ◌∷◌, ◌≡◌, refl, ◌∙◌, ap, arith,
  any, count, str_eq, find_first,
}
use personalisation_kings.Connector.Types.{
  RowId, Date, LineItem, ConnectorEvent, Store, ExternalOrder, CustomisationRevision, PrintJob, Db,
}
use personalisation_kings.Connector.Result.{ok}
use personalisation_kings.Connector.Process.Lines.{job_is_for, is_actionable_paid, sync_lines}
use personalisation_kings.Connector.Process.Transaction.{
  Outcome, processed, publish, process_connector_event, upsert_order,
}
use personalisation_kings.Connector.Process.Runs.{Ran, old, applied, process_connector_event-Ran}
use personalisation_kings.Connector.Process.Claims.{complete-deliveries, start_lines-Agrees}
use personalisation_kings.Connector.Process.PrintJobs.{
  IsAllotted, IsBounded, IsAllotted-IsBounded, jobs_before,
}
use personalisation_kings.Connector.Process.Once.{
  Settled, settle_order-Settled, any-kept, process-IsBounded,
}
use personalisation_kings.Connector.Process.Prints.{HasJob, sync_lines-HasJob}

count-pos_of_any :
    (p : PrintJob → Bool) (rows : List PrintJob) → any p rows ≡ true → 0 < count p rows
count-pos_of_any p [] h = absurd (ground arith)
count-pos_of_any p (r ∷ rows) h = ground (arith, count-pos_of_any p rows)

Settled-HasJob : {a b : Db} (o v : RowId) → Settled a b → HasJob o v a → HasJob o v b
Settled-HasJob {a} o v x h =
    rw (x.snapshots, x.jobs) (any-kept x.rewrite x.keeps o v a.snapshots a.print_jobs ∙ h)

upsert_order-revisions :
    (store : Store) (e : ConnectorEvent) (existing : Option ExternalOrder) (db : Db)
    → (upsert_order store e existing db).1.revisions ≡ db.revisions
unfolding upsert_order
upsert_order-revisions store e none db = refl
upsert_order-revisions store e (some o) db = refl

module _ (now : Date) (id token correlation_id : RowId) (e : ConnectorEvent) where
  -- When a paid event is processed whose order is neither cancelled nor refunded, each of its
  -- lines with a customisation reference has a print job of that order afterwards, for the revision
  -- that the reference names: exactly one if the order had none or one for it, and no more than it
  -- had if the order had more, as a job that is asked for by hand can make it. No snapshot or
  -- snapshot of a print job has a key that the tables are still to allot.
  pub process-prints :
      (db : Db) {order_id : RowId} {db' : Db} (item : LineItem) (reference : String)
      → IsAllotted db
      → is_actionable_paid e ≡ true
      → process_connector_event now id token correlation_id e db ≡ ok (processed order_id, db')
      → Memᴰ item e.payload.line_items
      → item.customisation_reference ≡ some reference
      → (r : CustomisationRevision) × (find_first
            (λ (x : CustomisationRevision). str_eq x.opaque_reference reference)
            db.revisions
          ≡ some r)
        × (1 ≤ count (job_is_for order_id r.id db'.snapshots) db'.print_jobs)
        × (count (job_is_for order_id r.id db'.snapshots) db'.print_jobs
            ≤ max 1 (count (job_is_for order_id r.id db.snapshots) db.print_jobs))
  unfolding publish
  process-prints db {order_id} item reference allotted paid h m has =
      go (process_connector_event-Ran now id token correlation_id e db h) refl
        (process-IsBounded now id token correlation_id e db (IsAllotted-IsBounded allotted) h)
    where
      go :
          {o : Outcome} {db' : Db}
          → Ran now id token correlation_id e db o db'
          → o ≡ processed order_id
          → IsBounded (jobs_before db) db'
          → (r : CustomisationRevision) × (find_first
                (λ (x : CustomisationRevision). str_eq x.opaque_reference reference)
                db.revisions
              ≡ some r)
            × (1 ≤ count (job_is_for order_id r.id db'.snapshots) db'.print_jobs)
            × (count (job_is_for order_id r.id db'.snapshots) db'.print_jobs
                ≤ max 1 (count (job_is_for order_id r.id db.snapshots) db.print_jobs))
      go (old store got r) same s = absurd (ground (arith, r.outcome))
      go {db' = db'} (applied store got r) same s =
          let synced : sync_lines store r.order_id true e.payload.line_items r.start ≡ ok r.lines =
            ground (arith, r.syncs) in
          let (rev, named, made) =
            sync_lines-HasJob store r.order_id e.payload.line_items r.start item reference m has
              synced in
          let revisions : db.revisions ≡ r.start.db.revisions = ground (
            arith,
            start_lines-Agrees r.order_id r.upserted,
            r.starts,
            r.upserts,
            upsert_order-revisions store e r.existing db,
          ) in
          let settled =
            Settled-HasJob r.order_id rev.id
              (settle_order-Settled store r.order_id e r.previous r.lines) made in
          let done = (complete-deliveries now id token _ r.completes).1 in
          let there : HasJob order_id rev.id db' =
            rw done (ground (arith, settled, r.outcome, same)) in
          (
            rev,
            ap (find_first (λ (x : CustomisationRevision). str_eq x.opaque_reference reference))
                  revisions
                ∙ named,
            omega (
              arith,
              count-pos_of_any (job_is_for order_id rev.id db'.snapshots) db'.print_jobs there,
            ),
            s.few order_id rev.id,
          )
