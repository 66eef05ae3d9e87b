-- ===== src/Connector/Process/Once.antt =====
-- The whole transaction keeps the print jobs sound, and a paid event leaves one for each
-- personalised line.
use personalisation_kings.Base.{
  ℕ, ◌≤◌, ◌<◌, Option, none, some, List, [], ◌∷◌, ◌≡◌, refl, ◌∙◌, ap, arith, Bool-cases, inl, inr,
  All, any, count, map,
}
use personalisation_kings.Connector.Types.{
  RowId, Date, ConnectorEvent, Store, ExternalOrder, PrintJob, PrintJobNote, ArtworkSnapshot, Db,
}
use personalisation_kings.Connector.Ordering.{is_ending}
use personalisation_kings.Connector.Result.{ok}
use personalisation_kings.Connector.Process.Lines.{Progress, job_is_for}
use personalisation_kings.Connector.Process.Lifecycle.{
  Linked, apply_transitions, retire_removed, reconcile_removed, end_order,
}
use personalisation_kings.Connector.Process.Transaction.{
  Outcome, publish, settle_order, upsert_order, start_lines, process_connector_event,
}
use personalisation_kings.Connector.Process.Runs.{Ran, old, applied, process_connector_event-Ran}
use personalisation_kings.Connector.Process.Claims.{complete-deliveries}
use personalisation_kings.Connector.Process.Transitions.{
  touch_all, touch_all-keeps, apply_transitions-map,
}
use personalisation_kings.Connector.Process.PrintJobs.{
  IsSound, IsBounded, IsSound-IsBounded, Extends, Extends-IsBounded, sync_lines-IsBounded,
}

-- Rows rewritten one by one, with their orders and snapshots kept.
module _ (f : PrintJob → PrintJob)
    (keeps : (r : PrintJob)
      → ((f r).order_id ≡ r.order_id) × ((f r).artwork_snapshot_id ≡ r.artwork_snapshot_id)) where
  job_is_for-kept :
      (o v : RowId) (snaps : List ArtworkSnapshot) (r : PrintJob)
      → job_is_for o v snaps (f r) ≡ job_is_for o v snaps r
  job_is_for-kept o v snaps r = rw ((keeps r).0, (keeps r).1)

  count-kept :
      (o v : RowId) (snaps : List ArtworkSnapshot) (rows : List PrintJob)
      → count (job_is_for o v snaps) (map f rows) ≡ count (job_is_for o v snaps) rows
  count-kept o v snaps [] = refl
  count-kept o v snaps (r ∷ rows) =
      ground (arith, job_is_for-kept o v snaps r, count-kept o v snaps rows)

  pub any-kept :
      (o v : RowId) (snaps : List ArtworkSnapshot) (rows : List PrintJob)
      → any (job_is_for o v snaps) (map f rows) ≡ any (job_is_for o v snaps) rows
  any-kept o v snaps [] = refl
  any-kept o v snaps (r ∷ rows) =
      ground (arith, job_is_for-kept o v snaps r, any-kept o v snaps rows)

  All-kept :
      (n : RowId) (rows : List PrintJob)
      → All (λ (j : PrintJob). j.artwork_snapshot_id < n) rows
      → All (λ (j : PrintJob). j.artwork_snapshot_id < n) (map f rows)
  All-kept n [] a = tt
  All-kept n (r ∷ rows) (a, as') = (rw (keeps r).1 a, All-kept n rows as')

-- What `settle_order` may do to the print jobs.
pub record Settled (a b : Db) : Type 0 where
  pub later : a.next_id ≤ b.next_id
  pub snapshots : b.snapshots ≡ a.snapshots
  pub rewrite : PrintJob → PrintJob
  pub keeps :
      (r : PrintJob)
      → ((rewrite r).order_id ≡ r.order_id)
        × ((rewrite r).artwork_snapshot_id ≡ r.artwork_snapshot_id)
  pub jobs : b.print_jobs ≡ map rewrite a.print_jobs

Settled-IsBounded :
    {bound : RowId → RowId → ℕ} {a b : Db} → Settled a b → IsBounded bound a → IsBounded bound b
Settled-IsBounded {a} {b} x s =
    Extends-IsBounded {a = record a { print_jobs = map x.rewrite a.print_jobs }}
      (record { later = x.later; snapshots = x.snapshots; jobs = x.jobs })
      (record {
        positive = s.positive;
        allotted = record {
          snapshots = s.allotted.snapshots;
          jobs = All-kept x.rewrite x.keeps a.next_id a.print_jobs s.allotted.jobs;
        };
        few = λ o v. rw (count-kept x.rewrite x.keeps o v a.snapshots a.print_jobs) (s.few o v);
      })

map_same : (rows : List PrintJob) → rows ≡ map (λ r. r) rows
map_same [] = refl
map_same (r ∷ rows) = ap (λ t. r ∷ t) (map_same rows)

transitions-Settled :
    (after before : PrintJobNote) (js : List PrintJob) (a b : Db)
    → a.next_id ≤ b.next_id
    → b.snapshots ≡ a.snapshots
    → b.print_jobs ≡ apply_transitions after before js a.print_jobs
    → Settled a b
transitions-Settled after before js a b l s j = record {
  later = l;
  snapshots = s;
  rewrite = touch_all after before js;
  keeps = λ r. let k = touch_all-keeps after before js r in (k.1, k.2);
  jobs = j ∙ apply_transitions-map after before js a.print_jobs;
}

retire_removed-Settled :
    (store : Store) (order_id : RowId) (previous : List Linked) (p : Progress)
    (removed : List Linked)
    → Settled p.db (retire_removed store order_id previous p removed)
unfolding retire_removed
retire_removed-Settled store order_id previous p [] = record {
  later = omega arith;
  snapshots = refl;
  rewrite = λ r. r;
  keeps = λ r. (refl, refl);
  jobs = map_same p.db.print_jobs;
}
retire_removed-Settled store order_id previous p (k ∷ ks) =
    transitions-Settled _ _ _ p.db _ (omega arith) refl refl

pub settle_order-Settled :
    (store : Store) (order_id : RowId) (e : ConnectorEvent) (previous : List Linked) (p : Progress)
    → Settled p.db (settle_order store order_id e previous p)
unfolding settle_order end_order reconcile_removed
settle_order-Settled store order_id e previous p = elim (Bool-cases (is_ending e.event_type)) [
  | inl ends ↦ rw ends (transitions-Settled _ _ _ p.db _ (omega arith) refl refl)
  | inr goes_on ↦ rw goes_on (retire_removed-Settled store order_id previous p _)
]

upsert_order-Extends :
    (store : Store) (e : ConnectorEvent) (existing : Option ExternalOrder) (db : Db)
    → Extends db (upsert_order store e existing db).1
unfolding upsert_order
upsert_order-Extends store e none db = ground arith
upsert_order-Extends store e (some o) db = ground arith

start_lines-Extends : (order_id : RowId) (db : Db) → Extends db (start_lines order_id db).1.db
unfolding start_lines
start_lines-Extends order_id db = ground arith

publish-Extends :
    (store : Store) (order_id correlation_id : RowId) (e : ConnectorEvent) (db : Db)
    → Extends db (publish store order_id correlation_id e db)
unfolding publish
publish-Extends store order_id correlation_id e db = ground arith

module _ (now : Date) (id token correlation_id : RowId) (e : ConnectorEvent) where
  pub process-IsBounded :
      {bound : RowId → RowId → ℕ} (db : Db) {o : Outcome} {db' : Db}
      → IsBounded bound db
      → process_connector_event now id token correlation_id e db ≡ ok (o, db')
      → IsBounded bound db'
  process-IsBounded {bound} db s h =
      go (process_connector_event-Ran now id token correlation_id e db h)
    where
      go :
          {o : Outcome} {db' : Db}
          → Ran now id token correlation_id e db o db'
          → IsBounded bound db'
      go (old store got r) =
          rw ((complete-deliveries now id token db r.completes).1)
            (Extends-IsBounded {a = db} (ground arith) s)
      go (applied store got r) =
          let up : IsBounded bound r.upserted =
            Extends-IsBounded {a = db}
              (ground (arith, upsert_order-Extends store e r.existing db, r.upserts)) s in
          let start : IsBounded bound r.start.db =
            Extends-IsBounded {a = r.upserted}
              (ground (arith, start_lines-Extends r.order_id r.upserted, r.starts)) up in
          let lines : IsBounded bound r.lines.db =
            sync_lines-IsBounded store r.order_id _ _ r.start r.syncs start in
          let settled =
            Settled-IsBounded (settle_order-Settled store r.order_id e r.previous r.lines) lines in
          rw ((complete-deliveries now id token _ r.completes).1) (
            Extends-IsBounded
              (ground (
                arith,
                publish-Extends store r.order_id correlation_id e
                    (settle_order store r.order_id e r.previous r.lines),
              ))
              settled)

  -- A transaction that succeeds keeps at most one print job for each revision of each order, so a
  -- paid event that is delivered again prints nothing twice.
  pub process-IsSound :
      (db : Db) {o : Outcome} {db' : Db}
      → IsSound db
      → process_connector_event now id token correlation_id e db ≡ ok (o, db')
      → IsSound db'
  process-IsSound db s h =
      let kept = process-IsBounded db (IsSound-IsBounded s) h in
      record { allotted = kept.allotted; once = kept.few }
