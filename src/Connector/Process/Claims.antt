-- ===== src/Connector/Process/Claims.antt =====
-- What a transaction that succeeds does to the inbox and the outbox.
use personalisation_kings.Base.{
  String, str_eq, ◌||◌, if◌then◌else◌, ◌≤◌, Option, none, some, [], ◌∷◌, ◌++◌, ◌≡◌, refl, sym, ◌∙◌,
  arith, ◌==◌, ◌⊎◌, Bool-cases, inl, inr, count, update_many, ap,
}
use personalisation_kings.Connector.Types.{
  RowId, Date, ConnectorEvent, Store, ExternalOrder, Db, EventType, order_paid, order_updated,
  order_cancelled, order_refunded, OutboxEventType, print_jobs_requested,
  print_jobs_lifecycle_review, order_synced,
}
use personalisation_kings.Connector.Ordering.{connector_outbox_event_type}
use personalisation_kings.Connector.Result.{ok}
use personalisation_kings.Connector.Process.Frame.{
  Agrees, Agrees-trans, sync_lines-Agrees, settle_order-Agrees,
}
use personalisation_kings.Connector.Process.Transaction.{
  processing_store, Outcome, stale, processed, complete_connector_delivery, upsert_order,
  start_lines, publish, process_connector_event, holds_claim, completed, settle_order,
}
use personalisation_kings.Connector.Process.Runs.{
  RanApplied, Ran, old, applied, process_connector_event-Ran,
}

module _ (now : Date) (id token : RowId) where
  pub complete-deliveries :
      (db : Db) {db' : Db}
      → complete_connector_delivery now id token db ≡ ok db'
      → (count (holds_claim id token) db.deliveries ≡ 1)
        × (db' ≡ record db {
          deliveries = update_many (holds_claim id token) (completed now) db.deliveries;
        })
  unfolding complete_connector_delivery
  complete-deliveries db h = elim (Bool-cases (count (holds_claim id token) db.deliveries == 1)) [
    | inl e ↦ (ground arith, ground arith)
    | inr e ↦ absurd (ground arith)
  ]

upsert_order-deliveries :
    (store : Store) (e : ConnectorEvent) (existing : Option ExternalOrder) (db : Db)
    → ((upsert_order store e existing db).1.deliveries ≡ db.deliveries)
      × ((upsert_order store e existing db).1.outbox ≡ db.outbox)
      × (db.next_id ≤ (upsert_order store e existing db).1.next_id)
unfolding upsert_order
upsert_order-deliveries store e none db = (refl, refl, omega arith)
upsert_order-deliveries store e (some o) db = (refl, refl, omega arith)

pub start_lines-Agrees : (order_id : RowId) (db : Db) → Agrees db (start_lines order_id db).1.db
unfolding start_lines
start_lines-Agrees order_id db = ground arith

-- What is published for an event of a type, of an order of a status.
abbrev pub published_type : EventType → String → OutboxEventType
published_type order_paid status =
    if str_eq "cancelled" status || str_eq "refunded" status
    then order_synced
    else print_jobs_requested
published_type order_updated status = order_synced
published_type order_cancelled status = print_jobs_lifecycle_review
published_type order_refunded status = print_jobs_lifecycle_review

connector_outbox_event_type-published :
    (t : EventType) (status : String) (e : ConnectorEvent)
    → e.event_type ≡ t
    → e.payload.order_status ≡ status
    → connector_outbox_event_type e ≡ published_type t status
unfolding connector_outbox_event_type
connector_outbox_event_type-published order_paid status e h k = ground arith
connector_outbox_event_type-published order_updated status e h k = ground arith
connector_outbox_event_type-published order_cancelled status e h k = ground arith
connector_outbox_event_type-published order_refunded status e h k = ground arith

module _ (now : Date) (id token correlation_id : RowId) (e : ConnectorEvent) where
  -- The state in which an applied event is completed.
  pub RanApplied-Agrees :
      {store : Store} {db : Db} {o : Outcome} {db' : Db}
      (r : RanApplied now id token correlation_id e store db o db')
      → Agrees r.upserted (settle_order store r.order_id e r.previous r.lines)
  RanApplied-Agrees {store} r =
      Agrees-trans (ground (arith, start_lines-Agrees r.order_id r.upserted, r.starts)) (
        Agrees-trans (sync_lines-Agrees store r.order_id _ _ r.start r.syncs)
          (settle_order-Agrees store r.order_id e r.previous r.lines))

  RanApplied-deliveries :
      {store : Store} {db : Db} {o : Outcome} {db' : Db}
      → RanApplied now id token correlation_id e store db o db'
      → (count (holds_claim id token) db.deliveries ≡ 1)
        × (db'.deliveries ≡ update_many (holds_claim id token) (completed now) db.deliveries)
  unfolding publish
  RanApplied-deliveries {store} {db} r =
      let (one, done) = complete-deliveries now id token _ r.completes in
      let kept = (upsert_order-deliveries store e r.existing db).0 in
      let same : (settle_order store r.order_id e r.previous r.lines).deliveries ≡ db.deliveries =
        sym (RanApplied-Agrees r).deliveries ∙ (ap (λ x. x.1.deliveries) (sym r.upserts) ∙ kept) in
      (
        rw (← same) one,
        ap (λ (d : Db). d.deliveries) done
            ∙ ap (update_many (holds_claim id token) (completed now)) same,
      )

  -- A transaction succeeds only for the one delivery that is `processing` under the given token;
  -- it marks that delivery processed, with its claim cleared, and leaves every other delivery as it
  -- was.
  pub process-deliveries :
      (db : Db) {o : Outcome} {db' : Db}
      → process_connector_event now id token correlation_id e db ≡ ok (o, db')
      → (count (holds_claim id token) db.deliveries ≡ 1)
        × (db'.deliveries ≡ update_many (holds_claim id token) (completed now) db.deliveries)
  process-deliveries db h = go (process_connector_event-Ran now id token correlation_id e db h)
    where
      go :
          {o : Outcome} {db' : Db}
          → Ran now id token correlation_id e db o db'
          → (count (holds_claim id token) db.deliveries ≡ 1)
            × (db'.deliveries ≡ update_many (holds_claim id token) (completed now) db.deliveries)
      go (old store got r) =
          let (one, done) = complete-deliveries now id token db r.completes in
          (one, ap (λ (d : Db). d.deliveries) done)
      go (applied store got r) = RanApplied-deliveries r

  -- What a success publishes: nothing for a stale event, and then only the delivery changes; for any
  -- other one outbox event of the store's merchant. It requests print jobs if the event is that an
  -- order is paid whose status is neither cancelled nor refunded, asks for a review of the print
  -- jobs if the order is cancelled or refunded, and says that the order is synchronised otherwise.
  pub process-outbox :
      (db : Db) {store : Store} {o : Outcome} {db' : Db}
      → processing_store id token e db ≡ ok store
      → process_connector_event now id token correlation_id e db ≡ ok (o, db')
      → ((order_id : RowId) × (o ≡ stale order_id)
          × (db' ≡ record db {
            deliveries = update_many (holds_claim id token) (completed now) db.deliveries;
          }))
        ⊎ ((order_id row_id : RowId) × (o ≡ processed order_id)
            × (db'.outbox
                ≡ db.outbox
                  ++ record {
                    id = row_id;
                    merchant_id = store.merchant_id;
                    event_type = published_type e.event_type e.payload.order_status;
                    aggregate_id = order_id;
                    event_id = e.event_id;
                    correlation_id = correlation_id;
                  }
                    ∷ []))
  unfolding publish
  process-outbox db {store} got h =
      go (process_connector_event-Ran now id token correlation_id e db h)
    where
      same_store :
          {s t : Store}
          → processing_store id token e db ≡ ok s
          → processing_store id token e db ≡ ok t
          → s ≡ t
      same_store p q = cc

      go :
          {o : Outcome} {db' : Db}
          → Ran now id token correlation_id e db o db'
          → ((order_id : RowId) × (o ≡ stale order_id)
              × (db' ≡ record db {
                deliveries = update_many (holds_claim id token) (completed now) db.deliveries;
              }))
            ⊎ ((order_id row_id : RowId) × (o ≡ processed order_id)
                × (db'.outbox
                    ≡ db.outbox
                      ++ record {
                        id = row_id;
                        merchant_id = store.merchant_id;
                        event_type = published_type e.event_type e.payload.order_status;
                        aggregate_id = order_id;
                        event_id = e.event_id;
                        correlation_id = correlation_id;
                      }
                        ∷ []))
      go (old s got' r) =
          inl (r.order.id, r.outcome, (complete-deliveries now id token db r.completes).1)
      go (applied s got' r) =
          let done = (complete-deliveries now id token _ r.completes).1 in
          let kept = (upsert_order-deliveries s e r.existing db).1 in
          let same : (settle_order s r.order_id e r.previous r.lines).outbox ≡ db.outbox =
            sym (RanApplied-Agrees r).outbox ∙ (ap (λ x. x.1.outbox) (sym r.upserts) ∙ kept) in
          inr (
            r.order_id,
            (settle_order s r.order_id e r.previous r.lines).next_id,
            r.outcome,
            rw
                (
                  ← same,
                  same_store got got',
                  ← connector_outbox_event_type-published e.event_type e.payload.order_status e refl
                      refl,
                )
                (ap (λ (d : Db). d.outbox) done),
          )

  -- A transaction that succeeds takes back no key.
  pub process-later :
      (db : Db) {o : Outcome} {db' : Db}
      → process_connector_event now id token correlation_id e db ≡ ok (o, db')
      → db.next_id ≤ db'.next_id
  unfolding publish
  process-later db h = go (process_connector_event-Ran now id token correlation_id e db h)
    where
      go :
          {o : Outcome} {db' : Db}
          → Ran now id token correlation_id e db o db'
          → db.next_id ≤ db'.next_id
      go (old store got r) =
          let done = (complete-deliveries now id token db r.completes).1 in
          omega (arith, ap (λ (d : Db). d.next_id) done)
      go (applied store got r) =
          let done = (complete-deliveries now id token _ r.completes).1 in
          omega (
            arith,
            ap (λ (d : Db). d.next_id) done,
            (RanApplied-Agrees r).later,
            (upsert_order-deliveries store e r.existing db).2,
            ap (λ x. x.1.next_id) r.upserts,
          )
