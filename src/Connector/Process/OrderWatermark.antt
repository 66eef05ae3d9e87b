-- ===== src/Connector/Process/OrderWatermark.antt =====
-- The order row refines the watermark: its two columns move as `observe` moves.
use personalisation_kings.Base.{
  max, true, false, Option, none, some, ◌≡◌, refl, sym, ◌∙◌, ap, arith, ==_refl, str_eq_refl,
  find_first, find_first-update_many, find_first-append_new,
}
use personalisation_kings.Connector.Types.{
  RowId, Date, EventType, order_updated, ConnectorEvent, Store, ExternalOrder, Db,
}
use personalisation_kings.Connector.Ordering.{is_stale_order_event}
use personalisation_kings.Connector.Ordering.Watermark.{Watermark, observe}
use personalisation_kings.Connector.Result.{ok}
use personalisation_kings.Connector.Process.Transaction.{
  Outcome, is_stale, is_order, write_order, new_order, upsert_order, publish, find_order,
  processing_store, process_connector_event,
}
use personalisation_kings.Connector.Process.Runs.{Ran, old, applied, process_connector_event-Ran}
use personalisation_kings.Connector.Process.Claims.{complete-deliveries, RanApplied-Agrees}

abbrev pub event_watermark : ConnectorEvent → Watermark
event_watermark e = record { at = e.payload.event_timestamp; event_type = e.event_type }

-- The watermark of an order row. A type that is null has the priority of `order.updated`.
abbrev pub row_watermark : Option Date → Option EventType → Option Watermark
row_watermark none t = none
row_watermark (some at) none = some (record { at = at; event_type = order_updated })
row_watermark (some at) (some t) = some (record { at = at; event_type = t })

abbrev pub order_watermark : Option ExternalOrder → Option Watermark
order_watermark none = none
order_watermark (some o) = row_watermark o.last_event_at o.last_event_type

observe-stale :
    (e : ConnectorEvent) (o : Option ExternalOrder)
    → is_stale e o ≡ true
    → observe (order_watermark o) (event_watermark e) ≡ order_watermark o
unfolding observe is_stale is_stale_order_event
observe-stale e none h = ground arith
observe-stale e (some o) h = ground arith

observe-fresh :
    (e : ConnectorEvent) (o : Option ExternalOrder)
    → is_stale e o ≡ false
    → observe (order_watermark o) (event_watermark e) ≡ some (event_watermark e)
unfolding observe is_stale is_stale_order_event
observe-fresh e none h = ground arith
observe-fresh e (some o) h = ground arith

is_order-new :
    (id : RowId) (store : Store) (e : ConnectorEvent)
    → is_order store e (new_order id store e) ≡ true
is_order-new id store e = rw (==_refl store.id, str_eq_refl e.payload.external_order_id)

upsert-watermark :
    (store : Store) (e : ConnectorEvent) (existing : Option ExternalOrder) (db : Db)
    → find_order store e db ≡ existing
    → order_watermark (find_order store e (upsert_order store e existing db).1)
      ≡ some (event_watermark e)
unfolding upsert_order
upsert-watermark store e none db h = rw (
    find_first-append_new (is_order store e) db.orders (new_order db.next_id store e) h
      (is_order-new db.next_id store e))
upsert-watermark store e (some o) db h =
    rw (find_first-update_many (is_order store e) (write_order e) (λ x. refl) db.orders h)

-- The time of the newest event that an order row has seen.
abbrev pub last_seen : Option ExternalOrder → Option Date
last_seen none = none
last_seen (some o) = o.last_event_at

-- The later of the two times.
abbrev pub latest : Option Date → Date → Date
latest none at = at
latest (some before) at = max before at

abbrev watermark_at : Option Watermark → Option Date
watermark_at none = none
watermark_at (some w) = some w.at

watermark_at-row :
    (at : Option Date) (t : Option EventType) → watermark_at (row_watermark at t) ≡ at
watermark_at-row none t = refl
watermark_at-row (some at) none = refl
watermark_at-row (some at) (some t) = refl

watermark_at-order : (o : Option ExternalOrder) → watermark_at (order_watermark o) ≡ last_seen o
watermark_at-order none = refl
watermark_at-order (some o) = watermark_at-row o.last_event_at o.last_event_type

watermark_at-observe :
    (w : Option Watermark) (x : Watermark)
    → watermark_at (observe w x) ≡ some (latest (watermark_at w) x.at)
unfolding observe is_stale_order_event
watermark_at-observe none x = refl
watermark_at-observe (some w) x = ground arith

module _ (now : Date) (id token correlation_id : RowId) (e : ConnectorEvent) where
  pub process-watermark :
      (db : Db) {store : Store} {o : Outcome} {db' : Db}
      → processing_store id token e db ≡ ok store
      → process_connector_event now id token correlation_id e db ≡ ok (o, db')
      → order_watermark (find_order store e db')
        ≡ observe (order_watermark (find_order store e db)) (event_watermark e)
  unfolding publish
  process-watermark db {store} got h =
      go (process_connector_event-Ran now id token correlation_id e db h)
    where
      same_store :
          {s t : Store}
          → processing_store id token e db ≡ ok s
          → processing_store id token e db ≡ ok t
          → s ≡ t
      same_store p q = cc

      go :
          {o : Outcome} {db' : Db}
          → Ran now id token correlation_id e db o db'
          → order_watermark (find_order store e db')
            ≡ observe (order_watermark (find_order store e db)) (event_watermark e)
      go (old s got' r) = rw (same_store got got') (
          rw ((complete-deliveries now id token db r.completes).1)
            (rw r.found (sym (observe-stale e (some r.order) r.is_old))))
      go {db' = db'} (applied s got' r) =
          let done = (complete-deliveries now id token _ r.completes).1 in
          let orders : db'.orders ≡ (upsert_order s e r.existing db).1.orders =
            ap (λ (d : Db). d.orders) done
            ∙ (sym (RanApplied-Agrees now id token correlation_id e r).orders
                ∙ ap (λ x. x.1.orders) (sym r.upserts)) in
          rw (same_store got got') (
            ap (λ os. order_watermark (find_first (is_order s e) os)) orders
            ∙ (upsert-watermark s e r.existing db r.found
                ∙ sym (
                    ap (λ x. observe (order_watermark x) (event_watermark e)) r.found
                    ∙ observe-fresh e r.existing r.is_new)))

  -- A transaction that succeeds, stale or not, leaves the event's order with the later of the time
  -- that it had of its newest event and the time of this event, or with the latter if it had none:
  -- the time of an order never moves back, and no success misses an event that is newer.
  pub process-latest :
      (db : Db) {store : Store} {o : Outcome} {db' : Db}
      → processing_store id token e db ≡ ok store
      → process_connector_event now id token correlation_id e db ≡ ok (o, db')
      → last_seen (find_order store e db')
        ≡ some (latest (last_seen (find_order store e db)) e.payload.event_timestamp)
  process-latest db {store} {db'} got h =
      sym (watermark_at-order (find_order store e db'))
      ∙ (ap watermark_at (process-watermark db got h)
          ∙ (watermark_at-observe (order_watermark (find_order store e db)) (event_watermark e)
              ∙ ap (λ at. some (latest at e.payload.event_timestamp))
                  (watermark_at-order (find_order store e db))))
