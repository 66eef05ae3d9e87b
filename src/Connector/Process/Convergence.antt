-- ===== src/Connector/Process/Convergence.antt =====
-- The events of one order, processed in any order of arrival.
use mathlib.Core.List.{Perm}
use personalisation_kings.Base.{
  String, Option, List, [], ◌∷◌, map, ◌≡◌, refl, sym, ◌∙◌, ap, find_first, str_eq, ◌&&◌, ◌==◌,
}
use personalisation_kings.Connector.Types.{RowId, Date, ConnectorEvent, Store, ExternalOrder, Db}
use personalisation_kings.Connector.Ordering.Watermark.{observe_all, observe_all-perm}
use personalisation_kings.Connector.Result.{ok}
use personalisation_kings.Connector.Process.Transaction.{
  Outcome, processing_store, process_connector_event,
}
use personalisation_kings.Connector.Process.OrderWatermark.{
  event_watermark, order_watermark, process-watermark,
}

-- The row of an order, by its key.
abbrev pub order_by_key : Store → String → Db → Option ExternalOrder
order_by_key store key db =
    find_first (λ (o : ExternalOrder). o.store_id == store.id && str_eq o.external_order_id key)
      db.orders

-- A history in which the listed events of the order `key` are processed with success, one after
-- the other. Between them the worker and its peers may change whatever is not an order row.
pub data Processed (store : Store) (key : String) : Db → List ConnectorEvent → Db → Type 0 where
  finished : {db : Db} → Processed store key db [] db
  between :
      {db db₁ db' : Db} {es : List ConnectorEvent}
      → db₁.orders ≡ db.orders
      → Processed store key db₁ es db'
      → Processed store key db es db'
  event :
      {db db₁ db' : Db} {es : List ConnectorEvent} (now : Date) (id token correlation_id : RowId)
      (e : ConnectorEvent) (o : Outcome)
      → e.payload.external_order_id ≡ key
      → processing_store id token e db ≡ ok store
      → process_connector_event now id token correlation_id e db ≡ ok (o, db₁)
      → Processed store key db₁ es db'
      → Processed store key db (e ∷ es) db'

Processed-watermark :
    {store : Store} {key : String} {db : Db} {es : List ConnectorEvent} {db' : Db}
    → Processed store key db es db'
    → order_watermark (order_by_key store key db')
      ≡ observe_all (order_watermark (order_by_key store key db)) (map event_watermark es)
unfolding observe_all
Processed-watermark finished = refl
Processed-watermark {store} {key} (between {db} {db₁} {db'} {es} same rest) =
    Processed-watermark rest
    ∙ ap
        (λ os.
          observe_all
            (order_watermark (
              find_first
                (λ (o : ExternalOrder). o.store_id == store.id && str_eq o.external_order_id key)
                os))
            (map event_watermark es))
        same
Processed-watermark {store} {key}
      (event {db} {db₁} {db'} {es} now id token c e o named got done rest) =
    Processed-watermark rest
    ∙ ap (λ w. observe_all w (map event_watermark es))
        (rw (← named) (process-watermark now id token c e db got done))

-- Two histories of the same events, in any two orders of arrival, from the same order row, end
-- with the same watermark.
pub Processed-converges :
    {store : Store} {key : String} {db₁ db₂ : Db} {es fs : List ConnectorEvent} {db₁' db₂' : Db}
    → order_by_key store key db₁ ≡ order_by_key store key db₂
    → Perm (map event_watermark es) (map event_watermark fs)
    → Processed store key db₁ es db₁'
    → Processed store key db₂ fs db₂'
    → order_watermark (order_by_key store key db₁') ≡ order_watermark (order_by_key store key db₂')
Processed-converges {fs = fs} same p h k =
    Processed-watermark h
    ∙ (observe_all-perm _ p
        ∙ (ap (λ o. observe_all (order_watermark o) (map event_watermark fs)) same
            ∙ sym (Processed-watermark k)))
