-- ===== src/Connector/Process/Runs.antt =====
-- The two ways in which a processing transaction succeeds, taken apart into its stages.
use personalisation_kings.Base.{
  true, false, Option, none, some, List, ◌≡◌, refl, arith, Bool-cases, Option-cases, inl, inr,
}
use personalisation_kings.Connector.Types.{RowId, Date, ConnectorEvent, Store, ExternalOrder, Db}
use personalisation_kings.Connector.Result.{ok, >>=-eq-ok}
use personalisation_kings.Connector.Process.Lines.{Progress, is_actionable_paid, sync_lines}
use personalisation_kings.Connector.Process.Lifecycle.{Linked}
use personalisation_kings.Connector.Process.Transaction.{
  Outcome, stale, processed, complete_connector_delivery, is_stale, upsert_order, start_lines,
  settle_order, publish, apply_event, find_order, process_for_store, processing_store,
  process_connector_event,
}

module _ (now : Date) (delivery_id token correlation_id : RowId) (e : ConnectorEvent) where
  -- The transaction of a stale event.
  pub record RanStale (store : Store) (db : Db) (o : Outcome) (db' : Db) : Type 0 where
    pub order : ExternalOrder
    pub found : find_order store e db ≡ some order
    pub is_old : is_stale e (some order) ≡ true
    pub outcome : o ≡ stale order.id
    pub completes : complete_connector_delivery now delivery_id token db ≡ ok db'

  -- The transaction of any other event. `started` is the state in which the lines are read.
  pub record RanApplied (store : Store) (db : Db) (o : Outcome) (db' : Db) : Type 0 where
    pub existing : Option ExternalOrder
    pub found : find_order store e db ≡ existing
    pub is_new : is_stale e existing ≡ false
    pub order_id : RowId
    pub upserted : Db
    pub upserts : upsert_order store e existing db ≡ (order_id, upserted)
    pub previous : List Linked
    pub start : Progress
    pub starts : start_lines order_id upserted ≡ (previous, start)
    pub lines : Progress
    pub syncs :
        sync_lines store order_id (is_actionable_paid e) e.payload.line_items start ≡ ok lines
    pub outcome : o ≡ processed order_id
    pub completes :
        complete_connector_delivery now delivery_id token
          (publish store order_id correlation_id e (settle_order store order_id e previous lines))
        ≡ ok db'

  pub data Ran (db : Db) (o : Outcome) (db' : Db) : Type 0 where
    old :
        (store : Store)
        → processing_store delivery_id token e db ≡ ok store
        → RanStale store db o db'
        → Ran db o db'
    applied :
        (store : Store)
        → processing_store delivery_id token e db ≡ ok store
        → RanApplied store db o db'
        → Ran db o db'

  apply_event-RanApplied :
      (store : Store) (existing : Option ExternalOrder) (db : Db) {o : Outcome} {db' : Db}
      → find_order store e db ≡ existing
      → is_stale e existing ≡ false
      → apply_event now delivery_id token correlation_id store e existing db ≡ ok (o, db')
      → RanApplied store db o db'
  unfolding apply_event
  apply_event-RanApplied store existing db found fresh h =
      let up = upsert_order store e existing db in
      let st = start_lines up.0 up.1 in
      let (p, synced, rest) =
        >>=-eq-ok (sync_lines store up.0 (is_actionable_paid e) e.payload.line_items st.1) _ h in
      let (d, done, same) =
        >>=-eq-ok
          (complete_connector_delivery now delivery_id token
            (publish store up.0 correlation_id e (settle_order store up.0 e st.0 p)))
          (λ d. ok (processed up.0, d)) rest in
      record {
        existing = existing;
        found = found;
        is_new = fresh;
        order_id = up.0;
        upserted = up.1;
        upserts = refl;
        previous = st.0;
        start = st.1;
        starts = refl;
        lines = p;
        syncs = synced;
        outcome = ground arith;
        completes = ground arith;
      }

  process_for_store-Ran :
      (store : Store) (db : Db) {o : Outcome} {db' : Db}
      → processing_store delivery_id token e db ≡ ok store
      → process_for_store now delivery_id token correlation_id store e db ≡ ok (o, db')
      → Ran db o db'
  unfolding process_for_store is_stale
  process_for_store-Ran store db got h = elim (Option-cases (find_order store e db)) [
    | inl absent ↦
        applied store got
          (apply_event-RanApplied store none db absent refl (rw (absent, process_for_store) at h))
    | inr (order, found) ↦ elim (Bool-cases (is_stale e (some order))) [
      | inl late ↦
          let (d, done, same) =
            >>=-eq-ok (complete_connector_delivery now delivery_id token db)
              (λ d. ok (stale order.id, d)) (rw (found, process_for_store, late) at h) in
          old store got (record {
            order = order;
            found = found;
            is_old = late;
            outcome = ground arith;
            completes = ground arith;
          })
      | inr fresh ↦ applied store got (
          apply_event-RanApplied store (some order) db found fresh
            (rw (found, process_for_store, fresh) at h))
    ]
  ]

  pub process_connector_event-Ran :
      (db : Db) {o : Outcome} {db' : Db}
      → process_connector_event now delivery_id token correlation_id e db ≡ ok (o, db')
      → Ran db o db'
  unfolding process_connector_event
  process_connector_event-Ran db h =
      let (store, got, rest) = >>=-eq-ok (processing_store delivery_id token e db) _ h in
      process_for_store-Ran store db got rest
