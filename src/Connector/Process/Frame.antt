-- ===== src/Connector/Process/Frame.antt =====
-- What the stages of the transaction leave alone.
use personalisation_kings.Base.{
  String, Bool, true, false, none, some, List, [], ◌∷◌, ◌≡◌, ◌≤◌, arith, Bool-cases, Option-cases,
  inl, inr,
}
use personalisation_kings.Connector.Types.{
  RowId, LineItem, ConnectorEvent, Store, CustomisationRevision, Db,
}
use personalisation_kings.Connector.Result.{ok, >>=-eq-ok}
use personalisation_kings.Connector.Process.Lines.{
  Progress, find_valid_revision, ensure_print_job, request_print, sync_line, sync_lines,
  create_line_item, note_revision,
}
use personalisation_kings.Connector.Process.Lifecycle.{
  Linked, retire_removed, reconcile_removed, end_order,
}
use personalisation_kings.Connector.Ordering.{is_ending}
use personalisation_kings.Connector.Process.Transaction.{settle_order}

-- Two states of the tables with the same stores, deliveries, orders, revisions, profiles and
-- outbox, where the second may have allotted further keys.
pub record Agrees (a b : Db) : Type 0 where
  pub stores : a.stores ≡ b.stores
  pub deliveries : a.deliveries ≡ b.deliveries
  pub orders : a.orders ≡ b.orders
  pub revisions : a.revisions ≡ b.revisions
  pub profiles : a.profiles ≡ b.profiles
  pub outbox : a.outbox ≡ b.outbox
  pub later : a.next_id ≤ b.next_id

pub Agrees-refl : (a : Db) → Agrees a a
Agrees-refl a = ground arith

pub Agrees-trans : {a b c : Db} → Agrees a b → Agrees b c → Agrees a c
Agrees-trans h k = ground arith

pub ensure_print_job-Agrees :
    (store : Store) (order_id : RowId) (r : CustomisationRevision) (db : Db) {db' : Db}
    → ensure_print_job store order_id r db ≡ ok db'
    → Agrees db db'
unfolding ensure_print_job
ensure_print_job-Agrees store order_id r db h = ground arith

pub request_print-Agrees :
    (store : Store) (order_id : RowId) (actionable : Bool) (r : CustomisationRevision) (db : Db)
    {db' : Db}
    → request_print store order_id actionable r db ≡ ok db'
    → Agrees db db'
unfolding request_print
request_print-Agrees store order_id false r db h = ground arith
request_print-Agrees store order_id true r db h =
    let (mid, made, rest) = >>=-eq-ok (ensure_print_job store order_id r db) _ h in
    ground (arith, ensure_print_job-Agrees store order_id r db made)

-- A round that succeeds has no reference, or a valid one.
pub data LineSynced (store : Store) (order_id : RowId) (actionable : Bool) (item : LineItem)
    (p p' : Progress) : Type 0 where
  plain :
      item.customisation_reference ≡ none
      → p' ≡ record p { db = create_line_item store order_id item none p.db }
      → LineSynced store order_id actionable item p p'
  personalised :
      (reference : String) (r : CustomisationRevision) (db : Db)
      → item.customisation_reference ≡ some reference
      → find_valid_revision store order_id actionable item reference p.db ≡ some r
      → request_print store order_id actionable r
          (create_line_item store order_id item (some r.id) p.db)
        ≡ ok db
      → p' ≡ note_revision r db p
      → LineSynced store order_id actionable item p p'

module _ (store : Store) (order_id : RowId) (actionable : Bool) (item : LineItem)
    (p : Progress) where
  pub sync_line-LineSynced :
      {p' : Progress}
      → sync_line store order_id actionable item p ≡ ok p'
      → LineSynced store order_id actionable item p p'
  unfolding sync_line
  sync_line-LineSynced h = elim (Option-cases item.customisation_reference) [
    | inl e ↦ plain e (ground arith)
    | inr (reference, e) ↦
        elim (Option-cases (find_valid_revision store order_id actionable item reference p.db)) [
          | inl bad ↦ absurd (ground arith)
          | inr (r, good) ↦
              let (db, made, rest) =
                >>=-eq-ok
                  (request_print store order_id actionable r
                    (create_line_item store order_id item (some r.id) p.db))
                  (λ db. ok (note_revision r db p)) (rw (e, good, sync_line) at h) in
              personalised reference r db e good made (ground arith)
        ]
  ]

  pub sync_line-Agrees :
      {p' : Progress} → LineSynced store order_id actionable item p p' → Agrees p.db p'.db
  sync_line-Agrees (plain _ e) = ground arith
  sync_line-Agrees (personalised _ r db _ _ made e) =
      ground (arith, request_print-Agrees store order_id actionable r _ made)

pub sync_lines-Agrees :
    (store : Store) (order_id : RowId) (actionable : Bool) (items : List LineItem) (p : Progress)
    {p' : Progress}
    → sync_lines store order_id actionable items p ≡ ok p'
    → Agrees p.db p'.db
unfolding sync_lines
sync_lines-Agrees store order_id actionable [] p h = ground arith
sync_lines-Agrees store order_id actionable (item ∷ items) p h =
    let (mid, first, rest) = >>=-eq-ok (sync_line store order_id actionable item p) _ h in
    Agrees-trans
      (sync_line-Agrees store order_id actionable item p
        (sync_line-LineSynced store order_id actionable item p first))
      (sync_lines-Agrees store order_id actionable items mid rest)

retire_removed-Agrees :
    (store : Store) (order_id : RowId) (previous : List Linked) (p : Progress)
    (removed : List Linked)
    → Agrees p.db (retire_removed store order_id previous p removed)
unfolding retire_removed
retire_removed-Agrees store order_id previous p [] = ground arith
retire_removed-Agrees store order_id previous p (k ∷ ks) = ground arith

pub settle_order-Agrees :
    (store : Store) (order_id : RowId) (e : ConnectorEvent) (previous : List Linked) (p : Progress)
    → Agrees p.db (settle_order store order_id e previous p)
unfolding settle_order reconcile_removed end_order
settle_order-Agrees store order_id e previous p = elim (Bool-cases (is_ending e.event_type)) [
  | inl ends ↦ rw ends (ground arith)
  | inr goes_on ↦ rw goes_on (retire_removed-Agrees store order_id previous p _)
]
