-- ===== src/Connector/Process/Lines.antt =====
-- The loop over the event's line items: the check of a customisation reference, the new line item,
-- and for a paid event the snapshot and the print job.
use personalisation_kings.Base.{
  ◌+◌, Bool, true, false, not, ◌&&◌, ◌||◌, Option, none, some, List, [], ◌∷◌, ◌++◌, ◌==◌, String,
  ltb, str_eq, opt_str_eq, is_some, if◌then◌else◌, any, all, elem, find_first, find_many,
  update_many,
}
use personalisation_kings.Connector.Types.{
  RowId, LineItem, ConnectorEvent, Store, SessionStatus, CustomisationSession,
  CustomisationRevision, PrintJobStatus, PrintJob, ArtworkSnapshot, OutputProfile, Db,
  invalid_customisation_reference, no_active_output_profile, is_closed_status,
}
use personalisation_kings.Connector.Ordering.{is_paid}
use personalisation_kings.Connector.Result.{Result, ok, err, ◌>>=◌}

-- `set.add(id)`
abbrev pub add_to_set : RowId → List RowId → List RowId
add_to_set a xs = if elem a xs then xs else xs ++ a ∷ []

-- The tables and the three sets that the loop fills.
pub record Progress : Type 0 where
  pub db : Db
  pub affected_sessions : List RowId
  pub incoming_revisions : List RowId
  pub incoming_sessions : List RowId

abbrev pub is_actionable_paid : ConnectorEvent → Bool
is_actionable_paid e = is_paid e.event_type && not (is_closed_status e.payload.order_status)

-- `allowedSessionStatuses.includes(status)`
unfoldable pub is_allowed_status : Bool → SessionStatus → Bool
is_allowed_status actionable SessionStatus.committed = true
is_allowed_status actionable SessionStatus.ordered = true
is_allowed_status actionable SessionStatus.needs_review = not actionable
is_allowed_status actionable SessionStatus.cancelled = not actionable
is_allowed_status actionable _ = false

abbrev pub find_session : RowId → Db → Option CustomisationSession
find_session id db = find_first (λ s. s.id == id) db.sessions

abbrev pub has_revision : RowId → Option RowId → Bool
has_revision id none = false
has_revision id (some r) = r == id

abbrev pub session_matches : Store → Bool → LineItem → CustomisationSession → Bool
session_matches store actionable item s =
    s.store_id == store.id
    && (str_eq s.external_product_id item.external_product_id
        && (opt_str_eq s.external_variant_id item.external_variant_id
            && is_allowed_status actionable s.status))

-- `validRevision`
unfoldable pub is_valid_revision :
    Store → RowId → Bool → LineItem → CustomisationRevision → Db → Bool
unfolding is_allowed_status
is_valid_revision store order_id actionable item r db = elim (find_session r.session_id db) [
  | none ↦ false
  | some s ↦
      r.merchant_id == store.merchant_id
      && (session_matches store actionable item s
          && all
              (λ l. not (has_revision r.id l.customisation_revision_id) || l.order_id == order_id)
              db.line_items)
]

unfoldable pub find_valid_revision :
    Store → RowId → Bool → LineItem → String → Db → Option CustomisationRevision
find_valid_revision store order_id actionable item reference db =
    elim (find_first (λ r. str_eq r.opaque_reference reference) db.revisions) [
      | none ↦ none
      | some r ↦ if is_valid_revision store order_id actionable item r db then some r else none
    ]

abbrev pub create_line_item : Store → RowId → LineItem → Option RowId → Db → Db
create_line_item store order_id item revision_id db = record db {
  next_id = db.next_id + 1;
  line_items =
      db.line_items
      ++ record {
        id = db.next_id;
        merchant_id = store.merchant_id;
        order_id = order_id;
        external_line_item_id = item.external_line_item_id;
        external_product_id = item.external_product_id;
        external_variant_id = item.external_variant_id;
        quantity = item.quantity;
        customisation_revision_id = revision_id;
      }
        ∷ [];
}

-- The revision behind a print job, through its snapshot.
abbrev pub job_is_for : RowId → RowId → List ArtworkSnapshot → PrintJob → Bool
job_is_for order_id revision_id snapshots j =
    j.order_id == order_id
    && any (λ s. s.id == j.artwork_snapshot_id && s.customisation_revision_id == revision_id)
        snapshots

-- `orderBy: { updatedAt: "desc" }`, of the profiles that have an active version.
unfoldable pub latest_profile : List OutputProfile → Option OutputProfile
latest_profile [] = none
latest_profile (p ∷ ps) = elim (latest_profile ps) [
  | none ↦ some p
  | some q ↦ if ltb p.updated_at q.updated_at then some q else some p
]

abbrev pub active_version : RowId → Db → Option RowId
active_version merchant_id db =
    elim (latest_profile
      (find_many (λ p. p.merchant_id == merchant_id && is_some p.active_version_id) db.profiles)) [
        | none ↦ none
        | some p ↦ p.active_version_id
      ]

abbrev pub new_snapshot : RowId → Store → CustomisationRevision → RowId → ArtworkSnapshot
new_snapshot id store r version_id = record {
  id = id;
  merchant_id = store.merchant_id;
  customisation_revision_id = r.id;
  design_version_id = r.design_version_id;
  output_profile_version_id = version_id;
}

abbrev pub new_print_job : RowId → Store → RowId → RowId → PrintJob
new_print_job id store order_id snapshot_id = record {
  id = id;
  merchant_id = store.merchant_id;
  order_id = order_id;
  artwork_snapshot_id = snapshot_id;
  status = PrintJobStatus.queued;
  last_error = none;
}

abbrev pub create_print_job : Store → RowId → CustomisationRevision → RowId → Db → Db
create_print_job store order_id r version_id db = record db {
  next_id = db.next_id + 1 + 1;
  snapshots = db.snapshots ++ new_snapshot db.next_id store r version_id ∷ [];
  print_jobs = db.print_jobs ++ new_print_job (db.next_id + 1) store order_id db.next_id ∷ [];
}

-- `if (!existingPrintJob) …`
unfoldable pub ensure_print_job : Store → RowId → CustomisationRevision → Db → Result Db
unfolding latest_profile
ensure_print_job store order_id r db =
    if any (job_is_for order_id r.id db.snapshots) db.print_jobs
    then ok db
    else elim (active_version store.merchant_id db) [
      | none ↦ err no_active_output_profile
      | some version_id ↦ ok (create_print_job store order_id r version_id db)
    ]

abbrev pub mark_ordered : RowId → Db → Db
mark_ordered session_id db = record db {
  sessions =
      update_many (λ s. s.id == session_id) (λ s. record s { status = SessionStatus.ordered })
        db.sessions;
}

-- `if (actionablePaidEvent && validRevision) …`
unfoldable pub request_print : Store → RowId → Bool → CustomisationRevision → Db → Result Db
request_print store order_id actionable r db =
    if actionable
    then (do db' ← ensure_print_job store order_id r db; ok (mark_ordered r.session_id db'))
    else ok db

abbrev pub note_revision : CustomisationRevision → Db → Progress → Progress
note_revision r db p = record {
  db = db;
  affected_sessions = add_to_set r.session_id p.affected_sessions;
  incoming_revisions = add_to_set r.id p.incoming_revisions;
  incoming_sessions = add_to_set r.session_id p.incoming_sessions;
}

-- One round of the loop.
unfoldable pub sync_line : Store → RowId → Bool → LineItem → Progress → Result Progress
sync_line store order_id actionable item p = elim item.customisation_reference [
  | none ↦ ok (record p { db = create_line_item store order_id item none p.db })
  | some reference ↦ elim (find_valid_revision store order_id actionable item reference p.db) [
    | none ↦ err (invalid_customisation_reference item.external_line_item_id)
    | some r ↦ do
      db ←
          request_print store order_id actionable r
            (create_line_item store order_id item (some r.id) p.db)
      ok (note_revision r db p)
  ]
]

unfoldable pub sync_lines : Store → RowId → Bool → List LineItem → Progress → Result Progress
sync_lines store order_id actionable [] p = ok p
sync_lines store order_id actionable (item ∷ items) p = do
  p' ← sync_line store order_id actionable item p
  sync_lines store order_id actionable items p'
