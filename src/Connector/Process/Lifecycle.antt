-- ===== src/Connector/Process/Lifecycle.antt =====
-- What an event does to the print jobs and sessions of its order: lines that the order no longer
-- has, and the end of the order.
use personalisation_kings.Base.{
  Bool, true, false, not, ◌&&◌, Option, none, some, List, [], ◌∷◌, ◌++◌, ◌==◌, str_eq,
  if◌then◌else◌, length, elem, find_first, find_many, update_many, map,
}
use personalisation_kings.Connector.Types.{
  RowId, EventType, order_cancelled, ConnectorEvent, Store, EcommerceLineItem, SessionStatus,
  CustomisationSession, CustomisationRevision, PrintJobStatus, PrintJobNote, removed_after_start,
  removed_before_completion, event_after_start, event_before_completion, PrintJob, ArtworkSnapshot,
  order_line_items_reconciled, order_lifecycle_sync, Db,
}
use personalisation_kings.Connector.Ordering.{print_job_lifecycle_transition}
use personalisation_kings.Connector.Process.Lines.{Progress, add_to_set, job_is_for}

-- A revision and its session.
abbrev pub Linked : Type 0
Linked = RowId × RowId

-- `map.set(revision, session)` on a map from revisions to sessions.
pub map_set : Linked → List Linked → List Linked
map_set l [] = l ∷ []
map_set l (k ∷ ks) = if k.0 == l.0 then l ∷ ks else k ∷ map_set l ks

unfoldable pub session_of : RowId → List Linked → Option RowId
session_of revision_id [] = none
session_of revision_id (k ∷ ks) = if k.0 == revision_id then some k.1 else session_of revision_id ks

-- The revision that a line item carries, with its session.
abbrev pub linked_revision : List CustomisationRevision → EcommerceLineItem → Option Linked
linked_revision revisions l = elim l.customisation_revision_id [
  | none ↦ none
  | some id ↦ elim (find_first (λ (r : CustomisationRevision). r.id == id) revisions) [
    | none ↦ none
    | some r ↦ some (r.id, r.session_id)
  ]
]

-- `previousRevisionSessions`
unfoldable pub revision_sessions :
    List CustomisationRevision → List EcommerceLineItem → List Linked → List Linked
unfolding map_set
revision_sessions revisions [] acc = acc
revision_sessions revisions (l ∷ ls) acc =
    revision_sessions revisions ls
      (elim (linked_revision revisions l) [ none ↦ acc | some k ↦ map_set k acc ])

-- The set of the sessions of a list of links.
unfoldable pub sessions_of : List Linked → List RowId → List RowId
sessions_of [] acc = acc
sessions_of (k ∷ ks) acc = sessions_of ks (add_to_set k.1 acc)

abbrev pub is_needs_review : PrintJobStatus → Bool
is_needs_review PrintJobStatus.needs_review = true
is_needs_review _ = false

-- One round of the loops over print jobs: `job` is the row as it was read.
unfoldable pub apply_transition :
    PrintJobNote → PrintJobNote → PrintJob → List PrintJob → List PrintJob
unfolding print_job_lifecycle_transition
apply_transition after before job rows = elim (print_job_lifecycle_transition job.status) [
  | none ↦ rows
  | some next ↦
      update_many (λ r. r.id == job.id)
        (λ r. record r {
          status = next;
          last_error = some (if is_needs_review next then after else before);
        })
        rows
]

unfoldable pub apply_transitions :
    PrintJobNote → PrintJobNote → List PrintJob → List PrintJob → List PrintJob
apply_transitions after before [] rows = rows
apply_transitions after before (j ∷ js) rows =
    apply_transitions after before js (apply_transition after before j rows)

-- `artworkSnapshot: { customisationRevisionId: { in: ids } }`
abbrev pub job_is_for_any : RowId → List RowId → List ArtworkSnapshot → PrintJob → Bool
job_is_for_any order_id [] snapshots j = false
job_is_for_any order_id (r ∷ rs) snapshots j =
    if job_is_for order_id r snapshots j then true else job_is_for_any order_id rs snapshots j

-- `reviewSessionIds`: the sessions of the removed jobs that now need review.
unfoldable pub review_sessions :
    List Linked → List ArtworkSnapshot → List PrintJob → List RowId → List RowId
unfolding print_job_lifecycle_transition session_of
review_sessions previous snapshots [] acc = acc
review_sessions previous snapshots (j ∷ js) acc =
    review_sessions previous snapshots js (elim (print_job_lifecycle_transition j.status) [
      | none ↦ acc
      | some next ↦
          if is_needs_review next
          then elim (find_first (λ (s : ArtworkSnapshot). s.id == j.artwork_snapshot_id)
              snapshots) [
                | none ↦ acc
                | some s ↦ elim (session_of s.customisation_revision_id previous) [
                  | none ↦ acc
                  | some session_id ↦ add_to_set session_id acc
                ]
              ]
          else acc
    ])

-- `status: { in: ["ordered", "needs_review", "cancelled"] }`
abbrev pub is_reconcilable : SessionStatus → Bool
is_reconcilable SessionStatus.ordered = true
is_reconcilable SessionStatus.needs_review = true
is_reconcilable SessionStatus.cancelled = true
is_reconcilable _ = false

unfoldable pub retire_sessions :
    List RowId → List RowId → List CustomisationSession → List CustomisationSession
retire_sessions review [] sessions = sessions
retire_sessions review (id ∷ ids) sessions = retire_sessions review ids (
    update_many (λ s. s.id == id && is_reconcilable s.status)
      (λ s. record s {
        status = if elem id review then SessionStatus.needs_review else SessionStatus.cancelled;
      })
      sessions)

-- What the links that are gone, `removed`, do to print jobs and sessions.
unfoldable pub retire_removed : Store → RowId → List Linked → Progress → List Linked → Db
retire_removed store order_id previous p [] = p.db
retire_removed store order_id previous p (k ∷ ks) =
    let jobs =
      find_many (job_is_for_any order_id (map (λ (l : Linked). l.0) (k ∷ ks)) p.db.snapshots)
        p.db.print_jobs in
    let retired =
      sessions_of (find_many (λ (l : Linked). not (elem l.1 p.incoming_sessions)) (k ∷ ks)) [] in
    record (p.db) {
      print_jobs =
          apply_transitions removed_after_start removed_before_completion jobs p.db.print_jobs;
      sessions =
          retire_sessions (review_sessions previous p.db.snapshots jobs []) retired p.db.sessions;
      audit =
          p.db.audit
          ++ record {
            merchant_id = store.merchant_id;
            action = order_line_items_reconciled;
            target_id = order_id;
            affected_print_jobs = length jobs;
            affected_sessions = length retired;
          }
            ∷ [];
    }

-- The block for an event that does not end the order.
unfoldable pub reconcile_removed : Store → RowId → List Linked → Progress → Db
reconcile_removed store order_id previous p =
    retire_removed store order_id previous p
      (find_many (λ (k : Linked). not (elem k.0 p.incoming_revisions)) previous)

-- `sessionStatus` of the block for an event that ends the order.
abbrev pub ended_session_status : ConnectorEvent → SessionStatus
ended_session_status e = ended e.event_type
  where
    ended : EventType → SessionStatus
    ended order_cancelled = SessionStatus.cancelled
    ended _ =
        if str_eq e.payload.order_status "refunded"
        then SessionStatus.cancelled
        else SessionStatus.needs_review

-- The block for `order.cancelled` and `order.refunded`.
unfoldable pub end_order : Store → RowId → ConnectorEvent → Progress → Db
end_order store order_id e p =
    let jobs = find_many (λ (j : PrintJob). j.order_id == order_id) p.db.print_jobs in
    record (p.db) {
      print_jobs =
          apply_transitions (event_after_start e.event_type) (event_before_completion e.event_type)
            jobs p.db.print_jobs;
      sessions =
          update_many (λ s. elem s.id p.affected_sessions)
            (λ s. record s { status = ended_session_status e }) p.db.sessions;
      audit =
          p.db.audit
          ++ record {
            merchant_id = store.merchant_id;
            action = order_lifecycle_sync;
            target_id = order_id;
            affected_print_jobs = length jobs;
            affected_sessions = length p.affected_sessions;
          }
            ∷ [];
    }
