-- ===== src/Connector/Process/Prints.antt =====
-- What a paid event asks of production: a print job for each personalised line.
use mathlib.Core.List.{Memᴰ}
use personalisation_kings.Base.{
  ◌+◌, String, Bool, true, false, ◌&&◌, some, List, [], ◌∷◌, ◌++◌, ◌≡◌, sym, ◌∙◌, ap, arith, ◌==◌,
  ==_refl, inl, inr, any, any-append, str_eq, find_first,
}
use personalisation_kings.Connector.Types.{
  RowId, LineItem, Store, CustomisationRevision, PrintJob, ArtworkSnapshot, Db,
}
use personalisation_kings.Connector.Result.{ok, >>=-eq-ok}
use personalisation_kings.Connector.Process.Lines.{
  Progress, job_is_for, find_valid_revision, new_snapshot, new_print_job, create_print_job,
  ensure_print_job, request_print, sync_line, sync_lines, create_line_item,
}
use personalisation_kings.Connector.Process.Frame.{
  LineSynced, plain, personalised, sync_line-LineSynced, sync_line-Agrees,
}
use personalisation_kings.Connector.Process.PrintJobs.{ensure_print_job-cases}

-- Some print job of the order is for the revision.
abbrev pub HasJob : RowId → RowId → Db → Type 0
HasJob order_id revision_id db =
    any (job_is_for order_id revision_id db.snapshots) db.print_jobs ≡ true

-- The revision that a reference names.
abbrev pub Named : String → Db → CustomisationRevision → Type 0
Named reference db r =
    find_first (λ (x : CustomisationRevision). str_eq x.opaque_reference reference) db.revisions
    ≡ some r

any-more_snapshots :
    (o v : RowId) (snaps : List ArtworkSnapshot) (s : ArtworkSnapshot) (jobs : List PrintJob)
    → any (job_is_for o v snaps) jobs ≡ true
    → any (job_is_for o v (snaps ++ s ∷ [])) jobs ≡ true
any-more_snapshots o v snaps s [] h = ground arith
any-more_snapshots o v snaps s (j ∷ js) h = ground (
  arith,
  any-append
      (λ (x : ArtworkSnapshot). x.id == j.artwork_snapshot_id && x.customisation_revision_id == v)
      snaps (s ∷ []),
  any-more_snapshots o v snaps s js,
)

module _ (store : Store) (order_id : RowId) where
  create_print_job-keeps :
      (r : CustomisationRevision) (version_id o v : RowId) (db : Db)
      → HasJob o v db
      → HasJob o v (create_print_job store order_id r version_id db)
  create_print_job-keeps r version_id o v db h = ground (
    arith,
    any-append (job_is_for o v (create_print_job store order_id r version_id db).snapshots)
        db.print_jobs (new_print_job (db.next_id + 1) store order_id db.next_id ∷ []),
    any-more_snapshots o v db.snapshots (new_snapshot db.next_id store r version_id) db.print_jobs
        h,
  )

  create_print_job-HasJob :
      (r : CustomisationRevision) (version_id : RowId) (db : Db)
      → HasJob order_id r.id (create_print_job store order_id r version_id db)
  create_print_job-HasJob r version_id db = ground (
    arith,
    any-append
        (job_is_for order_id r.id (create_print_job store order_id r version_id db).snapshots)
        db.print_jobs (new_print_job (db.next_id + 1) store order_id db.next_id ∷ []),
    any-append (λ (x : ArtworkSnapshot). x.id == db.next_id && x.customisation_revision_id == r.id)
        db.snapshots (new_snapshot db.next_id store r version_id ∷ []),
    ==_refl db.next_id,
    ==_refl order_id,
    ==_refl r.id,
  )

  -- A request keeps the jobs that are there, and for a paid event leaves one for the revision.
  request_print-keeps :
      (actionable : Bool) (r : CustomisationRevision) (db : Db) {db' : Db} (o v : RowId)
      → request_print store order_id actionable r db ≡ ok db'
      → HasJob o v db
      → HasJob o v db'
  unfolding request_print
  request_print-keeps false r db {db' = db'} o v h k =
      let same : db' ≡ db = ground arith in rw same k
  request_print-keeps true r db o v h k =
      let (mid, made, rest) = >>=-eq-ok (ensure_print_job store order_id r db) _ h in
      elim (ensure_print_job-cases store order_id r db made) [
        | inl (there, same) ↦ ground arith
        | inr (version_id, missing, new) ↦
            ground (arith, create_print_job-keeps r version_id o v db k)
      ]

  request_print-HasJob :
      (r : CustomisationRevision) (db : Db) {db' : Db}
      → request_print store order_id true r db ≡ ok db'
      → HasJob order_id r.id db'
  unfolding request_print
  request_print-HasJob r db h =
      let (mid, made, rest) = >>=-eq-ok (ensure_print_job store order_id r db) _ h in
      elim (ensure_print_job-cases store order_id r db made) [
        | inl (there, same) ↦ ground arith
        | inr (version_id, missing, new) ↦ ground (arith, create_print_job-HasJob r version_id db)
      ]

  sync_line-keeps :
      (actionable : Bool) (item : LineItem) (p : Progress) {p' : Progress} (o v : RowId)
      → LineSynced store order_id actionable item p p'
      → HasJob o v p.db
      → HasJob o v p'.db
  sync_line-keeps actionable item p o v (plain _ e) k = rw e k
  sync_line-keeps actionable item p o v (personalised _ r db _ _ made e) k = rw e (
      request_print-keeps actionable r (create_line_item store order_id item (some r.id) p.db) o v
        made k)

  sync_lines-keeps :
      (actionable : Bool) (items : List LineItem) (p : Progress) {p' : Progress} (o v : RowId)
      → sync_lines store order_id actionable items p ≡ ok p'
      → HasJob o v p.db
      → HasJob o v p'.db
  unfolding sync_lines
  sync_lines-keeps actionable [] p {p' = p'} o v h k = let same : p' ≡ p = ground arith in rw same k
  sync_lines-keeps actionable (item ∷ items) p o v h k =
      let (mid, first, rest) = >>=-eq-ok (sync_line store order_id actionable item p) _ h in
      sync_lines-keeps actionable items mid o v rest (
        sync_line-keeps actionable item p o v
          (sync_line-LineSynced store order_id actionable item p first) k)

  find_valid_revision-Named :
      (actionable : Bool) (item : LineItem) (reference : String) (db : Db)
      {r : CustomisationRevision}
      → find_valid_revision store order_id actionable item reference db ≡ some r
      → Named reference db r
  unfolding find_valid_revision
  find_valid_revision-Named actionable item reference db h = ground arith

  sync_line-HasJob :
      (item : LineItem) (p : Progress) {p' : Progress} (reference : String)
      → item.customisation_reference ≡ some reference
      → LineSynced store order_id true item p p'
      → (r : CustomisationRevision) × Named reference p.db r × HasJob order_id r.id p'.db
  sync_line-HasJob item p reference has (plain bare e) = absurd (ground arith)
  sync_line-HasJob item p reference has (personalised ref r db given valid made e) =
      let same : ref ≡ reference = ground arith in
      (
        r,
        find_valid_revision-Named true item reference p.db (rw (← same) valid),
        rw e (request_print-HasJob r (create_line_item store order_id item (some r.id) p.db) made),
      )

  pub sync_lines-HasJob :
      (items : List LineItem) (p : Progress) {p' : Progress} (item : LineItem) (reference : String)
      → Memᴰ item items
      → item.customisation_reference ≡ some reference
      → sync_lines store order_id true items p ≡ ok p'
      → (r : CustomisationRevision) × Named reference p.db r × HasJob order_id r.id p'.db
  unfolding sync_lines
  sync_lines-HasJob [] p item reference m has h = elim m [ ]
  sync_lines-HasJob (x ∷ items) p item reference (Memᴰ.head same) has h =
      let (mid, first, rest) = >>=-eq-ok (sync_line store order_id true x p) _ h in
      let (r, named, made) =
        sync_line-HasJob x p reference
          (ap (λ (l : LineItem). l.customisation_reference) (sym same) ∙ has)
          (sync_line-LineSynced store order_id true x p first) in
      (r, named, sync_lines-keeps true items mid order_id r.id rest made)
  sync_lines-HasJob (x ∷ items) p item reference (Memᴰ.tail m) has h =
      let (mid, first, rest) = >>=-eq-ok (sync_line store order_id true x p) _ h in
      let (r, named, made) = sync_lines-HasJob items mid item reference m has rest in
      let kept =
        sync_line-Agrees store order_id true x p
          (sync_line-LineSynced store order_id true x p first) in
      (
        r,
        ap (find_first (λ (c : CustomisationRevision). str_eq c.opaque_reference reference))
              kept.revisions
            ∙ named,
        made,
      )
