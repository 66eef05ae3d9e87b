-- ===== src/Connector/Process/PrintJobs.antt =====
-- Print jobs: never two for one revision of an order, whatever is replayed.
use personalisation_kings.Base.{
  ℕ, max, ◌+◌, ◌≤◌, ◌<◌, Bool, true, false, ◌&&◌, List, [], ◌∷◌, ◌++◌, ◌≡◌, refl, arith, ◌⊎◌, ◌==◌,
  ==_refl, Bool-cases, Option-cases, inl, inr, All, any, count, count-append, any-append,
  All-append,
}
use personalisation_kings.Connector.Types.{
  RowId, LineItem, Store, CustomisationRevision, PrintJob, ArtworkSnapshot, Db,
}
use personalisation_kings.Connector.Result.{ok, >>=-eq-ok}
use personalisation_kings.Connector.Process.Frame.{
  LineSynced, plain, personalised, sync_line-LineSynced,
}
use personalisation_kings.Connector.Process.Lines.{
  Progress, job_is_for, active_version, create_print_job, ensure_print_job, request_print,
  sync_line, sync_lines, new_snapshot, new_print_job,
}

-- The tables allot rising keys, and each print job has the key of a snapshot already allotted.
pub record IsAllotted (db : Db) : Type 0 where
  pub snapshots : All (λ (s : ArtworkSnapshot). s.id < db.next_id) db.snapshots
  pub jobs : All (λ (j : PrintJob). j.artwork_snapshot_id < db.next_id) db.print_jobs

-- At most one print job for each revision of each order.
abbrev pub IsOnce : Db → Type 0
IsOnce db =
    (order_id revision_id : RowId)
    → count (job_is_for order_id revision_id db.snapshots) db.print_jobs ≤ 1

pub record IsSound (db : Db) : Type 0 where
  pub allotted : IsAllotted db
  pub once : IsOnce db

-- At most so many print jobs for each revision of each order.
pub record IsBounded (bound : RowId → RowId → ℕ) (db : Db) : Type 0 where
  pub positive : (order_id revision_id : RowId) → 1 ≤ bound order_id revision_id
  pub allotted : IsAllotted db
  pub few :
      (order_id revision_id : RowId)
      → count (job_is_for order_id revision_id db.snapshots) db.print_jobs
        ≤ bound order_id revision_id

pub IsSound-IsBounded : {db : Db} → IsSound db → IsBounded (λ o v. 1) db
IsSound-IsBounded s = record { positive = λ o v. omega arith; allotted = s.allotted; few = s.once }

-- The bound that the tables already keep.
abbrev pub jobs_before : Db → RowId → RowId → ℕ
jobs_before db order_id revision_id =
    max 1 (count (job_is_for order_id revision_id db.snapshots) db.print_jobs)

pub IsAllotted-IsBounded : {db : Db} → IsAllotted db → IsBounded (jobs_before db) db
IsAllotted-IsBounded a = record {
  positive = λ o v. omega arith;
  allotted = a;
  few = λ o v. omega arith;
}

module _ (n : RowId) where
  All-later_snapshots :
      (xs : List ArtworkSnapshot) (m : RowId)
      → n ≤ m
      → All (λ (s : ArtworkSnapshot). s.id < n) xs
      → All (λ (s : ArtworkSnapshot). s.id < m) xs
  All-later_snapshots [] m h a = tt
  All-later_snapshots (x ∷ xs) m h (a, as') = (omega arith, All-later_snapshots xs m h as')

  All-later_jobs :
      (xs : List PrintJob) (m : RowId)
      → n ≤ m
      → All (λ (j : PrintJob). j.artwork_snapshot_id < n) xs
      → All (λ (j : PrintJob). j.artwork_snapshot_id < m) xs
  All-later_jobs [] m h a = tt
  All-later_jobs (x ∷ xs) m h (a, as') = (omega arith, All-later_jobs xs m h as')

  -- No snapshot has a key that is still to be allotted.
  any-fresh :
      (xs : List ArtworkSnapshot) (revision_id : RowId)
      → All (λ (s : ArtworkSnapshot). s.id < n) xs
      → any (λ (s : ArtworkSnapshot). s.id == n && s.customisation_revision_id == revision_id) xs
        ≡ false
  any-fresh [] r a = refl
  any-fresh (x ∷ xs) r (a, as') = ground (arith, any-fresh xs r as')

  -- A new snapshot changes the revision of no earlier print job.
  count-new_snapshot :
      (order_id revision_id : RowId) (snaps : List ArtworkSnapshot) (s : ArtworkSnapshot)
      (jobs : List PrintJob)
      → s.id ≡ n
      → All (λ (j : PrintJob). j.artwork_snapshot_id < n) jobs
      → count (job_is_for order_id revision_id (snaps ++ s ∷ [])) jobs
        ≡ count (job_is_for order_id revision_id snaps) jobs
  count-new_snapshot o r snaps s [] e a = refl
  count-new_snapshot o r snaps s (j ∷ js) e (a, as') = ground (
    arith,
    any-append
        (λ (x : ArtworkSnapshot). x.id == j.artwork_snapshot_id && x.customisation_revision_id == r)
        snaps (s ∷ []),
    count-new_snapshot o r snaps s js e as',
  )

count-zero_of_any :
    (p : PrintJob → Bool) (jobs : List PrintJob) → any p jobs ≡ false → count p jobs ≡ 0
count-zero_of_any p [] h = refl
count-zero_of_any p (j ∷ js) h = ground (arith, count-zero_of_any p js)

module _ (store : Store) (order_id : RowId) (r : CustomisationRevision) (version_id : RowId)
    (db : Db) where
  created_job_is_for :
      (o v : RowId)
      → IsAllotted db
      → job_is_for o v
          (create_print_job store order_id r version_id db).snapshots
          (new_print_job (db.next_id + 1) store order_id db.next_id)
        ≡ (order_id == o && r.id == v)
  created_job_is_for o v a = ground (
    arith,
    any-append (λ (x : ArtworkSnapshot). x.id == db.next_id && x.customisation_revision_id == v)
        db.snapshots (new_snapshot db.next_id store r version_id ∷ []),
    any-fresh db.next_id db.snapshots v a.snapshots,
    ==_refl db.next_id,
  )

  create_print_job-IsAllotted :
      IsAllotted db → IsAllotted (create_print_job store order_id r version_id db)
  create_print_job-IsAllotted a = record {
    snapshots =
        All-append _ db.snapshots _
          (All-later_snapshots db.next_id db.snapshots _ (omega arith) a.snapshots)
          (omega arith, tt);
    jobs =
        All-append _ db.print_jobs _
          (All-later_jobs db.next_id db.print_jobs _ (omega arith) a.jobs) (omega arith, tt);
  }

  create_print_job-IsBounded :
      {bound : RowId → RowId → ℕ}
      → any (job_is_for order_id r.id db.snapshots) db.print_jobs ≡ false
      → IsBounded bound db
      → IsBounded bound (create_print_job store order_id r version_id db)
  create_print_job-IsBounded missing sound = record {
    positive = sound.positive;
    allotted = create_print_job-IsAllotted sound.allotted;
    few = λ o v. ground (
      arith,
      count-append (job_is_for o v (create_print_job store order_id r version_id db).snapshots)
          db.print_jobs (new_print_job (db.next_id + 1) store order_id db.next_id ∷ []),
      count-new_snapshot db.next_id o v db.snapshots (new_snapshot db.next_id store r version_id)
          db.print_jobs refl sound.allotted.jobs,
      created_job_is_for o v sound.allotted,
      count-zero_of_any (job_is_for order_id r.id db.snapshots) db.print_jobs missing,
      sound.few o v,
      sound.positive o v,
    );
  }

-- Tables with the same snapshots and print jobs, and later keys.
pub record Extends (a b : Db) : Type 0 where
  pub later : a.next_id ≤ b.next_id
  pub snapshots : b.snapshots ≡ a.snapshots
  pub jobs : b.print_jobs ≡ a.print_jobs

pub Extends-IsBounded :
    {bound : RowId → RowId → ℕ} {a b : Db} → Extends a b → IsBounded bound a → IsBounded bound b
Extends-IsBounded {a} {b} x s = record {
  positive = s.positive;
  allotted = record {
    snapshots =
        rw x.snapshots (All-later_snapshots a.next_id a.snapshots _ x.later s.allotted.snapshots);
    jobs = rw x.jobs (All-later_jobs a.next_id a.print_jobs _ x.later s.allotted.jobs);
  };
  few = λ o v. rw (x.snapshots, x.jobs) (s.few o v);
}

module _ (store : Store) (order_id : RowId) where
  -- Either the print job was there and nothing changes, or it was missing and is made.
  pub ensure_print_job-cases :
      (r : CustomisationRevision) (db : Db) {db' : Db}
      → ensure_print_job store order_id r db ≡ ok db'
      → ((any (job_is_for order_id r.id db.snapshots) db.print_jobs ≡ true) × (db' ≡ db))
        ⊎ ((version_id : RowId) × (any (job_is_for order_id r.id db.snapshots) db.print_jobs
              ≡ false)
            × (db' ≡ create_print_job store order_id r version_id db))
  unfolding ensure_print_job
  ensure_print_job-cases r db h =
      elim (Bool-cases (any (job_is_for order_id r.id db.snapshots) db.print_jobs)) [
        | inl there ↦ inl (there, ground arith)
        | inr missing ↦ elim (Option-cases (active_version store.merchant_id db)) [
          | inl absent ↦ absurd (ground arith)
          | inr (v, found) ↦ inr (v, missing, ground arith)
        ]
      ]

  ensure_print_job-IsBounded :
      {bound : RowId → RowId → ℕ} (r : CustomisationRevision) (db : Db) {db' : Db}
      → ensure_print_job store order_id r db ≡ ok db'
      → IsBounded bound db
      → IsBounded bound db'
  ensure_print_job-IsBounded r db h s = elim (ensure_print_job-cases r db h) [
    | inl (there, same) ↦ rw same s
    | inr (v, missing, made) ↦ rw made (create_print_job-IsBounded store order_id r v db missing s)
  ]

  request_print-IsBounded :
      {bound : RowId → RowId → ℕ} (actionable : Bool) (r : CustomisationRevision) (db : Db)
      {db' : Db}
      → request_print store order_id actionable r db ≡ ok db'
      → IsBounded bound db
      → IsBounded bound db'
  unfolding request_print
  request_print-IsBounded false r db {db' = db'} h s =
      let same : db' ≡ db = ground arith in rw same s
  request_print-IsBounded true r db h s =
      let (mid, made, rest) = >>=-eq-ok (ensure_print_job store order_id r db) _ h in
      Extends-IsBounded (ground arith) (ensure_print_job-IsBounded r db made s)

  sync_line-IsBounded :
      {bound : RowId → RowId → ℕ} (actionable : Bool) (item : LineItem) (p : Progress)
      {p' : Progress}
      → LineSynced store order_id actionable item p p'
      → IsBounded bound p.db
      → IsBounded bound p'.db
  sync_line-IsBounded actionable item p (plain _ e) s = Extends-IsBounded (ground arith) s
  sync_line-IsBounded actionable item p {p' = p'} (personalised _ r db _ _ made e) s =
      let kept : p'.db ≡ db = ground arith in
      rw kept (
        request_print-IsBounded actionable r _ made (Extends-IsBounded {a = p.db} (ground arith) s))

  pub sync_lines-IsBounded :
      {bound : RowId → RowId → ℕ} (actionable : Bool) (items : List LineItem) (p : Progress)
      {p' : Progress}
      → sync_lines store order_id actionable items p ≡ ok p'
      → IsBounded bound p.db
      → IsBounded bound p'.db
  unfolding sync_lines
  sync_lines-IsBounded actionable [] p {p' = p'} h s = let same : p' ≡ p = ground arith in rw same s
  sync_lines-IsBounded actionable (item ∷ items) p h s =
      let (mid, first, rest) = >>=-eq-ok (sync_line store order_id actionable item p) _ h in
      sync_lines-IsBounded actionable items mid rest (
        sync_line-IsBounded actionable item p
          (sync_line-LineSynced store order_id actionable item p first) s)
