-- ===== src/Artifacts/Reach.antt =====
-- The statements of the cleanup worker, of the two routes of an artifact and of the read of an
-- object, in any order.
use personalisation_kings.Base.{
  ℕ, ◌+◌, ◌≤◌, ◌≡◌, arith, inl, inr, Bool, true, false, ◌&&◌, ◌==◌, some, String, is_some, All,
  All-Memᴰ, All-update_many, Memᴰ, Bool-cases, Option-cases, &&-true, find_first, count,
  update_many,
}
use personalisation_kings.Storage.Keys.{is_object_key}
use personalisation_kings.Artifacts.Types.{
  Date, Artifact, AuditEvent, Db, artifact_retention_held, artifact_bytes_available, is_unleased,
}
use personalisation_kings.Artifacts.Cleanup.{
  claimed, claims, holds_claim, emptied, postponed, Progress, Environment, postpone, complete,
}
use personalisation_kings.Artifacts.Access.{
  Answer, Hold, is_owned, leased, can_lease, update_one, issue_download, is_hold_expiry, held,
  set_retention_hold, unheld, release_retention_hold, can_read, serve_object,
}
use personalisation_kings.Artifacts.Free.{IsFree, unleased-IsFree}
use personalisation_kings.Artifacts.Guard.{
  IsGuarded, claimed-IsGuarded, leased-IsGuarded, held-IsGuarded, unheld-IsGuarded,
  postponed-IsGuarded, emptied-IsGuarded,
}

-- The writes of one statement of a worker or of a route. The removal of the bytes from the storage
-- writes to no table.
pub data Step : Db → Db → Type 0 where
  claiming :
      (now : Date) (merchant_id : String) (days : ℕ) (id : String) (token : ℕ) (db : Db)
      → Step db (record db {
        artifacts = update_many (claims now merchant_id days id) (claimed now token) db.artifacts;
      })
  completing :
      (env : Environment) (token : ℕ) (a : Artifact) (p : Progress)
      → Step p.db ((complete env token a p).db)
  postponing :
      (env : Environment) (token : ℕ) (a : Artifact) (message : String) (p : Progress)
      → Step p.db ((postpone env token a message p).db)
  downloading :
      (is_key : String → String → Bool) (now : Date) (merchant_id id : String) (db : Db)
      → Step db ((issue_download is_key now merchant_id id db).1)
  holding :
      (now : Date) (hold : Hold) (merchant_id id : String) (db : Db)
      → Step db ((set_retention_hold now hold merchant_id id db).1)
  releasing :
      (now : Date) (merchant_id id : String) (db : Db)
      → Step db ((release_retention_hold now merchant_id id db).1)
  serving :
      (is_version : Bool) (now : Date) (key : String) (db : Db)
      → Step db ((serve_object is_version now key db).1)

pub data Reach : Db → Db → Type 0 where
  start : (db : Db) → Reach db db
  after : {a b c : Db} → Reach a b → Step b c → Reach a c

update_one-IsGuarded :
    (refusal : Answer) (event : AuditEvent) (p : Artifact → Bool) (f : Artifact → Artifact)
    → ((a : Artifact) → p a ≡ true → IsGuarded a → IsGuarded (f a))
    → (db : Db) → All IsGuarded db.artifacts
    → All IsGuarded ((update_one refusal event p f db).1.artifacts)
update_one-IsGuarded refusal event p f keep db g = elim (Bool-cases (count p db.artifacts == 1)) [
  | inl one ↦ rw one (All-update_many IsGuarded p f keep db.artifacts g)
  | inr other ↦ rw other (All-update_many IsGuarded p f keep db.artifacts g)
]

module _ (db : Db) (g : All IsGuarded db.artifacts) where
  issue_download-IsGuarded :
      (is_key : String → String → Bool) (now : Date) (merchant_id id : String)
      → All IsGuarded ((issue_download is_key now merchant_id id db).1.artifacts)
  unfolding issue_download
  issue_download-IsGuarded is_key now merchant_id id =
      elim (Option-cases (find_first (is_owned id merchant_id) db.artifacts)) [
        | inl unknown ↦ rw (unknown, issue_download) g
        | inr (a, found) ↦
            elim (Bool-cases (is_object_key a.object_key && is_key a.object_key merchant_id)) [
              | inr invalid ↦ rw (found, invalid, issue_download) g
              | inl valid ↦
                  rw (found, valid, issue_download)
                    (update_one-IsGuarded _ _ (can_lease a) (leased (now + 330000))
                      (λ x t gx. leased-IsGuarded (now + 330000) x (ground arith)) db g)
            ]
      ]

  set_retention_hold-IsGuarded :
      (now : Date) (hold : Hold) (merchant_id id : String)
      → All IsGuarded ((set_retention_hold now hold merchant_id id db).1.artifacts)
  unfolding set_retention_hold
  set_retention_hold-IsGuarded now hold merchant_id id =
      elim (Bool-cases (is_hold_expiry now hold.until)) [
        | inr late ↦ rw (late, set_retention_hold) g
        | inl valid ↦ elim (Option-cases (find_first (is_owned id merchant_id) db.artifacts)) [
          | inl unknown ↦ rw (valid, unknown, set_retention_hold) g
          | inr (a, found) ↦ elim (Bool-cases (is_some a.bytes_deleted_at)) [
            | inl gone ↦ rw (valid, found, gone, set_retention_hold) g
            | inr present ↦
                rw (valid, found, present, set_retention_hold)
                  (update_one-IsGuarded _ _
                    (λ x. is_owned id merchant_id x && artifact_bytes_available x) (held now hold)
                    (λ x t gx.
                      held-IsGuarded now hold x
                        ((&&-true (is_owned id merchant_id x) (artifact_bytes_available x) t).1))
                    db g)
          ]
        ]
      ]

  serve_object-IsGuarded :
      (is_version : Bool) (now : Date) (key : String)
      → All IsGuarded ((serve_object is_version now key db).1.artifacts)
  unfolding serve_object
  serve_object-IsGuarded true now key = g
  serve_object-IsGuarded false now key =
      All-update_many IsGuarded (can_read key) (leased (now + 300000))
        (λ a t ga. leased-IsGuarded (now + 300000) a (ground arith)) db.artifacts g

complete-IsGuarded :
    (env : Environment) (token : ℕ) (a : Artifact) (p : Progress)
    → All IsGuarded p.db.artifacts
    → All IsGuarded ((complete env token a p).db.artifacts)
unfolding complete
complete-IsGuarded env token a p g =
    let after =
      All-update_many IsGuarded (holds_claim a token) (emptied env.finished)
        (λ x t gx. emptied-IsGuarded env.finished x) p.db.artifacts g in
    elim (Bool-cases (count (holds_claim a token) p.db.artifacts == 1)) [
      | inl one ↦ rw (one, complete) after
      | inr other ↦ rw (other, complete) after
    ]

Step-IsGuarded :
    {db db' : Db} → Step db db' → All IsGuarded db.artifacts → All IsGuarded db'.artifacts
unfolding postpone release_retention_hold
Step-IsGuarded (claiming now merchant_id days id token db) g =
    All-update_many IsGuarded (claims now merchant_id days id) (claimed now token)
      (λ a t ga. claimed-IsGuarded now merchant_id days id token a t) db.artifacts g
Step-IsGuarded (completing env token a p) g = complete-IsGuarded env token a p g
Step-IsGuarded (postponing env token a message p) g =
    All-update_many IsGuarded (holds_claim a token)
      (postponed env.finished a.cleanup_attempts message)
      (λ x t gx. postponed-IsGuarded env.finished a.cleanup_attempts message x gx) p.db.artifacts g
Step-IsGuarded (downloading is_key now merchant_id id db) g =
    issue_download-IsGuarded db g is_key now merchant_id id
Step-IsGuarded (holding now hold merchant_id id db) g =
    set_retention_hold-IsGuarded db g now hold merchant_id id
Step-IsGuarded (releasing now merchant_id id db) g =
    update_one-IsGuarded _ _ (λ x. is_owned id merchant_id x && is_some x.retention_hold_at)
      (unheld now) (λ x t gx. unheld-IsGuarded now x gx) db g
Step-IsGuarded (serving is_version now key db) g = serve_object-IsGuarded db g is_version now key

Reach-IsGuarded :
    {db db' : Db} → Reach db db' → All IsGuarded db.artifacts → All IsGuarded db'.artifacts
Reach-IsGuarded (start db) g = g
Reach-IsGuarded (after r s) g = Step-IsGuarded s (Reach-IsGuarded r g)

-- A lease or a hold that has ended stays ended.
free_later :
    (at now : Date) (a : Artifact)
    → at ≤ now
    → (is_unleased at a ≡ true) × (artifact_retention_held at a ≡ false)
    → (is_unleased now a ≡ true) × (artifact_retention_held now a ≡ false)
unfolding artifact_retention_held is_unleased
free_later at now a le (unleased, unheld_then) = (ground arith, ground arith)

-- Whatever the cleanup workers, the downloads, the reads of objects and the requests for holds write
-- to the tables, in any order, an artifact whose removal is claimed is free from the time of its
-- claim on: every lease on it has ended, and it has no hold, or one that has ended. In the tables
-- at the start this is so of the claimed artifacts at the times of their claims.
pub Reach-IsFree :
    {db db' : Db} {a : Artifact} {at : Date} (now : Date)
    → All IsGuarded db.artifacts
    → Reach db db'
    → Memᴰ a db'.artifacts
    → a.cleanup_claimed_at ≡ some at
    → at ≤ now
    → IsFree now a
Reach-IsFree {db'} {a} {at} now g r m e le =
    let (unleased, unheld_then) =
      free_later at now a le (All-Memᴰ IsGuarded db'.artifacts (Reach-IsGuarded r g) m at e) in
    unleased-IsFree now a unleased unheld_then
