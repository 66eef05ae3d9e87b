-- ===== src/Customiser/History.antt =====
-- The history of a customisation: each commit on a revision takes its place as the one revision of
-- the session that can be resumed.
use personalisation_kings.Base.{
  ℕ, ◌+◌, ◌≤◌, ◌≡◌, refl, arith, inl, inr, Bool, true, false, none, some, [], String, Memᴰ, str_eq,
  str_eq_iff, Bool-cases, Option-cases, any, mem-find_many, find_first-Memᴰ,
}
use mathlib.Core.Path.{subst}
use personalisation_kings.Customiser.Types.{
  Date, Store, EmbedToken, CustomisationSession, CustomisationRevision, Db,
}
use personalisation_kings.Customiser.Revisions.{
  is_opaque_customisation_reference, latest_revision, revisions_of, is_latest, has_line_items,
  revision_can_resume, find_reference, find_session, find_editable_revision,
}
use personalisation_kings.Customiser.Latest.{latest_revision-max, latest_revision-Memᴰ}
use personalisation_kings.Customiser.Commit.{
  CommitBody, NewIds, committed, recommitted, new_revision, append_revision, update_session,
  commit_resumed,
}

-- An id names one revision.
abbrev pub IsKeyedByText : Db → Type 0
IsKeyedByText db =
    (a b : CustomisationRevision) → Memᴰ a db.revisions → Memᴰ b db.revisions → a.id ≡ b.id → a ≡ b

-- Ids and a reference that no row has.
pub record IsFresh (ids : NewIds) (db : Db) : Type 0 where
  pub session : find_session ids.session_id db.sessions ≡ none
  pub no_revision : revisions_of ids.session_id db.revisions ≡ []
  pub revision :
      any (λ (r : CustomisationRevision). str_eq r.id ids.revision_id) db.revisions ≡ false
  pub no_line_item : has_line_items ids.revision_id db.line_items ≡ false
  pub reference : find_reference ids.reference db.revisions ≡ none
  pub shaped : is_opaque_customisation_reference ids.reference ≡ true

-- What it takes for a revision to be resumed.
pub record IsEditable (token : EmbedToken) (store : Store) (now : Date) (reference : String)
    (db : Db) (r : CustomisationRevision) : Type 0 where
  pub session : CustomisationSession
  pub shaped : is_opaque_customisation_reference reference ≡ true
  pub named : find_reference reference db.revisions ≡ some r
  pub owned : find_session r.session_id db.sessions ≡ some session
  pub resumes : revision_can_resume token store now r session db ≡ true

module _ (token : EmbedToken) (store : Store) (now : Date) (reference : String) (db : Db) where
  pub find_editable_revision-IsEditable :
      {r : CustomisationRevision}
      → find_editable_revision token store now reference db ≡ some r
      → IsEditable token store now reference db r
  unfolding find_editable_revision
  find_editable_revision-IsEditable {r} h =
      elim (Bool-cases (is_opaque_customisation_reference reference)) [
        | inr f ↦ absurd (ground arith)
        | inl t ↦ elim (Option-cases (find_reference reference db.revisions)) [
          | inl unknown ↦ absurd (ground arith)
          | inr (x, named) ↦ elim (Option-cases (find_session x.session_id db.sessions)) [
            | inl lost ↦ absurd (ground arith)
            | inr (s, owned) ↦ elim (Bool-cases (revision_can_resume token store now x s db)) [
              | inr f ↦ absurd (ground arith)
              | inl granted ↦
                  let same : x ≡ r = ground arith in
                  subst (IsEditable token store now reference db) same (record {
                    session = s;
                    shaped = t;
                    named = named;
                    owned = owned;
                    resumes = granted;
                  })
            ]
          ]
        ]
      ]

  pub IsEditable-find_editable_revision :
      {r : CustomisationRevision}
      → IsEditable token store now reference db r
      → find_editable_revision token store now reference db ≡ some r
  unfolding find_editable_revision
  IsEditable-find_editable_revision e = rw (e.shaped, e.named, e.owned, e.resumes) refl

-- No revision of its session is later than one that can be resumed.
pub IsEditable-max :
    {token : EmbedToken} {store : Store} {now : Date} {reference : String} {db : Db}
    {base : CustomisationRevision}
    → IsKeyedByText db
    → (e : IsEditable token store now reference db base) → (x : CustomisationRevision)
    → Memᴰ x (revisions_of e.session.id db.revisions)
    → x.revision ≤ base.revision
unfolding revision_can_resume
IsEditable-max {db} {base} keyed e x m =
    let (q, found, most) = latest_revision-max (revisions_of e.session.id db.revisions) m in
    let latest : is_latest base (latest_revision (revisions_of e.session.id db.revisions)) ≡ true =
      ground (arith, e.resumes) in
    let ids : q.id ≡ base.id = (str_eq_iff _ _).0 (rw found at latest) in
    let (mq, own) =
      mem-find_many _ db.revisions
        (latest_revision-Memᴰ (revisions_of e.session.id db.revisions) found) in
    let same : q ≡ base = keyed q base mq (find_first-Memᴰ _ db.revisions e.named) ids in
    subst (λ (z : CustomisationRevision). x.revision ≤ z.revision) same most

module _ (now : Date) (ttl_seconds : ℕ) (token : EmbedToken) (store : Store) (body : CommitBody)
    (ids : NewIds) (db : Db) where
  -- What a commit on a resumed revision writes.
  pub record IsRecommit (base : CustomisationRevision) (r : CustomisationRevision) (db' : Db)
      : Type 0 where
    pub session : CustomisationSession
    pub owned : find_session base.session_id db.sessions ≡ some session
    pub creates : r ≡ new_revision token store body ids session.id (base.revision + 1)
    pub writes :
        db'
        ≡ append_revision r (update_session base.session_id (recommitted now ttl_seconds body) db)

  pub commit_resumed-IsRecommit :
      {s : CustomisationSession} {r : CustomisationRevision} {resumed : Bool} {db' : Db}
      (base : CustomisationRevision)
      → commit_resumed now ttl_seconds token store body ids base db ≡ committed s r resumed db'
      → IsRecommit base r db'
  unfolding commit_resumed
  commit_resumed-IsRecommit {r} {db'} base h =
      elim (Option-cases (find_session base.session_id db.sessions)) [
        | inl lost ↦ absurd (ground arith)
        | inr (s₀, owned) ↦ record {
          session = s₀;
          owned = owned;
          creates = ground arith;
          writes = ground arith;
        }
      ]
