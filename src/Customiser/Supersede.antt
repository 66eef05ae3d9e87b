-- ===== src/Customiser/Supersede.antt =====
-- A commit on a resumed revision takes its place: the revision can be resumed no more.
use personalisation_kings.Base.{
  ℕ, ◌≡◌, sym, ap, ◌∙◌, arith, inl, inr, ◌⊎◌, Bool, true, false, none, some, List, [], ◌∷◌, String,
  Memᴰ, str_eq, str_eq_iff, Option-cases, some_inj, find_many-append_selected,
  find_first-append_found, find_first-some, find_first-Memᴰ, any-false,
}
use mathlib.Core.Path.{subst}
use personalisation_kings.Customiser.Types.{
  Date, Store, EmbedToken, ProductMapping, AssetVersion, CustomisationSession,
  CustomisationRevision, Db,
}
use personalisation_kings.Customiser.Revisions.{
  latest_revision, revisions_of, is_latest, revision_can_resume, find_reference,
  find_editable_revision,
}
use personalisation_kings.Customiser.Latest.{latest_revision-append}
use personalisation_kings.Customiser.Commit.{
  CommitBody, NewIds, committed, commit_new, commit_resumed, commit_transaction,
}
use personalisation_kings.Customiser.History.{
  IsKeyedByText, IsFresh, IsEditable, find_editable_revision-IsEditable, IsEditable-max, IsRecommit,
  commit_resumed-IsRecommit,
}

module _ (now : Date) (ttl_seconds : ℕ) (token : EmbedToken) (store : Store) (body : CommitBody)
    (ids : NewIds) (db : Db) where
  -- The revision that a commit adds is the latest of its session.
  pub recommit-latest :
      {reference : String} {base r : CustomisationRevision} {db' : Db}
      → IsKeyedByText db
      → IsEditable token store now reference db base
      → IsRecommit now ttl_seconds token store body ids db base r db'
      → latest_revision (revisions_of base.session_id db'.revisions) ≡ some r
  recommit-latest {base} {r} keyed e c =
      let own : c.session.id ≡ base.session_id =
        (str_eq_iff _ _).0 (find_first-some _ db.sessions c.owned) in
      let same : e.session.id ≡ base.session_id =
        (str_eq_iff _ _).0 (find_first-some _ db.sessions e.owned) in
      let here : str_eq r.session_id base.session_id ≡ true =
        (str_eq_iff _ _).1 (ground (arith, c.creates, own)) in
      let most = IsEditable-max keyed e in
      ap (λ (d : Db). latest_revision (revisions_of base.session_id d.revisions)) c.writes
      ∙ (ap latest_revision (
            find_many-append_selected
              (λ (x : CustomisationRevision). str_eq x.session_id base.session_id) db.revisions r
              here)
          ∙ latest_revision-append (revisions_of base.session_id db.revisions) r (λ x m.
            let below = most x (subst (λ i. Memᴰ x (revisions_of i db.revisions)) (sym same) m) in
            ground (arith, c.creates)))

  recommit-supersedes :
      {reference : String} {base r : CustomisationRevision} {db' : Db} (token' : EmbedToken)
      (store' : Store) (later : Date)
      → IsKeyedByText db
      → IsFresh ids db
      → IsEditable token store now reference db base
      → IsRecommit now ttl_seconds token store body ids db base r db'
      → find_editable_revision token' store' later reference db' ≡ none
  unfolding revision_can_resume
  recommit-supersedes {reference} {base} {r} {db'} token' store' later keyed fresh e c =
      elim (Option-cases (find_editable_revision token' store' later reference db')) [
        | inl closed ↦ closed
        | inr (x, open_again) ↦
            let f =
              find_editable_revision-IsEditable token' store' later reference db' open_again in
            let still : find_reference reference db'.revisions ≡ some base =
              ap (λ (d : Db). find_reference reference d.revisions) c.writes
              ∙ find_first-append_found _ db.revisions (r ∷ []) e.named in
            let same : x ≡ base = some_inj (sym f.named ∙ still) in
            let sid : f.session.id ≡ base.session_id =
              (str_eq_iff _ _).0 (find_first-some _ db'.sessions f.owned)
              ∙ ap (λ (z : CustomisationRevision). z.session_id) same in
            let latest = recommit-latest keyed e c in
            let tested : is_latest x (latest_revision (revisions_of f.session.id db'.revisions))
                ≡ true =
              ground (arith, f.resumes) in
            let old : str_eq base.id ids.revision_id ≡ false =
              any-false _ db.revisions fresh.revision (find_first-Memᴰ _ db.revisions e.named) in
            let clash : str_eq r.id x.id ≡ true = rw (sid, latest) at tested in
            let equal : base.id ≡ ids.revision_id =
              sym (ap (λ (z : CustomisationRevision). z.id) same)
              ∙ (sym ((str_eq_iff _ _).0 clash)
                  ∙ ap (λ (z : CustomisationRevision). z.id) c.creates) in
            absurd (ground (arith, (str_eq_iff base.id ids.revision_id).1 equal))
      ]

  module _ (mapping : ProductMapping) (sources : List AssetVersion) where
    -- A transaction that commits is a first commit, or one on a revision that could be resumed.
    pub commit_transaction-cases :
        {s : CustomisationSession} {r : CustomisationRevision} {resumed : Bool} {db' : Db}
        → commit_transaction now ttl_seconds token store mapping sources body ids db
          ≡ committed s r resumed db'
        → ((body.base_customisation_reference ≡ none)
            × (commit_new now ttl_seconds token store mapping body ids db
                ≡ committed s r resumed db'))
          ⊎ ((reference : String) × (base : CustomisationRevision)
              × (body.base_customisation_reference ≡ some reference)
              × IsEditable token store now reference db base
              × IsRecommit now ttl_seconds token store body ids db base r db')
    unfolding commit_transaction
    commit_transaction-cases {s} {r} {resumed} {db'} h =
        elim (Option-cases (body.base_customisation_reference)) [
          | inl first ↦ inl (first, ground arith)
          | inr (reference, again) ↦
              elim (Option-cases (find_editable_revision token store now reference db)) [
                | inl closed ↦ absurd (ground arith)
                | inr (base, editable) ↦
                    let writes : commit_resumed now ttl_seconds token store body ids base db
                        ≡ committed s r resumed db' =
                      ground arith in
                    inr (
                      reference,
                      base,
                      again,
                      find_editable_revision-IsEditable token store now reference db editable,
                      commit_resumed-IsRecommit now ttl_seconds token store body ids db base writes,
                    )
              ]
        ]

    -- Once a commit on a resumed revision has succeeded, that revision is resumed no more, by
    -- whomever and whenever: a second commit on it is stale. The ids of the new rows are fresh,
    -- and an id names one revision.
    pub commit_transaction-supersedes :
        {s : CustomisationSession} {r : CustomisationRevision} {resumed : Bool} {db' : Db}
        {reference : String} (token' : EmbedToken) (store' : Store) (later : Date)
        → IsKeyedByText db
        → IsFresh ids db
        → body.base_customisation_reference ≡ some reference
        → commit_transaction now ttl_seconds token store mapping sources body ids db
          ≡ committed s r resumed db'
        → find_editable_revision token' store' later reference db' ≡ none
    commit_transaction-supersedes {db'} token' store' later keyed fresh on h =
        elim (commit_transaction-cases h) [
          | inl (first, c) ↦ absurd (ground arith)
          | inr (given, base, again, e, c) ↦
              subst (λ x. find_editable_revision token' store' later x db' ≡ none)
                (some_inj (sym again ∙ on))
                (recommit-supersedes token' store' later keyed fresh e c)
        ]
