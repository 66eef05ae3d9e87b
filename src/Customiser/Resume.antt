-- ===== src/Customiser/Resume.antt =====
-- The revision that a commit makes can be resumed at once.
use personalisation_kings.Base.{
  ℕ, ◌<◌, ◌≡◌, refl, sym, ap, ◌∙◌, arith, inl, inr, Bool, true, some, List, [], ◌∷◌, ◌++◌, String,
  str_eq, str_eq_iff, str_eq_refl, opt_str_eq_refl, some_inj, find_many-append_selected,
  find_first-append_new, find_first-update_many, find_first-some,
}
use mathlib.Core.Path.{subst}
use personalisation_kings.Customiser.Types.{
  Date, Store, EmbedToken, ProductMapping, AssetVersion, CustomisationSession,
  CustomisationRevision, Db,
}
use personalisation_kings.Customiser.Revisions.{
  latest_revision, revisions_of, revision_can_resume, find_reference, find_session,
  find_editable_revision,
}
use personalisation_kings.Customiser.Commit.{
  CommitBody, NewIds, committed, expiry, recommitted, new_session, new_revision, append_revision,
  create_session, commit_new, commit_transaction,
}
use personalisation_kings.Customiser.History.{
  IsKeyedByText, IsFresh, IsEditable, IsEditable-find_editable_revision, IsRecommit,
}
use personalisation_kings.Customiser.Supersede.{recommit-latest, commit_transaction-cases}

module _ (now : Date) (ttl_seconds : ℕ) (token : EmbedToken) (store : Store) (body : CommitBody)
    (ids : NewIds) (db : Db) where
  module _ (mapping : ProductMapping) (sources : List AssetVersion) where
    new-IsEditable :
        (later : Date)
        → IsFresh ids db
        → mapping.design_id ≡ token.design_id
        → later < expiry now ttl_seconds
        → IsEditable token store later ids.reference
            (append_revision (new_revision token store body ids ids.session_id 1) (
              create_session
                (new_session now ttl_seconds token store mapping body ids.session_id)
                db))
            (new_revision token store body ids ids.session_id 1)
    unfolding revision_can_resume latest_revision
    new-IsEditable later fresh design live =
        let s = new_session now ttl_seconds token store mapping body ids.session_id in
        let r = new_revision token store body ids ids.session_id 1 in
        let alone : revisions_of ids.session_id (db.revisions ++ r ∷ []) ≡ r ∷ [] =
          find_many-append_selected
            (λ (x : CustomisationRevision). str_eq x.session_id ids.session_id) db.revisions r
            (str_eq_refl ids.session_id)
          ∙ ap (λ (xs : List CustomisationRevision). xs ++ r ∷ []) fresh.no_revision in
        record {
          session = s;
          shaped = fresh.shaped;
          named =
              find_first-append_new _ db.revisions r fresh.reference (str_eq_refl ids.reference);
          owned = find_first-append_new _ db.sessions s fresh.session (str_eq_refl ids.session_id);
          resumes =
              rw (alone, revision_can_resume)
                (ground (
                  arith,
                  str_eq_refl store.merchant_id,
                  str_eq_refl store.id,
                  (str_eq_iff mapping.design_id token.design_id).1 design,
                  str_eq_refl token.design_version_id,
                  str_eq_refl token.external_product_id,
                  opt_str_eq_refl token.external_variant_id,
                  str_eq_refl ids.revision_id,
                ));
        }

    resumed-IsEditable :
        {reference : String} {base r : CustomisationRevision} {db' : Db} (later : Date)
        → IsKeyedByText db
        → IsFresh ids db
        → later < expiry now ttl_seconds
        → IsEditable token store now reference db base
        → IsRecommit now ttl_seconds token store body ids db base r db'
        → IsEditable token store later ids.reference db' r
    unfolding revision_can_resume
    resumed-IsEditable {base} {r} {db'} later keyed fresh live e c =
        let same : e.session ≡ c.session = some_inj (sym e.owned ∙ c.owned) in
        let own : c.session.id ≡ base.session_id =
          (str_eq_iff _ _).0 (find_first-some _ db.sessions c.owned) in
        let before : revision_can_resume token store now base c.session db ≡ true =
          subst (λ z. revision_can_resume token store now base z db ≡ true) same e.resumes in
        let unused : db'.line_items ≡ db.line_items = ap (λ (d : Db). d.line_items) c.writes in
        record {
          session = recommitted now ttl_seconds body c.session;
          shaped = fresh.shaped;
          named =
              ap (λ (d : Db). find_reference ids.reference d.revisions) c.writes
              ∙ find_first-append_new _ db.revisions r fresh.reference
                  (ground (arith, c.creates, str_eq_refl ids.reference));
          owned =
              ap (λ (x : CustomisationRevision). find_session x.session_id db'.sessions) c.creates
              ∙ (ap (λ i. find_session i db'.sessions) own
                  ∙ (ap (λ (d : Db). find_session base.session_id d.sessions) c.writes
                      ∙ find_first-update_many _ (recommitted now ttl_seconds body) (λ x. refl)
                          db.sessions c.owned));
          resumes =
              rw
                (
                  own,
                  recommit-latest now ttl_seconds token store body ids db keyed e c,
                  c.creates,
                  revision_can_resume,
                  unused,
                )
                (ground (
                  arith,
                  before,
                  str_eq_refl store.merchant_id,
                  str_eq_refl token.design_version_id,
                  str_eq_refl ids.revision_id,
                  fresh.no_line_item,
                ));
        }

    -- A revision that a transaction commits can be resumed at once, by the reference that it was
    -- given and until the session expires. The ids of the new rows are fresh, an id names one
    -- revision, and the mapping is for the token's design, as access requires.
    pub commit_transaction-resumable :
        {s : CustomisationSession} {r : CustomisationRevision} {resumed : Bool} {db' : Db}
        (later : Date)
        → IsKeyedByText db
        → IsFresh ids db
        → mapping.design_id ≡ token.design_id
        → later < expiry now ttl_seconds
        → commit_transaction now ttl_seconds token store mapping sources body ids db
          ≡ committed s r resumed db'
        → find_editable_revision token store later ids.reference db' ≡ some r
    unfolding commit_new
    commit_transaction-resumable {r} {db'} later keyed fresh design live h =
        IsEditable-find_editable_revision token store later ids.reference db'
          (elim (commit_transaction-cases now ttl_seconds token store body ids db mapping sources
            h) [
              | inl (first, c) ↦
                  let r₁ = new_revision token store body ids ids.session_id 1 in
                  let db₁ = append_revision r₁ (
                    create_session
                      (new_session now ttl_seconds token store mapping body ids.session_id) db) in
                  let made : r₁ ≡ r = ground arith in
                  let wrote : db₁ ≡ db' = ground arith in
                  subst (λ x. IsEditable token store later ids.reference x r) wrote
                    (subst (λ x. IsEditable token store later ids.reference db₁ x) made
                      (new-IsEditable later fresh design live))
              | inr (reference, base, again, e, c) ↦ resumed-IsEditable later keyed fresh live e c
            ])
