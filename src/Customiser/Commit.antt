-- ===== src/Customiser/Commit.antt =====
-- The commit of a customisation: `handleCustomiserCommit` of apps/api/src/embed.ts up to the end of
-- its transaction. The preview that is made after it does not change the answer's revision.
use personalisation_kings.Base.{
  ℕ, ◌+◌, ◌*◌, Bool, true, false, ◌&&◌, ◌==◌, Option, none, some, List, [], ◌∷◌, ◌++◌, String, leb,
  any, str_eq, update_many, count, length, if◌then◌else◌, utf16_length,
}
use personalisation_kings.Connector.Types.{SessionStatus}
use personalisation_kings.Scene.Types.{SceneGraph, is_valid_scene}
use personalisation_kings.Scene.Match.{resolve_design_configuration, scene_matches_design}
use personalisation_kings.Customiser.Types.{
  Date, Store, EmbedToken, ProductMapping, Context, AssetVersion, CustomisationSession,
  CustomisationRevision, Db,
}
use personalisation_kings.Customiser.Access.{AccessError, Access, granted, refused}
use personalisation_kings.Customiser.Revisions.{find_session, find_editable_revision}
use personalisation_kings.Customiser.Assets.{is_live, referenced_asset_versions}

-- `commitSchema`, without the token; the customer's inputs are their JSON.
pub record CommitBody : Type 0 where
  pub base_customisation_reference : Option String
  pub customer_inputs : String
  pub render_spec : SceneGraph

-- The ids of the rows that the transaction creates, and `pk_${randomUUID()}`.
pub record NewIds : Type 0 where
  pub session_id : String
  pub revision_id : String
  pub reference : String

pub data CommitResult : Type 0 where
  committed : CustomisationSession → CustomisationRevision → Bool → Db → CommitResult
  access_refused : AccessError → CommitResult
  invalid_body render_spec_mismatch invalid_asset_reference stale_customisation : CommitResult

abbrev pub expiry : Date → ℕ → Date
expiry now ttl_seconds = now + ttl_seconds * 1000

abbrev pub recommitted : Date → ℕ → CommitBody → CustomisationSession → CustomisationSession
recommitted now ttl_seconds body s = record s {
  customer_inputs = body.customer_inputs;
  render_spec = body.render_spec;
  expires_at = some (expiry now ttl_seconds);
}

abbrev pub new_session :
    Date → ℕ → EmbedToken → Store → ProductMapping → CommitBody → String → CustomisationSession
new_session now ttl_seconds token store mapping body id = record {
  id = id;
  merchant_id = store.merchant_id;
  store_id = store.id;
  design_id = mapping.design_id;
  external_product_id = token.external_product_id;
  external_variant_id = token.external_variant_id;
  customer_inputs = body.customer_inputs;
  render_spec = body.render_spec;
  status = SessionStatus.committed;
  expires_at = some (expiry now ttl_seconds);
}

abbrev pub new_revision :
    EmbedToken → Store → CommitBody → NewIds → String → ℕ → CustomisationRevision
new_revision token store body ids session_id number = record {
  id = ids.revision_id;
  merchant_id = store.merchant_id;
  session_id = session_id;
  design_version_id = token.design_version_id;
  revision = number;
  opaque_reference = ids.reference;
  customer_inputs = body.customer_inputs;
  render_spec = body.render_spec;
}

abbrev pub append_revision : CustomisationRevision → Db → Db
append_revision r db = record db { revisions = db.revisions ++ r ∷ [] }

abbrev pub create_session : CustomisationSession → Db → Db
create_session s db = record db { sessions = db.sessions ++ s ∷ [] }

abbrev pub update_session : String → (CustomisationSession → CustomisationSession) → Db → Db
update_session id f db = record db {
  sessions = update_many (λ (s : CustomisationSession). str_eq s.id id) f db.sessions;
}

-- A first commit: a new session with its revision 1.
unfoldable pub commit_new :
    Date → ℕ → EmbedToken → Store → ProductMapping → CommitBody → NewIds → Db → CommitResult
commit_new now ttl_seconds token store mapping body ids db =
    let s = new_session now ttl_seconds token store mapping body ids.session_id in
    let r = new_revision token store body ids ids.session_id 1 in
    committed s r false (append_revision r (create_session s db))

-- A commit on a revision that was resumed. `update` throws when its row is gone, which a foreign
-- key excludes.
unfoldable pub commit_resumed :
    Date → ℕ → EmbedToken → Store → CommitBody → NewIds → CustomisationRevision → Db → CommitResult
commit_resumed now ttl_seconds token store body ids base db =
    elim (find_session base.session_id db.sessions) [
      | none ↦ stale_customisation
      | some s ↦
          let r = new_revision token store body ids s.id (base.revision + 1) in
          committed (recommitted now ttl_seconds body s) r true (
            append_revision r
              (update_session base.session_id (recommitted now ttl_seconds body) db))
    ]

abbrev pub is_source : List AssetVersion → AssetVersion → Bool
is_source sources v = any (λ (w : AssetVersion). str_eq w.id v.id) sources

-- The transaction, on the assets that the scene names.
unfoldable pub commit_transaction :
    Date
    → ℕ
    → EmbedToken
    → Store
    → ProductMapping
    → List AssetVersion
    → CommitBody
    → NewIds
    → Db
    → CommitResult
commit_transaction now ttl_seconds token store mapping sources body ids db =
    if count (λ (v : AssetVersion). is_source sources v && is_live store.merchant_id v) db.assets
      == length sources
    then elim (body.base_customisation_reference) [
      | none ↦ commit_new now ttl_seconds token store mapping body ids db
      | some reference ↦ elim (find_editable_revision token store now reference db) [
        | none ↦ stale_customisation
        | some base ↦ commit_resumed now ttl_seconds token store body ids base db
      ]
    ]
    else invalid_asset_reference

abbrev is_valid_reference : Option String → Bool
is_valid_reference none = true
is_valid_reference (some s) = leb 1 (utf16_length s) && leb (utf16_length s) 100

-- The handler once the request has its context. `before` are the tables that the lookup of the
-- assets sees, `db` those of the transaction, and `aborted` a conflict that the database reports.
unfoldable pub commit_in_context :
    Date → ℕ → Bool → Context → CommitBody → NewIds → Db → Db → CommitResult
commit_in_context now ttl_seconds aborted context body ids before db =
    elim (resolve_design_configuration context.design_version.scene_graph
      context.design_version.customiser_config) [
        | none ↦ render_spec_mismatch
        | some configuration ↦
            if scene_matches_design body.render_spec configuration.scene
              configuration.customiser_config
            then elim (referenced_asset_versions context.store.merchant_id body.render_spec
                configuration.customiser_config before.assets) [
                  | none ↦ invalid_asset_reference
                  | some sources ↦
                      if aborted
                      then stale_customisation
                      else commit_transaction now ttl_seconds context.token context.store
                          context.mapping sources body ids db
                ]
            else render_spec_mismatch
      ]

-- `handleCustomiserCommit`; `access` is what `resolveCustomiserContext` gives.
unfoldable pub handle_customiser_commit :
    Date → ℕ → Bool → Access → CommitBody → NewIds → Db → Db → CommitResult
handle_customiser_commit now ttl_seconds aborted access body ids before db =
    if is_valid_reference body.base_customisation_reference && is_valid_scene body.render_spec
    then elim access [
      | refused e ↦ access_refused e
      | granted context ↦ commit_in_context now ttl_seconds aborted context body ids before db
    ]
    else invalid_body
