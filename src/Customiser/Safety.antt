-- ===== src/Customiser/Safety.antt =====
-- What the commit handler lets into the tables, whatever the request, and which mapping serves it.
use mathlib.Core.Path.{subst}
use personalisation_kings.Base.{
  ℕ, ◌≡◌, refl, sym, ap, ◌∙◌, arith, inl, inr, ◌⊎◌, Bool, true, Option, none, some, List, String,
  Memᴰ, opt_str_eq, Bool-cases, Option-cases, find_first-some, find_first-Memᴰ,
}
use personalisation_kings.Scene.Types.{SceneGraph}
use personalisation_kings.Scene.Match.{
  Configuration, resolve_design_configuration, scene_matches_design,
}
use personalisation_kings.Scene.Locks.{restored_layers, scene_matches_design-restored}
use personalisation_kings.Customiser.Types.{
  Date, Store, EmbedToken, ProductMapping, Context, AssetVersion, CustomisationSession,
  CustomisationRevision, Db,
}
use personalisation_kings.Customiser.Access.{
  Access, granted, refused, requested_variant, first_of_variant, choose_product_mapping,
}
use personalisation_kings.Customiser.Assets.{referenced_asset_versions}
use personalisation_kings.Customiser.Commit.{
  CommitBody, NewIds, committed, commit_new, commit_transaction, commit_in_context,
  handle_customiser_commit,
}
use personalisation_kings.Customiser.Supersede.{commit_transaction-cases}

-- A design's configuration that a scene was accepted for.
pub record IsAccepted (context : Context) (scene : SceneGraph) : Type 0 where
  pub configuration : Configuration
  pub resolved :
      resolve_design_configuration context.design_version.scene_graph
        context.design_version.customiser_config
      ≡ some configuration
  pub unlocked :
      restored_layers configuration.customiser_config scene.layers configuration.scene.layers
      ≡ configuration.scene.layers

module _ (now : Date) (ttl_seconds : ℕ) (aborted : Bool) (body : CommitBody) (ids : NewIds)
    (before db : Db) where
  commit_transaction-scene :
      (token : EmbedToken) (store : Store) (mapping : ProductMapping) (sources : List AssetVersion)
      {s : CustomisationSession} {r : CustomisationRevision} {resumed : Bool} {db' : Db}
      → commit_transaction now ttl_seconds token store mapping sources body ids db
        ≡ committed s r resumed db'
      → r.render_spec ≡ body.render_spec
  unfolding commit_new
  commit_transaction-scene token store mapping sources h =
      elim (commit_transaction-cases now ttl_seconds token store body ids db mapping sources h) [
        | inl (first, c) ↦ ground arith
        | inr (reference, base, again, e, c) ↦ ground (arith, c.creates)
      ]

  commit_in_context-IsAccepted :
      (context : Context) {s : CustomisationSession} {r : CustomisationRevision} {resumed : Bool}
      {db' : Db}
      → commit_in_context now ttl_seconds aborted context body ids before db
        ≡ committed s r resumed db'
      → IsAccepted context r.render_spec
  unfolding commit_in_context
  commit_in_context-IsAccepted context {s} {r} {resumed} {db'} h =
      elim (Option-cases (
        resolve_design_configuration context.design_version.scene_graph
          context.design_version.customiser_config)) [
            | inl invalid ↦ absurd (ground arith)
            | inr (c, resolved) ↦
                elim (Bool-cases
                  (scene_matches_design body.render_spec c.scene c.customiser_config)) [
                    | inr f ↦ absurd (ground arith)
                    | inl t ↦
                        elim (Option-cases (
                          referenced_asset_versions context.store.merchant_id body.render_spec
                            c.customiser_config before.assets)) [
                              | inl missing ↦ absurd (ground arith)
                              | inr (sources, present) ↦
                                  let ran : commit_transaction now ttl_seconds context.token
                                        context.store context.mapping sources body ids db
                                      ≡ committed s r resumed db' =
                                    ground arith in
                                  let stored =
                                    commit_transaction-scene context.token context.store
                                      context.mapping sources ran in
                                  subst (IsAccepted context) (sym stored) (record {
                                    configuration = c;
                                    resolved = resolved;
                                    unlocked =
                                        (scene_matches_design-restored body.render_spec c.scene
                                          c.customiser_config t).1;
                                  })
                            ]
                  ]
          ]

  -- A revision that the commit handler stores was made with access, and it is the scene of the
  -- design that is current for its context, but for the fields that the design's rules leave open:
  -- put back, they give the design's layers.
  pub handle_customiser_commit-IsAccepted :
      (access : Access) {s : CustomisationSession} {r : CustomisationRevision} {resumed : Bool}
      {db' : Db}
      → handle_customiser_commit now ttl_seconds aborted access body ids before db
        ≡ committed s r resumed db'
      → (context : Context) × (access ≡ granted context) × IsAccepted context r.render_spec
  unfolding handle_customiser_commit
  handle_customiser_commit-IsAccepted (refused e) h = absurd (ground arith)
  handle_customiser_commit-IsAccepted (granted context) {s} {r} {resumed} {db'} h =
      let ran : commit_in_context now ttl_seconds aborted context body ids before db
          ≡ committed s r resumed db' =
        ground arith in
      (context, refl, commit_in_context-IsAccepted context ran)

-- The mapping that is chosen for a product is one of those that were found, it is active, and it
-- is for the requested variant, or else for all variants when no mapping is for that variant. So
-- an inactive mapping of a variant hides the one of all variants.
pub choose_product_mapping-IsActive :
    (mappings : List ProductMapping) (variant : Option String) {m : ProductMapping}
    → choose_product_mapping mappings variant ≡ some m
    → Memᴰ m mappings
      × (m.active ≡ true)
      × ((opt_str_eq m.external_variant_id (requested_variant variant) ≡ true)
          ⊎ ((opt_str_eq m.external_variant_id none ≡ true)
              × (first_of_variant (requested_variant variant) mappings ≡ none)))
unfolding choose_product_mapping
choose_product_mapping-IsActive mappings variant {m} h =
    elim (Option-cases (first_of_variant (requested_variant variant) mappings)) [
      | inr (x, exact) ↦
          let same : x ≡ m = ground arith in
          let found = exact ∙ ap (λ z. some z) same in
          (find_first-Memᴰ _ mappings found, ground arith, inl (find_first-some _ mappings found))
      | inl unmapped ↦ elim (Option-cases (first_of_variant none mappings)) [
        | inl nothing ↦ absurd (ground arith)
        | inr (x, every) ↦
            let same : x ≡ m = ground arith in
            let found = every ∙ ap (λ z. some z) same in
            (
              find_first-Memᴰ _ mappings found,
              ground arith,
              inr (find_first-some _ mappings found, unmapped),
            )
      ]
    ]
