-- ===== src/Customiser/Examples.antt =====
-- Concrete requests of the customiser: a first commit, a second one on it, and the mappings of a
-- product.
use personalisation_kings.Base.{
  utf16_length, eq_ignoring_case, ◌≡◌, refl, ◌⊎◌, true, false, none, some, [], ◌∷◌, String, Memᴰ,
  sym, ◌∙◌, arith, opt_str_eq,
}
use personalisation_kings.Connector.Types.{ConnectionStatus}
use personalisation_kings.Scene.Types.{is_valid_scene, is_valid_layer, is_hex_colour, are_unique}
use personalisation_kings.Scene.Config.{
  rule_matches_layer, map_get, customiser_config_matches_scene, is_valid_config, is_valid_rule,
}
use personalisation_kings.Scene.Match.{
  transform_matches_rule, layers_equal, layer_within_bounds, scene_values_within_bounds,
  layer_matches_rule, layer_matches_template, layers_match, scene_matches_design,
  resolve_design_configuration,
}
use personalisation_kings.Scene.Examples.{mug, mug_rules, personal_mug}
use personalisation_kings.Storage.Keys.{
  is_object_key_for_tenant, key_segments, is_safe_segment, all_key_chars, is_key_char,
  is_alphanumeric, split_slash, three_segments, includes_char,
}
use personalisation_kings.Customiser.Types.{
  Store, DesignVersion, Design, ProductMapping, EmbedToken, Context, AssetKind, AssetVersion,
  CustomisationSession, CustomisationRevision, Db,
}
use personalisation_kings.Customiser.Access.{
  granted, requested_variant, first_of_variant, choose_product_mapping,
}
use personalisation_kings.Customiser.Revisions.{
  is_opaque_customisation_reference, latest_revision, revision_can_resume, find_editable_revision,
}
use personalisation_kings.Customiser.Assets.{
  collect_references, layer_asset_matches, image_asset_matches_rule, referenced_asset_versions,
}
use personalisation_kings.Customiser.Commit.{
  CommitBody, NewIds, recommitted, new_session, new_revision, append_revision, create_session,
  update_session, commit_new, commit_resumed, commit_transaction, commit_in_context,
  handle_customiser_commit,
}
use personalisation_kings.Customiser.History.{IsKeyedByText, IsFresh}
use personalisation_kings.Customiser.Supersede.{commit_transaction-supersedes}
use personalisation_kings.Customiser.Resume.{commit_transaction-resumable}
use personalisation_kings.Customiser.Safety.{
  IsAccepted, handle_customiser_commit-IsAccepted, choose_product_mapping-IsActive,
}

abbrev store : Store
store = record {
  id = "shop";
  merchant_id = "kings";
  url = "https://shop.example/";
  connection_status = ConnectionStatus.connected;
}

abbrev version : DesignVersion
version = record { id = "v1"; scene_graph = mug; customiser_config = some mug_rules }

abbrev design : Design
design = record { current_version_id = some "v1"; current_version = some version }

abbrev mapping : ProductMapping
mapping = record {
  store_id = "shop";
  external_product_id = "12";
  external_variant_id = none;
  external_variant_key = "";
  design_id = "mug";
  active = true;
  store = store;
  design = design;
}

abbrev red_mapping : ProductMapping
red_mapping = record mapping {
  external_variant_id = some "red";
  external_variant_key = "red";
  active = false;
}

abbrev token : EmbedToken
token = record {
  store_id = "shop";
  allowed_origin = "https://shop.example";
  external_product_id = "12";
  external_variant_id = some "blue";
  design_id = "mug";
  design_version_id = "v1";
}

abbrev context : Context
context = record {
  token = token;
  store = store;
  mapping = mapping;
  design = design;
  design_version = version;
}

abbrev asset : String → AssetKind → AssetVersion
asset id kind = record {
  id = id;
  merchant_id = "kings";
  kind = kind;
  object_key = "merchant_design_asset/kings/x1";
  content_type = "image/png";
  byte_size = 1000;
  is_accepted = true;
  deleted_at = none;
}

abbrev first_body : CommitBody
first_body = record {
  base_customisation_reference = none;
  customer_inputs = "{}";
  render_spec = personal_mug;
}

abbrev first_ids : NewIds
first_ids = record {
  session_id = "s1";
  revision_id = "r1";
  reference = "pk_0a1b2c3d-0000-4000-8000-000000000001";
}

abbrev second_body : CommitBody
second_body = record first_body { base_customisation_reference = some first_ids.reference }

abbrev second_ids : NewIds
second_ids = record {
  session_id = "s2";
  revision_id = "r2";
  reference = "pk_0a1b2c3d-0000-4000-8000-000000000002";
}

abbrev tables : Db
tables = record {
  assets = asset "font" AssetKind.font ∷ asset "sample" AssetKind.artwork ∷ [];
  sessions = [];
  revisions = [];
  line_items = [];
}

abbrev first_session : CustomisationSession
first_session = new_session 5000 86400 token store mapping first_body "s1"

abbrev first_revision : CustomisationRevision
first_revision = new_revision token store first_body first_ids "s1" 1

abbrev first_tables : Db
first_tables = append_revision first_revision (create_session first_session tables)

abbrev second_revision : CustomisationRevision
second_revision = new_revision token store second_body second_ids "s1" 2

abbrev second_tables : Db
second_tables =
    append_revision second_revision
      (update_session "s1" (recommitted 9000 86400 second_body) first_tables)

committing : Unit {0}
unfolding utf16_length eq_ignoring_case is_valid_scene is_valid_layer is_hex_colour are_unique
    rule_matches_layer map_get customiser_config_matches_scene is_valid_config is_valid_rule
    transform_matches_rule layers_equal layer_within_bounds scene_values_within_bounds
    layer_matches_rule layer_matches_template layers_match scene_matches_design
    resolve_design_configuration is_object_key_for_tenant key_segments is_safe_segment all_key_chars
    is_key_char is_alphanumeric split_slash three_segments includes_char requested_variant
    choose_product_mapping is_opaque_customisation_reference latest_revision revision_can_resume
    find_editable_revision collect_references layer_asset_matches image_asset_matches_rule
    referenced_asset_versions commit_new commit_resumed commit_transaction commit_in_context
    handle_customiser_commit
committing = tt

first_tables-IsKeyedByText : IsKeyedByText first_tables
first_tables-IsKeyedByText a b (Memᴰ.head e) (Memᴰ.head f) same = e ∙ sym f
first_tables-IsKeyedByText a b (Memᴰ.tail m) n same = elim m [ ]
first_tables-IsKeyedByText a b (Memᴰ.head e) (Memᴰ.tail n) same = elim n [ ]

second_ids-IsFresh : IsFresh second_ids first_tables
unfolding committing
second_ids-IsFresh = record {
  session = refl;
  no_revision = refl;
  revision = refl;
  no_line_item = refl;
  reference = refl;
  shaped = refl;
}

commit_transaction-supersedes_example :
    find_editable_revision token store 9001 first_ids.reference second_tables ≡ none
unfolding committing
commit_transaction-supersedes_example =
    commit_transaction-supersedes 9000 86400 token store second_body second_ids first_tables mapping
      tables.assets token store 9001 first_tables-IsKeyedByText second_ids-IsFresh refl refl

commit_transaction-resumable_example :
    find_editable_revision token store 9001 second_ids.reference second_tables
    ≡ some second_revision
unfolding committing
commit_transaction-resumable_example =
    commit_transaction-resumable 9000 86400 token store second_body second_ids first_tables mapping
      tables.assets 9001 first_tables-IsKeyedByText second_ids-IsFresh refl (omega arith) refl

handle_customiser_commit-IsAccepted_example :
    (c : Context) × (granted context ≡ granted c) × IsAccepted c personal_mug
unfolding committing
handle_customiser_commit-IsAccepted_example =
    handle_customiser_commit-IsAccepted 5000 86400 false first_body first_ids tables tables
      (granted context) {s = first_session} {r = first_revision} {resumed = false}
      {db' = first_tables} refl

choose_product_mapping-IsActive_example :
    Memᴰ mapping (red_mapping ∷ mapping ∷ [])
    × (mapping.active ≡ true)
    × ((opt_str_eq mapping.external_variant_id (requested_variant (some "blue")) ≡ true)
        ⊎ ((opt_str_eq mapping.external_variant_id none ≡ true)
            × (first_of_variant (requested_variant (some "blue")) (red_mapping ∷ mapping ∷ [])
                ≡ none)))
unfolding committing
choose_product_mapping-IsActive_example =
    choose_product_mapping-IsActive (red_mapping ∷ mapping ∷ []) (some "blue") refl

-- The inactive mapping of the red variant hides the one of all variants.
red_variant_is_unmapped : choose_product_mapping (red_mapping ∷ mapping ∷ []) (some "red") ≡ none
unfolding committing
red_variant_is_unmapped = refl
