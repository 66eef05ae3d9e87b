-- ===== src/Customiser/Assets.antt =====
-- The assets that a scene names: `referencedAssetVersions` and `imageAssetMatchesRule` of
-- apps/api/src/embed.ts.
use personalisation_kings.Base.{
  Bool, true, false, not, ◌&&◌, ◌||◌, ◌==◌, Option, none, some, List, [], ◌∷◌, String, leb, any,
  all, str_eq, is_some, find_first, find_many, length, if◌then◌else◌,
}
use personalisation_kings.Storage.Keys.{
  StorageClass, draft_customisation_asset, order_bound_customer_asset, merchant_design_asset,
  is_object_key_for_tenant,
}
use personalisation_kings.Scene.Types.{SceneLayer, text, image, SceneGraph}
use personalisation_kings.Scene.Config.{
  ContentType, image_png, image_jpeg, image_webp, ImageRule, LayerRule, text_rule, image_rule,
  rule_layer_id, map_get,
}
use personalisation_kings.Customiser.Types.{
  AssetKind, font, artwork, clipart, upload, mockup, AssetVersion,
}

-- An entry of the map `references`.
pub record Reference : Type 0 where
  pub id : String
  pub is_font : Bool

abbrev pub layer_reference : SceneLayer → Reference
layer_reference (text l) = record { id = l.font_asset_version_id; is_font = true }
layer_reference (image l) = record { id = l.asset_version_id; is_font = false }

abbrev pub same_flag : Bool → Bool → Bool
same_flag true b = b
same_flag false b = not b

-- The first loop; `none` when an asset is used both as a font and as an image.
unfoldable pub collect_references : List SceneLayer → List Reference → Option (List Reference)
collect_references [] seen = some seen
collect_references (l ∷ ls) seen =
    let fresh = collect_references ls (layer_reference l ∷ seen) in
    let known = collect_references ls seen in
    elim (find_first (λ (r : Reference). str_eq r.id ((layer_reference l).id)) seen) [
      | none ↦ fresh
      | some r ↦ if same_flag r.is_font ((layer_reference l).is_font) then known else none
    ]

abbrev pub is_image_kind : AssetKind → Bool
is_image_kind artwork = true
is_image_kind clipart = true
is_image_kind upload = true
is_image_kind mockup = true
is_image_kind _ = false

abbrev pub is_font_kind : AssetKind → Bool
is_font_kind font = true
is_font_kind _ = false

abbrev pub is_upload : AssetKind → Bool
is_upload upload = true
is_upload _ = false

abbrev pub allowed_classes : AssetKind → List StorageClass
allowed_classes kind =
    if is_upload kind
    then draft_customisation_asset ∷ order_bound_customer_asset ∷ []
    else merchant_design_asset ∷ []

abbrev pub has_expected_kind : List Reference → AssetVersion → Bool
has_expected_kind references v =
    elim (find_first (λ (r : Reference). str_eq r.id v.id) references) [
      | none ↦ is_image_kind v.kind
      | some r ↦ if r.is_font then is_font_kind v.kind else is_image_kind v.kind
    ]

abbrev pub is_referenced : List Reference → String → Bool
is_referenced references id = any (λ (r : Reference). str_eq r.id id) references

-- `{ merchantId, validationStatus: "accepted", deletedAt: null }`
abbrev pub is_live : String → AssetVersion → Bool
is_live merchant_id v =
    str_eq v.merchant_id merchant_id && (v.is_accepted && not (is_some v.deleted_at))

abbrev pub content_type_name : ContentType → String
content_type_name image_png = "image/png"
content_type_name image_jpeg = "image/jpeg"
content_type_name image_webp = "image/webp"

unfoldable pub image_asset_matches_rule : AssetVersion → ImageRule → Bool
image_asset_matches_rule v rule =
    any (λ t. str_eq (content_type_name t) v.content_type) rule.accepted_content_types
    && (not (is_upload v.kind) || leb v.byte_size rule.maximum_upload_bytes)

-- One round of the last loop.
unfoldable pub layer_asset_matches : List AssetVersion → List LayerRule → SceneLayer → Bool
unfolding image_asset_matches_rule
layer_asset_matches versions rules (text l) = true
layer_asset_matches versions rules (image l) = elim (map_get rule_layer_id l.id rules) [
  | none ↦ true
  | some (text_rule r) ↦ true
  | some (image_rule r) ↦
      elim (find_first (λ (v : AssetVersion). str_eq v.id l.asset_version_id) versions) [
        | none ↦ false
        | some v ↦ image_asset_matches_rule v r
      ]
]

-- `referencedAssetVersions`, with the configuration given, as the handlers give it.
unfoldable pub referenced_asset_versions :
    String → SceneGraph → List LayerRule → List AssetVersion → Option (List AssetVersion)
unfolding collect_references layer_asset_matches
referenced_asset_versions merchant_id scene rules table =
    elim (collect_references scene.layers []) [
      | none ↦ none
      | some references ↦
          let versions =
            find_many (λ (v : AssetVersion). is_referenced references v.id && is_live merchant_id v)
              table in
          if length versions == length references
            && (all
                  (λ (v : AssetVersion).
                    has_expected_kind references v
                    && is_object_key_for_tenant v.object_key merchant_id (allowed_classes v.kind))
                  versions
                && all (layer_asset_matches versions rules) scene.layers)
          then some versions
          else none
    ]
