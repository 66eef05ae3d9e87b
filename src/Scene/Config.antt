-- ===== src/Scene/Config.antt =====
-- The rules of a design: `customiserConfigSchema`, `customiserConfigMatchesScene` and
-- `defaultCustomiserConfig` of packages/render-schema/src/index.ts.
use personalisation_kings.Base.{
  ℕ, ◌*◌, ◌/◌, min, max, Bool, true, false, not, ◌&&◌, Option, none, some, List, [], ◌∷◌, String,
  leb, ltb, all, any, str_eq, eq_ignoring_case, if◌then◌else◌, length,
}
use personalisation_kings.Scene.Types.{
  SceneLayer, text, image, layer_id, SceneGraph, PrintArea, is_filled, is_hex_colour, are_unique,
}

-- `editableTransformSchema`
pub record EditableTransform : Type 0 where
  pub position : Bool
  pub scale : Bool
  pub rotation : Bool

pub data ContentType : Type 0 where
  image_png image_jpeg image_webp : ContentType

pub record TextRule : Type 0 where
  pub layer_id : String
  pub max_length : ℕ
  pub allowed_colours : List String
  pub allow_font_size : Bool
  pub minimum_font_size_um : ℕ
  pub maximum_font_size_um : ℕ
  pub transform : EditableTransform

pub record ImageRule : Type 0 where
  pub layer_id : String
  pub accepted_content_types : List ContentType
  pub maximum_upload_bytes : ℕ
  pub recommended_dpi : ℕ
  pub transform : EditableTransform

-- `customiserLayerConfigSchema`
pub data LayerRule : Type 0 where
  text_rule : TextRule → LayerRule
  image_rule : ImageRule → LayerRule

abbrev pub rule_layer_id : LayerRule → String
rule_layer_id (text_rule r) = r.layer_id
rule_layer_id (image_rule r) = r.layer_id

abbrev pub is_within : ℕ → ℕ → ℕ → Bool
is_within low high n = leb low n && leb n high

unfoldable pub is_valid_rule : LayerRule → Bool
is_valid_rule (text_rule r) =
    is_filled r.layer_id
    && (is_within 1 500 r.max_length
        && (is_within 1 16 (length r.allowed_colours)
            && (all is_hex_colour r.allowed_colours
                && (ltb 0 r.minimum_font_size_um
                    && (ltb 0 r.maximum_font_size_um
                        && not (ltb r.maximum_font_size_um r.minimum_font_size_um))))))
is_valid_rule (image_rule r) =
    is_filled r.layer_id
    && (ltb 0 (length r.accepted_content_types)
        && (is_within 1 (50 * 1024 * 1024) r.maximum_upload_bytes
            && is_within 72 1200 r.recommended_dpi))

abbrev pub rule_ids : List LayerRule → List String
rule_ids [] = []
rule_ids (r ∷ rs) = rule_layer_id r ∷ rule_ids rs

-- `customiserConfigSchema.safeParse(…).success`; the schema's version is a literal, so a
-- configuration is the list of its rules.
unfoldable pub is_valid_config : List LayerRule → Bool
is_valid_config rules =
    ltb 0 (length rules) && (all is_valid_rule rules && are_unique [] (rule_ids rules))

-- `new Map(rows.map((row) => [key(row), row])).get(id)`: a later row replaces an earlier one.
unfoldable pub map_get {ℓ} : {A : Type ℓ} → (A → String) → String → List A → Option A
map_get key id [] = none
map_get key id (x ∷ xs) = elim (map_get key id xs) [
  | none ↦ if str_eq (key x) id then some x else none
  | some y ↦ some y
]

abbrev pub allows_colour : List String → String → Bool
allows_colour colours fill = any (λ c. eq_ignoring_case c fill) colours

-- What a rule asks of the layer that it names.
unfoldable pub rule_matches_layer : LayerRule → Option SceneLayer → Bool
rule_matches_layer (text_rule r) (some (text l)) =
    allows_colour r.allowed_colours l.fill
    && (leb r.minimum_font_size_um l.font_size_um && leb l.font_size_um r.maximum_font_size_um)
rule_matches_layer (image_rule r) (some (image l)) = true
rule_matches_layer _ _ = false

unfoldable pub customiser_config_matches_scene : List LayerRule → SceneGraph → Bool
unfolding map_get
customiser_config_matches_scene rules scene =
    all (λ r. rule_matches_layer r (map_get layer_id (rule_layer_id r) scene.layers)) rules

abbrev pub longer_edge : PrintArea → ℕ
longer_edge a = max a.width_um a.height_um

abbrev pub every_transform : EditableTransform
every_transform = record { position = true; scale = true; rotation = true }

-- The rule that `defaultCustomiserConfig` gives to a layer.
unfoldable pub default_rule : PrintArea → SceneLayer → LayerRule
default_rule area (text l) = text_rule (record {
  layer_id = l.id;
  max_length = 200;
  allowed_colours = l.fill ∷ [];
  allow_font_size = true;
  minimum_font_size_um = max 1000 (l.font_size_um / 2);
  maximum_font_size_um = min (longer_edge area) (l.font_size_um * 2);
  transform = every_transform;
})
default_rule area (image l) = image_rule (record {
  layer_id = l.id;
  accepted_content_types = image_png ∷ image_jpeg ∷ image_webp ∷ [];
  maximum_upload_bytes = 20 * 1024 * 1024;
  recommended_dpi = 300;
  transform = every_transform;
})

abbrev pub default_rules : PrintArea → List SceneLayer → List LayerRule
default_rules area [] = []
default_rules area (l ∷ ls) = default_rule area l ∷ default_rules area ls

unfoldable pub default_customiser_config : SceneGraph → List LayerRule
default_customiser_config scene = default_rules scene.print_area scene.layers
