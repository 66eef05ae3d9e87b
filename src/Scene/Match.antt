-- ===== src/Scene/Match.antt =====
-- The test of a customer's scene against its design: `sceneMatchesDesign`, its helpers and
-- `resolveDesignConfiguration` of apps/api/src/embed.ts.
use personalisation_kings.Base.{
  ℕ, ◌*◌, Bool, true, false, not, ◌&&◌, ◌||◌, ◌==◌, Option, none, some, List, [], ◌∷◌, leb, ltb,
  all, str_eq, if◌then◌else◌, length, utf16_length, ℤ, pos, neg, absℤ, ltbℤ, eqℤ,
}
use personalisation_kings.Scene.Types.{
  Transform, TextLayer, SceneLayer, text, image, layer_id, layer_name, PrintArea, SceneGraph,
  is_valid_scene,
}
use personalisation_kings.Scene.Config.{
  EditableTransform, TextRule, LayerRule, text_rule, image_rule, rule_layer_id, is_valid_config,
  map_get, allows_colour, customiser_config_matches_scene, longer_edge, default_customiser_config,
}

abbrev pub same_position : Transform → Transform → Bool
same_position t u = eqℤ t.translate_x_um u.translate_x_um && eqℤ t.translate_y_um u.translate_y_um

abbrev pub same_scale : Transform → Transform → Bool
same_scale t u =
    t.scale_x_permille == u.scale_x_permille && t.scale_y_permille == u.scale_y_permille

abbrev pub same_rotation : Transform → Transform → Bool
same_rotation t u = eqℤ t.rotation_milli_degrees u.rotation_milli_degrees

unfoldable pub transform_matches_rule : Transform → Transform → EditableTransform → Bool
transform_matches_rule t template rule =
    (rule.position || same_position t template)
    && ((rule.scale || same_scale t template) && (rule.rotation || same_rotation t template))

abbrev pub same_transform : Transform → Transform → Bool
same_transform t u = same_position t u && (same_scale t u && same_rotation t u)

-- `layersEqual`: layers that the schema has read have their fields in one order, so their JSON is
-- the same when their fields are.
unfoldable pub layers_equal : SceneLayer → SceneLayer → Bool
layers_equal (text l) (text m) =
    str_eq l.id m.id
    && (str_eq l.name m.name
        && (same_transform l.transform m.transform
            && (str_eq l.text m.text
                && (str_eq l.font_asset_version_id m.font_asset_version_id
                    && (l.font_size_um == m.font_size_um
                        && (str_eq l.fill m.fill && l.opacity_permille == m.opacity_permille))))))
layers_equal (image l) (image m) =
    str_eq l.id m.id
    && (str_eq l.name m.name
        && (same_transform l.transform m.transform
            && (str_eq l.asset_version_id m.asset_version_id
                && (l.width_um == m.width_um
                    && (l.height_um == m.height_um && l.opacity_permille == m.opacity_permille)))))
layers_equal _ _ = false

abbrev pub is_inside : ℕ → ℤ → Bool
is_inside edge n = not (ltbℤ n (neg edge)) && not (ltbℤ (pos (edge * 2)) n)

abbrev pub is_scale : ℕ → Bool
is_scale n = not (ltb n 100) && not (ltb 5000 n)

abbrev pub transform_within_bounds : PrintArea → Transform → Bool
transform_within_bounds area t =
    is_inside area.width_um t.translate_x_um
    && (is_inside area.height_um t.translate_y_um
        && (is_scale t.scale_x_permille
            && (is_scale t.scale_y_permille && not (ltb 360000 (absℤ t.rotation_milli_degrees)))))

unfoldable pub layer_within_bounds : PrintArea → SceneLayer → Bool
layer_within_bounds area (text l) =
    transform_within_bounds area l.transform
    && (leb (utf16_length l.text) 200
        && (leb 1000 l.font_size_um && leb l.font_size_um (longer_edge area)))
layer_within_bounds area (image l) = transform_within_bounds area l.transform

unfoldable pub scene_values_within_bounds : SceneGraph → Bool
scene_values_within_bounds scene = all (layer_within_bounds scene.print_area) scene.layers

abbrev pub size_matches_rule : TextRule → TextLayer → TextLayer → Bool
size_matches_rule r l t =
    if r.allow_font_size
    then leb r.minimum_font_size_um l.font_size_um && leb l.font_size_um r.maximum_font_size_um
    else l.font_size_um == t.font_size_um

-- A layer against its template, under the rule that names it.
unfoldable pub layer_matches_rule : LayerRule → SceneLayer → SceneLayer → Bool
layer_matches_rule (text_rule r) (text l) (text t) =
    transform_matches_rule l.transform t.transform r.transform
    && (str_eq l.font_asset_version_id t.font_asset_version_id
        && (l.opacity_permille == t.opacity_permille
            && (leb (utf16_length l.text) r.max_length
                && (allows_colour r.allowed_colours l.fill && size_matches_rule r l t))))
layer_matches_rule (image_rule r) (image l) (image t) =
    transform_matches_rule l.transform t.transform r.transform
    && (l.width_um == t.width_um
        && (l.height_um == t.height_um && l.opacity_permille == t.opacity_permille))
layer_matches_rule _ _ _ = false

abbrev pub same_type : SceneLayer → SceneLayer → Bool
same_type (text l) (text m) = true
same_type (image l) (image m) = true
same_type _ _ = false

unfoldable pub layer_matches_template : Option LayerRule → SceneLayer → SceneLayer → Bool
layer_matches_template rule l t =
    str_eq (layer_id l) (layer_id t)
    && (same_type l t
        && (str_eq (layer_name l) (layer_name t)
            && elim rule [ none ↦ layers_equal l t | some r ↦ layer_matches_rule r l t ]))

-- `scene.layers.every(…)`: each layer against the one at its index.
unfoldable pub layers_match : List LayerRule → List SceneLayer → List SceneLayer → Bool
unfolding map_get
layers_match rules [] templates = true
layers_match rules (l ∷ ls) [] = false
layers_match rules (l ∷ ls) (t ∷ ts) =
    layer_matches_template (map_get rule_layer_id (layer_id l) rules) l t
    && layers_match rules ls ts

unfoldable pub scene_matches_design : SceneGraph → SceneGraph → List LayerRule → Bool
scene_matches_design scene design rules =
    scene.print_area.width_um == design.print_area.width_um
    && (scene.print_area.height_um == design.print_area.height_um
        && (length scene.layers == length design.layers
            && (scene_values_within_bounds scene
                && (customiser_config_matches_scene rules design
                    && layers_match rules scene.layers design.layers))))

pub record Configuration : Type 0 where
  pub scene : SceneGraph
  pub customiser_config : List LayerRule

-- `resolveDesignConfiguration`, on a stored scene and configuration of the schemas' shape.
unfoldable pub resolve_design_configuration :
    SceneGraph → Option (List LayerRule) → Option Configuration
resolve_design_configuration scene stored =
    if is_valid_scene scene
    then elim stored [
      | none ↦ checked (default_customiser_config scene) true
      | some rules ↦ checked rules (is_valid_config rules)
    ]
    else none
  where
    checked : List LayerRule → Bool → Option Configuration
    checked rules valid =
        if valid && customiser_config_matches_scene rules scene
        then some (record { scene = scene; customiser_config = rules })
        else none
