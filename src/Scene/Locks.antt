-- ===== src/Scene/Locks.antt =====
-- What a customer cannot change: a scene that passes `sceneMatchesDesign` is its design once the
-- fields that the rules leave open are put back.
use personalisation_kings.Base.{
  ◌≡◌, refl, arith, true, Option, none, some, List, [], ◌∷◌, if◌then◌else◌, length, ==_iff,
  str_eq_iff, eqℤ_sound, &&-true,
}
use personalisation_kings.Scene.Types.{
  Transform, SceneLayer, text, image, layer_id, layer_name, SceneGraph,
}
use personalisation_kings.Scene.Config.{
  EditableTransform, LayerRule, text_rule, image_rule, rule_layer_id, map_get,
}
use personalisation_kings.Scene.Match.{
  transform_matches_rule, same_transform, layers_equal, layer_matches_rule, layer_matches_template,
  layers_match, scene_matches_design,
}

abbrev restored_transform : EditableTransform → Transform → Transform → Transform
restored_transform rule t template = record {
  translate_x_um = if rule.position then template.translate_x_um else t.translate_x_um;
  translate_y_um = if rule.position then template.translate_y_um else t.translate_y_um;
  scale_x_permille = if rule.scale then template.scale_x_permille else t.scale_x_permille;
  scale_y_permille = if rule.scale then template.scale_y_permille else t.scale_y_permille;
  rotation_milli_degrees =
      if rule.rotation then template.rotation_milli_degrees else t.rotation_milli_degrees;
}

-- A layer with the fields that its rule leaves open taken from the template.
unfoldable pub restored : Option LayerRule → SceneLayer → SceneLayer → SceneLayer
restored (some (text_rule r)) (text l) (text t) = text (record l {
  text = t.text;
  fill = t.fill;
  font_size_um = if r.allow_font_size then t.font_size_um else l.font_size_um;
  transform = restored_transform r.transform l.transform t.transform;
})
restored (some (image_rule r)) (image l) (image t) = image (record l {
  asset_version_id = t.asset_version_id;
  transform = restored_transform r.transform l.transform t.transform;
})
restored _ l t = l

abbrev pub restored_layers : List LayerRule → List SceneLayer → List SceneLayer → List SceneLayer
restored_layers rules (l ∷ ls) (t ∷ ts) =
    restored (map_get rule_layer_id (layer_id l) rules) l t ∷ restored_layers rules ls ts
restored_layers rules ls ts = ls

restored_transform_lem :
    (rule : EditableTransform) (t template : Transform)
    → transform_matches_rule t template rule ≡ true
    → restored_transform rule t template ≡ template
unfolding transform_matches_rule
restored_transform_lem rule t template h = ground (
  arith,
  eqℤ_sound t.translate_x_um template.translate_x_um,
  eqℤ_sound t.translate_y_um template.translate_y_um,
  eqℤ_sound t.rotation_milli_degrees template.rotation_milli_degrees,
)

same_transform_sound : (t u : Transform) → same_transform t u ≡ true → t ≡ u
same_transform_sound t u h = ground (
  arith,
  eqℤ_sound t.translate_x_um u.translate_x_um,
  eqℤ_sound t.translate_y_um u.translate_y_um,
  eqℤ_sound t.rotation_milli_degrees u.rotation_milli_degrees,
)

layers_equal_sound : (l m : SceneLayer) → layers_equal l m ≡ true → l ≡ m
unfolding layers_equal
layers_equal_sound (text l) (text m) h = ground (
  arith,
  (str_eq_iff l.id m.id).0,
  (str_eq_iff l.name m.name).0,
  (str_eq_iff l.text m.text).0,
  (str_eq_iff l.font_asset_version_id m.font_asset_version_id).0,
  (str_eq_iff l.fill m.fill).0,
  same_transform_sound l.transform m.transform,
)
layers_equal_sound (image l) (image m) h = ground (
  arith,
  (str_eq_iff l.id m.id).0,
  (str_eq_iff l.name m.name).0,
  (str_eq_iff l.asset_version_id m.asset_version_id).0,
  same_transform_sound l.transform m.transform,
)
layers_equal_sound (text l) (image m) h = absurd (ground arith)
layers_equal_sound (image l) (text m) h = absurd (ground arith)

layer_matches_rule-restored :
    (r : LayerRule) (l t : SceneLayer)
    → layer_id l ≡ layer_id t
    → layer_name l ≡ layer_name t
    → layer_matches_rule r l t ≡ true
    → restored (some r) l t ≡ t
unfolding layer_matches_rule restored
layer_matches_rule-restored (text_rule r) (text l) (text t) ids names h = ground (
  arith,
  (str_eq_iff l.font_asset_version_id t.font_asset_version_id).0,
  restored_transform_lem r.transform l.transform t.transform,
)
layer_matches_rule-restored (image_rule r) (image l) (image t) ids names h =
    ground (arith, restored_transform_lem r.transform l.transform t.transform)
layer_matches_rule-restored (text_rule r) (text l) (image t) ids names h = absurd (ground arith)
layer_matches_rule-restored (text_rule r) (image l) t ids names h = absurd (ground arith)
layer_matches_rule-restored (image_rule r) (text l) t ids names h = absurd (ground arith)
layer_matches_rule-restored (image_rule r) (image l) (text t) ids names h = absurd (ground arith)

layer_matches_template-restored :
    (rule : Option LayerRule) (l t : SceneLayer)
    → layer_matches_template rule l t ≡ true
    → restored rule l t ≡ t
unfolding layer_matches_template restored
layer_matches_template-restored none l t h = layers_equal_sound l t (ground arith)
layer_matches_template-restored (some r) l t h =
    let (ids, h₁) = &&-true _ _ h in
    let (types, h₂) = &&-true _ _ h₁ in
    let (names, h₃) = &&-true _ _ h₂ in
    layer_matches_rule-restored r l t ((str_eq_iff _ _).0 ids) ((str_eq_iff _ _).0 names) h₃

layers_match-restored :
    (rules : List LayerRule) (ls ts : List SceneLayer)
    → length ls ≡ length ts
    → layers_match rules ls ts ≡ true
    → restored_layers rules ls ts ≡ ts
unfolding layers_match
layers_match-restored rules [] [] e h = refl
layers_match-restored rules [] (t ∷ ts) e h = absurd (ground arith)
layers_match-restored rules (l ∷ ls) [] e h = absurd (ground arith)
layers_match-restored rules (l ∷ ls) (t ∷ ts) e h =
    let (here, there) = &&-true _ _ h in
    λ i.
      layer_matches_template-restored (map_get rule_layer_id (layer_id l) rules) l t here i
      ∷ layers_match-restored rules ls ts (ground arith) there i

-- A scene that is accepted for a design has the design's print area, and it is the design once the
-- fields that the rules leave open are put back: text, colour, size where the rule allows it, the
-- image, and the parts of the transform that the rule allows. A layer without a rule is unchanged.
pub scene_matches_design-restored :
    (scene design : SceneGraph) (rules : List LayerRule)
    → scene_matches_design scene design rules ≡ true
    → (scene.print_area ≡ design.print_area)
      × (restored_layers rules scene.layers design.layers ≡ design.layers)
unfolding scene_matches_design
scene_matches_design-restored scene design rules h =
    let (widths, h₁) = &&-true _ _ h in
    let (heights, h₂) = &&-true _ _ h₁ in
    let (lengths, h₃) = &&-true _ _ h₂ in
    let (bounds, h₄) = &&-true _ _ h₃ in
    let (fits, layers) = &&-true _ _ h₄ in
    (
      (λ i. record { width_um = (==_iff _ _).0 widths i; height_um = (==_iff _ _).0 heights i }),
      layers_match-restored rules scene.layers design.layers ((==_iff _ _).0 lengths) layers,
    )
