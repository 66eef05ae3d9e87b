-- ===== src/Scene/Examples.antt =====
-- Concrete scenes: a mug with a text and an image, and what a customer made of it.
use personalisation_kings.Base.{
  utf16_length, eq_ignoring_case, ◌≡◌, refl, true, false, List, [], ◌∷◌, all, pos, negsuc,
}
use personalisation_kings.Scene.Types.{
  Transform, TextLayer, ImageLayer, text, image, SceneGraph, is_valid_scene, is_valid_layer,
  is_hex_colour, are_unique,
}
use personalisation_kings.Scene.Config.{
  LayerRule, text_rule, rule_matches_layer, map_get, customiser_config_matches_scene, default_rule,
  default_customiser_config,
}
use personalisation_kings.Scene.Match.{
  transform_matches_rule, layers_equal, layer_within_bounds, scene_values_within_bounds,
  layer_matches_rule, layer_matches_template, layers_match, scene_matches_design,
}
use personalisation_kings.Scene.Locks.{restored, restored_layers, scene_matches_design-restored}
use personalisation_kings.Scene.Default.{
  font_fits, default_customiser_config-matches, scene_matches_design_self,
}

abbrev at_origin : Transform
at_origin = record {
  translate_x_um = pos 0;
  translate_y_um = pos 0;
  scale_x_permille = 1000;
  scale_y_permille = 1000;
  rotation_milli_degrees = pos 0;
}

abbrev greeting : TextLayer
greeting = record {
  id = "t";
  name = "Greeting";
  transform = at_origin;
  text = "Hello";
  font_asset_version_id = "font";
  font_size_um = 8000;
  fill = "#AA0000";
  opacity_permille = 1000;
}

abbrev photo : ImageLayer
photo = record {
  id = "p";
  name = "Photo";
  transform = at_origin;
  asset_version_id = "sample";
  width_um = 20000;
  height_um = 10000;
  opacity_permille = 900;
}

abbrev pub mug : SceneGraph
mug = record {
  print_area = record { width_um = 90000; height_um = 40000 };
  layers = text greeting ∷ image photo ∷ [];
}

-- The text may change and move; the photo has no rule.
abbrev pub mug_rules : List LayerRule
mug_rules =
    text_rule (record {
      layer_id = "t";
      max_length = 20;
      allowed_colours = "#aa0000" ∷ "#00aa00" ∷ [];
      allow_font_size = false;
      minimum_font_size_um = 1000;
      maximum_font_size_um = 9000;
      transform = record { position = true; scale = false; rotation = false };
    })
    ∷ []

abbrev pub personal_mug : SceneGraph
personal_mug = record mug {
  layers =
      text (record greeting {
        text = "Dear Ann";
        fill = "#00AA00";
        transform = record at_origin { translate_x_um = negsuc 499 };
      })
      ∷ image photo
      ∷ [];
}

matching : Unit {0}
unfolding utf16_length eq_ignoring_case is_valid_scene is_valid_layer is_hex_colour are_unique
    rule_matches_layer map_get customiser_config_matches_scene default_rule
    default_customiser_config transform_matches_rule layers_equal layer_within_bounds
    scene_values_within_bounds layer_matches_rule layer_matches_template layers_match
    scene_matches_design restored
matching = tt

scene_matches_design-restored_example :
    (personal_mug.print_area ≡ mug.print_area)
    × (restored_layers mug_rules personal_mug.layers mug.layers ≡ mug.layers)
unfolding matching
scene_matches_design-restored_example =
    scene_matches_design-restored personal_mug mug mug_rules refl

default_customiser_config-matches_example :
    customiser_config_matches_scene (default_customiser_config mug) mug
    ≡ all (font_fits mug.print_area) mug.layers
unfolding matching
default_customiser_config-matches_example = default_customiser_config-matches mug refl

scene_matches_design_self_example :
    scene_matches_design mug mug (default_customiser_config mug) ≡ scene_values_within_bounds mug
unfolding matching
scene_matches_design_self_example = scene_matches_design_self mug refl

-- A text in small print: the schema accepts the scene, and its own default rules refuse it.
abbrev small_print : SceneGraph
small_print = record mug { layers = text (record greeting { font_size_um = 900 }) ∷ [] }

small_print_is_valid : is_valid_scene small_print ≡ true
unfolding matching
small_print_is_valid = refl

small_print_is_refused :
    customiser_config_matches_scene (default_customiser_config small_print) small_print ≡ false
unfolding matching
small_print_is_refused = refl

-- The photo is locked, so another one is refused.
other_photo_is_refused :
    scene_matches_design
      (record mug {
        layers = text greeting ∷ image (record photo { asset_version_id = "other" }) ∷ [];
      })
      mug
      mug_rules
    ≡ false
unfolding matching
other_photo_is_refused = refl
