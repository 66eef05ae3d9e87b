-- ===== src/Scene/Types.antt =====
-- Scene graphs: the schemas of packages/render-schema/src/index.ts on values of their shape, with
-- defaults filled in. The two literal fields of a scene have one value each and are left out.
use Prim.Native.Char.{code}
use personalisation_kings.Base.{
  ℕ, Bool, true, false, not, ◌&&◌, ◌||◌, ◌==◌, List, [], ◌∷◌, String, leb, ltb, all, any, ℤ, str_eq,
  utf16_length,
}

-- `transformSchema`
pub record Transform : Type 0 where
  pub translate_x_um : ℤ
  pub translate_y_um : ℤ
  pub scale_x_permille : ℕ
  pub scale_y_permille : ℕ
  pub rotation_milli_degrees : ℤ

pub record TextLayer : Type 0 where
  pub id : String
  pub name : String
  pub transform : Transform
  pub text : String
  pub font_asset_version_id : String
  pub font_size_um : ℕ
  pub fill : String
  pub opacity_permille : ℕ

pub record ImageLayer : Type 0 where
  pub id : String
  pub name : String
  pub transform : Transform
  pub asset_version_id : String
  pub width_um : ℕ
  pub height_um : ℕ
  pub opacity_permille : ℕ

-- `sceneLayerSchema`
pub data SceneLayer : Type 0 where
  text : TextLayer → SceneLayer
  image : ImageLayer → SceneLayer

abbrev pub layer_id : SceneLayer → String
layer_id (text l) = l.id
layer_id (image l) = l.id

abbrev pub layer_name : SceneLayer → String
layer_name (text l) = l.name
layer_name (image l) = l.name

abbrev pub layer_transform : SceneLayer → Transform
layer_transform (text l) = l.transform
layer_transform (image l) = l.transform

pub record PrintArea : Type 0 where
  pub width_um : ℕ
  pub height_um : ℕ

pub record SceneGraph : Type 0 where
  pub print_area : PrintArea
  pub layers : List SceneLayer

-- `z.string().min(1)`
abbrev pub is_filled : String → Bool
is_filled s = leb 1 (utf16_length s)

-- `[0-9a-fA-F]`
abbrev pub is_hex_digit : ℕ → Bool
is_hex_digit c =
    (leb b'0' c && leb c b'9') || ((leb b'a' c && leb c b'f') || (leb b'A' c && leb c b'F'))

-- `hexColourSchema`
unfoldable pub is_hex_colour : String → Bool
is_hex_colour String.[] = false
is_hex_colour (String.◌∷◌ c s) = code c == b'#' && (utf16_length s == 6 && all_hex s)
  where
    all_hex : String → Bool
    all_hex String.[] = true
    all_hex (String.◌∷◌ d t) = is_hex_digit (code d) && all_hex t

abbrev pub is_valid_transform : Transform → Bool
is_valid_transform t = ltb 0 t.scale_x_permille && ltb 0 t.scale_y_permille

unfoldable pub is_valid_layer : SceneLayer → Bool
is_valid_layer (text l) =
    is_filled l.id
    && (is_filled l.name
        && (is_valid_transform l.transform
            && (is_filled l.font_asset_version_id
                && (ltb 0 l.font_size_um
                    && (is_hex_colour l.fill && leb l.opacity_permille 1000)))))
is_valid_layer (image l) =
    is_filled l.id
    && (is_filled l.name
        && (is_valid_transform l.transform
            && (is_filled l.asset_version_id
                && (ltb 0 l.width_um && (ltb 0 l.height_um && leb l.opacity_permille 1000)))))

-- The refinement of both schemas: no id is in the set when its row is reached.
unfoldable pub are_unique : List String → List String → Bool
are_unique seen [] = true
are_unique seen (id ∷ ids) = not (any (λ s. str_eq s id) seen) && are_unique (id ∷ seen) ids

abbrev pub layer_ids : List SceneLayer → List String
layer_ids [] = []
layer_ids (l ∷ ls) = layer_id l ∷ layer_ids ls

-- `sceneGraphSchema.safeParse(…).success`
unfoldable pub is_valid_scene : SceneGraph → Bool
is_valid_scene s =
    ltb 0 s.print_area.width_um
    && (ltb 0 s.print_area.height_um
        && (not (is_empty s.layers)
            && (all is_valid_layer s.layers && are_unique [] (layer_ids s.layers))))
  where
    is_empty : List SceneLayer → Bool
    is_empty [] = true
    is_empty (l ∷ ls) = false
