-- ===== src/Scene/Default.antt =====
-- The configuration that a design without rules of its own gets: `defaultCustomiserConfig` of
-- packages/render-schema/src/index.ts, against the tests of apps/api/src/embed.ts.
use mathlib.Core.Path.{subst}
use personalisation_kings.Base.{
  ◌≡◌, refl, ap, sym, arith, inl, inr, Bool, true, not, ◌&&◌, Option, none, some, List, [], ◌∷◌,
  String, leb, all, any, Memᴰ, str_eq, str_eq_iff, str_eq_refl, Bool-cases, Option-cases, &&-true,
  eq_ignoring_case_refl,
}
use personalisation_kings.Scene.Types.{
  SceneLayer, text, image, layer_id, layer_ids, PrintArea, SceneGraph, are_unique, is_valid_scene,
}
use personalisation_kings.Scene.Config.{
  LayerRule, rule_layer_id, map_get, rule_matches_layer, customiser_config_matches_scene,
  longer_edge, default_rule, default_rules, default_customiser_config,
}
use personalisation_kings.Scene.Match.{
  layer_within_bounds, scene_values_within_bounds, layer_matches_template, layer_matches_rule,
  transform_matches_rule, layers_match, scene_matches_design,
}

-- A size of text that fits the print area.
abbrev pub font_fits : PrintArea → SceneLayer → Bool
font_fits area (text l) = leb 1000 l.font_size_um && leb l.font_size_um (longer_edge area)
font_fits area (image l) = true

all-true_of :
    {A : Type 0} (p q : A → Bool)
    → ((x : A) → p x ≡ true → q x ≡ true)
    → (xs : List A) → all p xs ≡ true
    → all q xs ≡ true
all-true_of p q imp [] h = refl
all-true_of p q imp (x ∷ xs) h =
    let (here, there) = &&-true (p x) (all p xs) h in rw (imp x here) (all-true_of p q imp xs there)

any-eq-true :
    (seen : List String) {a b : String}
    → a ≡ b
    → any (λ s. str_eq s a) seen ≡ any (λ s. str_eq s b) seen
any-eq-true seen e = ap (λ x. any (λ s. str_eq s x) seen) e

-- An id that is taken already names no layer of the rest.
seen-map_get :
    (id : String) (seen : List String) (ls : List SceneLayer)
    → are_unique seen (layer_ids ls) ≡ true
    → any (λ s. str_eq s id) seen ≡ true
    → map_get layer_id id ls ≡ none
unfolding are_unique map_get
seen-map_get id seen [] u h = refl
seen-map_get id seen (l ∷ ls) u h =
    let (fresh, rest) = &&-true (not (any (λ s. str_eq s (layer_id l)) seen)) _ u in
    rw (seen-map_get id (layer_id l ∷ seen) ls rest (ground arith))
      (elim (Bool-cases (str_eq (layer_id l) id)) [
        | inl e ↦ absurd (ground (arith, any-eq-true seen ((str_eq_iff (layer_id l) id).0 e)))
        | inr f ↦ rw f refl
      ])

-- A layer of a scene with unique ids is found by its id.
unique-map_get :
    (seen : List String) (ls : List SceneLayer) {l : SceneLayer}
    → are_unique seen (layer_ids ls) ≡ true
    → Memᴰ l ls
    → map_get layer_id (layer_id l) ls ≡ some l
unfolding are_unique map_get
unique-map_get seen (k ∷ ls) {l} u (Memᴰ.head e) =
    let (fresh, rest) = &&-true (not (any (λ s. str_eq s (layer_id k)) seen)) _ u in
    subst (λ x. map_get layer_id (layer_id x) (k ∷ ls) ≡ some x) (sym e)
      (rw
        (
          map_get,
          seen-map_get (layer_id k) (layer_id k ∷ seen) ls rest
              (ground (arith, str_eq_refl (layer_id k))),
          str_eq_refl (layer_id k),
        )
        refl)
unique-map_get seen (k ∷ ls) u (Memᴰ.tail m) =
    let (fresh, rest) = &&-true (not (any (λ s. str_eq s (layer_id k)) seen)) _ u in
    rw (unique-map_get (layer_id k ∷ seen) ls rest m) refl
unique-map_get seen [] u m = elim m [ ]

default_rule-fits :
    (area : PrintArea) (l : SceneLayer)
    → rule_matches_layer (default_rule area l) (some l) ≡ font_fits area l
unfolding default_rule rule_matches_layer
default_rule-fits area (text l) = ground (arith, eq_ignoring_case_refl l.fill)
default_rule-fits area (image l) = refl

default_rule-layer_id :
    (area : PrintArea) (l : SceneLayer) → rule_layer_id (default_rule area l) ≡ layer_id l
unfolding default_rule
default_rule-layer_id area (text l) = refl
default_rule-layer_id area (image l) = refl

default_rules-match :
    (area : PrintArea) (whole ls : List SceneLayer)
    → ((l : SceneLayer) → Memᴰ l ls → map_get layer_id (layer_id l) whole ≡ some l)
    → all
        (λ r. rule_matches_layer r (map_get layer_id (rule_layer_id r) whole))
        (default_rules area ls)
      ≡ all (font_fits area) ls
default_rules-match area whole [] found = refl
default_rules-match area whole (l ∷ ls) found =
    rw
      (
        default_rule-layer_id area l,
        found l (Memᴰ.head refl),
        default_rule-fits area l,
        default_rules-match area whole ls (λ k m. found k (Memᴰ.tail m)),
      )
      refl

valid_unique :
    (s : SceneGraph) → is_valid_scene s ≡ true → are_unique [] (layer_ids s.layers) ≡ true
unfolding is_valid_scene
valid_unique s h = ground arith

-- The default configuration of a valid scene fits that scene exactly when each of its texts has a
-- size of at least 1000 micrometres and at most the longer edge of the print area. The schema of
-- scenes asks for neither.
pub default_customiser_config-matches :
    (s : SceneGraph)
    → is_valid_scene s ≡ true
    → customiser_config_matches_scene (default_customiser_config s) s
      ≡ all (font_fits s.print_area) s.layers
unfolding customiser_config_matches_scene default_customiser_config
default_customiser_config-matches s h =
    default_rules-match s.print_area s.layers s.layers
      (λ l m. unique-map_get [] s.layers (valid_unique s h) m)

default_of : PrintArea → Option SceneLayer → Option LayerRule
default_of area none = none
default_of area (some l) = some (default_rule area l)

default_rules-map_get :
    (area : PrintArea) (id : String) (ls : List SceneLayer)
    → map_get rule_layer_id id (default_rules area ls) ≡ default_of area (map_get layer_id id ls)
unfolding map_get default_of
default_rules-map_get area id [] = refl
default_rules-map_get area id (k ∷ ls) =
    rw (default_rules-map_get area id ls) (elim (Option-cases (map_get layer_id id ls)) [
      | inl alone ↦
          rw (alone, default_rule-layer_id area k)
            (elim (Bool-cases (str_eq (layer_id k) id)) [ inl t ↦ rw t refl | inr f ↦ rw f refl ])
      | inr (x, later) ↦ rw later refl
    ])

-- A layer against itself under its default rule.
default_rule_self :
    (area : PrintArea) (l : SceneLayer)
    → layer_within_bounds area l ≡ true
    → layer_matches_template (some (default_rule area l)) l l ≡ true
unfolding default_rule layer_within_bounds layer_matches_template layer_matches_rule
    transform_matches_rule
default_rule_self area (text l) h = ground (
  arith,
  str_eq_refl l.id,
  str_eq_refl l.name,
  str_eq_refl l.font_asset_version_id,
  eq_ignoring_case_refl l.fill,
)
default_rule_self area (image l) h = ground (arith, str_eq_refl l.id, str_eq_refl l.name)

within_bounds-fits :
    (area : PrintArea) (l : SceneLayer)
    → layer_within_bounds area l ≡ true
    → font_fits area l ≡ true
unfolding layer_within_bounds
within_bounds-fits area (text l) h = ground arith
within_bounds-fits area (image l) h = refl

layers_match_self :
    (area : PrintArea) (whole ls : List SceneLayer)
    → ((l : SceneLayer) → Memᴰ l ls → map_get layer_id (layer_id l) whole ≡ some l)
    → all (layer_within_bounds area) ls ≡ true
    → layers_match (default_rules area whole) ls ls ≡ true
unfolding layers_match default_of
layers_match_self area whole [] found h = refl
layers_match_self area whole (l ∷ ls) found h =
    let (here, there) = &&-true (layer_within_bounds area l) _ h in
    rw
      (
        default_rules-map_get area (layer_id l) whole,
        found l (Memᴰ.head refl),
        default_rule_self area l here,
      )
      (layers_match_self area whole ls (λ k m. found k (Memᴰ.tail m)) there)

-- For a scene that the schema accepts, `sceneMatchesDesign` accepts the scene itself as the
-- customer's, under the default configuration that is made from it, exactly when its values are
-- within the bounds of the layers of a customer's scene.
pub scene_matches_design_self :
    (s : SceneGraph)
    → is_valid_scene s ≡ true
    → scene_matches_design s s (default_customiser_config s) ≡ scene_values_within_bounds s
unfolding scene_matches_design scene_values_within_bounds default_customiser_config
scene_matches_design_self s h =
    elim (Bool-cases (all (layer_within_bounds s.print_area) s.layers)) [
      | inr out ↦ ground arith
      | inl within ↦
          let found : (l : SceneLayer)
              → Memᴰ l s.layers
              → map_get layer_id (layer_id l) s.layers ≡ some l =
            λ l m. unique-map_get [] s.layers (valid_unique s h) m in
          ground (
            arith,
            default_customiser_config-matches s h,
            all-true_of (layer_within_bounds s.print_area) (font_fits s.print_area)
                (within_bounds-fits s.print_area) s.layers within,
            layers_match_self s.print_area s.layers s.layers found within,
          )
    ]
