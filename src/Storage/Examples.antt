-- ===== src/Storage/Examples.antt =====
-- The theorems of object keys at concrete keys.
use personalisation_kings.Base.{◌≡◌, refl, ◌&&◌, some, [], ◌∷◌, String, str_eq}
use personalisation_kings.Storage.Keys.{
  StorageClass, preview_derivative, class_name, is_key_char, all_key_chars, is_safe_segment,
  has_class, key_segments, is_object_key, is_object_key_for_tenant, join_key, object_key,
}
use personalisation_kings.Storage.Keys.Laws.{object_key-tenant}
use personalisation_kings.Storage.Keys.Parts.{is_object_key-object_key}

object_key-tenant_example :
    (object_key preview_derivative "m-2" "a.svg"
      ≡ some (join_key (class_name preview_derivative) "m-2" "a.svg"))
    × (is_object_key_for_tenant
          (join_key (class_name preview_derivative) "m-2" "a.svg")
          "m-3"
          (preview_derivative ∷ [])
        ≡ (str_eq "m-2" "m-3"
            && has_class (preview_derivative ∷ []) (class_name preview_derivative)))
unfolding is_safe_segment all_key_chars is_key_char
object_key-tenant_example =
    object_key-tenant preview_derivative "m-2" "a.svg" "m-3" (preview_derivative ∷ []) refl refl

is_object_key-object_key_example :
    (class : StorageClass) × (tenant : String) × (id : String) × (object_key class tenant id
      ≡ some "preview_derivative/m-2/a.svg")
unfolding is_object_key key_segments is_safe_segment all_key_chars is_key_char
is_object_key-object_key_example = is_object_key-object_key "preview_derivative/m-2/a.svg" refl
