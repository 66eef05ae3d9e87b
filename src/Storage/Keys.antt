-- ===== src/Storage/Keys.antt =====
-- Object keys, `storage-class/tenant/id`: `objectKey`, `isObjectKey` and `isObjectKeyForTenant` of
-- packages/storage/src/index.ts. The paths are those of a POSIX system, where a path is absolute
-- if it begins with a slash.
pub mod Laws
pub mod Parts
use Prim.Native.Char.{Char, code}
use Prim.Native.String.{String, [], ◌∷◌}
use Prim.Native.String.{◌++◌ as append}
use mathlib.Core.List
use mathlib.Core.List.{List}
use personalisation_kings.Base.{
  ℕ, Bool, true, false, not, ◌&&◌, ◌||◌, Option, none, some, ◌==◌, leb, str_eq, if◌then◌else◌, any,
  all,
}

-- `StorageClass`
pub data StorageClass : Type 0 where
  temporary_upload draft_customisation_asset order_bound_customer_asset : StorageClass
  merchant_design_asset preview_derivative production_artifact quarantined_file : StorageClass

abbrev pub class_name : StorageClass → String
class_name temporary_upload = "temporary_upload"
class_name draft_customisation_asset = "draft_customisation_asset"
class_name order_bound_customer_asset = "order_bound_customer_asset"
class_name merchant_design_asset = "merchant_design_asset"
class_name preview_derivative = "preview_derivative"
class_name production_artifact = "production_artifact"
class_name quarantined_file = "quarantined_file"

-- `storageClasses`
abbrev pub storage_classes : List StorageClass
storage_classes = List.◌∷◌ temporary_upload (
    List.◌∷◌ draft_customisation_asset (
      List.◌∷◌ order_bound_customer_asset (
        List.◌∷◌ merchant_design_asset (
          List.◌∷◌ preview_derivative
            (List.◌∷◌ production_artifact (List.◌∷◌ quarantined_file List.[]))))))

-- `[A-Za-z0-9]`
unfoldable pub is_alphanumeric : ℕ → Bool
is_alphanumeric c =
    (leb b'A' c && leb c b'Z') || ((leb b'a' c && leb c b'z') || (leb b'0' c && leb c b'9'))

-- `[A-Za-z0-9._-]`
unfoldable pub is_key_char : ℕ → Bool
unfolding is_alphanumeric
is_key_char c = is_alphanumeric c || (c == b'.' || (c == b'_' || c == b'-'))

unfoldable pub all_key_chars : String → Bool
all_key_chars [] = true
all_key_chars (c ∷ s) = is_key_char (code c) && all_key_chars s

-- `safeObjectKeySegment`, /^[A-Za-z0-9][A-Za-z0-9._-]*$/
unfoldable pub is_safe_segment : String → Bool
is_safe_segment [] = false
is_safe_segment (c ∷ s) = is_alphanumeric (code c) && all_key_chars s

-- `value.includes(character)`
unfoldable pub includes_char : ℕ → String → Bool
includes_char k [] = false
includes_char k (c ∷ s) = code c == k || includes_char k s

abbrev push_front : Char → List String → List String
push_front c List.[] = List.◌∷◌ (c ∷ []) List.[]
push_front c (List.◌∷◌ s ss) = List.◌∷◌ (c ∷ s) ss

-- `value.split("/")`
unfoldable pub split_slash : String → List String
split_slash [] = List.◌∷◌ "" List.[]
split_slash (c ∷ s) =
    let rest = split_slash s in if code c == b'/' then List.◌∷◌ "" rest else push_front c rest

abbrev pub is_empty : String → Bool
is_empty [] = true
is_empty (c ∷ s) = false

abbrev pub is_absolute : String → Bool
is_absolute [] = false
is_absolute (c ∷ s) = code c == b'/'

abbrev pub is_key_segment : String → Bool
is_key_segment s = is_safe_segment s && (not (str_eq s ".") && not (str_eq s ".."))

-- The three segments of a key, if the value has just three.
unfoldable pub three_segments : List String → Option (String × String × String)
three_segments (List.◌∷◌ c (List.◌∷◌ t (List.◌∷◌ i List.[]))) = some (c, t, i)
three_segments _ = none

abbrev pub has_class : List StorageClass → String → Bool
has_class classes s = any (λ k. str_eq (class_name k) s) classes

-- `isObjectKey`: the segments of a value that is a key.
unfoldable pub key_segments : String → Option (String × String × String)
unfolding includes_char split_slash three_segments
key_segments value =
    if is_empty value || (includes_char 92 value || is_absolute value)
    then none
    else elim (three_segments (split_slash value)) [
      | none ↦ none
      | some (c, t, i) ↦
          if has_class storage_classes c
            && (is_key_segment c && (is_key_segment t && is_key_segment i))
          then some (c, t, i)
          else none
    ]

abbrev pub is_some_key : Option (String × String × String) → Bool
is_some_key none = false
is_some_key (some k) = true

-- `isObjectKey`
unfoldable pub is_object_key : String → Bool
is_object_key value = is_some_key (key_segments value)

-- `isObjectKeyForTenant`, with the classes that are allowed.
unfoldable pub is_object_key_for_tenant : String → String → List StorageClass → Bool
is_object_key_for_tenant value tenant allowed =
    is_safe_segment tenant && (elim (key_segments value) [
      | none ↦ false
      | some (c, t, i) ↦ str_eq t tenant && has_class allowed c
    ])

abbrev pub join_key : String → String → String → String
join_key c tenant id = append c (append "/" (append tenant (append "/" id)))

-- `objectKey`; `none` is its `TypeError`.
unfoldable pub object_key : StorageClass → String → String → Option String
object_key class tenant id =
    if is_safe_segment tenant && is_safe_segment id
    then (let key = join_key (class_name class) tenant id in
        if is_object_key key then some key else none)
    else none
