-- ===== src/Storage/Keys/Laws.antt =====
-- Laws of object keys: packages/storage/src/index.ts.
use Prim.Native.String.{String, [], ◌∷◌}
use Prim.Native.String.{◌++◌ as append}
use mathlib.Core.List.{List}
use text.Mathlib.TextLemmas.{nil-append, cons-append}
use personalisation_kings.Base.{
  ℕ, ◌≡◌, ◌≢◌, refl, ap, ◌∙◌, inl, inr, true, false, ◌&&◌, ◌||◌, some, str_eq, str_eq_iff,
  Bool-cases, arith,
}
use personalisation_kings.Storage.Keys.{
  StorageClass, temporary_upload, draft_customisation_asset, order_bound_customer_asset,
  merchant_design_asset, preview_derivative, production_artifact, quarantined_file, class_name,
  storage_classes, is_alphanumeric, is_key_char, all_key_chars, is_safe_segment, includes_char,
  split_slash, is_empty, is_absolute, is_key_segment, three_segments, has_class, key_segments,
  is_object_key, is_object_key_for_tenant, join_key, object_key,
}

-- A text without a slash, before a slash, is the first segment.
split-append :
    (s r : String)
    → includes_char b'/' s ≡ false
    → split_slash (append s (append "/" r)) ≡ List.◌∷◌ s (split_slash r)
unfolding split_slash includes_char
split-append [] r h = rw (nil-append, cons-append, nil-append) refl
split-append (c ∷ s) r h =
    rw (cons-append c s (append "/" r), split_slash) (ground (arith, split-append s r))

split-clean : (s : String) → includes_char b'/' s ≡ false → split_slash s ≡ List.◌∷◌ s List.[]
unfolding split_slash includes_char
split-clean [] h = refl
split-clean (c ∷ s) h = ground (arith, split-clean s)

all_key_chars-clean :
    (k : ℕ) (s : String)
    → is_key_char k ≡ false
    → all_key_chars s ≡ true
    → includes_char k s ≡ false
unfolding all_key_chars includes_char
all_key_chars-clean k [] bad h = refl
all_key_chars-clean k (c ∷ s) bad h = ground (arith, all_key_chars-clean k s bad)

is_safe_segment-clean :
    (k : ℕ) (s : String)
    → is_key_char k ≡ false
    → is_safe_segment s ≡ true
    → includes_char k s ≡ false
unfolding is_safe_segment includes_char is_key_char is_alphanumeric
is_safe_segment-clean k [] bad h = refl
is_safe_segment-clean k (c ∷ s) bad h = ground (arith, all_key_chars-clean k s bad)

includes_char-append :
    (k : ℕ) (s t : String) → includes_char k (append s t) ≡ (includes_char k s || includes_char k t)
unfolding includes_char
includes_char-append k [] t = rw nil-append refl
includes_char-append k (c ∷ s) t =
    rw (cons-append c s t, includes_char) (ground (arith, includes_char-append k s t))

-- The names of the classes are segments, and in the list.
class_name-facts :
    (class : StorageClass)
    → (is_key_segment (class_name class) ≡ true)
      × (has_class storage_classes (class_name class) ≡ true)
unfolding is_safe_segment is_alphanumeric all_key_chars is_key_char
class_name-facts temporary_upload = (refl, refl)
class_name-facts draft_customisation_asset = (refl, refl)
class_name-facts order_bound_customer_asset = (refl, refl)
class_name-facts merchant_design_asset = (refl, refl)
class_name-facts preview_derivative = (refl, refl)
class_name-facts production_artifact = (refl, refl)
class_name-facts quarantined_file = (refl, refl)

-- A key begins with the name of its class, so it is neither empty nor absolute.
key-begins :
    (class : StorageClass) (r : String)
    → (is_empty (append (class_name class) r) ≡ false)
      × (is_absolute (append (class_name class) r) ≡ false)
key-begins temporary_upload r = (rw cons-append refl, rw cons-append refl)
key-begins draft_customisation_asset r = (rw cons-append refl, rw cons-append refl)
key-begins order_bound_customer_asset r = (rw cons-append refl, rw cons-append refl)
key-begins merchant_design_asset r = (rw cons-append refl, rw cons-append refl)
key-begins preview_derivative r = (rw cons-append refl, rw cons-append refl)
key-begins production_artifact r = (rw cons-append refl, rw cons-append refl)
key-begins quarantined_file r = (rw cons-append refl, rw cons-append refl)

is_safe_segment-IsKey : (s : String) → is_safe_segment s ≡ true → is_key_segment s ≡ true
unfolding is_safe_segment is_alphanumeric
is_safe_segment-IsKey s safe = elim (Bool-cases (str_eq s ".")) [
  | inl dot ↦ absurd (not_dot (rw ((str_eq_iff s ".").0 dot) at safe))
  | inr a ↦ elim (Bool-cases (str_eq s "..")) [
    | inl dots ↦ absurd (not_dots (rw ((str_eq_iff s "..").0 dots) at safe))
    | inr b ↦ ground arith
  ]
]
  where
    not_dot : is_safe_segment "." ≢ true
    not_dot h = cc

    not_dots : is_safe_segment ".." ≢ true
    not_dots h = cc

pub is_key_segment-safe : (s : String) → is_key_segment s ≡ true → is_safe_segment s ≡ true
is_key_segment-safe s h = ground arith

-- Three segments, joined, are split again.
split-join :
    (c tenant id : String)
    → is_safe_segment c ≡ true
    → is_safe_segment tenant ≡ true
    → is_safe_segment id ≡ true
    → split_slash (join_key c tenant id) ≡ List.◌∷◌ c (List.◌∷◌ tenant (List.◌∷◌ id List.[]))
unfolding is_key_char is_alphanumeric
split-join c tenant id sc st si =
    split-append c _ (is_safe_segment-clean b'/' c refl sc)
    ∙ ap (List.◌∷◌ c) (
        split-append tenant id (is_safe_segment-clean b'/' tenant refl st)
        ∙ ap (List.◌∷◌ tenant) (split-clean id (is_safe_segment-clean b'/' id refl si)))

join-no_backslash :
    (c tenant id : String)
    → is_safe_segment c ≡ true
    → is_safe_segment tenant ≡ true
    → is_safe_segment id ≡ true
    → includes_char 92 (join_key c tenant id) ≡ false
unfolding is_key_char is_alphanumeric includes_char
join-no_backslash c tenant id sc st si =
    rw
      (
        includes_char-append 92 c,
        includes_char-append 92 "/" (append tenant (append "/" id)),
        includes_char-append 92 tenant,
        includes_char-append 92 "/" id,
        is_safe_segment-clean 92 c refl sc,
        is_safe_segment-clean 92 tenant refl st,
        is_safe_segment-clean 92 id refl si,
      )
      refl

key_segments-join :
    (class : StorageClass) (tenant id : String)
    → is_safe_segment tenant ≡ true
    → is_safe_segment id ≡ true
    → key_segments (join_key (class_name class) tenant id) ≡ some (class_name class, tenant, id)
unfolding key_segments three_segments
key_segments-join class tenant id t i =
    let (segment, listed) = class_name-facts class in
    let safe = is_key_segment-safe (class_name class) segment in
    let (full, relative) = key-begins class (append "/" (append tenant (append "/" id))) in
    rw
      (
        full,
        relative,
        join-no_backslash (class_name class) tenant id safe t i,
        split-join (class_name class) tenant id safe t i,
        listed,
        segment,
        is_safe_segment-IsKey tenant t,
        is_safe_segment-IsKey id i,
      )
      refl

-- `objectKey` makes a key from any safe tenant and id, and the key that it makes passes the test of
-- a tenant and its allowed classes exactly when it is that tenant's and its class is allowed.
pub object_key-tenant :
    (class : StorageClass) (tenant id other : String) (allowed : List StorageClass)
    → is_safe_segment tenant ≡ true
    → is_safe_segment id ≡ true
    → (object_key class tenant id ≡ some (join_key (class_name class) tenant id))
      × (is_object_key_for_tenant (join_key (class_name class) tenant id) other allowed
          ≡ (str_eq tenant other && has_class allowed (class_name class)))
unfolding object_key is_object_key is_object_key_for_tenant
object_key-tenant class tenant id other allowed t i = (
  rw (t, i, key_segments-join class tenant id t i) refl,
  rw (key_segments-join class tenant id t i) (elim (Bool-cases (str_eq tenant other)) [
    | inl same ↦ let safe = rw ((str_eq_iff tenant other).0 same) at t in ground (arith, safe)
    | inr apart ↦ ground arith
  ]),
)
