-- ===== src/Storage/Keys/Parts.antt =====
-- Every value that passes the tests of packages/storage/src/index.ts is a key that `objectKey` makes.
use Prim.Native.Char.{Char, code}
use Prim.Native.String.{String, [], ◌∷◌}
use Prim.Native.String.{◌++◌ as append}
use mathlib.Core.List.{List}
use text.Mathlib.TextEquality.{Char-path}
use text.Mathlib.TextLemmas.{nil-append, cons-append}
use personalisation_kings.Base.{
  ◌≡◌, ◌≢◌, refl, sym, ap, ◌∙◌, inl, inr, true, ◌&&◌, ◌||◌, Option, some, ◌==◌, ==_iff, str_eq,
  str_eq_iff, &&-true, Bool-cases, Option-cases, arith,
}
use personalisation_kings.Storage.Keys.{
  StorageClass, class_name, storage_classes, is_safe_segment, includes_char, push_front,
  split_slash, is_absolute, is_empty, is_key_segment, three_segments, has_class, key_segments,
  is_object_key, is_object_key_for_tenant, join_key, object_key,
}
use personalisation_kings.Storage.Keys.Laws.{is_key_segment-safe, object_key-tenant}

join_slash : List String → String
join_slash List.[] = []
join_slash (List.◌∷◌ s List.[]) = s
join_slash (List.◌∷◌ s (List.◌∷◌ t ss)) = append s (append "/" (join_slash (List.◌∷◌ t ss)))

push_front-join : (c : Char) (ss : List String) → join_slash (push_front c ss) ≡ c ∷ join_slash ss
unfolding join_slash
push_front-join c List.[] = refl
push_front-join c (List.◌∷◌ s List.[]) = refl
push_front-join c (List.◌∷◌ s (List.◌∷◌ t ss)) = cons-append c s _

empty-join :
    (ss : List String) → ss ≢ List.[] → join_slash (List.◌∷◌ "" ss) ≡ append "/" (join_slash ss)
unfolding join_slash
empty-join List.[] h = absurd (h refl)
empty-join (List.◌∷◌ t ss) h = nil-append _

split-ne-nil : (s : String) → split_slash s ≢ List.[]
unfolding split_slash
split-ne-nil [] h = ground arith
split-ne-nil (c ∷ s) h = elim (Bool-cases (code c == b'/')) [
  | inl slash ↦ ground arith
  | inr other ↦ pushed (split_slash s) (rw (other, split_slash) at h)
]
  where
    pushed : (ss : List String) → push_front c ss ≢ List.[]
    pushed List.[] e = cc
    pushed (List.◌∷◌ t ts) e = cc

-- Splitting loses nothing.
join-split : (s : String) → join_slash (split_slash s) ≡ s
unfolding split_slash
join-split [] = unfold join_slash in refl
join-split (c ∷ s) = elim (Bool-cases (code c == b'/')) [
  | inl slash ↦
      let same : c ≡ "/" = Char-path c "/" ((==_iff (code c) b'/').0 slash) in
      rw (slash, split_slash)
        (empty-join (split_slash s) (split-ne-nil s)
          ∙ (cons-append "/" [] _ ∙ rw (nil-append, join-split s, same) refl))
  | inr other ↦
      rw (other, split_slash) (push_front-join c (split_slash s) ∙ ap (λ t. c ∷ t) (join-split s))
]

three_segments_lem :
    (ss : List String) {c t i : String}
    → three_segments ss ≡ some (c, t, i)
    → join_slash ss ≡ join_key c t i
unfolding three_segments join_slash
three_segments_lem (List.◌∷◌ x (List.◌∷◌ y (List.◌∷◌ z List.[]))) h = ground arith
three_segments_lem List.[] h = absurd (ground arith)
three_segments_lem (List.◌∷◌ x List.[]) h = absurd (ground arith)
three_segments_lem (List.◌∷◌ x (List.◌∷◌ y List.[])) h = absurd (ground arith)
three_segments_lem (List.◌∷◌ x (List.◌∷◌ y (List.◌∷◌ z (List.◌∷◌ w r)))) h = absurd (ground arith)

class_of :
    (classes : List StorageClass) (c : String)
    → has_class classes c ≡ true
    → (class : StorageClass) × (class_name class ≡ c)
class_of List.[] c h = absurd (ground arith)
class_of (List.◌∷◌ k ks) c h = elim (Bool-cases (str_eq (class_name k) c)) [
  | inl same ↦ (k, (str_eq_iff (class_name k) c).0 same)
  | inr other ↦ class_of ks c (rw (other, ◌||◌) at h)
]

-- The parts of a value that is a key.
record IsKey (value c t i : String) : Type 0 where
  joined : join_key c t i ≡ value
  listed : has_class storage_classes c ≡ true
  tenant : is_safe_segment t ≡ true
  id : is_safe_segment i ≡ true

triple_inj :
    {x y z c t i : String}
    → ◌≡◌ {A = Option (String × String × String)} (some (x, y, z)) (some (c, t, i))
    → (x ≡ c) × (y ≡ t) × (z ≡ i)
triple_inj h = (ground arith, ground arith, ground arith)

accepted_parts :
    {value x y z : String}
    → value ≡ join_key x y z
    → (has_class storage_classes x && (is_key_segment x && (is_key_segment y && is_key_segment z)))
      ≡ true
    → IsKey value x y z
accepted_parts {x = x} {y = y} {z = z} whole h =
    let (listed, rest) = &&-true _ _ h in
    let (first, more) = &&-true _ _ rest in
    let (second, third) = &&-true _ _ more in
    record {
      joined = sym whole;
      listed = listed;
      tenant = is_key_segment-safe y second;
      id = is_key_segment-safe z third;
    }

moved :
    {value x y z c t i : String}
    → (x ≡ c) × (y ≡ t) × (z ≡ i)
    → IsKey value x y z
    → IsKey value c t i
moved (p, q, r) k = record {
  joined = rw (← p, ← q, ← r) k.joined;
  listed = rw (← p) k.listed;
  tenant = rw (← q) k.tenant;
  id = rw (← r) k.id;
}

key_segments-IsKey :
    (value : String) {c t i : String} → key_segments value ≡ some (c, t, i) → IsKey value c t i
unfolding key_segments
key_segments-IsKey value {c} {t} {i} h =
    elim (Bool-cases (is_empty value || (includes_char 92 value || is_absolute value))) [
      | inl bad ↦ absurd (ground arith)
      | inr good ↦ elim (Option-cases (three_segments (split_slash value))) [
        | inl other ↦ absurd (ground arith)
        | inr ((x, y, z), three) ↦
            elim (Bool-cases (
              has_class storage_classes x
              && (is_key_segment x && (is_key_segment y && is_key_segment z)))) [
                | inr refused ↦ absurd (ground arith)
                | inl accepted ↦
                    let same : ◌≡◌ {A = Option (String × String × String)} (some (x, y, z))
                        (some (c, t, i)) =
                      rw (good, key_segments, three, accepted) at h in
                    let whole =
                      sym (join-split value) ∙ three_segments_lem (split_slash value) three in
                    moved (triple_inj same) (accepted_parts whole accepted)
              ]
      ]
    ]

-- A value that passes `isObjectKey` is one that `objectKey` makes, from a class, a tenant and an id.
pub is_object_key-object_key :
    (value : String)
    → is_object_key value ≡ true
    → (class : StorageClass) × (tenant : String) × (id : String) × (object_key class tenant id
        ≡ some value)
unfolding is_object_key
is_object_key-object_key value h = elim (Option-cases (key_segments value)) [
  | inl none_found ↦ absurd (ground arith)
  | inr ((c, t, i), found) ↦
      let k = key_segments-IsKey value found in
      let (class, named) = class_of storage_classes c k.listed in
      (
        class,
        t,
        i,
        (object_key-tenant class t i t storage_classes k.tenant k.id).0
            ∙ ap some (ap (λ n. join_key n t i) named ∙ k.joined),
      )
]

-- A value that passes the test of a tenant is a key that `objectKey` makes for that tenant, in a
-- class that is allowed.
pub is_object_key_for_tenant-object_key :
    (value tenant : String) (allowed : List StorageClass)
    → is_object_key_for_tenant value tenant allowed ≡ true
    → (class : StorageClass) × (id : String) × (object_key class tenant id ≡ some value)
      × (has_class allowed (class_name class) ≡ true)
unfolding is_object_key_for_tenant
is_object_key_for_tenant-object_key value tenant allowed h =
    elim (Option-cases (key_segments value)) [
      | inl none_found ↦ absurd (ground arith)
      | inr ((c, t, i), found) ↦
          let k = key_segments-IsKey value found in
          let (class, named) = class_of storage_classes c k.listed in
          let rest : (str_eq t tenant && has_class allowed c) ≡ true = ground arith in
          let (own, permitted) = &&-true _ _ rest in
          let mine = (str_eq_iff t tenant).0 own in
          (
            class,
            i,
            ap (λ n. object_key class n i) (sym mine)
                ∙ ((object_key-tenant class t i t storage_classes k.tenant k.id).0
                    ∙ ap some (ap (λ n. join_key n t i) named ∙ k.joined)),
            rw named permitted,
          )
    ]
