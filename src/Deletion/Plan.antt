-- ===== src/Deletion/Plan.antt =====
-- The plan of an erasure as it is stored, and read back: `DeletionPlan` and `parsePlan` of
-- apps/worker-maintenance/src/deletion.ts.
use personalisation_kings.Base.{
  ◌≡◌, refl, Option, none, some, List, [], ◌∷◌, String, str_eq, if◌then◌else◌, arith,
}
use personalisation_kings.Deletion.Json.{
  Json, text, array, object, Items, no_items, item, Fields, no_fields, field,
}

-- `DeletionPlan`
pub record DeletionPlan : Type 0 where
  pub source_version_ids : List String
  pub source_asset_ids : List String
  pub derivative_version_ids : List String
  pub derivative_asset_ids : List String
  pub session_ids : List String
  pub object_keys : List String

-- `record[key]`; of two fields of one name, which JSON does not hold, the first.
unfoldable pub lookup_field : String → Fields → Option Json
lookup_field key no_fields = none
lookup_field key (field k v fs) = if str_eq k key then some v else lookup_field key fs

-- `Array.isArray(value)` and each item is a string.
unfoldable pub texts_of : Items → Option (List String)
texts_of no_items = some []
texts_of (item (text s) xs) = elim (texts_of xs) [ none ↦ none | some ss ↦ some (s ∷ ss) ]
texts_of (item _ xs) = none

unfoldable pub texts_at : String → Fields → Option (List String)
texts_at key fs = elim (lookup_field key fs) [
  | none ↦ none
  | some v ↦ elim v [ array xs ↦ texts_of xs | _ ↦ none ]
]

-- The six fields of a plan, if each is an array of strings.
unfoldable pub plan_of : Fields → Option DeletionPlan
plan_of fs = elim (texts_at "sourceVersionIds" fs) [
  | none ↦ none
  | some sv ↦ elim (texts_at "sourceAssetIds" fs) [
    | none ↦ none
    | some sa ↦ elim (texts_at "derivativeVersionIds" fs) [
      | none ↦ none
      | some dv ↦ elim (texts_at "derivativeAssetIds" fs) [
        | none ↦ none
        | some da ↦ elim (texts_at "sessionIds" fs) [
          | none ↦ none
          | some ss ↦ elim (texts_at "objectKeys" fs) [
            | none ↦ none
            | some ks ↦ some (record {
              source_version_ids = sv;
              source_asset_ids = sa;
              derivative_version_ids = dv;
              derivative_asset_ids = da;
              session_ids = ss;
              object_keys = ks;
            })
          ]
        ]
      ]
    ]
  ]
]

-- `parsePlan`
unfoldable pub parse_plan : Option Json → Option DeletionPlan
parse_plan (some (object fs)) = plan_of fs
parse_plan _ = none

unfoldable pub items_of : List String → Items
items_of [] = no_items
items_of (s ∷ ss) = item (text s) (items_of ss)

-- `plan as unknown as Prisma.InputJsonValue`
unfoldable pub plan_json : DeletionPlan → Json
plan_json p = object (
    field "sourceVersionIds" (array (items_of p.source_version_ids)) (
      field "sourceAssetIds" (array (items_of p.source_asset_ids)) (
        field "derivativeVersionIds" (array (items_of p.derivative_version_ids)) (
          field "derivativeAssetIds" (array (items_of p.derivative_asset_ids)) (
            field "sessionIds" (array (items_of p.session_ids))
              (field "objectKeys" (array (items_of p.object_keys)) no_fields))))))

texts_of-items_of : (ss : List String) → texts_of (items_of ss) ≡ some ss
unfolding texts_of items_of
texts_of-items_of [] = refl
texts_of-items_of (s ∷ ss) = rw (texts_of-items_of ss) refl

-- A plan that preparation stores is read back as it was, so an attempt that is made again erases
-- what the first one chose.
pub parse_plan-plan_json : (p : DeletionPlan) → parse_plan (some (plan_json p)) ≡ some p
unfolding parse_plan plan_of texts_at lookup_field plan_json
parse_plan-plan_json p = ground (
  arith,
  texts_of-items_of p.source_version_ids,
  texts_of-items_of p.source_asset_ids,
  texts_of-items_of p.derivative_version_ids,
  texts_of-items_of p.derivative_asset_ids,
  texts_of-items_of p.session_ids,
  texts_of-items_of p.object_keys,
)
