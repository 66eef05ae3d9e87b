-- ===== src/Deletion/Json.antt =====
-- JSON values as apps/worker-maintenance/src/deletion.ts reads them, and `jsonContainsExact`.
use personalisation_kings.Base.{
  Bool, true, false, ◌||◌, inl, inr, ◌≡◌, List, [], ◌∷◌, String, str_eq, str_eq_iff, any, Memᴰ,
  refl, arith, Bool-cases,
}

mutual
  -- `scalar` is null, a number or a truth value, which the code does not tell apart.
  pub data Json : Type 0 where
    scalar : Json
    text : String → Json
    array : Items → Json
    object : Fields → Json

  pub data Items : Type 0 where
    no_items : Items
    item : Json → Items → Items

  pub data Fields : Type 0 where
    no_fields : Fields
    field : String → Json → Fields → Fields

-- `targets.has(value)`
abbrev pub has : List String → String → Bool
has targets s = any (λ t. str_eq t s) targets

module _ (targets : List String) where
  unfoldable mutual
    -- `jsonContainsExact`
    pub json_contains_exact : Json → Bool
    json_contains_exact scalar = false
    json_contains_exact (text s) = has targets s
    json_contains_exact (array xs) = some_item xs
    json_contains_exact (object fs) = some_value fs

    pub some_item : Items → Bool
    some_item no_items = false
    some_item (item v xs) = json_contains_exact v || some_item xs

    pub some_value : Fields → Bool
    some_value no_fields = false
    some_value (field k v fs) = json_contains_exact v || some_value fs

mutual
  -- A text stands somewhere in a value, at any depth, other than as the name of a field.
  pub data Occurs (s : String) : Json → Type 0 where
    here : Occurs s (text s)
    in_array : {xs : Items} → OccursItem s xs → Occurs s (array xs)
    in_object : {fs : Fields} → OccursValue s fs → Occurs s (object fs)

  pub data OccursItem (s : String) : Items → Type 0 where
    this_item : {v : Json} {xs : Items} → Occurs s v → OccursItem s (item v xs)
    later_item : {v : Json} {xs : Items} → OccursItem s xs → OccursItem s (item v xs)

  pub data OccursValue (s : String) : Fields → Type 0 where
    this_value : {k : String} {v : Json} {fs : Fields} → Occurs s v → OccursValue s (field k v fs)
    later_value :
        {k : String} {v : Json} {fs : Fields} → OccursValue s fs → OccursValue s (field k v fs)

any_has :
    (targets : List String) (s : String)
    → has targets s ≡ true
    → (t : String) × Memᴰ t targets × (t ≡ s)
any_has [] s h = absurd (ground arith)
any_has (t ∷ ts) s h = elim (Bool-cases (str_eq t s)) [
  | inl e ↦ (t, Memᴰ.head refl, (str_eq_iff t s).0 e)
  | inr n ↦ let (u, m, e) = any_has ts s (rw (n, ◌≡◌) at h) in (u, Memᴰ.tail m, e)
]

has-any : (targets : List String) (s : String) → Memᴰ s targets → has targets s ≡ true
has-any [] s m = elim m [ ]
has-any (t ∷ ts) s (Memᴰ.head e) = ground (arith, (str_eq_iff t s).1)
has-any (t ∷ ts) s (Memᴰ.tail m) = ground (arith, has-any ts s m)

module _ (targets : List String) (s : String) (m : has targets s ≡ true) where
  mutual
    unfolding json_contains_exact

    -- A value that holds one of the targets at any depth is found.
    pub Occurs-contains : (v : Json) → Occurs s v → json_contains_exact targets v ≡ true
    Occurs-contains scalar o = elim o [ ]
    Occurs-contains (text s) here = m
    Occurs-contains (array xs) (in_array o) = OccursItem-some xs o
    Occurs-contains (object fs) (in_object o) = OccursValue-some fs o

    OccursItem-some : (xs : Items) → OccursItem s xs → some_item targets xs ≡ true
    OccursItem-some no_items o = elim o [ ]
    OccursItem-some (item v xs) (this_item o) = ground (arith, Occurs-contains v o)
    OccursItem-some (item v xs) (later_item o) = ground (arith, OccursItem-some xs o)

    OccursValue-some : (fs : Fields) → OccursValue s fs → some_value targets fs ≡ true
    OccursValue-some no_fields o = elim o [ ]
    OccursValue-some (field k v fs) (this_value o) = ground (arith, Occurs-contains v o)
    OccursValue-some (field k v fs) (later_value o) = ground (arith, OccursValue-some fs o)
