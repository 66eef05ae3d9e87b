-- ===== src/Deletion/Boundary.antt =====
-- The merchant's erasure boundary: which objects the worker of
-- apps/worker-maintenance/src/deletion.ts takes out of storage.
use personalisation_kings.Base.{
  ℕ, suc, ◌≡◌, ◌⊎◌, refl, ap, inl, inr, Bool, true, false, none, some, List, [], ◌∷◌, String, All,
  all, length, arith, All-Memᴰ, Memᴰ, Bool-cases, Option-cases,
}
use personalisation_kings.Storage.Keys.{
  StorageClass, merchant_design_asset, production_artifact, class_name, has_class, object_key,
  is_object_key_for_tenant,
}
use personalisation_kings.Storage.Keys.Parts.{is_object_key_for_tenant-object_key}
use personalisation_kings.Deletion.Plan.{DeletionPlan, parse_plan}
use personalisation_kings.Deletion.Tables.{Date, DeletionRequest, Db}
use personalisation_kings.Deletion.Prepare.{
  Attempt, done, threw, Prepared, already_deleted, blocked, planned, prepare_deletion,
}
use personalisation_kings.Deletion.Worker.{
  Environment, Progress, erasable_classes, deletion_plan_keys_are_safe, renew_deletion_claim,
  erase_objects, finish, erase, attempt_deletion,
}

Attempt-cases :
    {A : Type 0} (x : Attempt A) → ((a : A) × (x ≡ done a)) ⊎ ((m : String) × (x ≡ threw m))
Attempt-cases (done a) = inl (a, refl)
Attempt-cases (threw m) = inr (m, refl)

all-All : {A : Type 0} (p : A → Bool) (xs : List A) → all p xs ≡ true → All (λ x. p x ≡ true) xs
all-All p [] h = tt
all-All p (x ∷ xs) h = (ground arith, all-All p xs (ground arith))

module _ {κ} (env : Environment) (P : String → Type κ) where
  erase_objects-erased :
      (n : ℕ) (keys : List String) (request : DeletionRequest) (db : Db)
      → All P keys
      → All P (erase_objects env n keys request db).erased
  unfolding erase_objects
  erase_objects-erased n [] request db h = tt
  erase_objects-erased n (key ∷ keys) request db (h, hs) =
      elim (Attempt-cases (renew_deletion_claim request (env.clock n) db)) [
        | inr (m, lost) ↦ rw (lost, erase_objects) tt
        | inl ((renewed, db₁), kept) ↦ elim (Option-cases (env.storage_error key)) [
          | inr (m, failed) ↦ rw (kept, erase_objects, failed) tt
          | inl fine ↦
              rw (kept, erase_objects, fine) (h, erase_objects-erased (suc n) keys renewed db₁ hs)
        ]
      ]

finish-erased :
    (env : Environment) (n : ℕ) (plan : DeletionPlan) (p : Progress)
    → (finish env n plan p).erased ≡ p.erased
unfolding finish
finish-erased env n plan p = ground arith

erase-erased :
    (env : Environment) (plan : DeletionPlan) (request : DeletionRequest) (db : Db)
    → All
        (λ k. is_object_key_for_tenant k request.merchant_id erasable_classes ≡ true)
        (erase env plan request db).erased
unfolding erase deletion_plan_keys_are_safe
erase-erased env plan request db =
    elim (Bool-cases (deletion_plan_keys_are_safe plan.object_keys request.merchant_id)) [
      | inr unsafe ↦ rw unsafe tt
      | inl safe ↦
          rw
            (
              safe,
              finish-erased env (length plan.object_keys) plan
                  (erase_objects env 0 plan.object_keys request db),
            )
            (erase_objects-erased env _ 0 plan.object_keys request db
              (all-All _ plan.object_keys safe))
    ]

erased-All :
    (env : Environment) (request : DeletionRequest) (now : Date) (db : Db)
    → All
        (λ k. is_object_key_for_tenant k request.merchant_id erasable_classes ≡ true)
        (attempt_deletion env request now db).erased
unfolding attempt_deletion
erased-All env request now db = elim (Option-cases (parse_plan request.execution_plan)) [
  | inr (plan, stored) ↦ rw (stored, attempt_deletion) (erase-erased env plan request db)
  | inl new ↦ elim (Attempt-cases (prepare_deletion request now db)) [
    | inr (m, failed) ↦ rw (new, attempt_deletion, failed) tt
    | inl ((prepared, db₁), made) ↦ rw (new, attempt_deletion, made) (go prepared db₁)
  ]
]
  where
    go :
        (prepared : Prepared) (db₁ : Db)
        → All
            (λ k. is_object_key_for_tenant k request.merchant_id erasable_classes ≡ true)
            (elim prepared as (λ _. Progress) [
              | already_deleted ↦ record { request = request; db = db₁; erased = []; error = none }
              | blocked ↦ record { request = request; db = db₁; erased = []; error = none }
              | planned plan ↦ erase env plan request db₁
            ]).erased
    go already_deleted db₁ = tt
    go blocked db₁ = tt
    go (planned plan) db₁ = erase-erased env plan request db₁

-- Uploads of customers and what is made from them, by class: a merchant's own designs and the
-- artifacts of production are not.
abbrev pub is_customer_class : StorageClass → Bool
is_customer_class merchant_design_asset = false
is_customer_class production_artifact = false
is_customer_class _ = true

erasable-IsCustomer :
    (class : StorageClass)
    → has_class erasable_classes (class_name class) ≡ true
    → is_customer_class class ≡ true
erasable-IsCustomer merchant_design_asset h = ground arith
erasable-IsCustomer production_artifact h = ground arith
erasable-IsCustomer _ h = refl

-- Whatever plan an attempt follows, the one that is stored or one that it prepares, and wherever
-- it stops, each object that it has taken out of storage has a key of the request's merchant, in a
-- class other than the merchant's designs and the artifacts of production.
pub attempt_deletion-erased :
    (env : Environment) (request : DeletionRequest) (now : Date) (db : Db) (key : String)
    → Memᴰ key (attempt_deletion env request now db).erased
    → (class : StorageClass) × (id : String) × (object_key class request.merchant_id id ≡ some key)
      × (is_customer_class class ≡ true)
attempt_deletion-erased env request now db key m =
    let safe = All-Memᴰ _ _ (erased-All env request now db) m in
    let (class, id, made, erasable) =
      is_object_key_for_tenant-object_key key request.merchant_id erasable_classes safe in
    (class, id, made, erasable-IsCustomer class erasable)

erase_objects_complete :
    (env : Environment) (n : ℕ) (keys : List String) (request : DeletionRequest) (db : Db)
    → (erase_objects env n keys request db).error ≡ none
    → (erase_objects env n keys request db).erased ≡ keys
unfolding erase_objects
erase_objects_complete env n [] request db h = refl
erase_objects_complete env n (key ∷ keys) request db h =
    elim (Attempt-cases (renew_deletion_claim request (env.clock n) db)) [
      | inr (m, lost) ↦ absurd (ground arith)
      | inl ((renewed, db₁), kept) ↦ elim (Option-cases (env.storage_error key)) [
        | inr (m, failed) ↦ absurd (ground arith)
        | inl fine ↦
            rw (kept, erase_objects, fine)
              (ap (λ ks. key ∷ ks)
                (erase_objects_complete env (suc n) keys renewed db₁
                  (rw (kept, erase_objects, fine) at h)))
      ]
    ]

finish-error :
    (env : Environment) (n : ℕ) (plan : DeletionPlan) (p : Progress)
    → (finish env n plan p).error ≡ none
    → p.error ≡ none
unfolding finish
finish-error env n plan p h = ground arith

-- An attempt that follows a stored plan and meets no error has taken each object of the plan out of
-- storage, in the plan's order and no other.
pub attempt_deletion_complete :
    (env : Environment) (request : DeletionRequest) (now : Date) (db : Db) (plan : DeletionPlan)
    → parse_plan request.execution_plan ≡ some plan
    → (attempt_deletion env request now db).error ≡ none
    → (attempt_deletion env request now db).erased ≡ plan.object_keys
unfolding attempt_deletion erase
attempt_deletion_complete env request now db plan stored h =
    elim (Bool-cases (deletion_plan_keys_are_safe plan.object_keys request.merchant_id)) [
      | inr unsafe ↦ absurd (ground arith)
      | inl safe ↦
          let sound = rw (stored, attempt_deletion, safe) at h in
          rw
            (
              stored,
              attempt_deletion,
              safe,
              finish-erased env (length plan.object_keys) plan
                  (erase_objects env 0 plan.object_keys request db),
            )
            (erase_objects_complete env 0 plan.object_keys request db (
              finish-error env (length plan.object_keys) plan
                (erase_objects env 0 plan.object_keys request db) sound))
    ]
