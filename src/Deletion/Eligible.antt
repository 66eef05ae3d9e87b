-- ===== src/Deletion/Eligible.antt =====
-- Which uploads `prepareDeletion` of apps/worker-maintenance/src/deletion.ts finds eligible.
use personalisation_kings.Base.{
  ◌≡◌, ◌≢◌, refl, inl, inr, Bool, true, false, ◌&&◌, ◌||◌, List, [], ◌∷◌, String, str_eq,
  str_eq_iff, All, any, if◌then◌else◌, map, arith, find_many, count, ◌==◌, Bool-cases, &&-true,
  Memᴰ,
}
use personalisation_kings.Deletion.Json.{has, json_contains_exact, Occurs, Occurs-contains}
use personalisation_kings.Deletion.Plan.{DeletionPlan}
use personalisation_kings.Deletion.Tables.{
  Date, DeletionRequest, Db, AssetVersion, DesignVersion, Snapshot, Session, member, SessionStatus,
  Revision, is_in_production,
}
use personalisation_kings.Deletion.Prepare.{
  Attempt, done, holds_claim, is_source, Prepared, planned, block_request, close_request,
  is_affected, is_bound, is_ordered, decide, prepare_deletion,
}

-- The ids of the live versions that a request names.
abbrev pub source_ids : DeletionRequest → Db → List String
source_ids request db =
    map (λ (v : AssetVersion). v.id) (find_many (is_source request db.assets) db.versions)

any-none : {A : Type 0} (p : A → Bool) (xs : List A) → any p xs ≡ false → All (λ x. p x ≡ false) xs
any-none p [] h = tt
any-none p (x ∷ xs) h = (ground arith, any-none p xs (ground arith))

any-find_many :
    {A : Type 0} (p q : A → Bool) (xs : List A)
    → any q (find_many p xs) ≡ false
    → All (λ x. p x ≡ true → q x ≡ false) xs
any-find_many p q [] h = tt
any-find_many p q (x ∷ xs) h = elim (Bool-cases (p x)) [
  | inl t ↦
      let both : (q x || any q (find_many p xs)) ≡ false = rw (t, any) at h in
      (λ _. ground arith, any-find_many p q xs (ground arith))
  | inr f ↦ (λ t. absurd (ground arith), any-find_many p q xs (rw (f, any) at h))
]

block-not_planned :
    (request : DeletionRequest) (reason : String) (db : Db) {plan : DeletionPlan} {db' : Db}
    → block_request request reason db ≢ done (planned plan, db')
unfolding block_request
block-not_planned request reason db h = ground arith

close-not_planned :
    (request : DeletionRequest) (now : Date) (db : Db) {plan : DeletionPlan} {db' : Db}
    → close_request request now db ≢ done (planned plan, db')
unfolding close_request
close-not_planned request now db h = ground arith

map-All :
    {A : Type 0} (P Q : A → Type 0) → ((x : A) → P x → Q x) → (xs : List A) → All P xs → All Q xs
map-All P Q f [] h = tt
map-All P Q f (x ∷ xs) (h, hs) = (f x h, map-All P Q f xs hs)

-- What follows from a test holds of the rows that the test selects.
All-selected :
    {A : Type 0} (P Q : A → Type 0) (p : A → Bool)
    → ((x : A) → P x → p x ≡ true → Q x)
    → (xs : List A) → All P xs
    → All Q (find_many p xs)
All-selected P Q p f [] h = tt
All-selected P Q p f (x ∷ xs) (h, hs) = elim (Bool-cases (p x)) [
  | inl t ↦ rw t (f x h t, All-selected P Q p f xs hs)
  | inr e ↦ rw e (All-selected P Q p f xs hs)
]

-- What the test of `ordered` denies: the session is not in production, and none of its revisions
-- has a line item or is that of an artwork snapshot.
pub record IsUnordered (db : Db) (s : Session) : Type 0 where
  pub unordered : s.status ≢ SessionStatus.ordered
  pub unready : s.status ≢ SessionStatus.ready
  pub unreviewed : s.status ≢ SessionStatus.needs_review
  pub unbound :
      All
        (λ (r : Revision).
          (¬ (Memᴰ r.id db.ordered_revisions))
          × All (λ (x : Snapshot). x.customisation_revision_id ≢ r.id) db.snapshots)
        (find_many (λ (r : Revision). str_eq r.session_id s.id) db.revisions)

member-absent : (ids : List String) (id : String) → member ids id ≡ false → ¬ (Memᴰ id ids)
member-absent [] id h m = elim m [ ]
member-absent (x ∷ ids) id h (Memᴰ.head e) = ground (arith, str_eq_iff x id, str_eq_iff id x)
member-absent (x ∷ ids) id h (Memᴰ.tail m) = member-absent ids id (ground arith) m

different_status :
    (s t : SessionStatus) → is_in_production s ≡ false → is_in_production t ≡ true → s ≢ t
different_status s t h k e = ground arith

is_bound-unbound :
    (db : Db) (r : Revision)
    → is_bound db r ≡ false
    → (¬ (Memᴰ r.id db.ordered_revisions))
      × All (λ (x : Snapshot). x.customisation_revision_id ≢ r.id) db.snapshots
is_bound-unbound db r h = (
  member-absent db.ordered_revisions r.id (ground arith),
  map-All (λ (x : Snapshot). str_eq x.customisation_revision_id r.id ≡ false)
      (λ (x : Snapshot). x.customisation_revision_id ≢ r.id)
      (λ x d same. ground (arith, str_eq_iff x.customisation_revision_id r.id)) db.snapshots
      (any-none _ db.snapshots (ground arith)),
)

is_ordered-IsUnordered : (db : Db) (s : Session) → is_ordered db s ≡ false → IsUnordered db s
is_ordered-IsUnordered db s h = record {
  unordered = different_status s.status SessionStatus.ordered (ground arith) refl;
  unready = different_status s.status SessionStatus.ready (ground arith) refl;
  unreviewed = different_status s.status SessionStatus.needs_review (ground arith) refl;
  unbound =
      map-All (λ (r : Revision). is_bound db r ≡ false) _ (is_bound-unbound db)
        (find_many (λ (r : Revision). str_eq r.session_id s.id) db.revisions)
        (any-none (is_bound db) _ (ground arith));
}

three_checks :
    {A : Type 0} (a b c : Bool) (x y z w t : A)
    → (if a then x else if b then y else if c then z else w) ≡ t
    → x ≢ t
    → y ≢ t
    → z ≢ t
    → (a ≡ false) × (b ≡ false) × (c ≡ false)
three_checks true b c x y z w t h nx ny nz = absurd (nx h)
three_checks false true c x y z w t h nx ny nz = absurd (ny h)
three_checks false false true x y z w t h nx ny nz = absurd (nz h)
three_checks false false false x y z w t h nx ny nz = (refl, refl, refl)

module _ (request : DeletionRequest) (now : Date) (db : Db) where
  abbrev in_design : List String → DesignVersion → Bool
  in_design ids d =
      str_eq d.merchant_id request.merchant_id && json_contains_exact ids d.scene_graph

  abbrev in_snapshot : List String → Snapshot → Bool
  in_snapshot ids x = str_eq x.merchant_id request.merchant_id && json_contains_exact ids x.snapshot

  abbrev affected : List String → List Session
  affected ids =
      find_many
        (λ (s : Session).
          str_eq s.merchant_id request.merchant_id && is_affected ids db.revisions s)
        db.sessions

  decide-checks :
      (sources : List AssetVersion) {plan : DeletionPlan} {db' : Db}
      → decide request now sources db ≡ done (planned plan, db')
      → (any (in_design (map (λ (v : AssetVersion). v.id) sources)) db.designs ≡ false)
        × (any (in_snapshot (map (λ (v : AssetVersion). v.id) sources)) db.snapshots ≡ false)
        × (any (is_ordered db) (affected (map (λ (v : AssetVersion). v.id) sources)) ≡ false)
  unfolding decide
  decide-checks sources h =
      three_checks _ _ _ _ _ _ _ _ h (block-not_planned request _ db)
        (block-not_planned request _ db) (block-not_planned request _ db)

  prepare-checks :
      {plan : DeletionPlan} {db' : Db}
      → prepare_deletion request now db ≡ done (planned plan, db')
      → (any (in_design (source_ids request db)) db.designs ≡ false)
        × (any (in_snapshot (source_ids request db)) db.snapshots ≡ false)
        × (any (is_ordered db) (affected (source_ids request db)) ≡ false)
  unfolding prepare_deletion
  prepare-checks {plan} {db'} h = elim (Bool-cases (count (holds_claim request) db.requests == 1)) [
    | inr lost ↦ absurd (ground arith)
    | inl held ↦
        go (find_many (is_source request db.assets) db.versions) (rw (held, if◌then◌else◌) at h)
  ]
    where
      go :
          (sources : List AssetVersion)
          → (elim sources as (λ _. Attempt (Prepared × Db)) [
            | [] ↦ close_request request now db
            | ◌∷◌ v vs ↦ decide request now (v ∷ vs) db
          ])
            ≡ done (planned plan, db')
          → (any (in_design (map (λ (v : AssetVersion). v.id) sources)) db.designs ≡ false)
            × (any (in_snapshot (map (λ (v : AssetVersion). v.id) sources)) db.snapshots ≡ false)
            × (any (is_ordered db) (affected (map (λ (v : AssetVersion). v.id) sources)) ≡ false)
      go [] e = absurd (close-not_planned request now db e)
      go (v ∷ vs) e = decide-checks (v ∷ vs) e

  eligible_rows :
      {plan : DeletionPlan} {db' : Db} (id : String)
      → prepare_deletion request now db ≡ done (planned plan, db')
      → has (source_ids request db) id ≡ true
      → All
          (λ (d : DesignVersion). d.merchant_id ≡ request.merchant_id → ¬ (Occurs id d.scene_graph))
          db.designs
        × All
            (λ (x : Snapshot). x.merchant_id ≡ request.merchant_id → ¬ (Occurs id x.snapshot))
            db.snapshots
        × All
            (λ (s : Session).
              s.merchant_id ≡ request.merchant_id
              → is_affected (source_ids request db) db.revisions s ≡ true
              → is_ordered db s ≡ false)
            db.sessions
  eligible_rows id h m =
      let (designs, snapshots, sessions) = prepare-checks h in
      (
        map-All _ _
            (λ d e own o. ground (
              arith,
              str_eq_iff d.merchant_id request.merchant_id,
              Occurs-contains _ id m d.scene_graph o,
            ))
            db.designs (any-none _ db.designs designs),
        map-All _ _
            (λ d e own o. ground (
              arith,
              str_eq_iff d.merchant_id request.merchant_id,
              Occurs-contains _ id m d.snapshot o,
            ))
            db.snapshots (any-none _ db.snapshots snapshots),
        map-All _ _ (λ s e own a. e (ground (arith, str_eq_iff s.merchant_id request.merchant_id)))
            db.sessions (any-find_many _ _ db.sessions sessions),
      )

  -- Preparation plans an erasure only if no live version that the request names is named, at any
  -- depth, in a design version or an artwork snapshot of the merchant, and no session of the
  -- merchant that names one of those versions is ordered, ready or in review, or has a revision
  -- with a line item or an artwork snapshot. Of the derived versions, which the plan erases too,
  -- nothing is said.
  pub prepare_deletion-eligible :
      {plan : DeletionPlan} {db' : Db} (id : String)
      → prepare_deletion request now db ≡ done (planned plan, db')
      → has (source_ids request db) id ≡ true
      → All
          (λ (d : DesignVersion). ¬ (Occurs id d.scene_graph))
          (find_many (λ (d : DesignVersion). str_eq d.merchant_id request.merchant_id) db.designs)
        × All
            (λ (x : Snapshot). ¬ (Occurs id x.snapshot))
            (find_many (λ (x : Snapshot). str_eq x.merchant_id request.merchant_id) db.snapshots)
        × All (IsUnordered db) (
            find_many
              (λ (s : Session).
                str_eq s.merchant_id request.merchant_id
                && is_affected (source_ids request db) db.revisions s)
              db.sessions)
  prepare_deletion-eligible id h m =
      let (designs, snapshots, sessions) = eligible_rows id h m in
      (
        All-selected _ _ _ (λ d e own. e ((str_eq_iff _ _).0 own)) db.designs designs,
        All-selected _ _ _ (λ x e own. e ((str_eq_iff _ _).0 own)) db.snapshots snapshots,
        All-selected _ _ _
            (λ s e both.
              let (own, named) = &&-true _ _ both in
              is_ordered-IsUnordered db s (e ((str_eq_iff _ _).0 own) named))
            db.sessions sessions,
      )
