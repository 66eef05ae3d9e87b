-- ===== src/Connector/Receipt/Identity.antt =====
-- What receipt promises: an event is accepted once, and its identities belong to it alone.
use personalisation_kings.Base.{
  ◌+◌, ◌≤◌, String, Bool, true, ◌&&◌, some, List, [], ◌∷◌, ◌++◌, ◌≡◌, refl, sym, ◌∙◌, ap, arith,
  ◌⊎◌, ◌==◌, ==_refl, str_eq, str_eq_iff, str_eq_refl, Bool-cases, Option-cases, inl, inr, count,
  count-append, find_first, find_many, take,
}
use mathlib.Core.Path.{ap₂}
use personalisation_kings.Connector.Types.{
  RowId, Date, ConnectorEvent, Store, is_connected, WebhookDelivery, Db,
}
use personalisation_kings.Connector.Receipt.{
  duplicate, accepted, shares_identity, answer_existing, new_delivery, record_receipt,
  receive_for_store, receive_connector_event,
}

find_many-append :
    (p : WebhookDelivery → Bool) (xs : List WebhookDelivery) (y : WebhookDelivery)
    → p y ≡ true
    → find_many p xs ≡ []
    → find_many p (xs ++ y ∷ []) ≡ y ∷ []
find_many-append p [] y py e = rw py
find_many-append p (x ∷ xs) y py e = elim (Bool-cases (p x)) [
  | inl t ↦ absurd (ground arith)
  | inr f ↦ rw f (find_many-append p xs y py (ground arith))
]

-- What an acceptance means.
pub record IsAccepted (now : Date) (correlation_id : RowId) (e : ConnectorEvent) (id : RowId)
    (db db' : Db) : Type 0 where
  pub store : Store
  pub found : find_first (λ (s : Store). s.id == e.store_id) db.stores ≡ some store
  pub is_open : is_connected store.connection_status ≡ true
  pub unseen : find_many (shares_identity store.id e) db.deliveries ≡ []
  pub id_lem : id ≡ db.next_id
  pub added : db' ≡ record db {
    next_id = db.next_id + 1;
    deliveries = db.deliveries ++ new_delivery db.next_id store e correlation_id now ∷ [];
  }

answer_existing-ne-accepted :
    (e : ConnectorEvent) (ds : List WebhookDelivery) (id : RowId)
    → answer_existing e ds ≡ accepted id
    → ⊥
unfolding answer_existing
answer_existing-ne-accepted e ds id h = ground arith

record_receipt-accepted :
    (now : Date) (c : RowId) (store : Store) (e : ConnectorEvent) (db : Db)
    (found existing : List WebhookDelivery) {id : RowId} {db' : Db}
    → take 4 found ≡ existing
    → record_receipt now c store e db existing ≡ (accepted id, db')
    → (found ≡ [])
      × (id ≡ db.next_id)
      × (db' ≡ record db {
        next_id = db.next_id + 1;
        deliveries = db.deliveries ++ new_delivery db.next_id store e c now ∷ [];
      })
unfolding record_receipt
record_receipt-accepted now c store e db found (d ∷ ds) {id = id} t h =
    absurd (answer_existing-ne-accepted e (d ∷ ds) id (ap (λ p. p.0) h))
record_receipt-accepted now c store e db [] [] t h = (refl, ground arith, ground arith)
record_receipt-accepted now c store e db (x ∷ xs) [] t h = absurd (ground arith)

module _ (now : Date) (c : RowId) (e : ConnectorEvent) (db : Db) where
  -- A receipt for a store that is known and connected.
  receive_open :
      (store : Store)
      → find_first (λ (s : Store). s.id == e.store_id) db.stores ≡ some store
      → is_connected store.connection_status ≡ true
      → receive_connector_event now c e db ≡ receive_for_store now c store e db
  unfolding receive_connector_event
  receive_open store found is_open = rw (found, receive_connector_event, is_open)

  pub receive-IsAccepted :
      {id : RowId} {db' : Db}
      → receive_connector_event now c e db ≡ (accepted id, db')
      → IsAccepted now c e id db db'
  unfolding receive_connector_event receive_for_store
  receive-IsAccepted h =
      elim (Option-cases (find_first (λ (s : Store). s.id == e.store_id) db.stores)) [
        | inl absent ↦ absurd (ground arith)
        | inr (store, found) ↦ elim (Bool-cases (is_connected store.connection_status)) [
          | inr shut ↦ absurd (ground arith)
          | inl is_open ↦
              let (unseen, at, added) =
                record_receipt-accepted now c store e db
                  (find_many (shares_identity store.id e) db.deliveries) _ refl
                  (sym (receive_open store found is_open) ∙ h) in
              record {
                store = store;
                found = found;
                is_open = is_open;
                unseen = unseen;
                id_lem = at;
                added = added;
              }
        ]
      ]

-- The answer to an event that the delivery of its first receipt matches.
answer_existing_self :
    (id : RowId) (store : Store) (e : ConnectorEvent) (c : RowId) (now : Date)
    → answer_existing e (new_delivery id store e c now ∷ []) ≡ duplicate id
unfolding answer_existing
answer_existing_self id store e c now = ground (
  arith,
  str_eq_refl e.event_id,
  str_eq_refl e.payload.idempotency_key,
  str_eq_refl e.nonce,
  str_eq_refl e.content_digest,
)

-- An event that is received again is answered as a duplicate of its first receipt, and nothing
-- is stored.
pub receive-duplicate :
    (now now' : Date) (c c' : RowId) (e : ConnectorEvent) (db : Db) {id : RowId} {db' : Db}
    → receive_connector_event now c e db ≡ (accepted id, db')
    → receive_connector_event now' c' e db' ≡ (duplicate id, db')
unfolding receive_for_store record_receipt
receive-duplicate now now' c c' e db {id} {db'} h =
    let a = receive-IsAccepted now c e db h in
    let again : find_many (shares_identity a.store.id e) db'.deliveries
        ≡ new_delivery db.next_id a.store e c now ∷ [] =
      ap (λ (d : Db). find_many (shares_identity a.store.id e) d.deliveries) a.added
      ∙ find_many-append (shares_identity a.store.id e) db.deliveries
          (new_delivery db.next_id a.store e c now)
          (rw (==_refl a.store.id, str_eq_refl e.event_id)) a.unseen in
    let known : find_first (λ (s : Store). s.id == e.store_id) db'.stores ≡ some a.store =
      ap (λ (d : Db). find_first (λ (s : Store). s.id == e.store_id) d.stores) a.added ∙ a.found in
    receive_open now' c' e db' a.store known a.is_open
    ∙ (ap (λ ds. record_receipt now' c' a.store e db' (take 4 ds)) again
        ∙ ap (λ r. (r, db'))
            (answer_existing_self db.next_id a.store e c now ∙ ap duplicate (sym a.id_lem)))

-- The text by which a delivery is known, in one of the three identity columns.
pub data Identity : Type 0 where
  by_event by_key by_nonce : Identity

abbrev pub identity_of : Identity → WebhookDelivery → String
identity_of by_event d = d.event_id
identity_of by_key d = d.idempotency_key
identity_of by_nonce d = d.nonce

abbrev pub known_by : Identity → RowId → String → WebhookDelivery → Bool
known_by i store_id x d = d.store_id == store_id && str_eq (identity_of i d) x

-- The three unique indexes: no identity of a store belongs to two deliveries.
abbrev pub IsUnique : Db → Type 0
IsUnique db =
    (i : Identity) (store_id : RowId) (x : String) → count (known_by i store_id x) db.deliveries ≤ 1

-- A delivery that no row shares an identity with is the first of each of its own.
unseen-count :
    (i : Identity) (store : Store) (e : ConnectorEvent) (id c : RowId) (now : Date)
    (ds : List WebhookDelivery)
    → find_many (shares_identity store.id e) ds ≡ []
    → count (known_by i store.id (identity_of i (new_delivery id store e c now))) ds ≡ 0
unseen-count i store e id c now [] h = refl
unseen-count i store e id c now (d ∷ ds) h = elim (Bool-cases (shares_identity store.id e d)) [
  | inl t ↦ absurd (ground arith)
  | inr f ↦ ground (arith, unseen-count i store e id c now ds)
]

count-one :
    (i : Identity) (store_id : RowId) (x : String) (ds : List WebhookDelivery) (d : WebhookDelivery)
    → count (known_by i d.store_id (identity_of i d)) ds ≡ 0
    → count (known_by i store_id x) ds ≤ 1
    → count (known_by i store_id x) (ds ++ d ∷ []) ≤ 1
count-one i store_id x ds d none_before before = elim (Bool-cases (known_by i store_id x d)) [
  | inr f ↦ rw (count-append (known_by i store_id x) ds (d ∷ []), f) (omega (arith, before))
  | inl t ↦
      let same_store : d.store_id ≡ store_id = ground arith in
      let same_text : identity_of i d ≡ x = ground (arith, str_eq_iff (identity_of i d) x) in
      let zero_before : count (known_by i store_id x) ds ≡ 0 =
        ap₂ (λ s y. count (known_by i s y) ds) (sym same_store) (sym same_text) ∙ none_before in
      rw (count-append (known_by i store_id x) ds (d ∷ []), t) (omega (arith, zero_before))
]

record_receipt-cases :
    (now : Date) (c : RowId) (store : Store) (e : ConnectorEvent) (db : Db)
    (existing : List WebhookDelivery)
    → ((record_receipt now c store e db existing).1 ≡ db)
      ⊎ ((id : RowId) × (record_receipt now c store e db existing
            ≡ (accepted id, (record_receipt now c store e db existing).1)))
unfolding record_receipt
record_receipt-cases now c store e db (d ∷ ds) = inl refl
record_receipt-cases now c store e db [] = inr (db.next_id, refl)

-- A receipt stores nothing unless it accepts.
pub receive-cases :
    (now : Date) (c : RowId) (e : ConnectorEvent) (db : Db)
    → ((receive_connector_event now c e db).1 ≡ db)
      ⊎ ((id : RowId) × (receive_connector_event now c e db
            ≡ (accepted id, (receive_connector_event now c e db).1)))
unfolding receive_for_store
receive-cases now c e db =
    elim (Option-cases (find_first (λ (s : Store). s.id == e.store_id) db.stores)) [
      | inl absent ↦ inl (unfold receive_connector_event in rw (absent, receive_connector_event))
      | inr (store, found) ↦ elim (Bool-cases (is_connected store.connection_status)) [
        | inr shut ↦
            inl (unfold receive_connector_event in rw (found, receive_connector_event, shut))
        | inl is_open ↦
            rw (receive_open now c e db store found is_open)
              (record_receipt-cases now c store e db _)
      ]
    ]

-- Receipt keeps the three identities of a store's deliveries unique, whatever it answers.
pub receive-IsUnique :
    (now : Date) (c : RowId) (e : ConnectorEvent) (db : Db)
    → IsUnique db
    → IsUnique (receive_connector_event now c e db).1
receive-IsUnique now c e db u = elim (receive-cases now c e db) [
  | inl same ↦ rw same u
  | inr (id, stored) ↦
      let a = receive-IsAccepted now c e db stored in
      λ i store_id x. rw a.added (
        count-one i store_id x db.deliveries (new_delivery db.next_id a.store e c now)
          (unseen-count i a.store e db.next_id c now db.deliveries a.unseen) (u i store_id x))
]
