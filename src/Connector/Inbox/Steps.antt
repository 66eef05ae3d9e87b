-- ===== src/Connector/Inbox/Steps.antt =====
-- Every step of the inbox keeps its invariant: receipt, the claim, the outcome of a claim.
use personalisation_kings.Base.{
  true, ◌&&◌, Option, some, List, [], ◌∷◌, ◌≡◌, refl, sym, ◌∙◌, ap, arith, ◌⊎◌, inl, inr, ◌==◌, ltb,
  Bool-cases, Option-cases, Memᴰ, update_many, find_many, mem-append_one, mem-find_many,
}
use personalisation_kings.Connector.Types.{RowId, Date, ConnectorEvent, Store, WebhookDelivery, Db}
use personalisation_kings.Connector.Receipt.{new_delivery, receive_connector_event}
use personalisation_kings.Connector.Receipt.Identity.{receive-cases, receive-IsAccepted}
use personalisation_kings.Connector.Inbox.{
  is_claimable, claimed, is_target, oldest, claim_connector_delivery,
}
use personalisation_kings.Connector.Inbox.Invariant.{IsInbox, claimed-IsConsistent, update-IsInbox}

oldest-mem : (ds : List WebhookDelivery) {d : WebhookDelivery} → oldest ds ≡ some d → Memᴰ d ds
unfolding oldest
oldest-mem [] h = absurd (ground arith)
oldest-mem (x ∷ xs) {d} h = elim (Option-cases (oldest xs)) [
  | inl e ↦ Memᴰ.head (ground arith)
  | inr (y, e) ↦ elim (Bool-cases (ltb y.received_at x.received_at)) [
    | inl t ↦ Memᴰ.tail (oldest-mem xs (ground arith))
    | inr f ↦ Memᴰ.head (ground arith)
  ]
]

-- Receipt keeps the inbox.
pub receive-IsInbox :
    (now : Date) (c : RowId) (e : ConnectorEvent) (db : Db)
    → IsInbox db
    → IsInbox (receive_connector_event now c e db).1
receive-IsInbox now c e db inbox = elim (receive-cases now c e db) [
  | inl same ↦ rw same inbox
  | inr (id, stored) ↦
      let a = receive-IsAccepted now c e db stored in
      rw a.added (record {
        consistent = λ d m. elim (mem-append_one db.deliveries _ m) [
          | inl old ↦ inbox.consistent d old
          | inr new ↦ rw new (ground arith)
        ];
        keyed = λ d₁ d₂ m₁ m₂ ids.
            keyed a.store d₁ d₂ ids (mem-append_one db.deliveries _ m₁)
              (mem-append_one db.deliveries _ m₂);
        allotted = λ d m. elim (mem-append_one db.deliveries _ m) [
          | inl old ↦ omega (arith, inbox.allotted d old)
          | inr new ↦ rw new (omega arith)
        ];
      })
]
  where
    keyed :
        (store : Store) (d₁ d₂ : WebhookDelivery)
        → d₁.id ≡ d₂.id
        → Memᴰ d₁ db.deliveries ⊎ (d₁ ≡ new_delivery db.next_id store e c now)
        → Memᴰ d₂ db.deliveries ⊎ (d₂ ≡ new_delivery db.next_id store e c now)
        → d₁ ≡ d₂
    keyed store d₁ d₂ ids (inl a) (inl b) = inbox.keyed d₁ d₂ a b ids
    keyed store d₁ d₂ ids (inl a) (inr b) =
        absurd (omega (arith, inbox.allotted d₁ a, ids, ap (λ (d : WebhookDelivery). d.id) b))
    keyed store d₁ d₂ ids (inr a) (inl b) =
        absurd (omega (arith, inbox.allotted d₂ b, ids, ap (λ (d : WebhookDelivery). d.id) a))
    keyed store d₁ d₂ ids (inr a) (inr b) = a ∙ sym b

-- A claim takes a claimable row of the target.
pub record IsClaim (now : Date) (token : RowId) (target : Option RowId) (db : Db)
    (d : WebhookDelivery) (db' : Db) : Type 0 where
  pub row : WebhookDelivery
  pub listed : Memᴰ row db.deliveries
  pub targeted : is_target target row ≡ true
  pub claimable : is_claimable now row ≡ true
  pub claims : d ≡ claimed now token row
  pub writes : db' ≡ record db {
    deliveries = update_many (λ r. r.id == row.id) (claimed now token) db.deliveries;
  }

pub claim_connector_delivery-IsClaim :
    (now : Date) (token : RowId) (target : Option RowId) (db : Db) {d : WebhookDelivery} {db' : Db}
    → claim_connector_delivery now token target db ≡ some (d, db')
    → IsClaim now token target db d db'
unfolding claim_connector_delivery
claim_connector_delivery-IsClaim now token target db h =
    elim (Option-cases
      (oldest (find_many (λ d. is_target target d && is_claimable now d) db.deliveries))) [
        | inl nothing ↦ absurd (ground arith)
        | inr (row, found) ↦
            let (listed, picked) = mem-find_many _ db.deliveries (oldest-mem _ found) in
            record {
              row = row;
              listed = listed;
              targeted = ground arith;
              claimable = ground arith;
              claims = ground arith;
              writes = ground arith;
            }
      ]

pub claim-IsInbox :
    {now : Date} {token : RowId} {target : Option RowId} {db : Db} {d : WebhookDelivery} {db' : Db}
    → IsClaim now token target db d db'
    → IsInbox db
    → IsInbox db'
claim-IsInbox {now} {token} {db = db} {db' = db'} c inbox =
    update-IsInbox (λ r. r.id == c.row.id) (claimed now token) db db' (λ d. refl)
      (λ d m same.
        rw (inbox.keyed d c.row m c.listed (ground arith))
          (claimed-IsConsistent now token c.row c.claimable))
      (omega (arith, ap (λ (x : Db). x.next_id) c.writes)) (ap (λ (x : Db). x.deliveries) c.writes)
      inbox
