-- ===== src/Connector/Inbox/Worker.antt =====
-- One call of the worker, and what becomes of a delivery that cannot be processed.
use mathlib.Core.Path.{subst}
use personalisation_kings.Base.{
  ℕ, ◌+◌, ◌≤◌, ◌<◌, true, Option, some, ◌≡◌, refl, ap, arith, ◌⊎◌, inl, inr, ◌==◌, Bool-cases,
  Option-cases, Memᴰ, update_many, find_first, mem-update_many,
}
use personalisation_kings.Connector.Types.{
  RowId, Date, WebhookDelivery, WebhookDeliveryStatus, ProcessingError, claim_lost, Db,
}
use personalisation_kings.Connector.Result.{Result, ok, err}
use personalisation_kings.Connector.Process.Transaction.{Outcome, holds_claim, completed}
use personalisation_kings.Connector.Process.Claims.{process-deliveries, process-later}
use personalisation_kings.Connector.Inbox.{
  stale_claim_ms, is_valid_event, is_claimable, claimed, released, claim_connector_delivery,
  process_claimed_delivery, settle_failure, settle, process_next_delivery,
}
use personalisation_kings.Connector.Inbox.Invariant.{
  IsInbox, completed-IsConsistent, released-IsConsistent, update-IsInbox,
}
use personalisation_kings.Connector.Inbox.Steps.{
  IsClaim, claim_connector_delivery-IsClaim, claim-IsInbox,
}

process_claimed-deliveries :
    (now : Date) (fault : Option ProcessingError) (id token : RowId) (db : Db) {o : Outcome}
    {db' : Db}
    → process_claimed_delivery now fault id token db ≡ ok (o, db')
    → (db'.deliveries ≡ update_many (holds_claim id token) (completed now) db.deliveries)
      × (db.next_id ≤ db'.next_id)
unfolding process_claimed_delivery
process_claimed-deliveries now fault id token db h =
    elim (Option-cases (find_first (λ (d : WebhookDelivery). d.id == id) db.deliveries)) [
      | inl absent ↦ absurd (ground arith)
      | inr (d, found) ↦ elim (Bool-cases (is_valid_event d.raw_payload)) [
        | inr bad ↦ absurd (ground arith)
        | inl good ↦ elim (Option-cases fault) [
          | inr (x, failed) ↦ absurd (ground arith)
          | inl sound ↦
              let ran = rw (found, process_claimed_delivery, good, sound) at h in
              (
                (process-deliveries now id token _ d.raw_payload db ran).1,
                process-later now id token _ d.raw_payload db ran,
              )
        ]
      ]
    ]

settle_failure-cases :
    (now : Date) (e : ProcessingError) (id token : RowId) (attempts : ℕ) (db : Db)
    → ((settle_failure now e id token attempts db).1 ≡ db)
      ⊎ ((settle_failure now e id token attempts db).1 ≡ record db {
        deliveries = update_many (holds_claim id token) (released now e attempts) db.deliveries;
      })
unfolding settle_failure
settle_failure-cases now claim_lost id token attempts db = inl refl
settle_failure-cases now _ id token attempts db = inr refl

module _ (now : Date) (id token : RowId) (attempts : ℕ) (db : Db)
    (counted : (d : WebhookDelivery)
      → Memᴰ d db.deliveries
      → holds_claim id token d ≡ true
      → d.attempts ≡ attempts) where
  settle_failure-IsInbox :
      (e : ProcessingError) → IsInbox db → IsInbox (settle_failure now e id token attempts db).1
  settle_failure-IsInbox e inbox = elim (settle_failure-cases now e id token attempts db) [
    | inl same ↦ rw same inbox
    | inr wrote ↦
        update-IsInbox (holds_claim id token) (released now e attempts) db _ (λ d. refl)
          (λ d m held.
            rw (← counted d m held)
              (released-IsConsistent now e d (ground arith) (inbox.consistent d m)))
          (omega (arith, ap (λ (x : Db). x.next_id) wrote)) (ap (λ (x : Db). x.deliveries) wrote)
          inbox
  ]

  settle-IsInbox :
      (fault : Option ProcessingError)
      → IsInbox db
      → (r : Result (Outcome × Db)) → process_claimed_delivery now fault id token db ≡ r
      → IsInbox (settle now id token attempts r db).1
  unfolding settle
  settle-IsInbox fault inbox (err e) h = settle_failure-IsInbox e inbox
  settle-IsInbox fault inbox (ok (o, db')) h =
      let (writes, later) = process_claimed-deliveries now fault id token db h in
      update-IsInbox (holds_claim id token) (completed now) db db' (λ d. refl)
        (λ d m held. completed-IsConsistent now d) later writes inbox

-- The row of a claim is the only row under its key, so it is the one that is settled.
claim-counted :
    {now : Date} {token : RowId} {target : Option RowId} {db : Db} {d : WebhookDelivery} {db' : Db}
    → IsClaim now token target db d db'
    → IsInbox db
    → (r : WebhookDelivery) → Memᴰ r db'.deliveries
    → holds_claim d.id token r ≡ true
    → r.attempts ≡ d.attempts
claim-counted {now} {token} {db = db} {d} c inbox r m held =
    let (x, mx, same) =
      mem-update_many (λ y. y.id == c.row.id) (claimed now token) db.deliveries
        (subst (Memᴰ r) (ap (λ (z : Db). z.deliveries) c.writes) m) in
    let key : x.id ≡ c.row.id = ground (arith, c.claims) in
    let one : x ≡ c.row = inbox.keyed x c.row mx c.listed key in ground (arith, c.claims)

-- A call of the worker keeps the inbox, whatever the call meets: nothing to claim, an event that is
-- processed or stale, an error of the transaction, or a fault of the database.
pub process_next-IsInbox :
    (now : Date) (token : RowId) (fault : Option ProcessingError) (target : Option RowId) (db : Db)
    → IsInbox db
    → IsInbox (process_next_delivery now token fault target db).1
unfolding process_next_delivery
process_next-IsInbox now token fault target db inbox =
    elim (Option-cases (claim_connector_delivery now token target db)) [
      | inl nothing ↦ rw (nothing, process_next_delivery) inbox
      | inr ((d, db₁), claims) ↦
          let c = claim_connector_delivery-IsClaim now token target db claims in
          rw (claims, process_next_delivery)
            (settle-IsInbox now d.id token d.attempts db₁ (claim-counted c inbox) fault
              (claim-IsInbox c inbox) _ refl)
    ]

-- No delivery is stuck: one that is neither processed nor failed can be claimed once its retry
-- time has come or its claim has gone stale.
pub unfinished-claimable :
    (db : Db) (d : WebhookDelivery) (now : Date)
    → IsInbox db
    → Memᴰ d db.deliveries
    → ((d.status ≡ WebhookDeliveryStatus.pending) × (d.next_attempt_at ≤ now))
      ⊎ ((d.status ≡ WebhookDeliveryStatus.processing)
          × ((at : Date) → d.claimed_at ≡ some at → at + stale_claim_ms < now))
    → is_claimable now d ≡ true
unfinished-claimable db d now inbox m (inl (waits, due)) = ground (arith, inbox.consistent d m)
unfinished-claimable db d now inbox m (inr (taken, old)) = elim (Option-cases d.claimed_at) [
  | inl no_claim ↦ ground (arith, inbox.consistent d m)
  | inr (at, claim) ↦ ground (arith, inbox.consistent d m, old at claim)
]
