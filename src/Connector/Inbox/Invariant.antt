-- ===== src/Connector/Inbox/Invariant.antt =====
-- What holds of every inbox row between the steps of the workers.
use personalisation_kings.Base.{
  ◌≤◌, ◌<◌, Bool, true, none, ◌≡◌, sym, ◌∙◌, ap, arith, inl, inr, if◌then◌else◌, is_some,
  Bool-cases, Memᴰ, update_many, mem-update_many,
}
use mathlib.Core.Path.{subst}
use personalisation_kings.Connector.Types.{
  RowId, Date, WebhookDelivery, WebhookDeliveryStatus, is_processing, ProcessingError, Db,
}
use personalisation_kings.Connector.Process.Transaction.{completed}
use personalisation_kings.Connector.Inbox.{maximum_attempts, is_claimable, claimed, released}

-- A row in each of its states.
pub record IsConsistent (d : WebhookDelivery) : Type 0 where
  pub pending_row :
      d.status ≡ WebhookDeliveryStatus.pending
      → (d.attempts < maximum_attempts)
        × (d.claim_token ≡ none)
        × (d.processed_at ≡ none)
        × (d.failed_at ≡ none)
  pub processing_row :
      d.status ≡ WebhookDeliveryStatus.processing
      → (is_some d.claim_token ≡ true)
        × (is_some d.claimed_at ≡ true)
        × (d.processed_at ≡ none)
        × (d.failed_at ≡ none)
  pub processed_row :
      d.status ≡ WebhookDeliveryStatus.processed
      → (is_some d.processed_at ≡ true) × (d.claim_token ≡ none)
  pub failed_row :
      d.status ≡ WebhookDeliveryStatus.failed
      → (is_some d.failed_at ≡ true) × (d.claim_token ≡ none)

-- The rows are consistent, and keys name one row each and were allotted.
pub record IsInbox (db : Db) : Type 0 where
  pub consistent : (d : WebhookDelivery) → Memᴰ d db.deliveries → IsConsistent d
  pub keyed :
      (d e : WebhookDelivery) → Memᴰ d db.deliveries → Memᴰ e db.deliveries → d.id ≡ e.id → d ≡ e
  pub allotted : (d : WebhookDelivery) → Memᴰ d db.deliveries → d.id < db.next_id

pub claimed-IsConsistent :
    (now : Date) (token : RowId) (d : WebhookDelivery)
    → is_claimable now d ≡ true
    → IsConsistent (claimed now token d)
claimed-IsConsistent now token d h = ground arith

pub completed-IsConsistent : (now : Date) (d : WebhookDelivery) → IsConsistent (completed now d)
completed-IsConsistent now d = ground arith

pub released-IsConsistent :
    (now : Date) (e : ProcessingError) (d : WebhookDelivery)
    → is_processing d.status ≡ true
    → IsConsistent d
    → IsConsistent (released now e d.attempts d)
released-IsConsistent now e d held c = ground arith

-- A write that keeps keys, and keeps the rows that it selects consistent, keeps the inbox.
pub update-IsInbox :
    (p : WebhookDelivery → Bool) (f : WebhookDelivery → WebhookDelivery) (db db' : Db)
    → ((d : WebhookDelivery) → (f d).id ≡ d.id)
    → ((d : WebhookDelivery) → Memᴰ d db.deliveries → p d ≡ true → IsConsistent (f d))
    → db.next_id ≤ db'.next_id
    → db'.deliveries ≡ update_many p f db.deliveries
    → IsInbox db
    → IsInbox db'
update-IsInbox p f db db' keeps good later e inbox = record {
  consistent = λ d m.
      let (x, mx, same) = mem-update_many p f db.deliveries (subst (Memᴰ d) e m) in
      elim (Bool-cases (p x)) [
        | inl t ↦ rw (same, t) (good x mx t)
        | inr n ↦ rw (same, n) (inbox.consistent x mx)
      ];
  keyed = λ d₁ d₂ m₁ m₂ ids.
      let (x, mx, s₁) = mem-update_many p f db.deliveries (subst (Memᴰ d₁) e m₁) in
      let (y, my, s₂) = mem-update_many p f db.deliveries (subst (Memᴰ d₂) e m₂) in
      let same : x ≡ y = inbox.keyed x y mx my (sym (id_kept x s₁) ∙ (ids ∙ id_kept y s₂)) in
      s₁ ∙ (ap (λ z. if p z then f z else z) same ∙ sym s₂);
  allotted = λ d m.
      let (x, mx, same) = mem-update_many p f db.deliveries (subst (Memᴰ d) e m) in
      omega (arith, inbox.allotted x mx, id_kept x same);
}
  where
    id_kept :
        {d : WebhookDelivery} (x : WebhookDelivery) → d ≡ (if p x then f x else x) → d.id ≡ x.id
    id_kept x same = ground (arith, keeps x)
