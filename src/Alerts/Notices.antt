-- ===== src/Alerts/Notices.antt =====
-- No two notices of an alert share a version, so the unique key on the alert, the version and the
-- channel of `OperationalAlertDelivery` never refuses one that `queueAlertDelivery` of
-- apps/worker-maintenance/src/operational-checks.ts queues.
use personalisation_kings.Base.{
  find_first-Memᴰ, ℕ, ◌+◌, ◌≤◌, ◌<◌, ◌≡◌, refl, sym, ap, ◌∙◌, inl, inr, Bool, true, false, ◌&&◌,
  List, [], ◌∷◌, ◌++◌, ◌==◌, if◌then◌else◌, Memᴰ, arith, count, count_none, find_first, update_many,
  Bool-cases, Option-cases, count-append, mem-update_many, mem-append_one, find_first-some,
}
use personalisation_kings.Alerts.Evaluation.{Rule, Evaluation}
use personalisation_kings.Alerts.Synchronize.{
  Date, RowId, OperationalAlert, QueuedDelivery, AlertDb, queue_alert_delivery, new_alert,
  is_renewed, observed, resolve, synchronize_alert, synchronize_all, resolve_alerts,
  synchronize_alerts,
}

abbrev pub is_notice : RowId → ℕ → QueuedDelivery → Bool
is_notice id version d = d.alert_id == id && d.notification_version == version

pub record IsNotified (db : AlertDb) : Type 0 where
  pub keyed : (a b : OperationalAlert) → Memᴰ a db.alerts → Memᴰ b db.alerts → a.id ≡ b.id → a ≡ b
  pub allotted : (a : OperationalAlert) → Memᴰ a db.alerts → a.id < db.next_id
  pub known : (d : QueuedDelivery) → Memᴰ d db.deliveries → d.alert_id < db.next_id
  pub bounded :
      (a : OperationalAlert) (d : QueuedDelivery)
      → Memᴰ a db.alerts
      → Memᴰ d db.deliveries
      → d.alert_id ≡ a.id
      → d.notification_version ≤ a.notification_version
  pub unique : (id : RowId) (version : ℕ) → count (is_notice id version) db.deliveries ≤ 1

-- A notice of a version that is new to its alert.
unique-queued :
    (ds : List QueuedDelivery) (q : QueuedDelivery)
    → ((id : RowId) (version : ℕ) → count (is_notice id version) ds ≤ 1)
    → ((d : QueuedDelivery)
        → Memᴰ d ds
        → d.alert_id ≡ q.alert_id
        → d.notification_version < q.notification_version)
    → (id : RowId) (version : ℕ) → count (is_notice id version) (ds ++ q ∷ []) ≤ 1
unique-queued ds q one newer id version = elim (Bool-cases (is_notice id version q)) [
  | inr other ↦ ground (arith, one id version, count-append (is_notice id version) ds (q ∷ []))
  | inl same ↦
      let absent = count_none (is_notice id version) ds (λ d m. ground (arith, newer d m)) in
      ground (arith, absent, count-append (is_notice id version) ds (q ∷ []))
]

module _ (f : OperationalAlert → OperationalAlert)
    (keeps : (a : OperationalAlert) → (f a).id ≡ a.id) (id : RowId)
    (alerts : List OperationalAlert) where
  id_kept :
      {a : OperationalAlert} (x : OperationalAlert)
      → a ≡ (if x.id == id then f x else x)
      → a.id ≡ x.id
  id_kept x same = ground (arith, keeps x)

  update-keyed :
      ((a b : OperationalAlert) → Memᴰ a alerts → Memᴰ b alerts → a.id ≡ b.id → a ≡ b)
      → (a b : OperationalAlert) → Memᴰ a (update_many (λ x. x.id == id) f alerts)
      → Memᴰ b (update_many (λ x. x.id == id) f alerts)
      → a.id ≡ b.id
      → a ≡ b
  update-keyed keyed a b ma mb ids =
      let (x, mx, s₁) = mem-update_many (λ x. x.id == id) f alerts ma in
      let (y, my, s₂) = mem-update_many (λ x. x.id == id) f alerts mb in
      let same : x ≡ y = keyed x y mx my (sym (id_kept x s₁) ∙ (ids ∙ id_kept y s₂)) in
      s₁ ∙ (ap (λ z. if z.id == id then f z else z) same ∙ sym s₂)

-- A write of one alert that keeps its version.
touch-IsNotified :
    (f : OperationalAlert → OperationalAlert)
    → ((a : OperationalAlert) → (f a).id ≡ a.id)
    → ((a : OperationalAlert) → (f a).notification_version ≡ a.notification_version)
    → (id : RowId) (db : AlertDb) → IsNotified db
    → IsNotified (record db { alerts = update_many (λ x. x.id == id) f db.alerts })
touch-IsNotified f keeps same_version id db n = record {
  keyed = update-keyed f keeps id db.alerts n.keyed;
  allotted = λ a m.
      let (x, mx, same) = mem-update_many (λ x. x.id == id) f db.alerts m in
      omega (arith, n.allotted x mx, id_kept f keeps id db.alerts x same);
  known = n.known;
  bounded = λ a d ma md ids.
      let (x, mx, same) = mem-update_many (λ x. x.id == id) f db.alerts ma in
      ground (arith, n.bounded x d mx md, keeps x, same_version x);
  unique = n.unique;
}

-- A write of one alert that raises its version, and the notice of it.
renew-IsNotified :
    (f : OperationalAlert → OperationalAlert)
    → ((a : OperationalAlert) → (f a).id ≡ a.id)
    → ((a : OperationalAlert) → (f a).notification_version ≡ a.notification_version + 1)
    → (now : Date) (r : OperationalAlert) (id : RowId) (db : AlertDb) → Memᴰ r db.alerts
    → r.id ≡ id
    → IsNotified db
    → IsNotified (
        queue_alert_delivery
          (f r)
          now
          (record db { alerts = update_many (λ x. x.id == id) f db.alerts }))
unfolding queue_alert_delivery
renew-IsNotified f keeps raises now r id db mr rid n = record {
  keyed = update-keyed f keeps id db.alerts n.keyed;
  allotted = λ a m.
      let (x, mx, same) = mem-update_many (λ x. x.id == id) f db.alerts m in
      omega (arith, n.allotted x mx, id_kept f keeps id db.alerts x same);
  known = λ d m. elim (mem-append_one db.deliveries _ m) [
    | inl old ↦ n.known d old
    | inr new ↦ ground (arith, n.allotted r mr, keeps r)
  ];
  bounded = λ a d ma md ids.
      let (x, mx, same) = mem-update_many (λ x. x.id == id) f db.alerts ma in
      elim (mem-append_one db.deliveries _ md) [
        | inl old ↦ ground (arith, n.bounded x d mx old, keeps x, raises x)
        | inr new ↦
            let one : x ≡ r = n.keyed x r mx mr (ground (arith, keeps x, keeps r)) in
            ground (arith, raises x, keeps x)
      ];
  unique =
      unique-queued db.deliveries _ n.unique
        (λ d m e. ground (arith, n.bounded r d mr m, keeps r, raises r));
}

-- An alert that is new, and the notice of it.
create-IsNotified :
    (now : Date) (merchant_id : RowId) (fingerprint : ℕ) (e : Evaluation) (db : AlertDb)
    → IsNotified db
    → IsNotified (
        queue_alert_delivery (new_alert db.next_id merchant_id fingerprint e now) now (record db {
          next_id = db.next_id + 1;
          alerts = db.alerts ++ new_alert db.next_id merchant_id fingerprint e now ∷ [];
        }))
unfolding queue_alert_delivery
create-IsNotified now merchant_id fingerprint e db n = record {
  keyed = λ a b ma mb ids. elim (mem-append_one db.alerts _ ma) [
    | inl oa ↦ elim (mem-append_one db.alerts _ mb) [
      | inl ob ↦ n.keyed a b oa ob ids
      | inr nb ↦ absurd (ground (arith, n.allotted a oa))
    ]
    | inr na ↦ elim (mem-append_one db.alerts _ mb) [
      | inl ob ↦ absurd (ground (arith, n.allotted b ob))
      | inr nb ↦ na ∙ sym nb
    ]
  ];
  allotted = λ a m. elim (mem-append_one db.alerts _ m) [
    | inl old ↦ omega (arith, n.allotted a old)
    | inr new ↦ ground arith
  ];
  known = λ d m. elim (mem-append_one db.deliveries _ m) [
    | inl old ↦ omega (arith, n.known d old)
    | inr new ↦ ground arith
  ];
  bounded = λ a d ma md ids. elim (mem-append_one db.deliveries _ md) [
    | inl old ↦ elim (mem-append_one db.alerts _ ma) [
      | inl oa ↦ n.bounded a d oa old ids
      | inr na ↦ absurd (ground (arith, n.known d old))
    ]
    | inr new ↦ elim (mem-append_one db.alerts _ ma) [
      | inl oa ↦ absurd (ground (arith, n.allotted a oa))
      | inr na ↦ ground arith
    ]
  ];
  unique =
      unique-queued db.deliveries _ n.unique (λ d m same. absurd (ground (arith, n.known d m)));
}

module _ (fingerprint : RowId → Rule → ℕ) (merchant_id : RowId) (now : Date) where
  synchronize_alert-IsNotified :
      (e : Evaluation) (db : AlertDb)
      → IsNotified db
      → IsNotified (synchronize_alert fingerprint merchant_id now e db)
  unfolding synchronize_alert
  synchronize_alert-IsNotified e db n =
      elim (Option-cases (
        find_first (λ (a : OperationalAlert). a.fingerprint == fingerprint merchant_id e.rule)
          db.alerts)) [
            | inl absent ↦
                rw (absent, synchronize_alert)
                  (create-IsNotified now merchant_id (fingerprint merchant_id e.rule) e db n)
            | inr (r, found) ↦ elim (Bool-cases (is_renewed r e)) [
              | inl renewed ↦
                  rw (found, synchronize_alert, renewed)
                    (renew-IsNotified (observed true e now) (λ a. refl) (λ a. refl) now r r.id db
                      (find_first-Memᴰ _ db.alerts found) refl n)
              | inr kept ↦
                  rw (found, synchronize_alert, kept)
                    (touch-IsNotified (observed false e now) (λ a. refl) (λ a. refl) r.id db n)
            ]
          ]

  synchronize_all-IsNotified :
      (es : List Evaluation) (db : AlertDb)
      → IsNotified db
      → IsNotified (synchronize_all fingerprint merchant_id now es db)
  unfolding synchronize_all
  synchronize_all-IsNotified [] db n = n
  synchronize_all-IsNotified (e ∷ es) db n =
      synchronize_all-IsNotified es _ (synchronize_alert-IsNotified e db n)

  resolve_alerts-IsNotified :
      (rows : List OperationalAlert) (db : AlertDb)
      → IsNotified db
      → IsNotified (resolve_alerts fingerprint merchant_id now rows db)
  unfolding resolve_alerts
  resolve_alerts-IsNotified [] db n = n
  resolve_alerts-IsNotified (a ∷ rest) db n =
      elim (Option-cases (find_first (λ (r : OperationalAlert). r.id == a.id) db.alerts)) [
        | inl gone ↦ rw (gone, resolve_alerts) (resolve_alerts-IsNotified rest db n)
        | inr (r, found) ↦
            rw (found, resolve_alerts)
              (resolve_alerts-IsNotified rest _ (
                renew-IsNotified (resolve now) (λ x. refl) (λ x. refl) now r a.id db
                  (find_first-Memᴰ _ db.alerts found)
                  (ground (arith, find_first-some _ db.alerts found)) n))
      ]

  -- Bringing a merchant's alerts in line keeps the notices of each alert distinct in their
  -- version, whatever the check found.
  pub synchronize_alerts-IsNotified :
      (resolve_missing : Bool) (es : List Evaluation) (db : AlertDb)
      → IsNotified db
      → IsNotified (synchronize_alerts fingerprint merchant_id now resolve_missing es db)
  unfolding synchronize_alerts
  synchronize_alerts-IsNotified true es db n =
      resolve_alerts-IsNotified _ _ (synchronize_all-IsNotified es db n)
  synchronize_alerts-IsNotified false es db n = synchronize_all-IsNotified es db n
