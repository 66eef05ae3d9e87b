-- ===== src/Connector/Process/Transitions.antt =====
-- What the lifecycle loops do to the print jobs of an order.
use mathlib.Core.List.{Memᴰ}
use personalisation_kings.Base.{
  Bool, true, none, some, List, [], ◌∷◌, ◌≡◌, refl, ◌∙◌, ap, arith, if◌then◌else◌, ◌==◌, ◌⊎◌, inl,
  inr, Bool-cases, update_many, find_many, map, All,
}
use personalisation_kings.Connector.Types.{RowId, PrintJobStatus, PrintJobNote, PrintJob}
use personalisation_kings.Connector.Ordering.{print_job_lifecycle_transition}
use personalisation_kings.Connector.Process.Lifecycle.{
  is_needs_review, apply_transition, apply_transitions,
}

-- A print job that will not be produced unless someone looks at it.
abbrev pub IsStopped : PrintJobStatus → Type 0
IsStopped s = (s ≡ PrintJobStatus.cancelled) ⊎ (s ≡ PrintJobStatus.needs_review)

module _ (after before : PrintJobNote) where
  -- One round, at one row.
  abbrev pub touch : PrintJob → PrintJob → PrintJob
  touch job r = elim (print_job_lifecycle_transition job.status) [
    | none ↦ r
    | some next ↦
        if r.id == job.id
        then record r {
          status = next;
          last_error = some (if is_needs_review next then after else before);
        }
        else r
  ]

  pub touch_all : List PrintJob → PrintJob → PrintJob
  touch_all [] r = r
  touch_all (j ∷ js) r = touch_all js (touch j r)

  update_many-map :
      (p : PrintJob → Bool) (f : PrintJob → PrintJob) (rows : List PrintJob)
      → update_many p f rows ≡ map (λ r. if p r then f r else r) rows
  update_many-map p f [] = refl
  update_many-map p f (r ∷ rows) = ap (λ t. (if p r then f r else r) ∷ t) (update_many-map p f rows)

  map_id : (rows : List PrintJob) → rows ≡ map (λ r. r) rows
  map_id [] = refl
  map_id (r ∷ rows) = ap (λ t. r ∷ t) (map_id rows)

  map-map :
      (f g : PrintJob → PrintJob) (rows : List PrintJob)
      → map f (map g rows) ≡ map (λ r. f (g r)) rows
  map-map f g [] = refl
  map-map f g (r ∷ rows) = ap (λ t. f (g r) ∷ t) (map-map f g rows)

  apply_transition-map :
      (job : PrintJob) (rows : List PrintJob)
      → apply_transition after before job rows ≡ map (touch job) rows
  unfolding apply_transition print_job_lifecycle_transition
  apply_transition-map job [] = ground arith
  apply_transition-map job (r ∷ rows) = ground (arith, apply_transition-map job rows)

  pub apply_transitions-map :
      (js rows : List PrintJob) → apply_transitions after before js rows ≡ map (touch_all js) rows
  unfolding apply_transitions touch_all
  apply_transitions-map [] rows = map_id rows
  apply_transitions-map (j ∷ js) rows =
      ap (apply_transitions after before js) (apply_transition-map j rows)
      ∙ (apply_transitions-map js (map (touch j) rows) ∙ map-map (touch_all js) (touch j) rows)

  -- The rows keep their order, their keys and their snapshots.
  pub touch_all-keeps :
      (js : List PrintJob) (r : PrintJob)
      → ((touch_all js r).id ≡ r.id)
        × ((touch_all js r).order_id ≡ r.order_id)
        × ((touch_all js r).artwork_snapshot_id ≡ r.artwork_snapshot_id)
  unfolding touch_all print_job_lifecycle_transition
  touch_all-keeps [] r = (refl, refl, refl)
  touch_all-keeps (j ∷ js) r = ground (arith, touch_all-keeps js (touch j r))

  touch-IsStopped : (job r : PrintJob) → IsStopped r.status → IsStopped (touch job r).status
  unfolding print_job_lifecycle_transition
  touch-IsStopped job r h = ground arith

  touch-id : (job r : PrintJob) → (touch job r).id ≡ r.id
  unfolding print_job_lifecycle_transition
  touch-id job r = ground arith

  -- A row that is stopped or unvisited is stopped or unvisited after a round.
  touch-either :
      (j r job : PrintJob)
      → IsStopped r.status ⊎ (r ≡ job)
      → IsStopped (touch j r).status ⊎ (touch j r ≡ job)
  unfolding print_job_lifecycle_transition
  touch-either j r job h = ground arith

  touch_self :
      (job r : PrintJob)
      → r.id ≡ job.id
      → (IsStopped r.status ⊎ (r ≡ job))
      → IsStopped (touch job r).status
  unfolding print_job_lifecycle_transition
  touch_self job r same h = ground arith

  touch_all-IsStopped :
      (js : List PrintJob) (r : PrintJob) → IsStopped r.status → IsStopped (touch_all js r).status
  unfolding touch_all
  touch_all-IsStopped [] r h = h
  touch_all-IsStopped (j ∷ js) r h = touch_all-IsStopped js (touch j r) (touch-IsStopped j r h)

  -- A row that the loop visits is stopped at its end.
  pub touch_all-stops :
      (js : List PrintJob) (job r : PrintJob)
      → Memᴰ job js
      → r.id ≡ job.id
      → IsStopped r.status ⊎ (r ≡ job)
      → IsStopped (touch_all js r).status
  unfolding touch_all
  touch_all-stops [] job r m same h = elim m [ ]
  touch_all-stops (j ∷ js) job r (Memᴰ.head e) same h =
      touch_all-IsStopped js (touch j r)
        (touch_self j r (same ∙ ap (λ (x : PrintJob). x.id) e) (rw (← e) h))
  touch_all-stops (j ∷ js) job r (Memᴰ.tail m) same h =
      touch_all-stops js job (touch j r) m (touch-id j r ∙ same) (touch-either j r job h)

module _ (after before : PrintJobNote) (order_id : RowId) where
  visit-stops :
      (js rows : List PrintJob)
      → ((r : PrintJob) → Memᴰ r rows → (r.order_id == order_id) ≡ true → Memᴰ r js)
      → All
          (λ (r : PrintJob). r.order_id ≡ order_id → IsStopped r.status)
          (map (touch_all after before js) rows)
  visit-stops js [] visited = tt
  visit-stops js (r ∷ rows) visited = (
    (λ mine.
        touch_all-stops after before js r r
          (visited r (Memᴰ.head refl) (ground (arith, touch_all-keeps after before js r))) refl
          (inr refl)),
    visit-stops js rows (λ x m e. visited x (Memᴰ.tail m) e),
  )

  find_many-Memᴰ :
      (p : PrintJob → Bool) (rows : List PrintJob) (r : PrintJob)
      → Memᴰ r rows
      → p r ≡ true
      → Memᴰ r (find_many p rows)
  find_many-Memᴰ p [] r m h = elim m [ ]
  find_many-Memᴰ p (x ∷ xs) r (Memᴰ.head e) h = rw (← e, h) (Memᴰ.head refl)
  find_many-Memᴰ p (x ∷ xs) r (Memᴰ.tail m) h = elim (Bool-cases (p x)) [
    | inl t ↦ rw t (Memᴰ.tail (find_many-Memᴰ p xs r m h))
    | inr f ↦ rw f (find_many-Memᴰ p xs r m h)
  ]

  -- After the loop over the order's print jobs each of them is cancelled or awaits review.
  pub apply_transitions-stops :
      (rows : List PrintJob)
      → All
          (λ (r : PrintJob). r.order_id ≡ order_id → IsStopped r.status)
          (apply_transitions after before
            (find_many (λ (j : PrintJob). j.order_id == order_id) rows)
            rows)
  apply_transitions-stops rows =
      rw (apply_transitions-map after before _ rows)
        (visit-stops _ rows (λ r m h. find_many-Memᴰ _ rows r m h))
