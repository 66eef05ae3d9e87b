-- ===== src/Customiser/Latest.antt =====
-- The latest revision of a session, and how a new one takes its place.
use personalisation_kings.Base.{
  ◌≤◌, ◌<◌, ◌≡◌, refl, ◌∙◌, arith, inl, inr, some, List, [], ◌∷◌, ◌++◌, ltb, Memᴰ, Bool-cases,
  Option-cases,
}
use personalisation_kings.Customiser.Types.{CustomisationRevision}
use personalisation_kings.Customiser.Revisions.{latest_revision}

-- A list that is not empty has a latest revision, and none of it is later.
pub latest_revision-max :
    (rs : List CustomisationRevision) {x : CustomisationRevision}
    → Memᴰ x rs
    → (q : CustomisationRevision) × (latest_revision rs ≡ some q) × (x.revision ≤ q.revision)
unfolding latest_revision
latest_revision-max [] m = elim m [ ]
latest_revision-max (r ∷ rs) (Memᴰ.head e) = elim (Option-cases (latest_revision rs)) [
  | inl alone ↦ (r, rw alone refl, ground arith)
  | inr (p, later) ↦ elim (Bool-cases (ltb r.revision p.revision)) [
    | inl t ↦ (p, rw (later, t) refl, ground arith)
    | inr f ↦ (r, rw (later, f) refl, ground arith)
  ]
]
latest_revision-max (r ∷ rs) (Memᴰ.tail m) =
    let (p, later, most) = latest_revision-max rs m in
    elim (Bool-cases (ltb r.revision p.revision)) [
      | inl t ↦ (p, rw (later, t) refl, most)
      | inr f ↦ (r, rw (later, f) refl, ground arith)
    ]

pub latest_revision-Memᴰ :
    (rs : List CustomisationRevision) {q : CustomisationRevision}
    → latest_revision rs ≡ some q
    → Memᴰ q rs
unfolding latest_revision
latest_revision-Memᴰ [] h = absurd (ground arith)
latest_revision-Memᴰ (r ∷ rs) h = elim (Option-cases (latest_revision rs)) [
  | inl alone ↦ Memᴰ.head (ground arith)
  | inr (p, later) ↦ elim (Bool-cases (ltb r.revision p.revision)) [
    | inl t ↦ Memᴰ.tail (latest_revision-Memᴰ rs (later ∙ ground arith))
    | inr f ↦ Memᴰ.head (ground arith)
  ]
]

-- A revision that is later than all others is the latest.
pub latest_revision-append :
    (rs : List CustomisationRevision) (n : CustomisationRevision)
    → ((x : CustomisationRevision) → Memᴰ x rs → x.revision < n.revision)
    → latest_revision (rs ++ n ∷ []) ≡ some n
unfolding latest_revision
latest_revision-append [] n h = refl
latest_revision-append (r ∷ rs) n h =
    rw (latest_revision-append rs n (λ x m. h x (Memᴰ.tail m)))
      (ground (arith, h r (Memᴰ.head refl)))
