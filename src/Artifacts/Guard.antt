-- ===== src/Artifacts/Guard.antt =====
-- Removal against downloads and holds: what each write of the cleanup worker and of the two routes
-- keeps of an artifact.
use mathlib.Core.Path.{subst}
use personalisation_kings.Base.{
  ℕ, ◌≡◌, refl, arith, true, false, some, String, &&-true, some_inj, str_eq,
}
use personalisation_kings.Artifacts.Types.{
  Date, Artifact, artifact_retention_held, artifact_bytes_available, is_unleased,
}
use personalisation_kings.Artifacts.Cleanup.{is_expired, claimed, claims, emptied, postponed}
use personalisation_kings.Artifacts.Access.{Hold, leased, held, unheld}

-- An artifact that is claimed was neither leased nor held when it was claimed.
abbrev pub IsGuarded : Artifact → Type 0
IsGuarded a =
    (at : Date)
    → a.cleanup_claimed_at ≡ some at
    → (is_unleased at a ≡ true) × (artifact_retention_held at a ≡ false)

is_expired_free :
    (now : Date) (merchant_id : String) (days : ℕ) (a : Artifact)
    → is_expired now merchant_id days a ≡ true
    → (is_unleased now a ≡ true) × (artifact_retention_held now a ≡ false)
unfolding is_expired
is_expired_free now merchant_id days a h = (ground arith, ground arith)

pub claimed-IsGuarded :
    (now : Date) (merchant_id : String) (days : ℕ) (id : String) (token : ℕ) (a : Artifact)
    → claims now merchant_id days id a ≡ true
    → IsGuarded (claimed now token a)
unfolding artifact_retention_held is_unleased
claimed-IsGuarded now merchant_id days id token a h at e =
    subst (λ t. (is_unleased t a ≡ true) × (artifact_retention_held t a ≡ false)) (some_inj e)
      (is_expired_free now merchant_id days a
        ((&&-true (str_eq a.id id) (is_expired now merchant_id days a) h).1))

pub leased-IsGuarded :
    (until : Date) (a : Artifact) → artifact_bytes_available a ≡ true → IsGuarded (leased until a)
unfolding artifact_bytes_available
leased-IsGuarded until a h at e = absurd (ground arith)

pub held-IsGuarded :
    (now : Date) (hold : Hold) (a : Artifact)
    → artifact_bytes_available a ≡ true
    → IsGuarded (held now hold a)
unfolding artifact_bytes_available
held-IsGuarded now hold a h at e = absurd (ground arith)

pub unheld-IsGuarded : (now : Date) (a : Artifact) → IsGuarded a → IsGuarded (unheld now a)
unfolding artifact_retention_held is_unleased
unheld-IsGuarded now a g at e = ((g at e).0, refl)

pub postponed-IsGuarded :
    (now : Date) (attempts : ℕ) (message : String) (a : Artifact)
    → IsGuarded a
    → IsGuarded (postponed now attempts message a)
unfolding artifact_retention_held is_unleased
postponed-IsGuarded now attempts message a g at e = g at e

pub emptied-IsGuarded : (now : Date) (a : Artifact) → IsGuarded (emptied now a)
emptied-IsGuarded now a at e = absurd (ground arith)
