-- ===== src/Connector/Result.antt =====
-- What a processing transaction returns. An error carries no tables: the transaction rolls back.
use personalisation_kings.Base.{◌≡◌, refl, arith}
use personalisation_kings.Connector.Types.{ProcessingError}

-- The transaction callback resolves with a value or throws, and `await` passes a throw on.
pub data Result (A : Type 0) : Type 0 where
  ok : A → Result A
  err : ProcessingError → Result A

infixl 5 ◌>>=◌
abbrev pub ◌>>=◌ : {A B : Type 0} → Result A → (A → Result B) → Result B
err e >>= next = err e
ok a >>= next = next a

-- A sequence that resolves has resolved at each of its two parts.
pub >>=-eq-ok :
    {A B : Type 0} (m : Result A) (next : A → Result B) {b : B}
    → (m >>= next) ≡ ok b
    → (a : A) × (m ≡ ok a) × (next a ≡ ok b)
>>=-eq-ok (err e) next h = ground arith
>>=-eq-ok (ok a) next h = (a, refl, h)
