-- ===== src/Base/Lists.antt =====
-- Lists as the rows of a table: the queries and writes that the code makes of one.
use Prim.Native.Nat.{ℕ, zero, suc, ◌+◌, ◌≤◌}
use mathlib.Core.Path.{◌≡◌, refl, sym, ap, ◌∙◌, subst}
use mathlib.Core.Logic.{◌⊎◌, inl, inr}
use mathlib.Core.Bool.{Bool, true, false, not, ◌&&◌, ◌||◌}
use mathlib.Core.Option.{Option, none, some}
use mathlib.Core.List.{List, [], ◌∷◌, ◌++◌, Memᴰ}
use native.Mathlib.Omega.{arith}
use personalisation_kings.Base.Tests.{◌==◌, if◌then◌else◌, Bool-cases}

module _ {ℓ} {A : Type ℓ} where
  abbrev pub length : List A → ℕ
  length [] = 0
  length (x ∷ xs) = suc (length xs)

  abbrev pub any : (A → Bool) → List A → Bool
  any p [] = false
  any p (x ∷ xs) = p x || any p xs

  abbrev pub all : (A → Bool) → List A → Bool
  all p [] = true
  all p (x ∷ xs) = p x && all p xs

  -- `findFirst`, `findUnique`, `Array.prototype.find`.
  abbrev pub find_first : (A → Bool) → List A → Option A
  find_first p [] = none
  find_first p (x ∷ xs) = if p x then some x else find_first p xs

  -- `findMany`, `Array.prototype.filter`.
  abbrev pub find_many : (A → Bool) → List A → List A
  find_many p [] = []
  find_many p (x ∷ xs) = if p x then x ∷ find_many p xs else find_many p xs

  -- `updateMany`: each row that the `where` clause selects is rewritten.
  abbrev pub update_many : (A → Bool) → (A → A) → List A → List A
  update_many p f [] = []
  update_many p f (x ∷ xs) = (if p x then f x else x) ∷ update_many p f xs

  -- `deleteMany`.
  abbrev pub delete_many : (A → Bool) → List A → List A
  delete_many p = find_many (λ x. not (p x))

  abbrev pub count : (A → Bool) → List A → ℕ
  count p [] = 0
  count p (x ∷ xs) = if p x then suc (count p xs) else count p xs

  abbrev pub take : ℕ → List A → List A
  take zero xs = []
  take (suc n) [] = []
  take (suc n) (x ∷ xs) = x ∷ take n xs

abbrev pub elem : ℕ → List ℕ → Bool
elem a xs = any (λ x. x == a) xs

-- A predicate of every row.
abbrev pub All {ℓ κ} : {A : Type ℓ} → (A → Type κ) → List A → Type κ
All P [] = Unit
All P (x ∷ xs) = P x × All P xs

module _ {ℓ} {A : Type ℓ} where
  pub find_first-some : (p : A → Bool) (xs : List A) {x : A} → find_first p xs ≡ some x → p x ≡ true
  find_first-some p [] h = ground arith
  find_first-some p (x ∷ xs) h = elim (Bool-cases (p x)) [
    | inl e ↦ ground arith
    | inr e ↦ find_first-some p xs (rw (e, ◌≡◌) at h)
  ]

  pub any-append : (p : A → Bool) (xs ys : List A) → any p (xs ++ ys) ≡ (any p xs || any p ys)
  any-append p [] ys = refl
  any-append p (x ∷ xs) ys = ground (arith, any-append p xs ys)

  pub count-append : (p : A → Bool) (xs ys : List A) → count p (xs ++ ys) ≡ count p xs + count p ys
  count-append p [] ys = omega arith
  count-append p (x ∷ xs) ys = ground (arith, count-append p xs ys)

module _ {ℓ κ} {A : Type ℓ} (P : A → Type κ) where
  -- What holds of every row holds of a given one.
  pub All-Memᴰ : (xs : List A) {x : A} → All P xs → Memᴰ x xs → P x
  All-Memᴰ (y ∷ ys) (h, hs) (Memᴰ.head e) = subst P (sym e) h
  All-Memᴰ (y ∷ ys) (h, hs) (Memᴰ.tail m) = All-Memᴰ ys hs m
  All-Memᴰ [] h m = elim m [ ]

  pub All-append : (xs ys : List A) → All P xs → All P ys → All P (xs ++ ys)
  All-append [] ys hx hy = hy
  All-append (x ∷ xs) ys hx hy = (hx.0, All-append xs ys hx.1 hy)

  pub All-find_many : (p : A → Bool) (xs : List A) → All P xs → All P (find_many p xs)
  All-find_many p [] h = tt
  All-find_many p (x ∷ xs) (h, hs) = ground (arith, All-find_many p xs hs)

  -- A write keeps a predicate of every row if it keeps it of each row that it selects.
  pub All-update_many :
      (p : A → Bool) (f : A → A)
      → ((x : A) → p x ≡ true → P x → P (f x))
      → (xs : List A) → All P xs
      → All P (update_many p f xs)
  All-update_many p f keep [] h = tt
  All-update_many p f keep (x ∷ xs) (h, hs) = ground (arith, keep x, All-update_many p f keep xs hs)

module _ {ℓ} {A : Type ℓ} (p : A → Bool) where
  -- A write that keeps the test commutes with the search.
  pub find_first-update_many :
      (f : A → A)
      → ((x : A) → p (f x) ≡ p x)
      → (xs : List A) {x : A} → find_first p xs ≡ some x
      → find_first p (update_many p f xs) ≡ some (f x)
  find_first-update_many f keep [] h = ground arith
  find_first-update_many f keep (y ∷ ys) h = elim (Bool-cases (p y)) [
    | inl e ↦ ground (arith, keep y)
    | inr e ↦ rw (e, e) (find_first-update_many f keep ys (rw (e, ◌≡◌) at h))
  ]

  pub find_first-append_new :
      (xs : List A) (y : A)
      → find_first p xs ≡ none
      → p y ≡ true
      → find_first p (xs ++ y ∷ []) ≡ some y
  find_first-append_new [] y h e = rw e
  find_first-append_new (x ∷ xs) y h e = elim (Bool-cases (p x)) [
    | inl t ↦ ground arith
    | inr f ↦ rw f (find_first-append_new xs y (ground arith) e)
  ]

  -- A write that drops every row that it selects from its own test.
  pub count-update_many_self :
      (f : A → A) → ((x : A) → p (f x) ≡ false) → (xs : List A) → count p (update_many p f xs) ≡ 0
  count-update_many_self f gone [] = refl
  count-update_many_self f gone (x ∷ xs) = elim (Bool-cases (p x)) [
    | inl e ↦ rw (e, gone x) (count-update_many_self f gone xs)
    | inr e ↦ rw (e, e) (count-update_many_self f gone xs)
  ]

module _ {ℓ} {A : Type ℓ} where
  -- Each row after a write is the write of a row before it.
  pub mem-update_many :
      (p : A → Bool) (f : A → A) (xs : List A) {y : A}
      → Memᴰ y (update_many p f xs)
      → (x : A) × Memᴰ x xs × (y ≡ (if p x then f x else x))
  mem-update_many p f [] m = elim m [ ]
  mem-update_many p f (x ∷ xs) (Memᴰ.head e) = (x, Memᴰ.head refl, e)
  mem-update_many p f (x ∷ xs) (Memᴰ.tail m) =
      let (z, mz, e) = mem-update_many p f xs m in (z, Memᴰ.tail mz, e)

  pub mem-append_one : (xs : List A) (y : A) {x : A} → Memᴰ x (xs ++ y ∷ []) → Memᴰ x xs ⊎ (x ≡ y)
  mem-append_one [] y (Memᴰ.head e) = inr e
  mem-append_one [] y (Memᴰ.tail m) = elim m [ ]
  mem-append_one (z ∷ xs) y (Memᴰ.head e) = inl (Memᴰ.head e)
  mem-append_one (z ∷ xs) y (Memᴰ.tail m) = elim (mem-append_one xs y m) [
    | inl k ↦ inl (Memᴰ.tail k)
    | inr e ↦ inr e
  ]

  pub mem-find_many :
      (p : A → Bool) (xs : List A) {x : A} → Memᴰ x (find_many p xs) → Memᴰ x xs × (p x ≡ true)
  mem-find_many p [] m = elim m [ ]
  mem-find_many p (y ∷ ys) {x} m = elim (Bool-cases (p y)) [
    | inl t ↦ elim (at_head (rw t at m)) [
      | inl e ↦ (Memᴰ.head e, ap p e ∙ t)
      | inr k ↦ let (k', px) = mem-find_many p ys k in (Memᴰ.tail k', px)
    ]
    | inr f ↦ let (k, px) = mem-find_many p ys (rw f at m) in (Memᴰ.tail k, px)
  ]
    where
      at_head : Memᴰ x (y ∷ find_many p ys) → (x ≡ y) ⊎ Memᴰ x (find_many p ys)
      at_head (Memᴰ.head e) = inl e
      at_head (Memᴰ.tail k) = inr k

-- A row is the only one of its key.
module _ {A : Type 0} (key : A → ℕ) where
  abbrev pub IsKeyed : List A → Type 0
  IsKeyed xs = (a b : A) → Memᴰ a xs → Memᴰ b xs → key a ≡ key b → a ≡ b

  -- A write that keeps the keys keeps them unique.
  pub update_many-IsKeyed :
      (p : A → Bool) (f : A → A)
      → ((x : A) → key (f x) ≡ key x)
      → (xs : List A) → IsKeyed xs
      → IsKeyed (update_many p f xs)
  update_many-IsKeyed p f keeps xs keyed a b ma mb ids =
      let (x, mx, s₁) = mem-update_many p f xs ma in
      let (y, my, s₂) = mem-update_many p f xs mb in
      let same : x ≡ y = keyed x y mx my (sym (kept x s₁) ∙ (ids ∙ kept y s₂)) in
      s₁ ∙ (ap (λ z. if p z then f z else z) same ∙ sym s₂)
    where
      kept : {z : A} (w : A) → z ≡ (if p w then f w else w) → key z ≡ key w
      kept w e = ground (arith, keeps w)

module _ {ℓ} {A : Type ℓ} (p : A → Bool) (f : A → A) where
  -- A write that selects nothing changes nothing.
  pub update_many-none : (xs : List A) → count p xs ≡ 0 → update_many p f xs ≡ xs
  update_many-none [] h = refl
  update_many-none (x ∷ xs) h = elim (Bool-cases (p x)) [
    | inl t ↦ absurd (ground arith)
    | inr e ↦ rw e (ap (λ ys. x ∷ ys) (update_many-none xs (ground arith)))
  ]

module _ {ℓ} {A : Type ℓ} where
  pub mem-take_all : (n : ℕ) (xs : List A) {x : A} → length xs ≤ n → Memᴰ x xs → Memᴰ x (take n xs)
  mem-take_all zero (y ∷ ys) h m = absurd (omega arith)
  mem-take_all zero [] h m = m
  mem-take_all (suc n) [] h m = m
  mem-take_all (suc n) (y ∷ ys) h (Memᴰ.head e) = Memᴰ.head e
  mem-take_all (suc n) (y ∷ ys) h (Memᴰ.tail m) = Memᴰ.tail (mem-take_all n ys (omega arith) m)

  pub mem-of-find_many :
      (p : A → Bool) (xs : List A) {x : A} → Memᴰ x xs → p x ≡ true → Memᴰ x (find_many p xs)
  mem-of-find_many p (y ∷ ys) (Memᴰ.head e) t = rw (ap p (sym e) ∙ t) (Memᴰ.head e)
  mem-of-find_many p (y ∷ ys) (Memᴰ.tail m) t = elim (Bool-cases (p y)) [
    | inl here ↦ rw here (Memᴰ.tail (mem-of-find_many p ys m t))
    | inr skip ↦ rw skip (mem-of-find_many p ys m t)
  ]
  mem-of-find_many p [] m t = elim m [ ]

  pub length-find_many : (p : A → Bool) (xs : List A) → length (find_many p xs) ≤ length xs
  length-find_many p [] = omega arith
  length-find_many p (x ∷ xs) = ground (arith, length-find_many p xs)

module _ {ℓ} {A : Type ℓ} (p : A → Bool) where
  pub count_none : (xs : List A) → ((x : A) → Memᴰ x xs → p x ≡ false) → count p xs ≡ 0
  count_none [] h = refl
  count_none (x ∷ xs) h = rw (h x (Memᴰ.head refl)) (count_none xs (λ y m. h y (Memᴰ.tail m)))

module _ {ℓ} {A : Type ℓ} (p : A → Bool) where
  pub find_many-append_selected :
      (xs : List A) (y : A) → p y ≡ true → find_many p (xs ++ y ∷ []) ≡ find_many p xs ++ y ∷ []
  find_many-append_selected [] y t = rw t refl
  find_many-append_selected (x ∷ xs) y t = elim (Bool-cases (p x)) [
    | inl here ↦ rw here (ap (λ ys. x ∷ ys) (find_many-append_selected xs y t))
    | inr skip ↦ rw skip (find_many-append_selected xs y t)
  ]

  -- A row that is found stays found when rows follow.
  pub find_first-append_found :
      (xs ys : List A) {x : A} → find_first p xs ≡ some x → find_first p (xs ++ ys) ≡ some x
  find_first-append_found [] ys h = absurd (ground arith)
  find_first-append_found (z ∷ xs) ys h = elim (Bool-cases (p z)) [
    | inl here ↦ ground arith
    | inr skip ↦ rw skip (find_first-append_found xs ys (ground arith))
  ]

  pub find_first-Memᴰ : (xs : List A) {x : A} → find_first p xs ≡ some x → Memᴰ x xs
  find_first-Memᴰ [] h = absurd (ground arith)
  find_first-Memᴰ (z ∷ xs) h = elim (Bool-cases (p z)) [
    | inl here ↦ Memᴰ.head (ground arith)
    | inr skip ↦ Memᴰ.tail (find_first-Memᴰ xs (ground arith))
  ]

  pub any-false : (xs : List A) {x : A} → any p xs ≡ false → Memᴰ x xs → p x ≡ false
  any-false [] h m = elim m [ ]
  any-false (y ∷ ys) h (Memᴰ.head e) = ap p e ∙ ground arith
  any-false (y ∷ ys) h (Memᴰ.tail m) = any-false ys (ground arith) m

  pub count-zero : (xs : List A) {x : A} → count p xs ≡ 0 → Memᴰ x xs → p x ≡ false
  count-zero [] h m = elim m [ ]
  count-zero (y ∷ ys) {x} h (Memᴰ.head e) = ground (arith, ap p e)
  count-zero (y ∷ ys) h (Memᴰ.tail m) = count-zero ys (ground arith) m
