-- ===== src/RateLimit/Size.antt =====
-- The memory of the request limits is bounded, and a limit that is reached stays reached.
use personalisation_kings.Base.{
  All, ℕ, suc, ◌+◌, ◌≤◌, ◌<◌, ◌≡◌, refl, ap, ◌∙◌, arith, inl, inr, Bool, false, not, some, List, [],
  ◌∷◌, ◌++◌, String, leb, length, any, find_first, find_many, update_many, Bool-cases, Option-cases,
  find_first-update_many,
}
use personalisation_kings.RateLimit.{
  Bucket, maximum_buckets, has_key, drop_oldest, prune_buckets, set_bucket, open_bucket, counted,
  consume_rate_limit, Verdict, verdict,
}

length-update_many :
    (p : Bucket → Bool) (f : Bucket → Bucket) (xs : List Bucket)
    → length (update_many p f xs) ≡ length xs
length-update_many p f [] = refl
length-update_many p f (x ∷ xs) = ap suc (length-update_many p f xs)

length-append_one : (xs : List Bucket) (y : Bucket) → length (xs ++ y ∷ []) ≡ suc (length xs)
length-append_one [] y = refl
length-append_one (x ∷ xs) y = ap suc (length-append_one xs y)

length-drop_oldest : (xs : List Bucket) → length (drop_oldest xs) < maximum_buckets
unfolding drop_oldest
length-drop_oldest [] = omega arith
length-drop_oldest (x ∷ xs) = ground (arith, length-drop_oldest xs)

length-set_bucket :
    (b : Bucket) (xs : List Bucket)
    → length xs < maximum_buckets
    → length (set_bucket b xs) ≤ maximum_buckets
unfolding set_bucket
length-set_bucket b xs h = elim (Bool-cases (any (has_key b.key) xs)) [
  | inl there ↦
      rw (there, set_bucket) (ground (arith, length-update_many (has_key b.key) (λ x. b) xs))
  | inr new ↦ rw (new, set_bucket) (ground (arith, length-append_one xs b))
]

-- The map never has more than 10000 buckets, whatever the keys of the requests.
pub length-consume_rate_limit :
    (key : String) (limit window_ms now : ℕ) (buckets : List Bucket)
    → length buckets ≤ maximum_buckets
    → length ((consume_rate_limit key limit window_ms now buckets).1) ≤ maximum_buckets
unfolding consume_rate_limit prune_buckets
length-consume_rate_limit key limit window_ms now buckets h =
    elim (Option-cases (open_bucket key now buckets)) [
      | inr (b, open_) ↦
          rw (open_, consume_rate_limit)
            (ground (arith, length-update_many (has_key key) counted buckets))
      | inl closed ↦ elim (Bool-cases (leb maximum_buckets (length buckets))) [
        | inl full ↦
            rw (closed, full, consume_rate_limit)
              (length-set_bucket (record { key = key; count = 1; reset_at = now + window_ms })
                (drop_oldest (find_many (λ (b : Bucket). not (leb b.reset_at now)) buckets))
                (length-drop_oldest (find_many (λ (b : Bucket). not (leb b.reset_at now)) buckets)))
        | inr room ↦
            rw (closed, room, consume_rate_limit)
              (length-set_bucket (record { key = key; count = 1; reset_at = now + window_ms })
                buckets (ground arith))
      ]
    ]

-- The bucket that a request is counted in.
open_bucket-found :
    (key : String) (now : ℕ) (buckets : List Bucket) {b : Bucket}
    → open_bucket key now buckets ≡ some b
    → find_first (has_key key) buckets ≡ some b
unfolding open_bucket
open_bucket-found key now buckets h = elim (Option-cases (find_first (has_key key) buckets)) [
  | inl nothing ↦ absurd (ground arith)
  | inr (x, found) ↦ found ∙ ground arith
]

consume-open :
    (key : String) (limit window_ms now : ℕ) (buckets : List Bucket) {b : Bucket}
    → open_bucket key now buckets ≡ some b
    → consume_rate_limit key limit window_ms now buckets
      ≡ (verdict limit now (counted b), update_many (has_key key) counted buckets)
unfolding consume_rate_limit
consume-open key limit window_ms now buckets h = rw (h, consume_rate_limit) refl

-- The requests of one key in a row, at the times of the list: what they are answered, and the map.
abbrev pub consume_all : String → ℕ → ℕ → List ℕ → List Bucket → List Verdict × List Bucket
consume_all key limit window_ms [] buckets = ([], buckets)
consume_all key limit window_ms (now ∷ times) buckets =
    let (answer, next) = consume_rate_limit key limit window_ms now buckets in
    let (answers, last) = consume_all key limit window_ms times next in (answer ∷ answers, last)

found-open_bucket :
    (key : String) (now : ℕ) (buckets : List Bucket) {b : Bucket}
    → find_first (has_key key) buckets ≡ some b
    → now < b.reset_at
    → open_bucket key now buckets ≡ some b
unfolding open_bucket
found-open_bucket key now buckets found live = rw (found, open_bucket) (ground arith)

-- Where the bucket of a key has reached the limit, the requests of the key in a row, each before
-- the end of the bucket's window, are all refused, and each of them is counted: the bucket ends
-- with its count raised by their number and the same end.
pub consume_rate_limit-refused :
    (key : String) (limit window_ms : ℕ) (times : List ℕ) (buckets : List Bucket) {b : Bucket}
    → find_first (has_key key) buckets ≡ some b
    → limit ≤ b.count
    → All (λ now. now < b.reset_at) times
    → All (λ (v : Verdict). v.allowed ≡ false) ((consume_all key limit window_ms times buckets).0)
      × (find_first (has_key key) ((consume_all key limit window_ms times buckets).1)
          ≡ some (record b { count = b.count + length times }))
consume_rate_limit-refused key limit window_ms [] buckets {b} found reached live =
    let none_more : b.count ≡ b.count + 0 = omega arith in
    (tt, found ∙ ap (λ (n : ℕ). some (record b { count = n })) none_more)
consume_rate_limit-refused key limit window_ms (now ∷ times) buckets {b} found reached (at, live) =
    let e =
      consume-open key limit window_ms now buckets (found-open_bucket key now buckets found at) in
    let (refused, ends) =
      consume_rate_limit-refused key limit window_ms times
        (update_many (has_key key) counted buckets) {b = counted b}
        (find_first-update_many (has_key key) counted (λ x. refl) buckets found) (ground arith)
        live in
    let total : b.count + 1 + length times ≡ b.count + suc (length times) = omega arith in
    rw e ((ground arith, refused), ends ∙ ap (λ (n : ℕ). some (record b { count = n })) total)
