-- ===== src/RateLimit.antt =====
-- The request limits of the interface server: `consumeRateLimit` and `pruneBuckets` of
-- apps/api/src/rate-limit.ts. The map of buckets is a list in the order of insertion.
pub mod Size
pub mod Examples
use personalisation_kings.Base.{
  ℕ, zero, suc, ◌+◌, ◌-◌, ◌/◌, max, Bool, true, false, not, Option, none, some, List, [], ◌∷◌, ◌++◌,
  String, leb, ltb, str_eq, if◌then◌else◌, length, any, find_first, find_many, update_many,
}

pub record Bucket : Type 0 where
  pub key : String
  pub count : ℕ
  pub reset_at : ℕ

pub record Verdict : Type 0 where
  pub allowed : Bool
  pub retry_after_seconds : ℕ

abbrev pub maximum_buckets : ℕ
maximum_buckets = 10000

abbrev pub has_key : String → Bucket → Bool
has_key key b = str_eq b.key key

-- The loop that drops the oldest bucket while the map is full.
unfoldable pub drop_oldest : List Bucket → List Bucket
drop_oldest [] = []
drop_oldest (b ∷ bs) =
    let rest = drop_oldest bs in if leb maximum_buckets (length (b ∷ bs)) then rest else b ∷ bs

unfoldable pub prune_buckets : ℕ → List Bucket → List Bucket
unfolding drop_oldest
prune_buckets now buckets =
    drop_oldest (find_many (λ (b : Bucket). not (leb b.reset_at now)) buckets)

-- `buckets.set(key, bucket)`: in place if the key is there, or else at the end.
unfoldable pub set_bucket : Bucket → List Bucket → List Bucket
set_bucket b buckets =
    if any (has_key b.key) buckets
    then update_many (has_key b.key) (λ x. b) buckets
    else buckets ++ b ∷ []

-- The bucket to count in: the one that is there, if its window is open.
unfoldable pub open_bucket : String → ℕ → List Bucket → Option Bucket
open_bucket key now buckets = elim (find_first (has_key key) buckets) [
  | none ↦ none
  | some b ↦ if leb b.reset_at now then none else some b
]

abbrev pub counted : Bucket → Bucket
counted b = record b { count = b.count + 1 }

abbrev pub verdict : ℕ → ℕ → Bucket → Verdict
verdict limit now b = record {
  allowed = leb b.count limit;
  retry_after_seconds = max 1 ((b.reset_at - now + 999) / 1000);
}

unfoldable pub consume_rate_limit : String → ℕ → ℕ → ℕ → List Bucket → Verdict × List Bucket
unfolding open_bucket prune_buckets set_bucket
consume_rate_limit key limit window_ms now buckets = elim (open_bucket key now buckets) [
  | some b ↦ (verdict limit now (counted b), update_many (has_key key) counted buckets)
  | none ↦
      let fresh : Bucket = record { key = key; count = 1; reset_at = now + window_ms } in
      (
        verdict limit now fresh,
        set_bucket fresh
            (if leb maximum_buckets (length buckets) then prune_buckets now buckets else buckets),
      )
]
