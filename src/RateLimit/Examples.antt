-- ===== src/RateLimit/Examples.antt =====
-- A limit of one request in a minute.
use personalisation_kings.Base.{
  ◌≤◌, ◌≡◌, refl, arith, true, false, List, [], ◌∷◌, length, some, All, find_first,
}
use personalisation_kings.RateLimit.{
  Bucket, maximum_buckets, drop_oldest, prune_buckets, set_bucket, open_bucket, consume_rate_limit,
  Verdict, has_key,
}
use personalisation_kings.RateLimit.Size.{
  length-consume_rate_limit, consume_all, consume_rate_limit-refused,
}

abbrev used_up : List Bucket
used_up = record { key = "shop"; count = 1; reset_at = 60000 } ∷ []

consuming : Unit {0}
unfolding drop_oldest prune_buckets set_bucket open_bucket consume_rate_limit
consuming = tt

length-consume_rate_limit_example :
    length ((consume_rate_limit "shop" 1 60000 5 used_up).1) ≤ maximum_buckets
length-consume_rate_limit_example = length-consume_rate_limit "shop" 1 60000 5 used_up (omega arith)

consume_rate_limit-refused_example :
    All
      (λ (v : Verdict). v.allowed ≡ false)
      ((consume_all "shop" 1 60000 (5 ∷ 9 ∷ 59999 ∷ []) used_up).0)
    × (find_first (has_key "shop") ((consume_all "shop" 1 60000 (5 ∷ 9 ∷ 59999 ∷ []) used_up).1)
        ≡ some (record { key = "shop"; count = 4; reset_at = 60000 }))
consume_rate_limit-refused_example =
    consume_rate_limit-refused "shop" 1 60000 (5 ∷ 9 ∷ 59999 ∷ []) used_up refl (omega arith)
      (omega arith, (omega arith, (omega arith, tt)))

-- The first request of a key is let through.
first_is_allowed : (consume_rate_limit "shop" 1 60000 5 []).0.allowed ≡ true
unfolding consuming
first_is_allowed = refl
