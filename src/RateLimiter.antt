-- ===== src/RateLimiter.antt =====
-- backend/internal/app/rate_limiter.go: a sliding window of hits for each bucket. The mutex makes a
-- call of `allow` one step.
pub mod Window
use second_hand_market_backe.Base.{
  ℕ, Bool, true, false, ◌||◌, List, [], ◌∷◌, ◌++◌, keep, length, if◌then◌else◌,
}
use second_hand_market_backe.Base.Int.{ℤ, pos, leb_ℤ, ltb_ℤ, ◌-ℤ◌}
use second_hand_market_backe.Base.Text.{codes, same_bytes}
use second_hand_market_backe.Model.Status.{Time}

-- The hits of each bucket; a missing bucket has none.
abbrev pub MemoryRateLimiter : Type 0
MemoryRateLimiter = List ℕ → List Time

-- `newMemoryRateLimiter`
abbrev pub new_memory_rate_limiter : MemoryRateLimiter
new_memory_rate_limiter bucket = []

-- `ts.After(cutoff)`
abbrev pub after : Time → Time → Bool
after cutoff ts = ltb_ℤ cutoff ts

-- What `allow` does to the history of one bucket.
unfoldable pub admit : ℤ → ℤ → Time → List Time → Bool × List Time
admit limit window now history =
    let pruned = keep (after (now -ℤ window)) history in
    if leb_ℤ limit (pos (length pruned)) then (false, pruned) else (true, pruned ++ (now ∷ []))

-- `fmt.Sprintf("%s:%s", scope, key)`
abbrev pub bucket_of : List ℕ → List ℕ → List ℕ
bucket_of scope key = scope ++ (b':' ∷ key)

unfoldable pub allow : List ℕ → List ℕ → ℤ → ℤ → Time → MemoryRateLimiter → Bool × MemoryRateLimiter
unfolding admit
allow scope key limit window now l =
    let bucket = bucket_of scope key in
    let (allowed, history) = admit limit window now (l bucket) in
    if leb_ℤ limit (pos 0)
    then (true, l)
    else (allowed, λ b. if same_bytes b bucket then history else l b)

-- The answers to calls on one bucket, at the given times.
unfoldable pub answers : List ℕ → List ℕ → ℤ → ℤ → MemoryRateLimiter → List Time → List Bool
answers scope key limit window l [] = []
answers scope key limit window l (t ∷ ts) =
    let (allowed, next) = allow scope key limit window t l in
    allowed ∷ answers scope key limit window next ts
