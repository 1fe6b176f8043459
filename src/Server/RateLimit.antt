-- ===== src/Server/RateLimit.antt =====
-- internal/server/ratelimit.go: the fixed-window counter of the unauthenticated endpoints.
pub mod Bounds
use git_single_tenant_templa.Prelude.{
  ℕ, ◌+◌, ◌-◌, String, not, Option, none, some, List, [], ◌∷◌, str_eq, ltb, leb, if◌then◌else◌,
  filter,
}

-- bucket
pub record Bucket : Type 0 where
  pub count : ℕ
  pub expires_at : ℕ

-- limiter: the buckets by their keys, the allowance of one window, and its length.
pub record Limiter : Type 0 where
  pub buckets : List (String × Bucket)
  pub attempts : ℕ
  pub window : ℕ

-- newLimiter
unfoldable pub new_limiter : ℕ → ℕ → Limiter
new_limiter attempts window = record { buckets = []; attempts = attempts; window = window }

-- `l.buckets[key]`
unfoldable pub bucket_of : String → List (String × Bucket) → Option Bucket
bucket_of key [] = none
bucket_of key ((k, b) ∷ rest) =
    let other = bucket_of key rest in if str_eq k key then some b else other

-- `l.buckets[key] = b`
unfoldable pub put_bucket : String → Bucket → List (String × Bucket) → List (String × Bucket)
put_bucket key b [] = (key, b) ∷ []
put_bucket key b ((k, old) ∷ rest) =
    let kept = put_bucket key b rest in if str_eq k key then (k, b) ∷ rest else (k, old) ∷ kept

abbrev pub with_bucket : Limiter → String → Bucket → Limiter
with_bucket l key b = record l { buckets = put_bucket key b l.buckets }

-- What allow answers: it lets the attempt pass, or says how long to wait.
pub data Answer : Type 0 where
  allowed : Answer
  wait : ℕ → Answer

-- The part of allow behind the lookup of the bucket.
unfoldable pub allow_bucket : ℕ → String → Limiter → Option Bucket → Answer × Limiter
allow_bucket now key l none =
    (allowed, with_bucket l key (record { count = 1; expires_at = now + l.window }))
allow_bucket now key l (some b) =
    if ltb b.expires_at now
    then (allowed, with_bucket l key (record { count = 1; expires_at = now + l.window }))
    else if leb l.attempts b.count
    then (wait (b.expires_at - now), l)
    else (allowed, with_bucket l key (record b { count = b.count + 1 }))

-- allow, at the time `now`.
unfoldable pub allow : ℕ → String → Limiter → Answer × Limiter
unfolding allow_bucket bucket_of
allow now key l = allow_bucket now key l (bucket_of key l.buckets)

-- reap
unfoldable pub reap : ℕ → Limiter → Limiter
unfolding filter
reap now l = record l { buckets = filter (λ kb. not (ltb kb.1.expires_at now)) l.buckets }

-- `if ok { continue }`, with the rest of the loop as an argument.
unfoldable pub or_wait : Answer × Limiter → (Limiter → Answer × Limiter) → Answer × Limiter
or_wait (allowed, l) rest = rest l
or_wait (wait n, l) rest = (wait n, l)

-- The keys of a request, in the order of keyFn: an empty one is passed over, and the first that
-- is refused ends the request.
unfoldable pub allow_keys : ℕ → List String → Limiter → Answer × Limiter
unfolding allow or_wait
allow_keys now [] l = (allowed, l)
allow_keys now (key ∷ keys) l =
    let rest : Limiter → Answer × Limiter = λ l'. allow_keys now keys l' in
    if str_eq key "" then rest l else or_wait (allow now key l) rest
