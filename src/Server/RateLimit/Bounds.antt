-- ===== src/Server/RateLimit/Bounds.antt =====
-- How many attempts a window lets pass, whatever else the limiter is asked in between.
use git_single_tenant_templa.Prelude.{
  ℕ, ◌+◌, ◌-◌, ◌≤◌, String, ◌≡◌, refl, ap, ◌∙◌, inl, inr, Bool, true, false, not, ◌&&◌, Option,
  none, some, List, [], ◌∷◌, arith, str_eq, str_eq_iff, str_eq_refl, ltb, leb, if◌then◌else◌,
  Bool-cases, all, filter,
}
use git_single_tenant_templa.Server.RateLimit.{
  Bucket, Limiter, bucket_of, put_bucket, with_bucket, Answer, allowed, wait, allow_bucket, allow,
  reap,
}

-- What happens to a limiter: an attempt with a key, or the reaper.
pub data Call : Type 0 where
  attempt : ℕ → String → Call
  reaped : ℕ → Call

abbrev pub time_of : Call → ℕ
time_of (attempt now key) = now
time_of (reaped now) = now

unfoldable pub is_allowed : Answer → Bool
is_allowed allowed = true
is_allowed (wait n) = false

unfoldable pub after_call : Call → Limiter → Limiter
unfolding allow reap
after_call (attempt now key) l = (allow now key l).1
after_call (reaped now) l = reap now l

-- This call is an attempt with the key, and it passes.
unfoldable pub passes_key : String → Call → Limiter → Bool
unfolding is_allowed allow
passes_key key (attempt now k) l = str_eq k key && is_allowed (allow now k l).0
passes_key key (reaped now) l = false

-- How many attempts with the key pass, of a sequence of calls.
unfoldable pub passed : String → List Call → Limiter → ℕ
unfolding passes_key after_call
passed key [] l = 0
passed key (c ∷ cs) l =
    let rest = passed key cs (after_call c l) in if passes_key key c l then rest + 1 else rest

bucket_of-put_bucket :
    (key k : String) (b : Bucket) (bs : List (String × Bucket))
    → bucket_of key (put_bucket k b bs) ≡ (if str_eq k key then some b else bucket_of key bs)
unfolding bucket_of put_bucket
bucket_of-put_bucket key k b [] = ground arith
bucket_of-put_bucket key k b ((j, old) ∷ rest) = ground (
  arith,
  bucket_of-put_bucket key k b rest,
  str_eq_iff j k,
  str_eq_iff k key,
  str_eq_iff j key,
  ap (λ x. str_eq x key),
)

bucket_of-reap :
    (key : String) (now : ℕ) (bs : List (String × Bucket)) {b : Bucket}
    → bucket_of key bs ≡ some b
    → ltb b.expires_at now ≡ false
    → bucket_of key (filter (λ kb. not (ltb kb.1.expires_at now)) bs) ≡ some b
unfolding bucket_of filter
bucket_of-reap key now [] h k = cc
bucket_of-reap key now ((j, old) ∷ rest) {b} h k = elim (Bool-cases (str_eq j key)) [
  | inl this ↦
      let same : old ≡ b = ground arith in ground (arith, ap (λ x. ltb x.expires_at now) same)
  | inr other ↦
      let later : bucket_of key rest ≡ some b = ground arith in
      let kept = bucket_of-reap key now rest later k in ground (arith, kept)
]

allow-other :
    (key k : String) (now : ℕ) (l : Limiter)
    → str_eq k key ≡ false
    → bucket_of key (allow now k l).1.buckets ≡ bucket_of key l.buckets
unfolding allow
allow-other key k now l other = go (bucket_of k l.buckets)
  where
    go :
        (o : Option Bucket)
        → bucket_of key (allow_bucket now k l o).1.buckets ≡ bucket_of key l.buckets
    go none =
        unfold allow_bucket in
        ground (
          arith,
          bucket_of-put_bucket key k (record { count = 1; expires_at = now + l.window }) l.buckets,
        )
    go (some b) =
        unfold allow_bucket in
        ground (
          arith,
          bucket_of-put_bucket key k (record { count = 1; expires_at = now + l.window }) l.buckets,
          bucket_of-put_bucket key k (record b { count = b.count + 1 }) l.buckets,
        )

allow-attempts : (k : String) (now : ℕ) (l : Limiter) → (allow now k l).1.attempts ≡ l.attempts
unfolding allow
allow-attempts k now l = go (bucket_of k l.buckets)
  where
    go : (o : Option Bucket) → (allow_bucket now k l o).1.attempts ≡ l.attempts
    go none = unfold allow_bucket in refl
    go (some b) = unfold allow_bucket in ground arith

-- While a bucket runs, allow counts up to the allowance and then refuses.
allow-running :
    (key : String) (now : ℕ) (l : Limiter) {b : Bucket}
    → bucket_of key l.buckets ≡ some b
    → ltb b.expires_at now ≡ false
    → allow now key l ≡ (
        if leb l.attempts b.count
        then (wait (b.expires_at - now), l)
        else (allowed, with_bucket l key (record b { count = b.count + 1 })))
unfolding allow
allow-running key now l {b} found running = rw found (unfold allow_bucket in rw running refl)

-- What a call inside the window of a bucket makes of it: the end stays, and what passed is counted.
record Counted (key : String) (c : Call) (l : Limiter) (b d : Bucket) : Type 0 where
  found : bucket_of key (after_call c l).buckets ≡ some d
  same_end : d.expires_at ≡ b.expires_at
  counted : d.count ≡ (if passes_key key c l then b.count + 1 else b.count)
  low : d.count ≤ l.attempts
  same_attempts : (after_call c l).attempts ≡ l.attempts

Counted-call :
    (key : String) (c : Call) (l : Limiter) {b : Bucket}
    → bucket_of key l.buckets ≡ some b
    → b.count ≤ l.attempts
    → ltb b.expires_at (time_of c) ≡ false
    → (d : Bucket) × Counted key c l b d
unfolding after_call passes_key
Counted-call key (reaped now) l {b} found low open_ = (
  b,
  record {
    found = unfold reap in bucket_of-reap key now l.buckets found open_;
    same_end = refl;
    counted = refl;
    low = low;
    same_attempts = unfold reap in refl;
  },
)
Counted-call key (attempt now k) l {b} found low open_ = elim (Bool-cases (str_eq k key)) [
  | inr other ↦ (
    b,
    record {
      found = allow-other key k now l other ∙ found;
      same_end = refl;
      counted = rw other refl;
      low = low;
      same_attempts = allow-attempts k now l;
    },
  )
  | inl this ↦ elim (Bool-cases (leb l.attempts b.count)) [
    | inl full ↦
        let e : allow now k l ≡ (wait (b.expires_at - now), l) =
          rw ((str_eq_iff k key).0 this) (allow-running key now l found open_ ∙ rw full refl) in
        (
          b,
          record {
            found = ap (λ x. bucket_of key x.1.buckets) e ∙ found;
            same_end = refl;
            counted = rw (this, e) (unfold is_allowed in refl);
            low = low;
            same_attempts = allow-attempts k now l;
          },
        )
    | inr room ↦
        let d : Bucket = record b { count = b.count + 1 } in
        let e : allow now k l ≡ (allowed, with_bucket l key d) =
          rw ((str_eq_iff k key).0 this) (allow-running key now l found open_ ∙ rw room refl) in
        (
          d,
          record {
            found =
                ap (λ x. bucket_of key x.1.buckets) e
                ∙ ground (arith, bucket_of-put_bucket key key d l.buckets, str_eq_refl key);
            same_end = refl;
            counted = rw (this, e) (unfold is_allowed in refl);
            low = ground arith;
            same_attempts = allow-attempts k now l;
          },
        )
  ]
]

-- In the window of a bucket no more attempts pass than the allowance leaves, whatever else is
-- asked of the limiter in between: the bucket's count included, at most `attempts` pass.
pub passed-bound :
    (key : String) (calls : List Call) (l : Limiter) (b : Bucket)
    → bucket_of key l.buckets ≡ some b
    → b.count ≤ l.attempts
    → all (λ c. leb (time_of c) b.expires_at) calls ≡ true
    → passed key calls l + b.count ≤ l.attempts
unfolding passed all
passed-bound key [] l b found low inside = omega arith
passed-bound key (c ∷ cs) l b found low inside =
    let (d, k) = Counted-call key c l found low (ground arith) in
    let rest =
      passed-bound key cs (after_call c l) d k.found (rw k.same_attempts k.low)
        (rw k.same_end (ground arith)) in
    ground (arith, rest, k.counted, k.same_attempts)
