-- ===== src/RateLimiter.antt =====
-- rate_limiter.go: one token bucket for each client, in a table of bounded size. The token bucket is
-- `rate.Limiter` of golang.org/x/time/rate.
pub mod Table
pub mod Oldest
pub mod Eviction
pub mod Sound
pub mod Clients
use one_time_note.Base.{
  ℕ, ◌*◌, Bool, true, false, not, ◌&&◌, ◌||◌, List, [], ◌∷◌, Option, none, some, ◌==◌, length,
  if◌then◌else◌,
}
use one_time_note.Base.Text.{Bytes, bytes_eq}
use one_time_note.Base.Int.{ℤ, pos, ltb_ℤ, wrap64, scale}
use one_time_note.Clock.{Time, Duration, second, minute, hour, is_zero, before, sub}
use one_time_note.RateLimiter.Table.{get, remove, set, keep}

pub record RateSpec : Type 0 where
  pub requests : ℤ
  pub window : Duration
  pub burst : ℤ

-- golang.org/x/time/rate, with the floating-point numbers that the program computes from it: a new
-- limiter for a specification, `AllowN(now, 1)` with the limiter after it, and the time until there is
-- a token, `Second * (1 - max(TokensAt(now), 0)) / rateLimit(spec)`.
pub record Rate : Type 1 where
  pub Limiter : Type 0
  pub new_limiter : RateSpec → Limiter
  pub allow : Limiter → Time → Bool × Limiter
  pub until_token : Limiter → Time → RateSpec → Duration

abbrev pub rate_limiter_sweep_interval : ℕ
rate_limiter_sweep_interval = 5 * minute

abbrev pub rate_limiter_min_bucket_ttl : ℕ
rate_limiter_min_bucket_ttl = hour

abbrev pub rate_limiter_saturation_idle_age : ℕ
rate_limiter_saturation_idle_age = minute

abbrev pub rate_limiter_max_buckets : ℕ
rate_limiter_max_buckets = 4096

-- `2 * spec.Window` is a product of int64.
unfoldable pub rate_bucket_ttl : RateSpec → Duration
rate_bucket_ttl spec =
    let ttl = wrap64 (scale 2 spec.window) in
    if ltb_ℤ ttl (pos rate_limiter_min_bucket_ttl) then pos rate_limiter_min_bucket_ttl else ttl

module _ (R : Rate) where
  pub record RateBucket : Type 0 where
    pub limiter : R.Limiter
    pub last_seen : Time
    pub ttl : Duration

  pub record RateLimiter : Type 0 where
    pub buckets : List (Bytes × RateBucket)
    pub spec : RateSpec
    pub last_sweep : Time
    pub max_buckets : ℤ

  unfoldable pub new_rate_limiter : RateSpec → RateLimiter
  new_rate_limiter spec = record {
    buckets = [];
    spec = spec;
    last_sweep = 0;
    max_buckets = pos rate_limiter_max_buckets;
  }

  unfoldable pub is_fresh : Time → RateBucket → Bool
  is_fresh now b = ltb_ℤ (sub now b.last_seen) b.ttl

  unfoldable pub sweep_expired_buckets : Time → RateLimiter → RateLimiter
  sweep_expired_buckets now l =
      if not (is_zero l.last_sweep)
        && ltb_ℤ (sub now l.last_sweep) (pos rate_limiter_sweep_interval)
      then l
      else record l { last_sweep = now; buckets = keep (is_fresh now) l.buckets }

  -- One round of the loop that looks for the oldest idle bucket: the key and the time so far, where an
  -- empty key says that none is found.
  unfoldable pub consider : Bytes → Time → Bytes × RateBucket → Bytes × Time → Bytes × Time
  consider new_key now (key, b) (oldest_key, oldest_seen) =
      if bytes_eq key new_key || ltb_ℤ (sub now b.last_seen) (pos rate_limiter_saturation_idle_age)
      then (oldest_key, oldest_seen)
      else if length oldest_key == 0 || before b.last_seen oldest_seen
      then (key, b.last_seen)
      else (oldest_key, oldest_seen)

  unfoldable pub find_oldest :
      Bytes → Time → List (Bytes × RateBucket) → Bytes × Time → Bytes × Time
  find_oldest new_key now [] oldest = oldest
  find_oldest new_key now (p ∷ l) oldest = find_oldest new_key now l (consider new_key now p oldest)

  unfoldable pub ensure_bucket_capacity : Bytes → Time → RateLimiter → Bool × RateLimiter
  ensure_bucket_capacity new_key now l =
      if not (ltb_ℤ (pos 0) l.max_buckets) || ltb_ℤ (pos (length l.buckets)) l.max_buckets
      then (true, l)
      else let (oldest_key, _) = find_oldest new_key now l.buckets ([], 0) in
        if not (length oldest_key == 0)
        then (true, record l { buckets = remove oldest_key l.buckets })
        else (false, l)

  -- The request takes a token from the client's bucket, which is written back.
  unfoldable pub take_token :
      Bytes → Time → RateBucket → RateLimiter → (Bool × Duration) × RateLimiter
  take_token client_key now bucket l =
      let (allowed, limiter) = R.allow bucket.limiter now in
      let l' = record l {
        buckets = set client_key (record bucket { limiter = limiter; last_seen = now }) l.buckets;
      } in
      let retry = R.until_token limiter now l.spec in
      if allowed
      then ((true, pos 0), l')
      else ((false, if ltb_ℤ retry (pos second) then pos second else retry), l')

  unfoldable pub new_bucket : Time → RateLimiter → RateBucket
  new_bucket now l = record {
    limiter = R.new_limiter l.spec;
    last_seen = now;
    ttl = rate_bucket_ttl l.spec;
  }

  unfoldable pub admit : Bytes → Time → Bool × RateLimiter → (Bool × Duration) × RateLimiter
  admit client_key now (false, l) = ((false, pos second), l)
  admit client_key now (true, l) = take_token client_key now (new_bucket now l) l

  unfoldable pub allow_request : Bytes → Time → RateLimiter → (Bool × Duration) × RateLimiter
  allow_request client_key now l =
      let l' = sweep_expired_buckets now l in
      elim (get client_key l'.buckets) [
        | some bucket ↦ take_token client_key now bucket l'
        | none ↦ admit client_key now (ensure_bucket_capacity client_key now l')
      ]
