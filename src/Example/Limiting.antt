-- ===== src/Example/Limiting.antt =====
-- A rate limiter with two buckets at most, whose token buckets are counters.
use one_time_note.Base.{
  ℕ, zero, suc, ◌+◌, ◌*◌, ◌<◌, ◌≡◌, ◌≢◌, ◌↔◌, ◌≤◌, refl, Bool, true, false, [], ◌∷◌, some, arith,
}
use one_time_note.Base.Text.{Bytes, codes, bytes_eq}
use one_time_note.Base.Int.{pos}
use one_time_note.Clock.{Time, second, minute, hour}
use one_time_note.RateLimiter.{
  RateSpec, Rate, RateBucket, RateLimiter, allow_request, ensure_bucket_capacity,
}
use one_time_note.RateLimiter.Table.{get, remove, IsMap}
use one_time_note.RateLimiter.Sound.{IsSound, allow_request-IsSound, used_bucket}
use one_time_note.RateLimiter.Oldest.{IsIdle}
use one_time_note.RateLimiter.Eviction.{ensure_bucket_capacity_full}
use one_time_note.RateLimiter.Clients.{allow_request-own}

abbrev take_one : ℕ → Bool × ℕ
take_one zero = (false, zero)
take_one (suc n) = (true, n)

abbrev pub counters : Rate
counters = record {
  Limiter = ℕ;
  new_limiter = λ spec. 3;
  allow = λ n now. take_one n;
  until_token = λ n now spec. pos second;
}

abbrev spec : RateSpec
spec = record { requests = pos 10; window = pos minute; burst = pos 3 }

abbrev bucket : ℕ → Time → RateBucket counters
bucket n seen = record { limiter = n; last_seen = seen; ttl = pos hour }

abbrev alice : Bytes
alice = codes "192.0.2.1"

abbrev bob : Bytes
bob = codes "192.0.2.2"

abbrev carol : Bytes
carol = codes "192.0.2.3"

abbrev limiter : RateLimiter counters
limiter = record {
  buckets = (alice, bucket 2 (10 * minute)) ∷ (bob, bucket 0 (12 * minute)) ∷ [];
  spec = spec;
  last_sweep = 10 * minute;
  max_buckets = pos 2;
}

limiter-IsSound : IsSound counters limiter
unfolding get IsMap bytes_eq
limiter-IsSound = record {
  map = (refl, (refl, tt));
  bounded = λ n e h. ground (arith, e);
  long_lived = λ k b h. ground (arith, h);
}

allow_request-IsSound_example :
    IsSound counters (allow_request counters carol (13 * minute) limiter).1
allow_request-IsSound_example =
    allow_request-IsSound counters carol (13 * minute) limiter limiter-IsSound

ensure_bucket_capacity_full_example :
    (((ensure_bucket_capacity counters carol (13 * minute) limiter).0 ≡ false) ↔ (
      (j : Bytes) (b : RateBucket counters)
      → get j limiter.buckets ≡ some b
      → j ≢ carol
      → 13 * minute < b.last_seen + minute))
    × ((ensure_bucket_capacity counters carol (13 * minute) limiter).0 ≡ true
        → (k : Bytes) × (b : RateBucket counters) × (get k limiter.buckets ≡ some b)
          × IsIdle counters carol (13 * minute) k b
          × ((ensure_bucket_capacity counters carol (13 * minute) limiter).1.buckets
              ≡ remove k limiter.buckets)
          × ((j : Bytes) (x : RateBucket counters)
              → get j limiter.buckets ≡ some x
              → IsIdle counters carol (13 * minute) j x
              → b.last_seen ≤ x.last_seen))
unfolding get IsMap bytes_eq
ensure_bucket_capacity_full_example =
    ensure_bucket_capacity_full counters carol (13 * minute) limiter 2 refl (omega arith)
      (omega arith) (refl, (refl, tt)) refl

allow_request-own_example :
    ((allow_request counters bob (13 * minute) limiter).0.0 ≡ false)
    × (get bob (allow_request counters bob (13 * minute) limiter).1.buckets
        ≡ some (used_bucket counters (13 * minute) (bucket 0 (12 * minute))))
unfolding get bytes_eq
allow_request-own_example =
    allow_request-own counters (13 * minute) limiter limiter-IsSound bob (bucket 0 (12 * minute))
      refl (omega arith)
