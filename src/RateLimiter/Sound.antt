-- ===== src/RateLimiter/Sound.antt =====
-- What holds of the limiter's table after any requests: it is a map, it is not larger than its limit, and
-- each bucket lives for an hour at least.
use one_time_note.Base.{
  ℕ, ◌≤◌, ◌<◌, ◌≡◌, refl, subst, sym, false, some, arith, length, Bool-cases, Option-cases, inl,
  inr, not, ◌&&◌,
}
use one_time_note.Base.Text.{Bytes}
use one_time_note.Base.Int.{pos, ltb_ℤ, wrap64, scale}
use one_time_note.Clock.{Time, hour, sub, is_zero}
use one_time_note.RateLimiter.{
  RateSpec, Rate, RateBucket, RateLimiter, rate_bucket_ttl, is_fresh, sweep_expired_buckets,
  ensure_bucket_capacity, new_bucket, take_token, admit, allow_request, rate_limiter_sweep_interval,
}
use one_time_note.RateLimiter.Table.{
  get, remove, set, IsMap, keep-IsMap, remove-IsMap, set-IsMap, length-keep, length-remove,
  length-set-some, length-set-none, get_of_get-keep, length-remove-le, get_of_get-remove,
  get_of_get-set,
}
use one_time_note.RateLimiter.Eviction.{ensure_bucket_capacity_changes}

rate_bucket_ttl-ge : (spec : RateSpec) → ltb_ℤ (rate_bucket_ttl spec) (pos hour) ≡ false
unfolding rate_bucket_ttl
rate_bucket_ttl-ge spec = elim (Bool-cases (ltb_ℤ (wrap64 (scale 2 spec.window)) (pos hour))) [
  | inl short ↦ rw short refl
  | inr long ↦ rw (long, long) refl
]

module _ (R : Rate) where
  -- A bucket after a request at `now`.
  abbrev pub used_bucket : Time → RateBucket R → RateBucket R
  used_bucket now b = record b { limiter = (R.allow b.limiter now).1; last_seen = now }

  pub take_token-state :
      (key : Bytes) (now : Time) (b : RateBucket R) (l : RateLimiter R)
      → (take_token R key now b l).1 ≡ record l { buckets = set key (used_bucket now b) l.buckets }
  unfolding take_token
  take_token-state key now b l = ground arith

  pub record IsSound (l : RateLimiter R) : Type 0 where
    pub map : IsMap l.buckets
    pub bounded : (n : ℕ) → l.max_buckets ≡ pos n → 0 < n → length l.buckets ≤ n
    pub long_lived :
        (k : Bytes) (b : RateBucket R) → get k l.buckets ≡ some b → ltb_ℤ b.ttl (pos hour) ≡ false

  module _ (now : Time) (l : RateLimiter R) (s : IsSound l) where
    pub sweep_expired_buckets-IsSound : IsSound (sweep_expired_buckets R now l)
    unfolding sweep_expired_buckets
    sweep_expired_buckets-IsSound =
        elim (Bool-cases (
          not (is_zero l.last_sweep)
          && ltb_ℤ (sub now l.last_sweep) (pos rate_limiter_sweep_interval))) [
            | inl early ↦ rw early s
            | inr due ↦ rw due (record {
              map = keep-IsMap (is_fresh R now) l.buckets s.map;
              bounded =
                  λ n e h. omega (arith, length-keep (is_fresh R now) l.buckets, s.bounded n e h);
              long_lived = λ k b h.
                  s.long_lived k b (get_of_get-keep (is_fresh R now) k b l.buckets s.map h);
            })
          ]

    remove-IsSound : (k : Bytes) → IsSound (record l { buckets = remove k l.buckets })
    remove-IsSound k = record {
      map = remove-IsMap k l.buckets s.map;
      bounded = λ n e h. omega (arith, length-remove-le k l.buckets, s.bounded n e h);
      long_lived = λ j b h. s.long_lived j b (get_of_get-remove k j b l.buckets h);
    }

    take_token-IsSound :
        (key : Bytes) (b : RateBucket R)
        → ltb_ℤ b.ttl (pos hour) ≡ false
        → ((n : ℕ) (x : RateBucket R)
            → l.max_buckets ≡ pos n
            → 0 < n
            → length (set key x l.buckets) ≤ n)
        → IsSound (take_token R key now b l).1
    take_token-IsSound key b long room =
        let b' : RateBucket R = used_bucket now b in
        subst IsSound (sym (take_token-state key now b l)) (record {
          map = set-IsMap key b' l.buckets s.map;
          bounded = λ n e h. room n b' e h;
          long_lived = λ j x h. elim (get_of_get-set key j b' x l.buckets h) [
            | inl new ↦ subst (λ (y : RateBucket R). ltb_ℤ y.ttl (pos hour) ≡ false) (sym new) long
            | inr old ↦ s.long_lived j x old
          ];
        })

  admit-IsSound :
      (key : Bytes) (now : Time) (l : RateLimiter R)
      → IsSound l
      → IsSound (admit R key now (ensure_bucket_capacity R key now l)).1
  unfolding admit new_bucket
  admit-IsSound key now l s = elim (ensure_bucket_capacity_changes R key now l s.map) [
    | inl (e, room) ↦ rw e (
        take_token-IsSound now l s key _ (rate_bucket_ttl-ge l.spec)
          λ n x limit h. omega (arith, length-set-none key x l.buckets, room n limit h))
    | inr (inl e) ↦ rw e s
    | inr (inr (k, b, held, idle, e)) ↦ rw e (
        take_token-IsSound now (record l { buckets = remove k l.buckets })
          (remove-IsSound now l s k) key _ (rate_bucket_ttl-ge l.spec)
          λ n x limit h. omega (
            arith,
            length-set-none key x (remove k l.buckets),
            length-remove k l.buckets b held,
            s.bounded n limit h,
          ))
  ]

  -- Whatever clients ask and whenever they do, a request leaves a table in which no client has two
  -- buckets, which is not larger than its limit (if that is positive), and in which each bucket lives for
  -- an hour at least, if it was so before.
  pub allow_request-IsSound :
      (key : Bytes) (now : Time) (l : RateLimiter R)
      → IsSound l
      → IsSound (allow_request R key now l).1
  unfolding allow_request
  allow_request-IsSound key now l s =
      let l' = sweep_expired_buckets R now l in
      let s' = sweep_expired_buckets-IsSound now l s in
      elim (Option-cases (get key l'.buckets)) [
        | inl none_found ↦ rw (none_found, allow_request) (admit-IsSound key now l' s')
        | inr (b, found) ↦
            rw (found, allow_request)
              (take_token-IsSound now l' s' key b (s'.long_lived key b found) λ n x limit h.
                omega (arith, length-set-some key x b l'.buckets found, s'.bounded n limit h))
      ]
