-- ===== src/RateLimiter/Clients.antt =====
-- What a client's requests do to its own bucket and to those of the others.
use one_time_note.Base.{
  ◌+◌, ◌≤◌, ◌<◌, ◌≡◌, ◌≢◌, ap, ◌∙◌, not, ◌&&◌, true, false, some, arith, Bool-cases, Option-cases,
  inl, inr,
}
use one_time_note.Base.Text.{Bytes}
use one_time_note.Base.Int.{pos, negsuc, ltb_ℤ}
use one_time_note.Clock.{Time, Duration, minute, hour, sub, is_zero}
use one_time_note.RateLimiter.{
  Rate, RateBucket, RateLimiter, is_fresh, sweep_expired_buckets, rate_limiter_sweep_interval,
  take_token, admit, allow_request,
}
use one_time_note.RateLimiter.Table.{get, remove, get-keep-some, get-set, get-set-ne, get-remove-ne}
use one_time_note.RateLimiter.Eviction.{ensure_bucket_capacity_changes}
use one_time_note.RateLimiter.Sound.{
  IsSound, used_bucket, take_token-state, sweep_expired_buckets-IsSound,
}

sub-lt :
    (now seen : Time) (ttl : Duration)
    → ltb_ℤ ttl (pos hour) ≡ false
    → now < seen + hour
    → ltb_ℤ (sub now seen) ttl ≡ true
sub-lt now seen (pos n) long recent = ground arith
sub-lt now seen (negsuc n) long recent = cc

module _ (R : Rate) where
  is_fresh-true :
      (now : Time) (b : RateBucket R)
      → ltb_ℤ b.ttl (pos hour) ≡ false
      → now < b.last_seen + hour
      → is_fresh R now b ≡ true
  unfolding is_fresh
  is_fresh-true now b long recent = sub-lt now b.last_seen b.ttl long recent

  module _ (now : Time) (l : RateLimiter R) (s : IsSound R l) (j : Bytes) (b : RateBucket R)
      (held : get j l.buckets ≡ some b) (recent : now < b.last_seen + hour) where
    -- A sweep leaves a bucket that was seen within the last hour.
    get-sweep_expired_buckets : get j (sweep_expired_buckets R now l).buckets ≡ some b
    unfolding sweep_expired_buckets
    get-sweep_expired_buckets =
        elim (Bool-cases (
          not (is_zero l.last_sweep)
          && ltb_ℤ (sub now l.last_sweep) (pos rate_limiter_sweep_interval))) [
            | inl early ↦ rw early held
            | inr due ↦ rw due (
                get-keep-some (is_fresh R now) j b l.buckets held
                  (is_fresh-true now b (s.long_lived j b held) recent))
          ]

    get-take_token-ne :
        (key : Bytes) (x : RateBucket R) (l' : RateLimiter R)
        → j ≢ key
        → get j l'.buckets ≡ some b
        → get j (take_token R key now x l').1.buckets ≡ some b
    get-take_token-ne key x l' other h =
        ap (λ (y : RateLimiter R). get j y.buckets) (take_token-state R key now x l')
        ∙ get-set-ne key j (used_bucket R now x) l'.buckets other
        ∙ h

    -- While its client was seen within the last minute, a bucket is not touched by the request of
    -- another client, in a sound table.
    pub allow_request-others :
        (key : Bytes)
        → j ≢ key
        → now < b.last_seen + minute
        → get j (allow_request R key now l).1.buckets ≡ some b
    unfolding allow_request admit
    allow_request-others key other active =
        let l' = sweep_expired_buckets R now l in
        let s' = sweep_expired_buckets-IsSound R now l s in
        let h = get-sweep_expired_buckets in
        elim (Option-cases (get key l'.buckets)) [
          | inr (x, found) ↦ rw (found, allow_request) (get-take_token-ne key x l' other h)
          | inl none_found ↦ elim (ensure_bucket_capacity_changes R key now l' s'.map) [
            | inl (e, room) ↦ rw (none_found, e, allow_request) (get-take_token-ne key _ l' other h)
            | inr (inl e) ↦ rw (none_found, e, allow_request) h
            | inr (inr (k, x, found, idle, e)) ↦
                rw (none_found, e, allow_request)
                  (get-take_token-ne key _ (record l' { buckets = remove k l'.buckets }) other
                    (get-remove-ne k j l'.buckets (λ p. evicted k x p found idle.old h active) ∙ h))
          ]
        ]
      where
        evicted :
            (k : Bytes) (x : RateBucket R)
            → j ≡ k
            → get k (sweep_expired_buckets R now l).buckets ≡ some x
            → x.last_seen + minute ≤ now
            → get j (sweep_expired_buckets R now l).buckets ≡ some b
            → now < b.last_seen + minute
            → ⊥
        evicted k x p found old h active =
            let same : x ≡ b =
              cc (found, h, ap (λ (y : Bytes). get y (sweep_expired_buckets R now l).buckets) p) in
            omega (arith, old, active, ap (λ (y : RateBucket R). y.last_seen) same)

    take_token-answer :
        (key : Bytes) (x : RateBucket R) (l' : RateLimiter R)
        → (take_token R key now x l').0.0 ≡ (R.allow x.limiter now).0
    unfolding take_token
    take_token-answer key x l' = ground arith

    -- A client that was seen within the last hour is answered by its own token bucket, which is kept as
    -- that answer leaves it, in a sound table.
    pub allow_request-own :
        ((allow_request R j now l).0.0 ≡ (R.allow b.limiter now).0)
        × (get j (allow_request R j now l).1.buckets ≡ some (used_bucket R now b))
    unfolding allow_request
    allow_request-own =
        let h = get-sweep_expired_buckets in
        let l' = sweep_expired_buckets R now l in
        (
          rw (h, allow_request) (take_token-answer j b l'),
          rw (h, allow_request)
              (ap (λ (y : RateLimiter R). get j y.buckets) (take_token-state R j now b l')
                ∙ get-set j (used_bucket R now b) l'.buckets),
        )
