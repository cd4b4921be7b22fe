-- ===== src/RateLimiter/Eviction.antt =====
-- Which bucket a full table gives up for a new client.
use one_time_note.Base.{
  ℕ, ◌+◌, ◌≤◌, ◌<◌, ◌≡◌, ◌≢◌, ◌↔◌, ◌⊎◌, inl, inr, refl, Bool, true, false, [], none, some, arith,
  length, Bool-cases, ap, sym, subst, ltb, ◌∙◌, ◌==◌, ◌||◌, not,
}
use one_time_note.Base.Text.{Bytes}
use one_time_note.Base.Int.{ltb_ℤ, pos}
use one_time_note.Clock.{Time, minute}
use one_time_note.RateLimiter.{Rate, RateBucket, RateLimiter, find_oldest, ensure_bucket_capacity}
use one_time_note.RateLimiter.Table.{get, remove, IsMap}
use one_time_note.RateLimiter.Oldest.{IsIdle, found_of_find_oldest, find_oldest-least}

module _ (R : Rate) (new_key : Bytes) (now : Time) where
  -- Room is granted in a table that has it, or by the removal of an idle bucket.
  pub ensure_bucket_capacity_changes :
      (l : RateLimiter R)
      → IsMap l.buckets
      → ((ensure_bucket_capacity R new_key now l ≡ (true, l))
          × ((n : ℕ) → l.max_buckets ≡ pos n → 0 < n → length l.buckets < n))
        ⊎ ((ensure_bucket_capacity R new_key now l ≡ (false, l))
            ⊎ ((k : Bytes) × (b : RateBucket R) × (get k l.buckets ≡ some b)
                × IsIdle R new_key now k b
                × (ensure_bucket_capacity R new_key now l
                    ≡ (true, record l { buckets = remove k l.buckets }))))
  unfolding ensure_bucket_capacity
  ensure_bucket_capacity_changes l m =
      elim (Bool-cases
        (not (ltb_ℤ (pos 0) l.max_buckets) || ltb_ℤ (pos (length l.buckets)) l.max_buckets)) [
          | inl room ↦ inl (rw room refl, λ n e h. ground (arith, e, h, room))
          | inr full ↦ elim (found_of_find_oldest R new_key now l.buckets ([], 0) m) [
            | inl e ↦ inr (inl (rw (full, e) refl))
            | inr (k, b, held, idle, e) ↦ elim (Bool-cases (length k == 0)) [
              | inl none_found ↦ inr (inl (rw (full, e, none_found) refl))
              | inr some_found ↦ inr (inr (k, b, held, idle, rw (full, e, some_found) refl))
            ]
          ]
        ]

  module _ (l : RateLimiter R) (n : ℕ) (limit : l.max_buckets ≡ pos n) (some_room : 0 < n)
      (full : n ≤ length l.buckets) where
    oldest : Bytes × Time
    oldest = find_oldest R new_key now l.buckets ([], 0)

    ensure_bucket_capacity_cases :
        ((length oldest.0 ≡ 0) × (ensure_bucket_capacity R new_key now l ≡ (false, l)))
        ⊎ ((length oldest.0 ≢ 0)
            × (ensure_bucket_capacity R new_key now l
                ≡ (true, record l { buckets = remove oldest.0 l.buckets })))
    unfolding ensure_bucket_capacity oldest
    ensure_bucket_capacity_cases = elim (Bool-cases (length oldest.0 == 0)) [
      | inl e ↦ inl (ground arith, rw (limit, leb_gt, ge, e) refl)
      | inr e ↦ inr (ground arith, rw (limit, leb_gt, ge, e) refl)
    ]
      where
        leb_gt : ltb 0 n ≡ true
        leb_gt = ground arith

        ge : ltb (length l.buckets) n ≡ false
        ge = ground arith

    module _ (map : IsMap l.buckets) (named : get [] l.buckets ≡ none) where
      oldest_cases :
          (length oldest.0 ≡ 0)
          ⊎ ((b : RateBucket R) × (get oldest.0 l.buckets ≡ some b)
              × IsIdle R new_key now oldest.0 b
              × (oldest.1 ≡ b.last_seen))
      unfolding oldest
      oldest_cases = elim (found_of_find_oldest R new_key now l.buckets ([], 0) map) [
        | inl e ↦ inl (ap (λ (x : Bytes × Time). length x.0) e)
        | inr (k, b, held, idle, e) ↦
            let same : oldest.0 ≡ k = ap (λ (x : Bytes × Time). x.0) e in
            inr (
              b,
              ap (λ (x : Bytes). get x l.buckets) same ∙ held,
              subst (λ (x : Bytes). IsIdle R new_key now x b) (sym same) idle,
              ap (λ (x : Bytes × Time). x.1) e,
            )
      ]

      oldest-least :
          (j : Bytes) (b : RateBucket R)
          → get j l.buckets ≡ some b
          → IsIdle R new_key now j b
          → (length oldest.0 ≢ 0) × (oldest.1 ≤ b.last_seen)
      unfolding oldest
      oldest-least j b h idle = find_oldest-least R new_key now l.buckets [] 0 named j b h idle

      not_idle :
          length oldest.0 ≡ 0
          → (j : Bytes) (b : RateBucket R) → get j l.buckets ≡ some b
          → j ≢ new_key
          → now < b.last_seen + minute
      not_idle e j b h other = elim (Bool-cases (ltb now (b.last_seen + minute))) [
        | inl busy ↦ ground arith
        | inr old ↦ absurd ((oldest-least j b h (record { other = other; old = ground arith })).0 e)
      ]

  -- In a full table whose clients all have a non-empty key, the room for a new client is refused exactly
  -- if every bucket of another client was seen within the last minute; and if it is granted, what is
  -- removed is a bucket of another client that was not seen for a minute, and among those one that was
  -- last seen first.
  pub ensure_bucket_capacity_full :
      (l : RateLimiter R) (n : ℕ)
      → l.max_buckets ≡ pos n
      → 0 < n
      → n ≤ length l.buckets
      → IsMap l.buckets
      → get [] l.buckets ≡ none
      → let (granted, l') = ensure_bucket_capacity R new_key now l in
        ((granted ≡ false) ↔ (
          (j : Bytes) (b : RateBucket R)
          → get j l.buckets ≡ some b
          → j ≢ new_key
          → now < b.last_seen + minute))
        × (granted ≡ true
            → (k : Bytes) × (b : RateBucket R) × (get k l.buckets ≡ some b)
              × IsIdle R new_key now k b
              × (l'.buckets ≡ remove k l.buckets)
              × ((j : Bytes) (x : RateBucket R)
                  → get j l.buckets ≡ some x
                  → IsIdle R new_key now j x
                  → b.last_seen ≤ x.last_seen))
  ensure_bucket_capacity_full l n limit some_room full map named =
      elim (ensure_bucket_capacity_cases l n limit some_room full) [
        | inl (none_found, e) ↦ (
          (
            λ refused. not_idle l n limit some_room full map named none_found,
            λ busy. ap (λ (x : Bool × RateLimiter R). x.0) e,
          ),
          λ granted. cc (granted, e),
        )
        | inr (found, e) ↦ elim (oldest_cases l n limit some_room full map named) [
          | inl none_found ↦ absurd (found none_found)
          | inr (b, held, idle, at) ↦ (
            (
              λ refused. cc (refused, e),
              λ busy. absurd (omega (arith, idle.old, busy _ b held idle.other)),
            ),
            λ granted. (
              _,
              b,
              held,
              idle,
              ap (λ (x : Bool × RateLimiter R). x.1.buckets) e,
              λ j x h i.
                  omega (arith, at, (oldest-least l n limit some_room full map named j x h i).1),
            ),
          )
        ]
      ]
