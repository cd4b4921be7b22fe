-- ===== src/Routes/Limited.antt =====
-- No request to the API escapes the rate limiter.
use one_time_note.Base.{◌≡◌, refl, true, false, some, [], ◌∷◌, arith, Bool-cases, inl, inr}
use one_time_note.Base.Text.{Bytes, codes, bytes_eq, has_prefix}
use one_time_note.Clock.{Time}
use one_time_note.Net.{Net}
use one_time_note.Forwarded.{Request}
use one_time_note.Proxy.{is_health_check_request}
use one_time_note.RateLimiter.{Rate, RateLimiter, allow_request}
use one_time_note.Routes.{verdict, is_json_route, is_static_asset_request, rate_limit_middleware}

-- A path under /api/ is none of the paths that the middleware lets through.
other_paths :
    (path : Bytes)
    → has_prefix path (codes "/api/") ≡ true
    → (bytes_eq path (codes "/healthz") ≡ false)
      × (has_prefix path (codes "/static/") ≡ false)
      × (bytes_eq path (codes "/favicon.ico") ≡ false)
      × (has_prefix path (codes "/.well-known/") ≡ false)
unfolding has_prefix bytes_eq
other_paths [] h = cc
other_paths (a ∷ []) h = absurd (ground (arith, h))
other_paths (a ∷ b ∷ s) h =
    (ground (arith, h), ground (arith, h), ground (arith, h), ground (arith, h))

module _ (N : Net) (R : Rate) where
  -- A request to the JSON API is always counted against its client: it is passed on exactly if the
  -- limiter allows it, whatever its method.
  pub rate_limit_middleware-json :
      (limiter : RateLimiter R) (r : Request N) (client_key : Bytes) (now : Time)
      → is_json_route N r ≡ true
      → let ((allowed, retry_after), limiter') = allow_request R client_key now limiter in
        rate_limit_middleware N R (some limiter) r client_key now
        ≡ (verdict allowed retry_after, some limiter')
  unfolding is_json_route rate_limit_middleware is_health_check_request is_static_asset_request
  rate_limit_middleware-json limiter r client_key now h =
      let (health, static, icon, known) = other_paths r.path h in
      elim (Bool-cases (bytes_eq r.method (codes "GET"))) [
        | inl get ↦ rw (get, health, static, icon, known) refl
        | inr other ↦ rw other refl
      ]
