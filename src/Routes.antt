-- ===== src/Routes.antt =====
-- route_classifier.go, and `RateLimitMiddleware` of middleware.go. Every request has a URL.
pub mod Limited
use one_time_note.Base.{
  ℕ, Bool, true, false, not, ◌&&◌, ◌||◌, Option, none, some, ◌++◌, if◌then◌else◌, ltb, length, ◌==◌,
}
use one_time_note.Base.Text.{Bytes, codes, bytes_eq, has_prefix}
use one_time_note.Clock.{Time, Duration}
use one_time_note.Configuration.{has_suffix}
use one_time_note.Net.{Net}
use one_time_note.Forwarded.{Request}
use one_time_note.Proxy.{is_health_check_request}
use one_time_note.RateLimiter.{Rate, RateLimiter, allow_request}

unfoldable pub fallback_route_pattern : (method path : Bytes) → Bytes
fallback_route_pattern method path =
    if bytes_eq method (codes "GET") && bytes_eq path (codes "/healthz")
    then codes "GET /healthz"
    else if bytes_eq method (codes "GET") && has_prefix path (codes "/static/")
    then codes "GET /static/{version}/{asset...}"
    else if bytes_eq method (codes "GET") && bytes_eq path (codes "/favicon.ico")
    then codes "GET /favicon.ico"
    else if bytes_eq method (codes "GET") && has_prefix path (codes "/.well-known/")
    then codes "GET /.well-known/{asset...}"
    else if bytes_eq method (codes "GET") && bytes_eq path (codes "/api/config")
    then codes "GET /api/config"
    else if bytes_eq method (codes "POST") && bytes_eq path (codes "/api/tickets")
    then codes "POST /api/tickets"
    else if bytes_eq method (codes "POST")
        && (has_prefix path (codes "/api/notes/") && has_suffix path (codes "/open"))
    then codes "POST /api/notes/{id}/open"
    else if bytes_eq method (codes "POST") && has_prefix path (codes "/api/notes/")
    then codes "POST /api/notes/{id}"
    else method ++ codes " /{app...}"

-- The pattern that the mux found, or what the path looks like.
unfoldable pub route_pattern : (pattern method path : Bytes) → Bytes
route_pattern pattern method path =
    if not (length pattern == 0) then pattern else fallback_route_pattern method path

unfoldable pub is_successful_static_route : Bytes → ℕ → Bool
is_successful_static_route route code = has_prefix route (codes "GET /static/") && ltb code 400

-- What the middleware does: it calls the next handler, or answers 429 with the time to wait.
pub data Verdict : Type 0 where
  next_handler : Verdict
  too_many_requests : Duration → Verdict

abbrev pub verdict : Bool → Duration → Verdict
verdict true retry_after = next_handler
verdict false retry_after = too_many_requests retry_after

module _ (N : Net) where
  unfoldable pub is_json_route : Request N → Bool
  is_json_route r = has_prefix r.path (codes "/api/")

  unfoldable pub is_static_asset_request : Request N → Bool
  is_static_asset_request r =
      bytes_eq r.method (codes "GET")
      && (has_prefix r.path (codes "/static/")
          || (bytes_eq r.path (codes "/favicon.ico") || has_prefix r.path (codes "/.well-known/")))

  module _ (R : Rate) where
    -- `limiter == nil` is `none`.
    unfoldable pub rate_limit_middleware :
        Option (RateLimiter R) → Request N → Bytes → Time → Verdict × Option (RateLimiter R)
    rate_limit_middleware none r client_key now = (next_handler, none)
    rate_limit_middleware (some limiter) r client_key now =
        if is_health_check_request N r || is_static_asset_request r
        then (next_handler, some limiter)
        else (let ((allowed, retry_after), limiter') = allow_request R client_key now limiter in
            (verdict allowed retry_after, some limiter'))
