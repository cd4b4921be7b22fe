-- ===== src/Application/Logged/Middlewares.antt =====
-- The texts of routes, and those in the records of the proxy middleware and the limiter.
use one_time_note.Base.{
  ◌≡◌, refl, ◌⊎◌, inl, inr, Bool, true, false, not, ◌&&◌, ◌||◌, List, [], ◌++◌, Option, none, some,
  length, ◌==◌, if◌then◌else◌,
}
use one_time_note.Base.Text.{Bytes, codes, bytes_eq, has_prefix}
use one_time_note.Configuration.{has_suffix}
use one_time_note.Base.Lists.{All-append}
use one_time_note.Clock.{Time}
use one_time_note.Net.{Net}
use one_time_note.Forwarded.{Request}
use one_time_note.Proxy.{is_health_check_request}
use one_time_note.RateLimiter.{
  Rate, RateBucket, RateLimiter, sweep_expired_buckets, ensure_bucket_capacity,
}
use one_time_note.RateLimiter.Table.{get}
use one_time_note.Routes.{
  Verdict, next_handler, too_many_requests, is_static_asset_request, rate_limit_middleware,
  route_pattern, fallback_route_pattern,
}
use one_time_note.Logging.{LogRecord, log_security_event}
use one_time_note.Logging.Discreet.{
  fixed_texts, is_one_of, IsPublic, fixed, other_route, IsDiscreet, AreDiscreet,
  none_if-AreDiscreet,
}
use one_time_note.Application.Routing.{
  Route, create_page, preview, get_config, create_ticket, create_note, open_note, static_missing,
  static_asset, health, no_route, redirect,
}
use one_time_note.Application.Logged.{
  pattern_of, capacity_log, remote_text, fallback_route, proxy_rejected_log, verdict_log, room_log,
  allow_request_log, rate_limit_log,
}

module _ (method : Bytes) (others : List Bytes) where
  choice-IsPublic :
      (test : Bool) (s t : Bytes)
      → IsPublic method others s
      → IsPublic method others t
      → IsPublic method others (if test then s else t)
  choice-IsPublic true s t p q = p
  choice-IsPublic false s t p q = q

  fixed_or :
      (test : Bool) (s : Bytes) {t : Bytes}
      → is_one_of s fixed_texts ≡ true
      → IsPublic method others t
      → IsPublic method others (if test then s else t)
  fixed_or test s h p = choice-IsPublic test s _ (fixed s h) p

  fallback_route_pattern-IsPublic :
      (path : Bytes) → IsPublic method others (fallback_route_pattern method path)
  unfolding fallback_route_pattern bytes_eq
  fallback_route_pattern-IsPublic path =
      let get : Bool = bytes_eq method (codes "GET") in
      let post : Bool = bytes_eq method (codes "POST") in
      let note : Bool = has_prefix path (codes "/api/notes/") in
      fixed_or (get && bytes_eq path (codes "/healthz")) (codes "GET /healthz") refl (
        fixed_or (get && has_prefix path (codes "/static/"))
          (codes "GET /static/{version}/{asset...}") refl
          (fixed_or (get && bytes_eq path (codes "/favicon.ico")) (codes "GET /favicon.ico") refl (
            fixed_or (get && has_prefix path (codes "/.well-known/"))
              (codes "GET /.well-known/{asset...}") refl
              (fixed_or (get && bytes_eq path (codes "/api/config")) (codes "GET /api/config") refl
                (fixed_or (post && bytes_eq path (codes "/api/tickets")) (codes "POST /api/tickets")
                  refl
                  (fixed_or (post && (note && has_suffix path (codes "/open")))
                    (codes "POST /api/notes/{id}/open") refl
                    (fixed_or (post && note) (codes "POST /api/notes/{id}") refl other_route)))))))

  pub route_pattern-IsPublic :
      (pattern path : Bytes)
      → (pattern ≡ []) ⊎ IsPublic method others pattern
      → IsPublic method others (route_pattern pattern method path)
  unfolding route_pattern
  route_pattern-IsPublic pattern path (inl e) = rw e (fallback_route_pattern-IsPublic path)
  route_pattern-IsPublic pattern path (inr p) =
      choice-IsPublic (not (length pattern == 0)) pattern _ p (fallback_route_pattern-IsPublic path)

  pub pattern_of-IsPublic :
      (redirected : Bytes) (route : Route)
      → IsPublic method others redirected
      → IsPublic method others (pattern_of redirected route)
  unfolding pattern_of bytes_eq
  pattern_of-IsPublic redirected (redirect status) p = p
  pattern_of-IsPublic redirected create_page p = fixed _ refl
  pattern_of-IsPublic redirected (preview id) p = fixed _ refl
  pattern_of-IsPublic redirected get_config p = fixed _ refl
  pattern_of-IsPublic redirected create_ticket p = fixed _ refl
  pattern_of-IsPublic redirected (create_note id) p = fixed _ refl
  pattern_of-IsPublic redirected (open_note id) p = fixed _ refl
  pattern_of-IsPublic redirected static_missing p = fixed _ refl
  pattern_of-IsPublic redirected (static_asset version asset) p = fixed _ refl
  pattern_of-IsPublic redirected health p = fixed _ refl
  pattern_of-IsPublic redirected no_route p = fixed _ refl

  capacity_log-AreDiscreet {ℓ} :
      {A : Type ℓ} (there_is_room : Bool) (buckets : List A)
      → AreDiscreet method others (capacity_log (there_is_room, buckets))
  unfolding log_security_event bytes_eq
  capacity_log-AreDiscreet true buckets = tt
  capacity_log-AreDiscreet false buckets = ((fixed _ refl, (tt, tt)), tt)

  pub AreDiscreet-append :
      (xs ys : List LogRecord)
      → AreDiscreet method others xs
      → AreDiscreet method others ys
      → AreDiscreet method others (xs ++ ys)
  AreDiscreet-append = All-append (IsDiscreet method others)

module _ (N : Net) (r : Request N) (others : List Bytes) where
  fallback_route-IsPublic : IsPublic r.method others (fallback_route N r)
  fallback_route-IsPublic = route_pattern-IsPublic r.method others [] r.path (inl refl)

  verdict_log-AreDiscreet :
      (client : Bytes) (verdict : Verdict)
      → IsPublic r.method others client
      → AreDiscreet r.method others (verdict_log N r client verdict)
  unfolding log_security_event bytes_eq
  verdict_log-AreDiscreet client next_handler p = tt
  verdict_log-AreDiscreet client (too_many_requests d) p =
      ((fixed _ refl, (fallback_route-IsPublic, (p, (tt, tt)))), tt)

  pub proxy_rejected_log-IsDiscreet :
      (reason : Bytes)
      → IsPublic r.method others reason
      → IsPublic r.method others (remote_text N r)
      → IsDiscreet r.method others (proxy_rejected_log N r reason)
  unfolding proxy_rejected_log log_security_event bytes_eq
  proxy_rejected_log-IsDiscreet reason p q =
      (fixed _ refl, (fallback_route-IsPublic, (p, (q, (tt, tt)))))

  module _ (R : Rate) (client : Bytes) (now : Time) where
    room_log-AreDiscreet :
        (l : RateLimiter R) (o : Option (RateBucket R))
        → AreDiscreet r.method others (room_log N R client now l o)
    room_log-AreDiscreet l (some bucket) = tt
    room_log-AreDiscreet l none =
        capacity_log-AreDiscreet r.method others (ensure_bucket_capacity R client now l).0 _

    allow_request_log-AreDiscreet :
        (l : RateLimiter R) → AreDiscreet r.method others (allow_request_log N R client now l)
    unfolding allow_request_log
    allow_request_log-AreDiscreet l =
        room_log-AreDiscreet (sweep_expired_buckets R now l)
          (get client (sweep_expired_buckets R now l).buckets)

    pub rate_limit_log-AreDiscreet :
        (l : RateLimiter R)
        → IsPublic r.method others client
        → AreDiscreet r.method others (rate_limit_log N R r client now l)
    unfolding rate_limit_log
    rate_limit_log-AreDiscreet l p =
        let verdict : Verdict = (rate_limit_middleware N R (some l) r client now).0 in
        none_if-AreDiscreet r.method others
          (is_health_check_request N r || is_static_asset_request N r)
          (allow_request_log N R client now l ++ verdict_log N r client verdict)
          (AreDiscreet-append r.method others (allow_request_log N R client now l)
            (verdict_log N r client verdict) (allow_request_log-AreDiscreet l)
            (verdict_log-AreDiscreet client verdict p))
