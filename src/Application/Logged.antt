-- ===== src/Application/Logged.antt =====
-- What is logged of a request: by the limiter and the middlewares (rate_limiter.go, proxy.go,
-- middleware.go), and by the endpoints. The duration in a request's record is not modelled, and of an error
-- in a record, its text.
pub mod Middlewares
pub mod Discreet
use one_time_note.Base.{
  ◌≡◌, ℕ, ◌==◌, Bool, true, false, ◌||◌, List, [], ◌∷◌, ◌++◌, Option, none, some, length,
  if◌then◌else◌,
}
use one_time_note.Base.Text.{Bytes, codes}
use one_time_note.Base.Int.{pos}
use one_time_note.Clock.{Time}
use one_time_note.Platform.{Platform}
use one_time_note.Database.{Db}
use one_time_note.Net.{Net}
use one_time_note.Forwarded.{Request}
use one_time_note.Proxy.{
  Checked, HttpContext, found, rejected, is_health_check_request, remote_addr_ip,
  trusted_proxy_middleware,
}
use one_time_note.RateLimiter.{
  Rate, RateBucket, RateLimiter, sweep_expired_buckets, ensure_bucket_capacity, allow_request,
}
use one_time_note.RateLimiter.Table.{get}
use one_time_note.Routes.{
  Verdict, next_handler, too_many_requests, is_static_asset_request, rate_limit_middleware,
  route_pattern,
}
use one_time_note.Http.{Http}
use one_time_note.Web.{Writer}
use one_time_note.Views.{Engine}
use one_time_note.Logging.{
  LogRecord, Attributes, failure, text_value, number_value, log_security_event, reason_event,
  handle_create_ticket_log, handle_create_note_log, handle_open_note_log,
}
use one_time_note.Application.Routing.{
  Route, create_page, preview, get_config, create_ticket, create_note, open_note, static_missing,
  static_asset, health, no_route, redirect, match_request,
}
use one_time_note.Application.{
  Visit, NetHttp, proxy_config, security_headers, App, Shared, Moment, LogEntry, log_request,
  limited, serve_http,
}

abbrev pub error_attribute : Bool → Attributes
error_attribute true = (codes "error", failure) ∷ []
error_attribute false = []

-- The pattern of a route. `redirected` is the one that the mux gives a redirected request.
unfoldable pub pattern_of : (redirected : Bytes) → Route → Bytes
pattern_of redirected create_page = codes "GET /{$}"
pattern_of redirected (preview id) = codes "GET /note/{id}"
pattern_of redirected get_config = codes "GET /api/config"
pattern_of redirected create_ticket = codes "POST /api/tickets"
pattern_of redirected (create_note id) = codes "POST /api/notes/{id}"
pattern_of redirected (open_note id) = codes "POST /api/notes/{id}/open"
pattern_of redirected static_missing = codes "GET /static/{asset}"
pattern_of redirected (static_asset version asset) = codes "GET /static/{version}/{asset...}"
pattern_of redirected health = codes "GET /healthz"
pattern_of redirected no_route = codes "/"
pattern_of redirected (redirect status) = redirected

-- The end of `ensureBucketCapacity`.
abbrev pub capacity_log {ℓ} : {A : Type ℓ} → Bool × List A → List LogRecord
capacity_log (true, buckets) = []
capacity_log (false, buckets) =
    log_security_event (codes "rate_limiter_saturated")
      ((codes "bucket_count", number_value (pos (length buckets))) ∷ [])
    ∷ []

module _ (N : Net) where
  -- The text of the connection's address, as `rejectProxyRequest` gets it.
  unfoldable pub remote_text : Request N → Bytes
  remote_text r = elim (remote_addr_ip N r.remote_addr) [
    | none ↦ r.remote_addr
    | some remote_ip ↦ N.address_text remote_ip
  ]

  abbrev pub fallback_route : Request N → Bytes
  fallback_route r = route_pattern [] r.method r.path

  -- The record of `rejectProxyRequest`.
  unfoldable pub proxy_rejected_log : Request N → (reason : Bytes) → LogRecord
  proxy_rejected_log r reason = log_security_event (codes "proxy_rejected") (
      (codes "route", text_value (fallback_route r))
      ∷ (codes "reason", text_value reason)
      ∷ (codes "remote", text_value (remote_text r))
      ∷ (codes "status", number_value (pos 400))
      ∷ [])

  abbrev pub verdict_log : Request N → (client : Bytes) → Verdict → List LogRecord
  verdict_log r client next_handler = []
  verdict_log r client (too_many_requests retry_after) =
      log_security_event (codes "rate_limited") (
        (codes "route", text_value (fallback_route r))
        ∷ (codes "client", text_value client)
        ∷ (codes "status", number_value (pos 429))
        ∷ [])
      ∷ []

  module _ (R : Rate) where
    -- A bucket is looked for after the sweep, and room is looked for where there is none.
    abbrev pub room_log :
        (client : Bytes) → Time → RateLimiter R → Option (RateBucket R) → List LogRecord
    room_log client now l (some bucket) = []
    room_log client now l none =
        let (there_is_room, l') = ensure_bucket_capacity R client now l in
        capacity_log (there_is_room, l'.buckets)

    unfoldable pub allow_request_log : (client : Bytes) → Time → RateLimiter R → List LogRecord
    allow_request_log client now l =
        let l' = sweep_expired_buckets R now l in room_log client now l' (get client l'.buckets)

    unfoldable pub rate_limit_log :
        Request N → (client : Bytes) → Time → RateLimiter R → List LogRecord
    rate_limit_log r client now l =
        if is_health_check_request N r || is_static_asset_request N r
        then []
        else allow_request_log client now l
          ++ verdict_log r client (rate_limit_middleware N R (some l) r client now).0

module _ (N : Net) (E : Engine N) (R : Rate) (P : Platform) (H : Http) (S : NetHttp N)
    (a : App N E R P H S) (m : Moment N E R P H S) (v : Visit N) (redirected : Bytes) where
  -- What the endpoint of a route logs.
  unfoldable pub endpoint_log : (client : Bytes) → Route → Db P.Bucket → List LogRecord
  endpoint_log client create_ticket db =
      handle_create_ticket_log (pattern_of redirected create_ticket) client P m.ticket_faults
        m.ticket_at m.burn_token m.note_id db
  endpoint_log client (create_note id) db =
      handle_create_note_log (pattern_of redirected (create_note id)) client P a.limits H
        m.circumstances v.content_type id v.content db
  endpoint_log client (open_note id) db =
      handle_open_note_log (pattern_of redirected (open_note id)) client P a.limits H m.open_faults
        m.opened_at v.content_type id v.content db
  endpoint_log client _ db = []

  abbrev pub visited : Route
  visited = match_request S.mux v.request.method v.request.path

  -- The route whose endpoint the request reaches.
  abbrev pub routed : Verdict → (refusal : Option Bytes) → Option Route
  routed next_handler none = some visited
  routed _ _ = none

  abbrev pub reached : (client : Bytes) → Shared N E R P H S → Option Route
  reached client s =
      routed (rate_limit_middleware N R (some s.rate_limiter) v.request client m.limited_at).0
        (S.cross_origin v)

  abbrev pub reached_pattern : Option Route → Bytes
  reached_pattern none = []
  reached_pattern (some route) = pattern_of redirected route

  abbrev pub reached_log : (client : Bytes) → Db P.Bucket → Option Route → List LogRecord
  reached_log client db none = []
  reached_log client db (some route) = endpoint_log client route db

  -- Whether `ctx.Err` is set when the request was handled: by `writeInternalJSONError` and
  -- `internalServerError`, which answer 500. The file server and the mux do not set it.
  abbrev pub sets_error : Option Route → (status : ℕ) → Bool
  sets_error none status = false
  sets_error (some (static_asset version asset)) status = false
  sets_error (some (redirect code)) status = false
  sets_error (some _) status = status == 500

  -- The record of `LoggingMiddleware`.
  abbrev pub request_log : Option Route → Option (LogEntry N E R P H S) → List LogRecord
  request_log o none = []
  request_log o (some entry) =
      (record {
        is_error = false;
        message = codes "http_request";
        attributes =
            (codes "event", text_value (codes "request_completed"))
            ∷ (codes "method", text_value entry.method)
            ∷ (codes "route", text_value entry.route)
            ∷ (codes "status", number_value (pos entry.status))
            ∷ (codes "client", text_value entry.client)
            ∷ error_attribute (sets_error o entry.status);
      })
      ∷ []

  abbrev pub context_log : Writer → Shared N E R P H S → Checked (HttpContext N) → List LogRecord
  context_log w s (rejected reason) = proxy_rejected_log N v.request reason ∷ []
  context_log w s (found ctx) =
      let client = ctx.client_key in
      rate_limit_log N R v.request client m.limited_at s.rate_limiter
      ++ (reached_log client s.db (reached client s)
          ++ request_log (reached client s) (
              log_request N E R P H S (reached_pattern (reached client s)) v client
                (limited N E R P H S a m v ctx (security_headers a.cfg.is_development w) s).0))

  -- The records of `serve_http`, in their order.
  unfoldable pub serve_log : Writer → Shared N E R P H S → List LogRecord
  serve_log w s = context_log w s (trusted_proxy_middleware N (proxy_config N a.cfg) v.request)
