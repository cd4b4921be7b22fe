-- ===== src/Application.antt =====
-- main.go and middleware.go: the handler of the server, from the middlewares to the endpoints. What
-- `http.ServeMux` makes of a path, `http.CrossOriginProtection`, the file server and the format of
-- Retry-After are parameters.
pub mod Routing
pub mod Posting
pub mod Guarding
pub mod Events
pub mod Reaching
pub mod Once
pub mod Headers
pub mod Statuses
pub mod Logged
use one_time_note.Base.{ℕ, ◌/◌, Bool, true, not, Option, none, some, ◌++◌, if◌then◌else◌}
use one_time_note.Base.Text.{Bytes, codes}
use one_time_note.Clock.{Time, Duration, second}
use one_time_note.Platform.{Platform}
use one_time_note.Database.{Db, Faults}
use one_time_note.Net.{Net}
use one_time_note.Forwarded.{Request}
use one_time_note.Proxy.{HttpContext, found, rejected, trusted_proxy_middleware}
use one_time_note.RateLimiter.{Rate, RateLimiter}
use one_time_note.Routes.{
  Verdict, next_handler, too_many_requests, is_json_route, rate_limit_middleware, route_pattern,
  is_successful_static_route,
}
use one_time_note.Configuration.Startup.{Config}
use one_time_note.NoteService.{Limits, min_note_lifetime, max_note_lifetime}
use one_time_note.NoteService.Create.{Circumstances}
use one_time_note.Http.{Http, Response, write_json, config_response}
use one_time_note.Handlers.{handle_create_ticket, handle_create_note, handle_open_note}
use one_time_note.Web.{
  Writer, text_chunk, set_header, write_header, write, set_no_store, write_response, http_error,
  wants_json, write_error_response, plain_text,
}
use one_time_note.Views.{Engine, Views, not_found, handle_create_note_view, handle_preview_note}
use one_time_note.Assets.{http_not_found, handle_static_assets}
use one_time_note.Application.Routing.{
  Route, create_page, preview, get_config, create_ticket, create_note, open_note, static_missing,
  static_asset, health, no_route, redirect, Mux, match_request,
}

unfoldable pub security_headers : (is_development : Bool) → Writer → Writer
security_headers is_development w =
    let csp =
      codes "default-src 'none'; script-src 'self'; style-src 'self'; img-src 'self'; "
      ++ (codes "connect-src 'self'; base-uri 'none'; form-action 'self'; "
          ++ (codes "frame-ancestors 'none'; frame-src 'none'; object-src 'none'; "
              ++ codes "script-src-attr 'none'; require-trusted-types-for 'script'")) in
    let strict =
      if not is_development
      then set_header (codes "Strict-Transport-Security") (codes "max-age=31536000") w
      else w in
    let policy =
      set_header (codes "Content-Security-Policy")
        (if not is_development then csp ++ codes "; upgrade-insecure-requests" else csp) strict in
    let sniffing =
      set_header (codes "X-Content-Type-Options") (codes "nosniff")
        (set_header (codes "Referrer-Policy") (codes "no-referrer") policy) in
    let permissions =
      set_header (codes "Permissions-Policy")
        (codes "camera=(), microphone=(), geolocation=(), payment=(), usb=(), "
          ++ codes "fullscreen=(), display-capture=()")
        (set_header (codes "X-Frame-Options") (codes "DENY") sniffing) in
    set_header (codes "Cross-Origin-Resource-Policy") (codes "same-origin")
      (set_header (codes "Cross-Origin-Opener-Policy") (codes "same-origin") permissions)

module _ (N : Net) where
  -- The request as the middlewares read it, and what the endpoints read of it besides.
  pub record Visit : Type 0 where
    pub request : Request N
    pub accept : Bytes
    pub content_type : Bytes
    pub content : Bytes

  -- What the application calls of `net/http` besides what Http has. `cross_origin` is the reason for which
  -- a request is refused.
  pub record NetHttp : Type 1 where
    pub mux : Mux
    pub cross_origin : Visit → Option Bytes
    pub file_server : Bytes → Writer → Writer
    pub format_seconds : Duration → Bytes

  -- The fields that the proxy middleware reads.
  abbrev pub proxy_config : Config N → one_time_note.Proxy.Config N
  proxy_config cfg = record {
    health_check_sources = cfg.health_check_sources;
    trusted_proxies = cfg.trusted_proxies;
    is_development = cfg.is_development;
    public_origin = cfg.public_origin;
    public_origin_host = cfg.public_origin_host;
  }

  unfoldable pub handle_get_config : Config N → Response
  handle_get_config cfg =
      write_json 200 (
        config_response cfg.max_note_size (min_note_lifetime / second) (max_note_lifetime / second))

unfoldable pub handle_health : Writer → Writer
handle_health w =
    write (text_chunk (codes "OK"))
      (write_header 200 (set_no_store (set_header (codes "Content-Type") plain_text w)))

module _ (N : Net) (E : Engine N) (R : Rate) (P : Platform) (H : Http) (S : NetHttp N) where
  pub record App : Type 0 where
    pub asset_version : Bytes
    pub cfg : Config N
    pub limits : Limits
    pub views : Views N E

  -- What the requests share.
  pub record Shared : Type 0 where
    pub db : Db P.Bucket
    pub rate_limiter : RateLimiter R

  -- The readings of the clock, the random bytes and the faults of the database during a request.
  pub record Moment : Type 0 where
    pub limited_at : Time
    pub ticket_faults : Faults
    pub ticket_at : Time
    pub burn_token : Bytes
    pub note_id : Bytes
    pub circumstances : Circumstances
    pub open_faults : Faults
    pub opened_at : Time

  abbrev pub respond : Writer → Response × Db P.Bucket → Writer × Db P.Bucket
  respond w (response, db) = (write_response response w, db)

  -- The attributes of a request's record in the log.
  pub record LogEntry : Type 0 where
    pub method : Bytes
    pub route : Bytes
    pub status : ℕ
    pub client : Bytes

  -- What `LoggingMiddleware` logs when the next handler has returned.
  unfoldable pub log_request :
      (pattern : Bytes) → Visit N → (client_key : Bytes) → Writer → Option LogEntry
  log_request pattern v client_key w =
      let route = route_pattern pattern v.request.method v.request.path in
      if is_successful_static_route route w.status_code
      then none
      else some (record {
        method = v.request.method;
        route = route;
        status = w.status_code;
        client = client_key;
      })

  -- The endpoint of a route.
  unfoldable pub endpoint :
      App
      → Moment
      → Visit N
      → (public_origin : Bytes) → Route
      → Writer
      → Db P.Bucket
      → Writer × Db P.Bucket
  endpoint a m v origin create_page w db = (handle_create_note_view N E a.views a.cfg origin w, db)
  endpoint a m v origin (preview id) w db = (handle_preview_note N E a.views id w, db)
  endpoint a m v origin get_config w db = (write_response (handle_get_config N a.cfg) w, db)
  endpoint a m v origin create_ticket w db =
      let response = handle_create_ticket P m.ticket_faults m.ticket_at m.burn_token m.note_id db in
      (write_response response w, db)
  endpoint a m v origin (create_note id) w db =
      respond w (handle_create_note P H a.limits m.circumstances v.content_type id v.content db)
  endpoint a m v origin (open_note id) w db =
      respond w
        (handle_open_note P H a.limits m.open_faults m.opened_at v.content_type id v.content db)
  endpoint a m v origin static_missing w db = (http_not_found w, db)
  endpoint a m v origin (static_asset version asset) w db =
      (handle_static_assets S.file_server a.asset_version version asset w, db)
  endpoint a m v origin health w db = (handle_health w, db)
  endpoint a m v origin no_route w db = (not_found N E a.views w, db)
  endpoint a m v origin (redirect status) w db = (write_header status w, db)

  -- `CSRFMiddleware`, and the routes behind it.
  unfoldable pub csrf_middleware :
      App → Moment → Visit N → HttpContext N → Writer → Shared → Writer × Shared
  csrf_middleware a m v ctx w s = elim (S.cross_origin v) [
    | some reason ↦ (http_error reason 403 w, s)
    | none ↦
        let (w', db') =
          endpoint a m v ctx.public_origin (match_request S.mux v.request.method v.request.path) w
            s.db in
        (w', record s { db = db' })
  ]

  abbrev pub reject_json : Visit N → Bool
  reject_json v = wants_json (is_json_route N v.request) v.accept

  abbrev reject_proxy_request : Visit N → Writer → Writer
  reject_proxy_request v w = write_error_response (reject_json v) 400 (codes "invalid_request") w

  -- What follows the verdict of `RateLimitMiddleware`.
  abbrev pub obey :
      App → Moment → Visit N → HttpContext N → Verdict → Writer → Shared → Writer × Shared
  obey a m v ctx next_handler w s = csrf_middleware a m v ctx w s
  obey a m v ctx (too_many_requests retry_after) w s = (
    write_error_response (reject_json v) 429 (codes "rate_limited")
        (set_header (codes "Retry-After") (S.format_seconds retry_after) w),
    s,
  )

  abbrev pub kept_limiter : Option (RateLimiter R) → Shared → Shared
  kept_limiter none s = s
  kept_limiter (some limiter) s = record s { rate_limiter = limiter }

  unfoldable pub limited :
      App → Moment → Visit N → HttpContext N → Writer → Shared → Writer × Shared
  limited a m v ctx w s =
      let (verdict, limiter) =
        rate_limit_middleware N R (some s.rate_limiter) v.request ctx.client_key m.limited_at in
      obey a m v ctx verdict w (kept_limiter limiter s)

  -- The handler of `newServerHandler`, on a request.
  unfoldable pub serve_http : App → Moment → Visit N → Writer → Shared → Writer × Shared
  serve_http a m v w s = elim (trusted_proxy_middleware N (proxy_config N a.cfg) v.request) [
    | rejected reason ↦ (reject_proxy_request v w, s)
    | found ctx ↦ limited a m v ctx (security_headers a.cfg.is_development w) s
  ]
