-- ===== src/Application/Statuses.antt =====
-- The status in the log.
use one_time_note.Base.{
  ◌≡◌, refl, sym, ◌∙◌, true, false, some, Bool, Bool-cases, Option-cases, inl, inr, arith,
}
use one_time_note.Base.Text.{Bytes, bytes_eq}
use one_time_note.Platform.{Platform}
use one_time_note.Database.{Db}
use one_time_note.Net.{Net}
use one_time_note.RateLimiter.{Rate}
use one_time_note.Proxy.{found, HttpContext, trusted_proxy_middleware}
use one_time_note.Routes.{Verdict, next_handler, too_many_requests, rate_limit_middleware}
use one_time_note.Http.{Http}
use one_time_note.Handlers.Statuses.{
  handle_create_ticket-HasStatus, handle_create_note-HasStatus, handle_open_note-HasStatus,
}
use one_time_note.Web.{Writer, new_writer}
use one_time_note.Web.Recording.{
  final_status, final_status-write_header, IsUnsent, IsRecorded, write_header-IsRecorded,
  write-IsRecorded, set_no_store-IsUnsent, set_header-IsUnsent, write_json_to-IsRecorded,
  http_error-IsRecorded, write_error_response-IsRecorded,
}
use one_time_note.Views.{Engine}
use one_time_note.Views.Statuses.{
  RendersMissing, not_found-IsRecorded, handle_create_note_view-IsRecorded,
  handle_preview_note-IsRecorded,
}
use one_time_note.Assets.{is_refused_asset, http_not_found, handle_static_assets}
use one_time_note.Application.Routing.{
  Route, create_page, preview, get_config, create_ticket, create_note, open_note, static_missing,
  static_asset, health, no_route, redirect,
}
use one_time_note.Application.{
  Visit, NetHttp, proxy_config, security_headers, App, Shared, Moment, LogEntry, log_request,
  handle_health, handle_get_config, endpoint, csrf_middleware, limited, obey, serve_http,
}

security_headers-IsUnsent :
    (is_development : Bool) → IsUnsent (security_headers is_development new_writer)
unfolding security_headers
security_headers-IsUnsent true = record { unsent = refl; unrecorded = refl }
security_headers-IsUnsent false = record { unsent = refl; unrecorded = refl }

handle_health-IsRecorded : (w : Writer) → IsUnsent w → IsRecorded (handle_health w)
unfolding handle_health
handle_health-IsRecorded w u = write-IsRecorded _ _ (
    write_header-IsRecorded 200 _ (λ h. omega (arith, h))
      (set_no_store-IsUnsent _ (set_header-IsUnsent _ _ w u)))

module _ (N : Net) (E : Engine N) (R : Rate) (P : Platform) (H : Http) (S : NetHttp N)
    (a : App N E R P H S) (m : Moment N E R P H S) (visit : Visit N)
    (served : (path : Bytes) (w : Writer) → IsUnsent w → IsRecorded (S.file_server path w))
    (error_page : RendersMissing N E a.views) where
  handle_static_assets-IsRecorded :
      (version path_version asset : Bytes) (w : Writer)
      → IsUnsent w
      → IsRecorded (handle_static_assets S.file_server version path_version asset w)
  unfolding handle_static_assets http_not_found
  handle_static_assets-IsRecorded version path_version asset w u =
      elim (Bool-cases (bytes_eq path_version version)) [
        | inr other ↦ rw other (http_error-IsRecorded _ 404 w (λ h. omega (arith, h)) u)
        | inl same ↦ elim (Bool-cases (is_refused_asset asset)) [
          | inl refused ↦
              rw (same, refused) (http_error-IsRecorded _ 404 w (λ h. omega (arith, h)) u)
          | inr accepted ↦ rw (same, accepted) (served _ _ (set_header-IsUnsent _ _ w u))
        ]
      ]

  endpoint-status :
      (origin : Bytes) (route : Route) (w : Writer) (db : Db P.Bucket)
      → IsUnsent w
      → let w' = (endpoint N E R P H S a m visit origin route w db).0 in
        final_status w' ≡ w'.status_code
  unfolding endpoint http_not_found handle_get_config
  endpoint-status origin create_page w db u =
      (handle_create_note_view-IsRecorded N E a.views a.cfg origin w u).same
  endpoint-status origin (preview id) w db u =
      (handle_preview_note-IsRecorded N E a.views id w error_page u).same
  endpoint-status origin get_config w db u =
      (write_json_to-IsRecorded _ _ w (λ h. omega (arith, h)) u).same
  endpoint-status origin create_ticket w db u =
      (write_json_to-IsRecorded _ _ w (handle_create_ticket-HasStatus P _ _ _ _ db) u).same
  endpoint-status origin (create_note id) w db u =
      (write_json_to-IsRecorded _ _ w (handle_create_note-HasStatus P H a.limits _ id _ db _)
        u).same
  endpoint-status origin (open_note id) w db u =
      (write_json_to-IsRecorded _ _ w (handle_open_note-HasStatus P H a.limits _ id _ db _ _)
        u).same
  endpoint-status origin static_missing w db u =
      (http_error-IsRecorded _ 404 w (λ h. omega (arith, h)) u).same
  endpoint-status origin (static_asset version asset) w db u =
      (handle_static_assets-IsRecorded a.asset_version version asset w u).same
  endpoint-status origin health w db u = (handle_health-IsRecorded w u).same
  endpoint-status origin no_route w db u = (not_found-IsRecorded N E a.views w error_page u).same
  endpoint-status origin (redirect status) w db u = final_status-write_header status w u

  csrf_middleware-status :
      (ctx : HttpContext N) (w : Writer) (s : Shared N E R P H S)
      → IsUnsent w
      → let w' = (csrf_middleware N E R P H S a m visit ctx w s).0 in
        final_status w' ≡ w'.status_code
  unfolding csrf_middleware
  csrf_middleware-status ctx w s u = elim (Option-cases (S.cross_origin visit)) [
    | inr (reason, e) ↦
        rw (e, csrf_middleware) (http_error-IsRecorded reason 403 w (λ h. omega (arith, h)) u).same
    | inl e ↦ rw (e, csrf_middleware) (endpoint-status ctx.public_origin _ w s.db u)
  ]

  obey-status :
      (ctx : HttpContext N) (verdict : Verdict) (w : Writer) (s : Shared N E R P H S)
      → IsUnsent w
      → let w' = (obey N E R P H S a m visit ctx verdict w s).0 in final_status w' ≡ w'.status_code
  obey-status ctx next_handler w s u = csrf_middleware-status ctx w s u
  obey-status ctx (too_many_requests d) w s u =
      (write_error_response-IsRecorded _ 429 _ _ (λ h. omega (arith, h))
        (set_header-IsUnsent _ _ w u)).same

  log_request-status :
      (pattern client_key : Bytes) (w : Writer) (entry : LogEntry N E R P H S)
      → log_request N E R P H S pattern visit client_key w ≡ some entry
      → entry.status ≡ w.status_code
  unfolding log_request
  log_request-status pattern client_key w entry h = ground (arith, h)

  -- For a request that the proxy check accepts: the status in its record in the log, if there is one, is
  -- the one that the client gets, given that the page of the error 404 can be rendered, and that the file
  -- server writes a header once.
  pub serve_http-status :
      (ctx : HttpContext N) (s : Shared N E R P H S) (pattern : Bytes)
      (entry : LogEntry N E R P H S)
      → trusted_proxy_middleware N (proxy_config N a.cfg) visit.request ≡ found ctx
      → let w = (serve_http N E R P H S a m visit new_writer s).0 in
        log_request N E R P H S pattern visit ctx.client_key w ≡ some entry
        → entry.status ≡ final_status w
  unfolding serve_http limited
  serve_http-status ctx s pattern entry accepted logged =
      let last =
        obey-status ctx
          (rate_limit_middleware N R (some s.rate_limiter) visit.request ctx.client_key
            m.limited_at).0
          (security_headers a.cfg.is_development new_writer) _
          (security_headers-IsUnsent a.cfg.is_development) in
      log_request-status pattern ctx.client_key _ entry logged
      ∙ sym (rw (accepted, serve_http) last)
