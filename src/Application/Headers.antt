-- ===== src/Application/Headers.antt =====
-- The security headers are in every response behind the proxy check.
use one_time_note.Base.{
  ◌≡◌, refl, Bool, true, false, none, some, inl, inr, Option-cases, Bool-cases,
}
use one_time_note.Base.Text.{Bytes, bytes_eq}
use one_time_note.Platform.{Platform}
use one_time_note.Platform.Buckets.{lookup}
use one_time_note.Database.{Db}
use one_time_note.Net.{Net}
use one_time_note.Proxy.{HttpContext, found, trusted_proxy_middleware}
use one_time_note.RateLimiter.{Rate}
use one_time_note.Routes.{Verdict, next_handler, too_many_requests, rate_limit_middleware}
use one_time_note.Http.{Http}
use one_time_note.Assets.{is_refused_asset, http_not_found, handle_static_assets}
use one_time_note.Web.{Writer, new_writer}
use one_time_note.Web.Keeping.{
  IsKept, Has, final_header, set_header-Has, write_header-Has, write-Has, set_no_store-Has,
  typed-Has, write_json_to-Has, http_error-Has, write_error_response-Has,
}
use one_time_note.Views.{Engine}
use one_time_note.Views.Headers.{
  not_found-Has, handle_create_note_view-Has, handle_preview_note-Has,
}
use one_time_note.Application.Routing.{
  Route, create_page, preview, get_config, create_ticket, create_note, open_note, static_missing,
  static_asset, health, no_route, redirect,
}
use one_time_note.Application.{
  Visit, NetHttp, proxy_config, security_headers, App, Shared, Moment, handle_health, endpoint,
  csrf_middleware, limited, obey, serve_http,
}

security_headers-sent :
    (is_development : Bool) → (security_headers is_development new_writer).sent ≡ none
unfolding security_headers
security_headers-sent true = refl
security_headers-sent false = refl

module _ (N : Net) (E : Engine N) (R : Rate) (P : Platform) (H : Http) (S : NetHttp N)
    (a : App N E R P H S) (m : Moment N E R P H S) (visit : Visit N) (k v : Bytes) (kept : IsKept k)
    (served : (path : Bytes) (w : Writer) → Has k v w → Has k v (S.file_server path w)) where
  handle_static_assets-Has :
      (version path_version asset : Bytes) (w : Writer)
      → Has k v w
      → Has k v (handle_static_assets S.file_server version path_version asset w)
  unfolding handle_static_assets http_not_found
  handle_static_assets-Has version path_version asset w h =
      elim (Bool-cases (bytes_eq path_version version)) [
        | inr other ↦ rw other (http_error-Has k v kept _ 404 w h)
        | inl same ↦ elim (Bool-cases (is_refused_asset asset)) [
          | inl refused ↦ rw (same, refused) (http_error-Has k v kept _ 404 w h)
          | inr accepted ↦
              rw (same, accepted) (served _ _ (set_header-Has k v _ _ w kept.cache_control h))
        ]
      ]

  endpoint-Has :
      (origin : Bytes) (route : Route) (w : Writer) (db : Db P.Bucket)
      → Has k v w
      → Has k v (endpoint N E R P H S a m visit origin route w db).0
  unfolding endpoint handle_health http_not_found
  endpoint-Has origin create_page w db h =
      handle_create_note_view-Has N E k v kept a.views a.cfg origin w h
  endpoint-Has origin (preview id) w db h = handle_preview_note-Has N E k v kept a.views id w h
  endpoint-Has origin get_config w db h = write_json_to-Has k v kept _ _ w h
  endpoint-Has origin create_ticket w db h = write_json_to-Has k v kept _ _ w h
  endpoint-Has origin (create_note id) w db h = write_json_to-Has k v kept _ _ w h
  endpoint-Has origin (open_note id) w db h = write_json_to-Has k v kept _ _ w h
  endpoint-Has origin static_missing w db h = http_error-Has k v kept _ 404 w h
  endpoint-Has origin (static_asset version asset) w db h =
      handle_static_assets-Has a.asset_version version asset w h
  endpoint-Has origin health w db h =
      write-Has k v _ _
        (write_header-Has k v 200 _ (set_no_store-Has k v kept _ (typed-Has k v kept _ w h)))
  endpoint-Has origin no_route w db h = not_found-Has N E k v kept a.views w h
  endpoint-Has origin (redirect status) w db h = write_header-Has k v status w h

  csrf_middleware-Has :
      (ctx : HttpContext N) (w : Writer) (s : Shared N E R P H S)
      → Has k v w
      → Has k v (csrf_middleware N E R P H S a m visit ctx w s).0
  unfolding csrf_middleware
  csrf_middleware-Has ctx w s h = elim (Option-cases (S.cross_origin visit)) [
    | inr (reason, e) ↦ rw (e, csrf_middleware) (http_error-Has k v kept reason 403 w h)
    | inl e ↦ rw (e, csrf_middleware) (endpoint-Has ctx.public_origin _ w s.db h)
  ]

  obey-Has :
      (ctx : HttpContext N) (verdict : Verdict) (w : Writer) (s : Shared N E R P H S)
      → Has k v w
      → Has k v (obey N E R P H S a m visit ctx verdict w s).0
  obey-Has ctx next_handler w s h = csrf_middleware-Has ctx w s h
  obey-Has ctx (too_many_requests d) w s h =
      write_error_response-Has k v kept _ 429 _ _ (set_header-Has k v _ _ w kept.retry_after h)

  -- The response to a request that the proxy check accepts, whatever the limiter, the cross-origin
  -- protection and the endpoint make of it, has every header that `SecurityHeadersMiddleware` sets and
  -- that no handler sets itself, with its value, given that the file server keeps it.
  pub serve_http-header :
      (ctx : HttpContext N) (s : Shared N E R P H S)
      → trusted_proxy_middleware N (proxy_config N a.cfg) visit.request ≡ found ctx
      → lookup k (security_headers a.cfg.is_development new_writer).header ≡ some v
      → lookup k (final_header (serve_http N E R P H S a m visit new_writer s).0) ≡ some v
  unfolding serve_http limited
  serve_http-header ctx s accepted secured =
      let w = security_headers a.cfg.is_development new_writer in
      let first : Has k v w = record {
        set_now = secured;
        finally = rw (security_headers-sent a.cfg.is_development) secured;
      } in
      let last =
        obey-Has ctx
          (rate_limit_middleware N R (some s.rate_limiter) visit.request ctx.client_key
            m.limited_at).0
          w _ first in
      rw (accepted, serve_http) last.finally
