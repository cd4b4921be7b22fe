-- ===== src/Application/Guarding.antt =====
-- Which requests change the database.
use one_time_note.Base.{
  ◌≡◌, ◌⊎◌, refl, sym, ap, subst, ◌∙◌, Bool, true, false, Option, none, some, inl, inr,
  Option-cases,
}
use one_time_note.Base.Text.{Bytes, codes}
use one_time_note.Platform.{Platform}
use one_time_note.Database.{Db}
use one_time_note.Net.{Net}
use one_time_note.Proxy.{Checked, HttpContext, found, rejected, trusted_proxy_middleware}
use one_time_note.RateLimiter.{Rate, RateLimiter, allow_request}
use one_time_note.Clock.{Duration}
use one_time_note.Routes.{
  Verdict, next_handler, too_many_requests, is_json_route, rate_limit_middleware, verdict,
}
use one_time_note.Routes.Limited.{rate_limit_middleware-json}
use one_time_note.Http.{Http}
use one_time_note.Handlers.{handle_create_note, handle_open_note}
use one_time_note.Web.{Writer}
use one_time_note.Views.{Engine}
use one_time_note.Application.Routing.{
  Route, create_page, preview, get_config, create_ticket, create_note, open_note, static_missing,
  static_asset, health, no_route, redirect, match_request,
}
use one_time_note.Application.Posting.{is_write, match_request-is_write}
use one_time_note.Application.{
  Visit, NetHttp, proxy_config, security_headers, App, Shared, Moment, endpoint, csrf_middleware,
  limited, kept_limiter, serve_http,
}

module _ (N : Net) (E : Engine N) (R : Rate) (P : Platform) (H : Http) (S : NetHttp N) where
  module _ (a : App N E R P H S) (m : Moment N E R P H S) (v : Visit N) where
    -- A request that stores or opens a note, from the database before to the one after.
    abbrev pub Writes : Db P.Bucket → Db P.Bucket → Type 0
    Writes before after =
        (id : Bytes) × (((match_request S.mux v.request.method v.request.path ≡ create_note id)
            × (after
                ≡ (handle_create_note P H a.limits m.circumstances v.content_type id v.content
                    before).1))
          ⊎ ((match_request S.mux v.request.method v.request.path ≡ open_note id)
              × (after
                  ≡ (handle_open_note P H a.limits m.open_faults m.opened_at v.content_type id
                      v.content before).1)))

    -- The request is a POST to the API from the same origin, for the endpoint that writes.
    abbrev Posts : Db P.Bucket → Db P.Bucket → Type 0
    Posts before after =
        (S.cross_origin v ≡ none)
        × (v.request.method ≡ codes "POST")
        × (is_json_route N v.request ≡ true)
        × Writes before after

    endpoint_cases :
        (origin : Bytes) (route : Route) (w : Writer) (db : Db P.Bucket)
        → match_request S.mux v.request.method v.request.path ≡ route
        → ((endpoint N E R P H S a m v origin route w db).1 ≡ db)
          ⊎ ((is_write route ≡ true) × Writes db (endpoint N E R P H S a m v origin route w db).1)
    unfolding endpoint
    endpoint_cases origin (create_note id) w db e = inr (refl, (id, inl (e, refl)))
    endpoint_cases origin (open_note id) w db e = inr (refl, (id, inr (e, refl)))
    endpoint_cases origin create_page w db e = inl refl
    endpoint_cases origin (preview id) w db e = inl refl
    endpoint_cases origin get_config w db e = inl refl
    endpoint_cases origin create_ticket w db e = inl refl
    endpoint_cases origin static_missing w db e = inl refl
    endpoint_cases origin (static_asset version asset) w db e = inl refl
    endpoint_cases origin health w db e = inl refl
    endpoint_cases origin no_route w db e = inl refl
    endpoint_cases origin (redirect status) w db e = inl refl

    csrf_cases :
        (ctx : HttpContext N) (w : Writer) (s : Shared N E R P H S)
        → ((csrf_middleware N E R P H S a m v ctx w s).1.db ≡ s.db)
          ⊎ Posts s.db (csrf_middleware N E R P H S a m v ctx w s).1.db
    unfolding csrf_middleware is_json_route
    csrf_cases ctx w s = elim (Option-cases (S.cross_origin v)) [
      | inr (reason, e) ↦ inl (rw (e, csrf_middleware) refl)
      | inl e ↦
          let route = match_request S.mux v.request.method v.request.path in
          let same : (csrf_middleware N E R P H S a m v ctx w s).1.db
              ≡ (endpoint N E R P H S a m v ctx.public_origin route w s.db).1 =
            rw (e, csrf_middleware) refl in
          elim (endpoint_cases ctx.public_origin route w s.db refl) [
            | inl kept ↦ inl (same ∙ kept)
            | inr (writes, made) ↦
                let (post, api) =
                  match_request-is_write S.mux v.request.method v.request.path writes in
                inr (e, post, api, subst (Writes s.db) (sym same) made)
          ]
    ]

    -- What the request passed, where the database is another one after it.
    pub record HasPassed (s : Shared N E R P H S) (ctx : HttpContext N) (after : Db P.Bucket)
        : Type 0 where
      pub allowed : (allow_request R ctx.client_key m.limited_at s.rate_limiter).0.0 ≡ true
      pub same_origin : S.cross_origin v ≡ none
      pub method : v.request.method ≡ codes "POST"
      pub written : Writes s.db after

    kept_limiter-db :
        (limiter : Option (RateLimiter R)) (s : Shared N E R P H S)
        → (kept_limiter N E R P H S limiter s).db ≡ s.db
    kept_limiter-db none s = refl
    kept_limiter-db (some limiter) s = refl

    verdict-eq-next_handler :
        (allowed : Bool) (d : Duration) → verdict allowed d ≡ next_handler → allowed ≡ true
    verdict-eq-next_handler true d h = refl
    verdict-eq-next_handler false d h = cc

    limited_cases :
        (ctx : HttpContext N) (w : Writer) (s : Shared N E R P H S)
        → ((limited N E R P H S a m v ctx w s).1.db ≡ s.db)
          ⊎ HasPassed s ctx (limited N E R P H S a m v ctx w s).1.db
    unfolding limited
    limited_cases ctx w s = by_verdict x.0 refl
      where
        x : Verdict × Option (RateLimiter R)
        x = rate_limit_middleware N R (some s.rate_limiter) v.request ctx.client_key m.limited_at

        counted :
            is_json_route N v.request ≡ true
            → x.0 ≡ next_handler
            → (let ((allowed, retry_after), _) =
                  allow_request R ctx.client_key m.limited_at s.rate_limiter in
                verdict allowed retry_after)
              ≡ next_handler
        counted api e =
            sym (
              ap (λ (y : Verdict × Option (RateLimiter R)). y.0)
                (rate_limit_middleware-json N R s.rate_limiter v.request ctx.client_key m.limited_at
                  api))
            ∙ e

        by_verdict :
            (vd : Verdict)
            → x.0 ≡ vd
            → ((limited N E R P H S a m v ctx w s).1.db ≡ s.db)
              ⊎ HasPassed s ctx (limited N E R P H S a m v ctx w s).1.db
        by_verdict (too_many_requests d) e = inl (rw (e, limited) (kept_limiter-db x.1 s))
        by_verdict next_handler e =
            let s' = kept_limiter N E R P H S x.1 s in
            let same : (csrf_middleware N E R P H S a m v ctx w s').1.db
                ≡ (limited N E R P H S a m v ctx w s).1.db =
              rw (e, limited) refl in
            elim (csrf_cases ctx w s') [
              | inl kept ↦ inl (sym same ∙ kept ∙ kept_limiter-db x.1 s)
              | inr (same_origin, method, api, written) ↦ inr (record {
                allowed = verdict-eq-next_handler _ _ (counted api e);
                same_origin = same_origin;
                method = method;
                written = subst (Writes s.db) same (
                    subst (λ db. Writes db (csrf_middleware N E R P H S a m v ctx w s').1.db)
                      (kept_limiter-db x.1 s) written);
              })
            ]

    -- A request leaves the database as it was, unless the proxy check accepts it, the rate limiter allows
    -- its client, it is not refused as one of another origin, its method is POST, and its route is that of
    -- storing or of opening a note; then the database after it is the one that this endpoint leaves.
    pub serve_http_guarded :
        (w : Writer) (s : Shared N E R P H S)
        → ((serve_http N E R P H S a m v w s).1.db ≡ s.db)
          ⊎ ((ctx : HttpContext N) × (trusted_proxy_middleware N (proxy_config N a.cfg) v.request
                ≡ found ctx)
              × HasPassed s ctx (serve_http N E R P H S a m v w s).1.db)
    unfolding serve_http
    serve_http_guarded w s =
        by_proxy (trusted_proxy_middleware N (proxy_config N a.cfg) v.request) refl
      where
        by_proxy :
            (c : Checked (HttpContext N))
            → trusted_proxy_middleware N (proxy_config N a.cfg) v.request ≡ c
            → ((serve_http N E R P H S a m v w s).1.db ≡ s.db)
              ⊎ ((ctx : HttpContext N) × (trusted_proxy_middleware N
                      (proxy_config N a.cfg)
                      v.request
                    ≡ found ctx)
                  × HasPassed s ctx (serve_http N E R P H S a m v w s).1.db)
        by_proxy (rejected reason) e = inl (rw (e, serve_http) refl)
        by_proxy (found ctx) e =
            let w' = security_headers a.cfg.is_development w in
            let same : (limited N E R P H S a m v ctx w' s).1.db
                ≡ (serve_http N E R P H S a m v w s).1.db =
              rw (e, serve_http) refl in
            elim (limited_cases ctx w' s) [
              | inl kept ↦ inl (sym same ∙ kept)
              | inr passed ↦ inr (ctx, e, subst (HasPassed s ctx) same passed)
            ]
