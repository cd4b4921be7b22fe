-- ===== src/Application/Logged/Discreet.antt =====
-- The texts in the records of a request.
use one_time_note.Base.{
  ◌≡◌, refl, ◌⊎◌, inl, inr, Bool, true, false, List, [], ◌∷◌, ◌++◌, Option, none, some,
  if◌then◌else◌, arith,
}
use one_time_note.Base.Text.{Bytes, bytes_eq, bytes_eq_refl}
use one_time_note.Platform.{Platform}
use one_time_note.Database.{Db}
use one_time_note.Net.{Net}
use one_time_note.Proxy.{Checked, HttpContext, found, rejected, trusted_proxy_middleware}
use one_time_note.Proxy.Reasons.{trusted_proxy_middleware-HasReason, HasReason}
use one_time_note.RateLimiter.{Rate, RateLimiter}
use one_time_note.Routes.{is_successful_static_route, route_pattern}
use one_time_note.Http.{Http}
use one_time_note.Web.{Writer}
use one_time_note.Views.{Engine}
use one_time_note.Logging.Discreet.{
  IsPublic, IsPublicValue, fixed, its_method, named, AreDiscreet,
  handle_create_ticket_log-AreDiscreet, handle_create_note_log-AreDiscreet,
  handle_open_note_log-AreDiscreet,
}
use one_time_note.Application.Routing.{Route, create_ticket, create_note, open_note}
use one_time_note.Application.{
  Visit, NetHttp, proxy_config, App, Shared, Moment, LogEntry, log_request,
}
use one_time_note.Logging.{Value}
use one_time_note.Base.Lists.{All}
use one_time_note.Application.Logged.{
  sets_error, error_attribute, remote_text, rate_limit_log, endpoint_log, reached, reached_pattern,
  reached_log, request_log, context_log, serve_log,
}
use one_time_note.Application.Logged.Middlewares.{
  route_pattern-IsPublic, pattern_of-IsPublic, AreDiscreet-append, proxy_rejected_log-IsDiscreet,
  rate_limit_log-AreDiscreet,
}

module _ (N : Net) (E : Engine N) (R : Rate) (P : Platform) (H : Http) (S : NetHttp N)
    (a : App N E R P H S) (m : Moment N E R P H S) (v : Visit N) (redirected : Bytes) where
  module _ (others : List Bytes) (client : Bytes)
      (redirected-IsPublic : IsPublic v.request.method others redirected)
      (client-IsPublic : IsPublic v.request.method others client) where
    endpoint_log-AreDiscreet :
        (route : Route) (db : Db P.Bucket)
        → AreDiscreet v.request.method others
            (endpoint_log N E R P H S a m v redirected client route db)
    unfolding endpoint_log
    endpoint_log-AreDiscreet create_ticket db =
        handle_create_ticket_log-AreDiscreet _ others _ client
          (pattern_of-IsPublic _ others redirected create_ticket redirected-IsPublic)
          client-IsPublic P _ _ _ _ db
    endpoint_log-AreDiscreet (create_note id) db =
        handle_create_note_log-AreDiscreet _ others _ client
          (pattern_of-IsPublic _ others redirected (create_note id) redirected-IsPublic)
          client-IsPublic P _ H _ _ _ _ db
    endpoint_log-AreDiscreet (open_note id) db =
        handle_open_note_log-AreDiscreet _ others _ client
          (pattern_of-IsPublic _ others redirected (open_note id) redirected-IsPublic)
          client-IsPublic P _ H _ _ _ _ _ db
    endpoint_log-AreDiscreet _ db = tt

    reached_log-AreDiscreet :
        (o : Option Route) (db : Db P.Bucket)
        → AreDiscreet v.request.method others (reached_log N E R P H S a m v redirected client db o)
    reached_log-AreDiscreet none db = tt
    reached_log-AreDiscreet (some route) db = endpoint_log-AreDiscreet route db

    reached_pattern-IsPublic :
        (o : Option Route)
        → (reached_pattern N E R P H S a m v redirected o ≡ [])
          ⊎ IsPublic v.request.method others (reached_pattern N E R P H S a m v redirected o)
    reached_pattern-IsPublic none = inl refl
    reached_pattern-IsPublic (some route) =
        inr (pattern_of-IsPublic _ others redirected route redirected-IsPublic)

    error_attribute-IsPublic :
        (failed : Bool)
        → All
            (λ (x : Bytes × Value). IsPublicValue v.request.method others x.1)
            (error_attribute failed)
    error_attribute-IsPublic true = (tt, tt)
    error_attribute-IsPublic false = tt

    entry_log-AreDiscreet :
        (o : Option Route) (test : Bool) (entry : LogEntry N E R P H S)
        → IsPublic v.request.method others entry.method
        → IsPublic v.request.method others entry.route
        → IsPublic v.request.method others entry.client
        → AreDiscreet v.request.method others
            (request_log N E R P H S a m v redirected o (if test then none else some entry))
    unfolding bytes_eq
    entry_log-AreDiscreet o true entry p q c = tt
    entry_log-AreDiscreet o false entry p q c = (
      (
        fixed _ refl,
        (
          p,
          (
            q,
            (
              tt,
              (
                c,
                error_attribute-IsPublic (sets_error N E R P H S a m v redirected o entry.status),
              ),
            ),
          ),
        ),
      ),
      tt,
    )

    request_log-AreDiscreet :
        (o : Option Route) (w : Writer)
        → AreDiscreet v.request.method others (
            request_log N E R P H S a m v redirected o
              (log_request N E R P H S (reached_pattern N E R P H S a m v redirected o) v client w))
    unfolding log_request
    request_log-AreDiscreet o w =
        let route : Bytes =
          route_pattern (reached_pattern N E R P H S a m v redirected o) v.request.method
            v.request.path in
        entry_log-AreDiscreet o (is_successful_static_route route w.status_code)
          (record {
            method = v.request.method;
            route = route;
            status = w.status_code;
            client = client;
          })
          its_method
          (route_pattern-IsPublic v.request.method others _ v.request.path
            (reached_pattern-IsPublic o))
          client-IsPublic

    accepted_log-AreDiscreet :
        (w : Writer) (db : Db P.Bucket) (limiter : RateLimiter R) (o : Option Route)
        → AreDiscreet v.request.method others (
            rate_limit_log N R v.request client m.limited_at limiter
            ++ (reached_log N E R P H S a m v redirected client db o
                ++ request_log N E R P H S a m v redirected o (
                    log_request N E R P H S
                      (reached_pattern N E R P H S a m v redirected o)
                      v
                      client
                      w)))
    accepted_log-AreDiscreet w db limiter o =
        AreDiscreet-append _ others (rate_limit_log N R v.request client m.limited_at limiter) _
          (rate_limit_log-AreDiscreet N v.request others R client m.limited_at limiter
            client-IsPublic)
          (AreDiscreet-append _ others (reached_log N E R P H S a m v redirected client db o) _
            (reached_log-AreDiscreet o db) (request_log-AreDiscreet o w))

  -- Whom the records of the request name.
  abbrev pub named_client : Checked (HttpContext N) → Bytes
  named_client (rejected reason) = remote_text N v.request
  named_client (found ctx) = ctx.client_key

  first_named : (s t : Bytes) → IsPublic v.request.method (s ∷ t ∷ []) s
  first_named s t = named s (rw (bytes_eq_refl s) refl)

  second_named : (s t : Bytes) → IsPublic v.request.method (s ∷ t ∷ []) t
  second_named s t = named t (rw (bytes_eq_refl t) (ground arith))

  context_log-AreDiscreet :
      (w : Writer) (s : Shared N E R P H S) (checked : Checked (HttpContext N))
      → let others = redirected ∷ named_client checked ∷ [] in
        HasReason (IsPublic v.request.method others) checked
        → AreDiscreet v.request.method others (context_log N E R P H S a m v redirected w s checked)
  context_log-AreDiscreet w s (rejected reason) p = (
    proxy_rejected_log-IsDiscreet N v.request (redirected ∷ remote_text N v.request ∷ []) reason
        (p reason refl) (second_named redirected (remote_text N v.request)),
    tt,
  )
  context_log-AreDiscreet w s (found ctx) p =
      accepted_log-AreDiscreet (redirected ∷ ctx.client_key ∷ []) ctx.client_key
        (first_named redirected ctx.client_key) (second_named redirected ctx.client_key) _ s.db
        s.rate_limiter (reached N E R P H S a m v redirected ctx.client_key s)

  -- Each text in the records of a request, except the texts of errors, of which nothing is said, is an
  -- event, a reason, the pattern of a route, the request's method, the method followed by ` /{app...}`, the
  -- client's key, which for a rejected request is the text of the connection's address, or the pattern that
  -- the mux gives a redirected request.
  pub serve_log-AreDiscreet :
      (w : Writer) (s : Shared N E R P H S)
      → let client = named_client (trusted_proxy_middleware N (proxy_config N a.cfg) v.request) in
        AreDiscreet v.request.method
          (redirected ∷ client ∷ [])
          (serve_log N E R P H S a m v redirected w s)
  unfolding serve_log bytes_eq
  serve_log-AreDiscreet w s =
      context_log-AreDiscreet w s (trusted_proxy_middleware N (proxy_config N a.cfg) v.request) (
        trusted_proxy_middleware-HasReason _ N (proxy_config N a.cfg) v.request (fixed _ refl)
          (fixed _ refl) (fixed _ refl) (fixed _ refl) (fixed _ refl) (fixed _ refl) (fixed _ refl))
