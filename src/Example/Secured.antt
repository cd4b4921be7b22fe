-- ===== src/Example/Secured.antt =====
-- The header X-Frame-Options of a response to a request for a ticket.
use one_time_note.Base.{◌≡◌, refl, false, some}
use one_time_note.Base.Text.{Bytes, codes, bytes_eq, has_prefix, cut, split_on}
use one_time_note.Forwarded.{
  trim_parts, comma_values, forwarded_host, parse_forwarded_addr, parse_forwarded_addrs,
  parse_forwarded_for_chain, all_agree, parse_x_forwarded_headers, parse_forwarded_metadata,
}
use one_time_note.Proxy.{
  found, is_health_check_request, remote_addr_ip, any_contains, prefix_contains, client_key,
  first_untrusted, forwarded_client_ip, parse_public_origin, forwarded_public_origin,
  check_forwarded, trusted_proxy_middleware,
}
use one_time_note.Platform.Buckets.{lookup}
use one_time_note.Web.{Writer, del, new_writer}
use one_time_note.Web.Keeping.{IsKept, final_header}
use one_time_note.Application.{
  Visit, LogEntry, log_request, proxy_config, security_headers, serve_http,
}
use one_time_note.Application.Statuses.{serve_http-status}
use one_time_note.Routes.{route_pattern, is_successful_static_route}
use one_time_note.Views.{find_template}
use one_time_note.Views.Statuses.{RendersMissing}
use one_time_note.Web.Recording.{final_status, IsUnsent-IsRecorded}
use one_time_note.Application.Headers.{serve_http-header}
use one_time_note.Example.Concrete.{concrete}
use one_time_note.Example.Forwarding.{net, visit, context}
use one_time_note.Example.Configuring.{settings}
use one_time_note.Example.Limiting.{counters}
use one_time_note.Example.Requests.{http}
use one_time_note.Example.Booting.{engine, net_http, views, app, shared}
use one_time_note.Example.Pages.{opening, moment}

abbrev asking : Visit net
asking = record opening { request = visit }

accepted : trusted_proxy_middleware net (proxy_config net settings) visit ≡ found context
unfolding trusted_proxy_middleware is_health_check_request remote_addr_ip any_contains
    prefix_contains client_key split_on trim_parts comma_values forwarded_host parse_forwarded_addr
    parse_forwarded_addrs parse_forwarded_for_chain all_agree parse_x_forwarded_headers
    parse_forwarded_metadata first_untrusted forwarded_client_ip parse_public_origin
    forwarded_public_origin check_forwarded bytes_eq has_prefix cut
accepted = refl

frame_options-IsKept : IsKept (codes "X-Frame-Options")
unfolding bytes_eq
frame_options-IsKept = record {
  cache_control = refl;
  pragma = refl;
  content_type = refl;
  content_length = refl;
  content_encoding = refl;
  etag = refl;
  sniffing = refl;
  retry_after = refl;
}

secured :
    lookup (codes "X-Frame-Options") (security_headers false new_writer).header
    ≡ some (codes "DENY")
unfolding security_headers lookup del bytes_eq
secured = refl

serve_http-header_example :
    lookup (codes "X-Frame-Options") (
      final_header
        (serve_http net engine counters concrete http net_http app moment asking new_writer
          shared).0)
    ≡ some (codes "DENY")
serve_http-header_example =
    serve_http-header net engine counters concrete http net_http app moment asking
      (codes "X-Frame-Options") (codes "DENY") frame_options-IsKept (λ path w h. h) context shared
      accepted secured

abbrev answer : Writer
answer =
    (serve_http net engine counters concrete http net_http app moment asking new_writer shared).0

abbrev pattern : Bytes
pattern = codes "GET /api/config"

abbrev entry : LogEntry net engine counters concrete http net_http
entry = record {
  method = asking.request.method;
  route = pattern;
  status = answer.status_code;
  client = context.client_key;
}

logged :
    log_request net engine counters concrete http net_http pattern asking context.client_key answer
    ≡ some entry
unfolding log_request route_pattern is_successful_static_route has_prefix
logged = refl

error_page : RendersMissing net engine views
unfolding find_template bytes_eq
error_page = record {
  template = codes "<html>/static/6170702e6a730078/app.js";
  page = codes "<html>/static/6170702e6a730078/app.js";
  there = refl;
  executed = refl;
}

serve_http-status_example : entry.status ≡ final_status answer
serve_http-status_example =
    serve_http-status net engine counters concrete http net_http app moment asking
      (λ path w u. IsUnsent-IsRecorded w u) error_page context shared pattern entry accepted logged
