-- ===== src/Example/Forwarding.antt =====
-- A request that came through a proxy. An address is a number, whose text is one character, and a prefix
-- holds one address.
use one_time_note.Base.{ℕ, ◌≡◌, refl, true, false, Option, none, some, [], ◌∷◌, ◌++◌, ◌==◌}
use one_time_note.Base.Text.{Bytes, codes, bytes_eq, has_prefix, cut, split_on}
use one_time_note.Net.{Net}
use one_time_note.Forwarded.{
  Request, trim_parts, comma_values, forwarded_host, parse_forwarded_addr, parse_forwarded_addrs,
  parse_forwarded_for_chain, all_agree, parse_x_forwarded_headers, parse_forwarded_metadata,
}
use one_time_note.Proxy.{
  found, Config, HttpContext, is_health_check_request, remote_addr_ip, any_contains,
  prefix_contains, client_key, first_untrusted, forwarded_client_ip, parse_public_origin,
  forwarded_public_origin, check_forwarded, trusted_proxy_middleware,
}
use one_time_note.Proxy.Client.{forwarded_client_ip-append}
use one_time_note.Proxy.Passing.{IsForwarded, trusted_proxy_middleware-IsForwarded}

abbrev parse_one : Bytes → Option ℕ
parse_one (c ∷ []) = some c
parse_one _ = none

abbrev pub net : Net
net = record {
  Addr = ℕ;
  Prefix = ℕ;
  unmap = λ a. a;
  is_4 = λ a. true;
  address_text = λ a. a ∷ [];
  subnet_text = λ a. a ∷ [];
  contains = λ p a. p == a;
  parse_addr = parse_one;
  split_host_port = λ s. none;
  is_number = λ s. true;
  trim_space = λ s. s;
  to_lower = λ s. s;
  equal_fold = bytes_eq;
  parse_url = λ s. some (record {
    scheme = codes "https";
    host = codes "note.example";
    has_user = false;
    raw_query = [];
    fragment = [];
    path = [];
  });
}

abbrev config : Config net
config = record {
  health_check_sources = [];
  trusted_proxies = b'p' ∷ b'q' ∷ [];
  is_development = false;
  public_origin = [];
  public_origin_host = codes "note.example";
}

abbrev pub visit : Request net
visit = record {
  remote_addr = codes "p";
  method = codes "POST";
  path = codes "/api/tickets";
  forwarded = [];
  x_forwarded_for = codes "x,c,q";
  x_forwarded_proto = codes "https";
  x_forwarded_host = codes "note.example";
}

abbrev pub context : HttpContext net
context = record {
  client_ip = b'c';
  client_key = codes "c";
  public_origin = codes "https://note.example";
}

passes : trusted_proxy_middleware net config visit ≡ found context
unfolding trusted_proxy_middleware is_health_check_request remote_addr_ip any_contains
    prefix_contains client_key split_on trim_parts comma_values forwarded_host parse_forwarded_addr
    parse_forwarded_addrs parse_forwarded_for_chain all_agree parse_x_forwarded_headers
    parse_forwarded_metadata first_untrusted forwarded_client_ip parse_public_origin
    forwarded_public_origin check_forwarded bytes_eq has_prefix cut
passes = refl

trusted_proxy_middleware-IsForwarded_example : IsForwarded net config visit context
unfolding is_health_check_request bytes_eq
trusted_proxy_middleware-IsForwarded_example =
    trusted_proxy_middleware-IsForwarded net config visit context refl refl passes

forwarded_client_ip-append_example :
    forwarded_client_ip net ((b'x' ∷ []) ++ (b'c' ∷ b'q' ∷ [])) config.trusted_proxies ≡ some b'c'
unfolding forwarded_client_ip first_untrusted prefix_contains any_contains
forwarded_client_ip-append_example =
    forwarded_client_ip-append net config.trusted_proxies (b'x' ∷ []) (b'c' ∷ b'q' ∷ []) b'c' refl
