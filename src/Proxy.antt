-- ===== src/Proxy.antt =====
-- proxy.go, and `parsePublicOrigin` of config.go: whom the server believes about the client's address,
-- the protocol and the host.
pub mod Client
pub mod Passing
pub mod Reasons
use one_time_note.Base.{
  ℕ, suc, ◌+◌, ◌≡◌, refl, reverse, Bool, true, false, not, ◌&&◌, ◌||◌, Option, none, some, List, [],
  ◌∷◌, ◌++◌, ◌==◌, length, drop, if◌then◌else◌,
}
use one_time_note.Base.Text.{Bytes, codes, bytes_eq, has_prefix, cut}
use one_time_note.Net.{Net, Url}
use one_time_note.Forwarded.{Request, ForwardedMetadata, parse_forwarded_metadata}

-- A step of `TrustedProxyMiddleware`: what it found, or the reason why the request is rejected.
pub data Checked (A : Type 0) : Type 0 where
  found : A → Checked A
  rejected : Bytes → Checked A

infixl 5 ◌>>=◌ ◌>>◌
abbrev pub ◌>>=◌ : {A B : Type 0} (first : Checked A) (rest : A → Checked B) → Checked B
rejected reason >>= rest = rejected reason
found a >>= rest = rest a

abbrev pub ◌>>◌ : {B : Type 0} (first : Checked (Unit {0})) (rest : Checked B) → Checked B
first >> rest = first >>= λ nothing. rest

abbrev pub reject_if : Bool → Bytes → Checked (Unit {0})
reject_if true reason = rejected reason
reject_if false reason = found tt

abbrev pub or_reject : {A : Type 0} → Option A → Bytes → Checked A
or_reject none reason = rejected reason
or_reject (some a) reason = found a

-- Where a sequence of two steps found something, both did.
pub >>=-eq-found :
    {A B : Type 0} (first : Checked A) (rest : A → Checked B) {b : B}
    → (first >>= rest) ≡ found b
    → (a : A) × (first ≡ found a) × (rest a ≡ found b)
>>=-eq-found (rejected reason) rest h = cc
>>=-eq-found (found a) rest h = (a, refl, h)

pub reject_if-eq-found :
    (test : Bool) (reason : Bytes) {u : Unit {0}} → reject_if test reason ≡ found u → test ≡ false
reject_if-eq-found true reason h = cc
reject_if-eq-found false reason h = refl

pub or_reject-eq-found :
    {A : Type 0} (o : Option A) (reason : Bytes) {a : A} → or_reject o reason ≡ found a → o ≡ some a
or_reject-eq-found none reason h = cc
or_reject-eq-found (some a) reason h = cc

module _ (N : Net) where
  pub record Config : Type 0 where
    pub health_check_sources : List N.Prefix
    pub trusted_proxies : List N.Prefix
    pub is_development : Bool
    pub public_origin : Bytes
    pub public_origin_host : Bytes

  -- The fields of `HTTPContext` that the middleware sets.
  pub record HttpContext : Type 0 where
    pub client_ip : N.Addr
    pub client_key : Bytes
    pub public_origin : Bytes

  unfoldable pub is_health_check_request : Request N → Bool
  is_health_check_request r = bytes_eq r.method (codes "GET") && bytes_eq r.path (codes "/healthz")

  unfoldable pub remote_addr_ip : Bytes → Option N.Addr
  remote_addr_ip remote_addr =
      let host : Bytes = elim (N.split_host_port remote_addr) [
        | some (host, port) ↦ host
        | none ↦ remote_addr
      ] in
      elim (N.parse_addr host) [ some addr ↦ some (N.unmap addr) | none ↦ none ]

  unfoldable pub any_contains : List N.Prefix → N.Addr → Bool
  any_contains [] addr = false
  any_contains (prefix ∷ prefixes) addr = N.contains prefix addr || any_contains prefixes addr

  unfoldable pub prefix_contains : List N.Prefix → N.Addr → Bool
  prefix_contains prefixes addr = any_contains prefixes (N.unmap addr)

  unfoldable pub client_key : N.Addr → Bytes
  client_key addr =
      if N.is_4 (N.unmap addr) then N.address_text (N.unmap addr) else N.subnet_text (N.unmap addr)

  unfoldable pub first_untrusted : List N.Prefix → List N.Addr → Option N.Addr
  first_untrusted trusted [] = none
  first_untrusted trusted (addr ∷ chain) =
      if prefix_contains trusted (N.unmap addr)
      then first_untrusted trusted chain
      else some (N.unmap addr)

  -- The loop runs from the end of the chain to its start.
  unfoldable pub forwarded_client_ip : List N.Addr → List N.Prefix → Option N.Addr
  forwarded_client_ip chain trusted = first_untrusted trusted (reverse chain)

  -- The origin and its host.
  unfoldable pub parse_public_origin : Bytes → Bool → Option (Bytes × Bytes)
  parse_public_origin raw is_development = elim (N.parse_url raw) [
    | none ↦ none
    | some u ↦
        if length u.scheme == 0
          || length u.host == 0
          || u.has_user
          || not (length u.raw_query == 0)
          || not (length u.fragment == 0)
        then none
        else if not (length u.path == 0) && not (bytes_eq u.path (codes "/"))
        then none
        else if not is_development && not (bytes_eq u.scheme (codes "https"))
        then none
        else some (u.scheme ++ (codes "://" ++ u.host), u.host)
  ]

  unfoldable pub forwarded_public_origin : Bytes → Option (Bytes × Bytes)
  forwarded_public_origin host = parse_public_origin (codes "https://" ++ host) false

  -- What the middleware finds of a request from a proxy that it trusts.
  unfoldable pub check_forwarded : Config → Request N → Checked HttpContext
  check_forwarded cfg r = do
    meta ← or_reject (parse_forwarded_metadata N r) (codes "invalid_forwarded_metadata")
    reject_if (not (bytes_eq meta.proto (codes "https"))) (codes "forwarded_proto_not_https")
    (public_origin, host) ←
        or_reject (forwarded_public_origin meta.host) (codes "invalid_forwarded_origin")
    reject_if
        (not (length cfg.public_origin_host == 0) && not (N.equal_fold host cfg.public_origin_host))
        (codes "forwarded_host_mismatch")
    client_ip ←
        or_reject (forwarded_client_ip meta.for_chain cfg.trusted_proxies)
          (codes "invalid_forwarded_chain")
    found (record {
      client_ip = client_ip;
      client_key = client_key client_ip;
      public_origin =
          if not (length cfg.public_origin == 0) then cfg.public_origin else public_origin;
    })

  -- The context that the next handler gets, if the request is not rejected.
  unfoldable pub trusted_proxy_middleware : Config → Request N → Checked HttpContext
  trusted_proxy_middleware cfg r = do
    remote_ip ← or_reject (remote_addr_ip r.remote_addr) (codes "invalid_remote_addr")
    if is_health_check_request r && prefix_contains cfg.health_check_sources remote_ip
        then found
            (record { client_ip = remote_ip; client_key = codes "health"; public_origin = [] })
        else if cfg.is_development
        then found (record {
          client_ip = remote_ip;
          client_key = client_key remote_ip;
          public_origin = [];
        })
        else if not (prefix_contains cfg.trusted_proxies remote_ip)
        then rejected (codes "untrusted_proxy_source")
        else check_forwarded cfg r
