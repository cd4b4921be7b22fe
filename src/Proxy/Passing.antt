-- ===== src/Proxy/Passing.antt =====
-- Which requests pass the middleware.
use one_time_note.Base.{
  ◌≡◌, ◌⊎◌, ap, ◌∙◌, true, false, not, ◌&&◌, some, arith, Bool-cases, inl, inr, length, ◌==◌,
}
use one_time_note.Base.Text.{Bytes, codes, bytes_eq, eq_of_bytes_eq}
use one_time_note.Net.{Net}
use one_time_note.Forwarded.{ForwardedMetadata, Request, parse_forwarded_metadata}
use one_time_note.Proxy.{
  found, reject_if, or_reject, >>=-eq-found, reject_if-eq-found, or_reject-eq-found, Config,
  HttpContext, is_health_check_request, remote_addr_ip, prefix_contains, client_key,
  forwarded_client_ip, forwarded_public_origin, check_forwarded, trusted_proxy_middleware,
}

module _ (N : Net) (cfg : Config N) (r : Request N) where
  -- What is known of a request that passed with forwarded metadata.
  pub record IsForwarded (ctx : HttpContext N) : Type 0 where
    pub remote_ip : N.Addr
    pub meta : ForwardedMetadata N
    pub origin : Bytes × Bytes
    pub remote : remote_addr_ip N r.remote_addr ≡ some remote_ip
    pub trusted : prefix_contains N cfg.trusted_proxies remote_ip ≡ true
    pub parsed : parse_forwarded_metadata N r ≡ some meta
    pub https : meta.proto ≡ codes "https"
    pub public : forwarded_public_origin N meta.host ≡ some origin
    pub host :
        (length cfg.public_origin_host ≡ 0) ⊎ (N.equal_fold origin.1 cfg.public_origin_host ≡ true)
    pub client : forwarded_client_ip N meta.for_chain cfg.trusted_proxies ≡ some ctx.client_ip
    pub key : ctx.client_key ≡ client_key N ctx.client_ip

  module _ (remote_ip : N.Addr) (ctx : HttpContext N) where
    check_forwarded-IsForwarded :
        remote_addr_ip N r.remote_addr ≡ some remote_ip
        → prefix_contains N cfg.trusted_proxies remote_ip ≡ true
        → check_forwarded N cfg r ≡ found ctx
        → IsForwarded ctx
    unfolding check_forwarded
    check_forwarded-IsForwarded remote trusted h =
        let (meta, e₁, h₁) =
          >>=-eq-found
            (or_reject (parse_forwarded_metadata N r) (codes "invalid_forwarded_metadata")) _ h in
        let (_, e₂, h₂) =
          >>=-eq-found
            (reject_if (not (bytes_eq meta.proto (codes "https")))
              (codes "forwarded_proto_not_https"))
            _ h₁ in
        let (origin, e₃, h₃) =
          >>=-eq-found
            (or_reject (forwarded_public_origin N meta.host) (codes "invalid_forwarded_origin")) _
            h₂ in
        let (_, e₄, h₄) =
          >>=-eq-found
            (reject_if
              (not (length cfg.public_origin_host == 0)
                && not (N.equal_fold origin.1 cfg.public_origin_host))
              (codes "forwarded_host_mismatch"))
            _ h₃ in
        let (client_ip, e₅, h₅) =
          >>=-eq-found
            (or_reject (forwarded_client_ip N meta.for_chain cfg.trusted_proxies)
              (codes "invalid_forwarded_chain"))
            _ h₄ in
        let same : client_ip ≡ ctx.client_ip = cc h₅ in
        record {
          remote_ip = remote_ip;
          meta = meta;
          origin = origin;
          remote = remote;
          trusted = trusted;
          parsed = or_reject-eq-found _ _ e₁;
          https = https_of meta.proto (reject_if-eq-found _ _ e₂);
          public = or_reject-eq-found _ _ e₃;
          host = host_of origin.1 (reject_if-eq-found _ _ e₄);
          client = or_reject-eq-found _ _ e₅ ∙ ap some same;
          key = cc h₅;
        }
      where
        https_of :
            (proto : Bytes) → not (bytes_eq proto (codes "https")) ≡ false → proto ≡ codes "https"
        https_of proto h = eq_of_bytes_eq proto (codes "https") (ground arith)

        host_of :
            (host : Bytes)
            → (not (length cfg.public_origin_host == 0)
                && not (N.equal_fold host cfg.public_origin_host))
              ≡ false
            → (length cfg.public_origin_host ≡ 0)
              ⊎ (N.equal_fold host cfg.public_origin_host ≡ true)
        host_of host h = elim (Bool-cases (length cfg.public_origin_host == 0)) [
          | inl e ↦ inl (ground arith)
          | inr e ↦ inr (ground arith)
        ]

  -- In production, a request that passes and is no health check came from a trusted proxy, over https and
  -- for the configured host if there is one, and its client is the one of the forwarded chain.
  pub trusted_proxy_middleware-IsForwarded :
      (ctx : HttpContext N)
      → cfg.is_development ≡ false
      → is_health_check_request N r ≡ false
      → trusted_proxy_middleware N cfg r ≡ found ctx
      → IsForwarded ctx
  unfolding trusted_proxy_middleware check_forwarded
  trusted_proxy_middleware-IsForwarded ctx production visit h =
      let (remote_ip, e, h₁) =
        >>=-eq-found (or_reject (remote_addr_ip N r.remote_addr) (codes "invalid_remote_addr")) _
          h in
      elim (Bool-cases (prefix_contains N cfg.trusted_proxies remote_ip)) [
        | inl t ↦
            check_forwarded-IsForwarded remote_ip ctx (or_reject-eq-found _ _ e) t
              (rw (visit, production, t) at h₁)
        | inr t ↦ absurd (cc (rw (visit, production, t) at h₁))
      ]
