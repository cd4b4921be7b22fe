-- ===== src/Proxy/Reasons.antt =====
-- The reasons for which the middleware rejects a request.
use one_time_note.Base.{
  ◌≡◌, subst, Bool, true, false, not, ◌&&◌, Option, none, some, [], length, ◌==◌, if◌then◌else◌,
}
use one_time_note.Base.Text.{Bytes, codes, bytes_eq}
use one_time_note.Net.{Net}
use one_time_note.Forwarded.{Request, parse_forwarded_metadata}
use one_time_note.Proxy.{
  Checked, found, rejected, ◌>>=◌, reject_if, or_reject, Config, is_health_check_request,
  remote_addr_ip, prefix_contains, client_key, forwarded_client_ip, forwarded_public_origin,
  check_forwarded, trusted_proxy_middleware,
}

-- A step that rejects does so for a reason with the property.
module _ (P : Bytes → Type 0) where
  abbrev pub HasReason : {A : Type 0} → Checked A → Type 0
  HasReason checked = (reason : Bytes) → checked ≡ rejected reason → P reason

  found-HasReason : {A : Type 0} (a : A) → HasReason (found a)
  found-HasReason a reason h = cc

  rejected-HasReason :
      {A : Type 0} (reason : Bytes) → P reason → HasReason {A = A} (rejected reason)
  rejected-HasReason reason p other h = subst P (cc h) p

  -- A rejecting sequence, whose first step rejects, or whose second does.
  in_sequence :
      {A B : Type 0} (first : Checked A) (rest : A → Checked B) {reason : Bytes}
      → (first >>= rest) ≡ rejected reason
      → HasReason first
      → ((a : A) → rest a ≡ rejected reason → P reason)
      → P reason
  in_sequence (rejected other) rest h p k = p _ (cc h)
  in_sequence (found a) rest h p k = k a h

  reject_if-HasReason :
      (test : Bool) (reason : Bytes) → P reason → HasReason (reject_if test reason)
  reject_if-HasReason true reason p = rejected-HasReason reason p
  reject_if-HasReason false reason p = found-HasReason tt

  or_reject-HasReason :
      {A : Type 0} (o : Option A) (reason : Bytes) → P reason → HasReason (or_reject o reason)
  or_reject-HasReason none reason p = rejected-HasReason reason p
  or_reject-HasReason (some a) reason p = found-HasReason a

  choice-HasReason :
      {A : Type 0} (test : Bool) (x y : Checked A)
      → HasReason x
      → HasReason y
      → HasReason (if test then x else y)
  choice-HasReason true x y p q = p
  choice-HasReason false x y p q = q

  module _ (N : Net) (cfg : Config N) (r : Request N)
      (invalid_metadata : P (codes "invalid_forwarded_metadata"))
      (not_https : P (codes "forwarded_proto_not_https"))
      (invalid_origin : P (codes "invalid_forwarded_origin"))
      (host_mismatch : P (codes "forwarded_host_mismatch"))
      (invalid_chain : P (codes "invalid_forwarded_chain")) where
    check_forwarded-HasReason : HasReason (check_forwarded N cfg r)
    unfolding check_forwarded
    check_forwarded-HasReason reason h =
        in_sequence (or_reject (parse_forwarded_metadata N r) (codes "invalid_forwarded_metadata"))
          _ h (or_reject-HasReason _ _ invalid_metadata)
          (λ meta h₁.
            in_sequence
              (reject_if (not (bytes_eq meta.proto (codes "https")))
                (codes "forwarded_proto_not_https"))
              _ h₁ (reject_if-HasReason _ _ not_https)
              (λ u h₂.
                in_sequence
                  (or_reject (forwarded_public_origin N meta.host)
                    (codes "invalid_forwarded_origin"))
                  _ h₂ (or_reject-HasReason _ _ invalid_origin)
                  (λ origin h₃.
                    in_sequence
                      (reject_if
                        (not (length cfg.public_origin_host == 0)
                          && not (N.equal_fold origin.1 cfg.public_origin_host))
                        (codes "forwarded_host_mismatch"))
                      _ h₃ (reject_if-HasReason _ _ host_mismatch)
                      (λ v h₄.
                        in_sequence
                          (or_reject (forwarded_client_ip N meta.for_chain cfg.trusted_proxies)
                            (codes "invalid_forwarded_chain"))
                          _ h₄ (or_reject-HasReason _ _ invalid_chain) (λ client_ip h₅. cc h₅)))))

    pub trusted_proxy_middleware-HasReason :
        (invalid_addr : P (codes "invalid_remote_addr"))
        (untrusted : P (codes "untrusted_proxy_source"))
        → HasReason (trusted_proxy_middleware N cfg r)
    unfolding trusted_proxy_middleware
    trusted_proxy_middleware-HasReason invalid_addr untrusted reason h =
        in_sequence (or_reject (remote_addr_ip N r.remote_addr) (codes "invalid_remote_addr")) _ h
          (or_reject-HasReason _ _ invalid_addr)
          (λ ip h₁.
            choice-HasReason
              (is_health_check_request N r && prefix_contains N cfg.health_check_sources ip) _ _
              (found-HasReason
                (record { client_ip = ip; client_key = codes "health"; public_origin = [] }))
              (choice-HasReason cfg.is_development _ _
                (found-HasReason
                  (record { client_ip = ip; client_key = client_key N ip; public_origin = [] }))
                (choice-HasReason (not (prefix_contains N cfg.trusted_proxies ip)) _ _
                  (rejected-HasReason _ untrusted) check_forwarded-HasReason))
              reason h₁)
