-- ===== src/Configuration/Settings.antt =====
-- config.go: what each parser of a setting accepts.
use one_time_note.Base.{
  ℕ, ◌≤◌, ◌≡◌, ◌≢◌, ◌⊎◌, refl, sym, ap, ◌∙◌, subst, Bool, true, false, ◌||◌, some, List, [], ◌++◌,
  length, ◌==◌, arith, Bool-cases, Option-cases, inl, inr, append-nil, if◌then◌else◌,
}
use one_time_note.Base.Text.{Bytes, codes, eq_of_bytes_eq}
use one_time_note.Base.Int.{ℤ, pos, negsuc, ltb_ℤ}
use one_time_note.Base.Partial.{◌>>=◌, >>=-eq-some, refuse_if, refuse_if-eq-some}
use one_time_note.Net.{Net}
use one_time_note.RateLimiter.{RateSpec}
use one_time_note.Proxy.{parse_public_origin}
use one_time_note.Configuration.{parse_int, parse_optional_byte_size}
use one_time_note.Configuration.Sizes.{parse_optional_byte_size_within}
use one_time_note.Configuration.Env
use one_time_note.Configuration.Parsing.{
  Parsers, parse_optional_duration, parse_optional_byte_size_int, parse_optional_prefixes,
  loopback_prefixes, per_minute, validate_rate_spec, two_parts, parse_rate_window,
  parse_optional_rate,
}
use one_time_note.Configuration.Startup.{
  setting, read_public_origin, read_health_check_sources, default_rate_limit,
}

-- A number from `lo` to `hi`.
abbrev pub IsWithin : ℕ → ℕ → ℤ → Type 0
IsWithin lo hi z = (n : ℕ) × (z ≡ pos n) × (lo ≤ n) × (n ≤ hi)

IsWithin_of_tests :
    (lo hi : ℕ) (z : ℤ) → ltb_ℤ z (pos lo) ≡ false → ltb_ℤ (pos hi) z ≡ false → IsWithin lo hi z
IsWithin_of_tests lo hi (pos n) low high = (n, refl, ground arith, ground arith)
IsWithin_of_tests lo hi (negsuc n) low high = cc

IsWithin_of_eq : (lo hi d : ℕ) (z : ℤ) → lo ≤ d → d ≤ hi → z ≡ pos d → IsWithin lo hi z
IsWithin_of_eq lo hi d z low high h = (d, h, low, high)

module _ (N : Net) (L : Parsers N) where
  module _ (getenv : Bytes → Bytes) where
    module _ (name : Bytes) (d lo hi : ℕ) (low : lo ≤ d) (high : d ≤ hi) (z : ℤ) where
      pub parse_optional_duration-IsWithin :
          parse_optional_duration N L getenv name (pos d) (pos lo) (pos hi) ≡ some z
          → IsWithin lo hi z
      unfolding parse_optional_duration
      parse_optional_duration-IsWithin h =
          elim (Bool-cases (length (N.trim_space (getenv name)) == 0)) [
            | inl e ↦ IsWithin_of_eq lo hi d z low high (ground (arith, e, h))
            | inr e ↦
                let (x, _, rest) =
                  >>=-eq-some (L.parse_duration (N.trim_space (getenv name))) _ (rw e at h) in
                let (_, within, same) =
                  >>=-eq-some (refuse_if (ltb_ℤ x (pos lo) || ltb_ℤ (pos hi) x)) _ rest in
                let kept = refuse_if-eq-some _ within in
                let x_z : x ≡ z = cc same in
                subst (IsWithin lo hi) x_z
                  (IsWithin_of_tests lo hi x (ground (arith, kept)) (ground (arith, kept)))
          ]

      pub parse_optional_byte_size_int-IsWithin :
          parse_optional_byte_size_int N L getenv name (pos d) (pos lo) (pos hi) ≡ some z
          → IsWithin lo hi z
      unfolding parse_optional_byte_size_int
      parse_optional_byte_size_int-IsWithin h =
          let (x, read, same) =
            >>=-eq-some (parse_optional_byte_size N getenv name (pos d) (pos lo) (pos hi)) _ h in
          let x_z : x ≡ z = cc same in
          elim (parse_optional_byte_size_within N getenv name (pos d) (pos lo) (pos hi) z
            (read ∙ ap some x_z)) [
              | inl (_, e) ↦ IsWithin_of_eq lo hi d z low high e
              | inr (_, low_test, high_test) ↦ IsWithin_of_tests lo hi z low_test high_test
            ]

    pub setting-nonempty :
        (name default_value : Bytes)
        → length default_value ≢ 0
        → length (setting N L getenv name default_value) ≢ 0
    unfolding setting
    setting-nonempty name default_value some_default p =
        elim (Bool-cases (length (N.trim_space (getenv name)) == 0)) [
          | inl e ↦ some_default (rw e at p)
          | inr e ↦ ground (arith, e, rw e at p)
        ]

  -- An origin is missing, or a scheme and a host, and in production the scheme is https.
  abbrev pub IsOrigin : Bool → Bytes → Bytes → Type 0
  IsOrigin is_development origin host =
      ((origin ≡ []) × (host ≡ []))
      ⊎ ((scheme : Bytes) × (origin ≡ scheme ++ (codes "://" ++ host))
          × (length host ≢ 0)
          × ((is_development ≡ true) ⊎ (scheme ≡ codes "https")))

  abbrev pub StartsWith : List N.Prefix → List N.Prefix → Type 0
  StartsWith start sources = (rest : List N.Prefix) × (sources ≡ start ++ rest)

  pub parse_public_origin-IsOrigin :
      (raw : Bytes) (is_development : Bool) (origin host : Bytes)
      → parse_public_origin N raw is_development ≡ some (origin, host)
      → IsOrigin is_development origin host
  unfolding parse_public_origin
  parse_public_origin-IsOrigin raw is_development origin host h =
      elim (Option-cases (N.parse_url raw)) [
        | inl read ↦ absurd (ground (arith, read, h))
        | inr (u, read) ↦
            let rest = rw (read, parse_public_origin) at h in
            inr (
              u.scheme,
              ground (arith, rest),
              λ p. ground (arith, rest, p),
              elim (Bool-cases is_development) [
                | inl e ↦ inl e
                | inr e ↦ inr (eq_of_bytes_eq u.scheme (codes "https") (ground (arith, rest, e)))
              ],
            )
      ]

  module _ (getenv : Bytes → Bytes) where
    pub read_public_origin-IsOrigin :
        (is_development : Bool) (origin host : Bytes)
        → read_public_origin N L getenv is_development ≡ some (origin, host)
        → IsOrigin is_development origin host
    unfolding read_public_origin
    read_public_origin-IsOrigin is_development origin host h =
        elim (Bool-cases (length (N.trim_space (getenv Env.public_origin)) == 0)) [
          | inl e ↦ let unset = rw e at h in inl (cc unset, cc unset)
          | inr e ↦
              parse_public_origin-IsOrigin (N.trim_space (getenv Env.public_origin)) is_development
                origin host (rw e at h)
        ]

    configured_after :
        (start sources : List N.Prefix)
        → (let tmp = N.trim_space (getenv Env.health_check_sources) in
            if length tmp == 0
            then some start
            else (parse_optional_prefixes N L tmp >>= λ configured. some (start ++ configured)))
          ≡ some sources
        → StartsWith start sources
    configured_after start sources h =
        elim (Bool-cases (length (N.trim_space (getenv Env.health_check_sources)) == 0)) [
          | inl e ↦
              let same : start ≡ sources = cc (rw e at h) in ([], sym same ∙ sym (append-nil start))
          | inr e ↦
              let (configured, _, same) =
                >>=-eq-some
                  (parse_optional_prefixes N L (N.trim_space (getenv Env.health_check_sources))) _
                  (rw e at h) in
              (configured, cc same)
        ]

    pub read_health_check_sources-StartsWith :
        (is_development : Bool) (trusted_proxies sources : List N.Prefix)
        → read_health_check_sources N L getenv is_development trusted_proxies ≡ some sources
        → StartsWith
            (if is_development
              then loopback_prefixes N L
              else loopback_prefixes N L ++ trusted_proxies)
            sources
    unfolding read_health_check_sources
    read_health_check_sources-StartsWith true trusted_proxies sources h =
        configured_after (loopback_prefixes N L) sources h
    read_health_check_sources-StartsWith false trusted_proxies sources h =
        configured_after (loopback_prefixes N L ++ trusted_proxies) sources h

  -- A rate that is positive, with a burst from 1 to 5000, and the default or from 1 to 1000 a minute.
  abbrev pub IsRate : RateSpec → Type 0
  IsRate spec =
      (ltb_ℤ (pos 0) spec.requests ≡ true)
      × (ltb_ℤ (pos 0) spec.window ≡ true)
      × IsWithin 1 5000 spec.burst
      × ((spec ≡ default_rate_limit N L)
          ⊎ ((L.lt_float (per_minute N L spec) (L.float64 (pos 1)) ≡ false)
              × (L.lt_float (L.float64 (pos 1000)) (per_minute N L spec) ≡ false)))

  validate_rate_spec-IsRate :
      (spec : RateSpec) {u : Unit {0}} → validate_rate_spec N L spec ≡ some u → IsRate spec
  unfolding validate_rate_spec
  validate_rate_spec-IsRate spec h = (
    ground (arith, h),
    ground (arith, h),
    IsWithin_of_tests 1 5000 spec.burst (ground (arith, h)) (ground (arith, h)),
    inr (ground (arith, h), ground (arith, h)),
  )

  default-IsRate : IsRate (default_rate_limit N L)
  default-IsRate = (refl, refl, (120, refl, omega arith, omega arith), inl refl)

  pub parse_optional_rate-IsRate :
      (text : Bytes) (spec : RateSpec)
      → parse_optional_rate N L text (default_rate_limit N L) ≡ some spec
      → IsRate spec
  unfolding parse_optional_rate
  parse_optional_rate-IsRate text spec h = elim (Bool-cases (length (N.trim_space text) == 0)) [
    | inl e ↦
        let same : default_rate_limit N L ≡ spec = cc (rw e at h) in
        subst IsRate same default-IsRate
    | inr e ↦
        let (_, _, h₁) = >>=-eq-some (two_parts N L b',' (N.trim_space text)) _ (rw e at h) in
        let (_, _, h₂) = >>=-eq-some (two_parts N L b'/' _) _ h₁ in
        let (_, _, h₃) = >>=-eq-some (parse_int _) _ h₂ in
        let (_, _, h₄) = >>=-eq-some (parse_rate_window N L _) _ h₃ in
        let (_, _, h₅) = >>=-eq-some (parse_int _) _ h₄ in
        let (_, valid, h₆) = >>=-eq-some (validate_rate_spec N L _) _ h₅ in
        subst IsRate (cc h₆) (validate_rate_spec-IsRate _ valid)
  ]
