-- ===== src/Configuration/Valid.antt =====
-- config.go: every configuration that the server starts with is within its limits.
use one_time_note.Base.{
  ◌*◌, ◌≤◌, ◌≡◌, ◌≢◌, ◌⊎◌, refl, Bool, [], sym, ◌∙◌, subst, true, false, Option, none, some, inl,
  inr, Bool-cases, ◌++◌, length, All, arith, if◌then◌else◌,
}
use one_time_note.Base.Text.{Bytes, codes, bytes_eq, eq_of_bytes_eq}
use one_time_note.Base.Partial.{>>=-eq-some, eq-some}
use one_time_note.Clock.{second, minute, hour}
use one_time_note.Net.{Net}
use one_time_note.Configuration.{max_configured_links, parse_legal_links}
use one_time_note.Configuration.Links.{IsSafe, parse_legal_links-IsSafe}
use one_time_note.Configuration.Env
use one_time_note.Configuration.Parsing.{
  Parsers, parse_optional_bool, parse_optional_duration, parse_optional_byte_size_int,
  loopback_prefixes, parse_optional_rate,
}
use one_time_note.Configuration.Startup.{
  StartupOptions, Brand, Config, chosen_environment, check_environment, read_brand,
  read_public_origin, read_trusted_proxies, read_health_check_sources, default_rate_limit,
  new_config_with_options,
}
use one_time_note.Configuration.Settings.{
  IsWithin, IsOrigin, StartsWith, IsRate, parse_optional_duration-IsWithin,
  parse_optional_byte_size_int-IsWithin, setting-nonempty, read_public_origin-IsOrigin,
  read_health_check_sources-StartsWith, parse_optional_rate-IsRate,
}

check_environment-eq-some :
    (N : Net) (L : Parsers N) (env : Bytes) (options : StartupOptions) {u : Unit {0}}
    → check_environment N L env options ≡ some u
    → (bytes_eq env Env.environment_development ≡ options.development)
      × (env ≡ (
          if options.development then Env.environment_development else Env.environment_production))
unfolding check_environment
check_environment-eq-some N L env options h = elim (Bool-cases options.development) [
  | inl dev ↦
      let same : bytes_eq env Env.environment_development ≡ true = ground (arith, dev, h) in
      (same ∙ sym dev, rw dev (eq_of_bytes_eq env Env.environment_development same))
  | inr dev ↦
      let same : bytes_eq env Env.environment_production ≡ true = ground (arith, dev, h) in
      let other : bytes_eq env Env.environment_development ≡ false = ground (arith, dev, h) in
      (other ∙ sym dev, rw dev (eq_of_bytes_eq env Env.environment_production same))
]

module _ (N : Net) (L : Parsers N) where
  abbrev HasBrand : Brand N → Type 0
  HasBrand brand =
      (length brand.display_name ≢ 0)
      × ((length brand.git_hub_url ≡ 0) ⊎ (brand.git_hub_url ≡ Env.default_git_hub_url))
      × (length brand.legal_links ≤ max_configured_links N)
      × All (IsSafe N) brand.legal_links

  -- What the rest of the program takes for granted of its configuration.
  pub record IsValid (options : StartupOptions) (c : Config N) : Type 0 where
    pub mode : c.is_development ≡ options.development
    pub environment :
        c.environment
        ≡ (if options.development then Env.environment_development else Env.environment_production)
    pub brand : HasBrand c.brand
    pub db_path : length c.db_path ≢ 0
    pub host : length c.host ≢ 0
    pub port : length c.port ≢ 0
    pub grace_period : IsWithin 0 (60 * second) c.grace_period
    pub cleanup_interval : IsWithin minute (24 * hour) c.cleanup_interval
    pub max_note_size : IsWithin 1 Env.hard_max_note_size c.max_note_size
    pub max_db_size : IsWithin (1 * 1024 * 1024) Env.hard_max_db_size c.max_db_size
    pub origin : IsOrigin N L options.development c.public_origin c.public_origin_host
    -- The loopback addresses, and in production the trusted proxies, may check the server's health.
    pub health_check_sources :
        StartsWith N L
          (if options.development
            then loopback_prefixes N L
            else loopback_prefixes N L ++ c.trusted_proxies)
          c.health_check_sources
    pub rate_limit : IsRate N L c.rate_limit

  git_hub_url-cases :
      (hidden : Bool)
      → let url = if hidden then [] else Env.default_git_hub_url in
        (length url ≡ 0) ⊎ (url ≡ Env.default_git_hub_url)
  git_hub_url-cases true = inl refl
  git_hub_url-cases false = inr refl

  read_brand-HasBrand :
      (getenv : Bytes → Bytes) (brand : Brand N)
      → read_brand N L getenv ≡ some brand
      → HasBrand brand
  unfolding read_brand
  read_brand-HasBrand getenv brand h =
      let (hidden, _, h₁) =
        >>=-eq-some (parse_optional_bool N L (getenv Env.hide_git_hub_link) false) _ h in
      let (links, read, h₂) = >>=-eq-some (parse_legal_links N getenv) _ h₁ in
      let (few, safe) = parse_legal_links-IsSafe N getenv links read in
      subst HasBrand (eq-some h₂) (
        setting-nonempty N L getenv Env.display_name (codes "One Time Note") (λ p. omega arith),
        git_hub_url-cases hidden,
        few,
        safe,
      )

  -- The server starts with a configuration only if its environment is the one that `--dev` asks for, each
  -- duration, size and rate is within its limits, the display name, the path of the database, the host and
  -- the port are not empty, the link to GitHub is the default one or empty, the legal links are safe to
  -- follow, the public origin is one of https unless in development, and the loopback addresses and, in
  -- production, the trusted proxies are sources of health checks.
  pub new_config_with_options-IsValid :
      (getenv : Option (Bytes → Bytes)) (options : StartupOptions) (c : Config N)
      → new_config_with_options N L getenv options ≡ some c
      → IsValid options c
  unfolding new_config_with_options
  new_config_with_options-IsValid none options c h = cc
  new_config_with_options-IsValid (some getenv) options c h =
      let env = chosen_environment N L getenv options in
      let (_, checked, h₁) = >>=-eq-some (check_environment N L env options) _ h in
      let (mode, environment) = check_environment-eq-some N L env options checked in
      let dev = bytes_eq env Env.environment_development in
      let (brand, e₁, h₂) = >>=-eq-some (read_brand N L getenv) _ h₁ in
      let (grace, e₂, h₃) =
        >>=-eq-some (parse_optional_duration N L getenv Env.grace_period _ _ _) _ h₂ in
      let (interval, e₃, h₄) =
        >>=-eq-some (parse_optional_duration N L getenv Env.cleanup_interval _ _ _) _ h₃ in
      let (note_size, e₄, h₅) =
        >>=-eq-some (parse_optional_byte_size_int N L getenv Env.max_note_size _ _ _) _ h₄ in
      let (db_size, e₅, h₆) =
        >>=-eq-some (parse_optional_byte_size_int N L getenv Env.max_db_size _ _ _) _ h₅ in
      let ((origin, host), e₆, h₇) = >>=-eq-some (read_public_origin N L getenv dev) _ h₆ in
      let (proxies, e₇, h₈) = >>=-eq-some (read_trusted_proxies N L getenv dev) _ h₇ in
      let (sources, e₈, h₉) = >>=-eq-some (read_health_check_sources N L getenv dev proxies) _ h₈ in
      let (rate, e₉, same) =
        >>=-eq-some (parse_optional_rate N L (getenv Env.rate_limit) (default_rate_limit N L)) _
          h₉ in
      subst (IsValid options) (eq-some same) (record {
        mode = mode;
        environment = environment;
        brand = read_brand-HasBrand getenv brand e₁;
        db_path = setting-nonempty N L getenv Env.db_path (codes "data.db") (λ p. omega arith);
        host = setting-nonempty N L getenv Env.host (codes "127.0.0.1") (λ p. omega arith);
        port = setting-nonempty N L getenv Env.port (codes "8080") (λ p. omega arith);
        grace_period =
            parse_optional_duration-IsWithin N L getenv Env.grace_period (3 * second) 0
              (60 * second) (omega arith) (omega arith) grace e₂;
        cleanup_interval =
            parse_optional_duration-IsWithin N L getenv Env.cleanup_interval (1 * hour) minute
              (24 * hour) (omega arith) (omega arith) interval e₃;
        max_note_size =
            parse_optional_byte_size_int-IsWithin N L getenv Env.max_note_size
              Env.default_max_note_size 1 Env.hard_max_note_size (omega arith) (omega arith)
              note_size e₄;
        max_db_size =
            parse_optional_byte_size_int-IsWithin N L getenv Env.max_db_size Env.default_max_db_size
              (1 * 1024 * 1024) Env.hard_max_db_size (omega arith) (omega arith) db_size e₅;
        origin =
            subst (λ b. IsOrigin N L b origin host) mode
              (read_public_origin-IsOrigin N L getenv dev origin host e₆);
        health_check_sources =
            subst
              (λ b.
                StartsWith N L
                  (if b then loopback_prefixes N L else loopback_prefixes N L ++ proxies) sources)
              mode (read_health_check_sources-StartsWith N L getenv dev proxies sources e₈);
        rate_limit = parse_optional_rate-IsRate N L (getenv Env.rate_limit) rate e₉;
      })
