-- ===== src/Configuration/Startup.antt =====
-- config.go: the configuration of the server, which `NewConfigWithOptions` reads from the environment.
use one_time_note.Base.{
  ◌*◌, Bool, false, not, ◌&&◌, Option, some, List, [], ◌++◌, length, ◌==◌, if◌then◌else◌,
}
use one_time_note.Base.Text.{Bytes, codes, bytes_eq}
use one_time_note.Base.Int.{ℤ, pos}
use one_time_note.Base.Partial.{◌>>=◌, ◌>>◌, refuse_if}
use one_time_note.Clock.{Duration, second, minute, hour}
use one_time_note.Net.{Net}
use one_time_note.RateLimiter.{RateSpec}
use one_time_note.Proxy.{parse_public_origin}
use one_time_note.Configuration.{LegalLink, parse_legal_links}
use one_time_note.Configuration.Env
use one_time_note.Configuration.Parsing.{
  Parsers, parse_optional_bool, parse_optional_duration, parse_optional_byte_size_int,
  parse_optional_prefixes, default_trusted_proxy_prefixes, loopback_prefixes, parse_optional_rate,
}

pub record StartupOptions : Type 0 where
  pub development : Bool

module _ (N : Net) where
  pub record Brand : Type 0 where
    pub display_name : Bytes
    pub footer_text : Bytes
    pub git_hub_url : Bytes
    pub legal_links : List (LegalLink N)

  pub record Config : Type 0 where
    pub brand : Brand
    pub cleanup_interval : Duration
    pub db_path : Bytes
    pub environment : Bytes
    pub grace_period : Duration
    pub health_check_sources : List N.Prefix
    pub host : Bytes
    pub is_development : Bool
    pub max_note_size : ℤ
    pub max_db_size : ℤ
    pub port : Bytes
    pub public_origin : Bytes
    pub public_origin_host : Bytes
    pub rate_limit : RateSpec
    pub trusted_proxies : List N.Prefix

module _ (N : Net) (L : Parsers N) where
  -- `if tmp := strings.TrimSpace(getenv(name)); tmp != "" { field = tmp }` for a field with a default.
  unfoldable pub setting : (getenv : Bytes → Bytes) (name default_value : Bytes) → Bytes
  setting getenv name default_value =
      let tmp = N.trim_space (getenv name) in if length tmp == 0 then default_value else tmp

  unfoldable pub chosen_environment : (getenv : Bytes → Bytes) → StartupOptions → Bytes
  chosen_environment getenv options =
      let env = N.to_lower (N.trim_space (getenv Env.environment)) in
      if length env == 0
      then (if options.development then Env.environment_development else Env.environment_production)
      else env

  unfoldable pub check_environment : Bytes → StartupOptions → Option (Unit {0})
  check_environment env options = do
    refuse_if (
        not (bytes_eq env Env.environment_production)
        && not (bytes_eq env Env.environment_development))
    refuse_if (options.development && bytes_eq env Env.environment_production)
    refuse_if (not options.development && bytes_eq env Env.environment_development)
    some tt

  unfoldable pub read_brand : (getenv : Bytes → Bytes) → Option (Brand N)
  read_brand getenv = do
    hide_git_hub_link ← parse_optional_bool N L (getenv Env.hide_git_hub_link) false
    legal_links ← parse_legal_links N getenv
    some (record {
      display_name = setting getenv Env.display_name (codes "One Time Note");
      footer_text = setting getenv Env.footer_text [];
      git_hub_url = if hide_git_hub_link then [] else Env.default_git_hub_url;
      legal_links = legal_links;
    })

  -- The origin and its host.
  unfoldable pub read_public_origin :
      (getenv : Bytes → Bytes) (is_development : Bool) → Option (Bytes × Bytes)
  read_public_origin getenv is_development =
      let tmp = N.trim_space (getenv Env.public_origin) in
      if length tmp == 0 then some ([], []) else parse_public_origin N tmp is_development

  unfoldable pub read_trusted_proxies :
      (getenv : Bytes → Bytes) (is_development : Bool) → Option (List N.Prefix)
  read_trusted_proxies getenv is_development =
      let tmp = N.trim_space (getenv Env.trusted_proxies) in
      if not (length tmp == 0)
      then parse_optional_prefixes N L tmp
      else if not is_development
      then some (default_trusted_proxy_prefixes N L)
      else some []

  unfoldable pub read_health_check_sources :
      (getenv : Bytes → Bytes) (is_development : Bool) (trusted_proxies : List N.Prefix)
      → Option (List N.Prefix)
  read_health_check_sources getenv is_development trusted_proxies =
      let sources =
        if not is_development
        then loopback_prefixes N L ++ trusted_proxies
        else loopback_prefixes N L in
      let tmp = N.trim_space (getenv Env.health_check_sources) in
      if length tmp == 0
      then some sources
      else (do configured ← parse_optional_prefixes N L tmp; some (sources ++ configured))

  abbrev pub default_rate_limit : RateSpec
  default_rate_limit = record { requests = pos 60; window = pos minute; burst = pos 120 }

  -- `getenv` is nil or a function.
  unfoldable pub new_config_with_options :
      Option (Bytes → Bytes) → StartupOptions → Option (Config N)
  new_config_with_options optional options = do
    getenv ← optional
    let env = chosen_environment getenv options
    check_environment env options
    let is_development = bytes_eq env Env.environment_development
    brand ← read_brand getenv
    grace_period ←
        parse_optional_duration N L getenv Env.grace_period (pos (3 * second)) (pos 0)
          (pos (60 * second))
    cleanup_interval ←
        parse_optional_duration N L getenv Env.cleanup_interval (pos (1 * hour)) (pos minute)
          (pos (24 * hour))
    max_note_size ←
        parse_optional_byte_size_int N L getenv Env.max_note_size (pos Env.default_max_note_size)
          (pos 1) (pos Env.hard_max_note_size)
    max_db_size ←
        parse_optional_byte_size_int N L getenv Env.max_db_size (pos Env.default_max_db_size)
          (pos (1 * 1024 * 1024)) (pos Env.hard_max_db_size)
    (public_origin, public_origin_host) ← read_public_origin getenv is_development
    trusted_proxies ← read_trusted_proxies getenv is_development
    health_check_sources ← read_health_check_sources getenv is_development trusted_proxies
    rate_limit ← parse_optional_rate N L (getenv Env.rate_limit) default_rate_limit
    some (record {
      brand = brand;
      cleanup_interval = cleanup_interval;
      db_path = setting getenv Env.db_path (codes "data.db");
      environment = env;
      grace_period = grace_period;
      health_check_sources = health_check_sources;
      host = setting getenv Env.host (codes "127.0.0.1");
      is_development = is_development;
      max_note_size = max_note_size;
      max_db_size = max_db_size;
      port = setting getenv Env.port (codes "8080");
      public_origin = public_origin;
      public_origin_host = public_origin_host;
      rate_limit = rate_limit;
      trusted_proxies = trusted_proxies;
    })

  unfoldable pub new_config : Option (Bytes → Bytes) → Option (Config N)
  new_config getenv = new_config_with_options getenv (record { development = false })
