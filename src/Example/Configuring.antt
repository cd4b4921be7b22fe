-- ===== src/Example/Configuring.antt =====
-- A production configuration that is read from the environment. Durations are "2m" or refused, a prefix
-- is its first byte, and a float is a whole number.
use one_time_note.Base.{ℕ, ◌*◌, ◌/◌, ◌≡◌, refl, false, none, some, [], ◌∷◌, if◌then◌else◌}
use one_time_note.Base.Text.{Bytes, codes, bytes_eq, has_prefix, cut, split_on}
use one_time_note.Base.Int.{ℤ, pos, ltb_ℤ, wrap64}
use one_time_note.Clock.{second, minute}
use one_time_note.Proxy.{parse_public_origin}
use one_time_note.Configuration.{
  parse_int, parse_digits, digits_from, in_int64, has_suffix, split_suffix, amount_in,
  parse_byte_size, parse_optional_byte_size, contains_space, parse_legal_link_url, links_from,
  parse_legal_links,
}
use one_time_note.Configuration.Parsing.{
  Parsers, parse_optional_bool, parse_optional_duration, parse_optional_byte_size_int,
  parse_prefix_part, parse_prefix_parts, parse_optional_prefixes, default_trusted_proxy_prefixes,
  loopback_prefixes, parse_rate_window, per_minute, validate_rate_spec, two_parts,
  parse_optional_rate,
}
use one_time_note.Configuration.Env
use one_time_note.Configuration.Startup.{
  Config, StartupOptions, setting, chosen_environment, check_environment, read_brand,
  read_public_origin, read_trusted_proxies, read_health_check_sources, new_config_with_options,
}
use one_time_note.Configuration.Valid.{IsValid, new_config_with_options-IsValid}
use one_time_note.Example.Forwarding.{net}

abbrev first_byte : Bytes → ℕ
first_byte [] = 0
first_byte (c ∷ s) = c

abbrev div_ℤ : ℤ → ℤ → ℤ
div_ℤ (pos a) (pos b) = pos (a / b)
div_ℤ a b = pos 0

abbrev mul_ℤ : ℤ → ℤ → ℤ
mul_ℤ (pos a) (pos b) = pos (a * b)
mul_ℤ a b = pos 0

abbrev pub parsers : Parsers net
parsers = record {
  parse_duration = λ s. if bytes_eq s (codes "2m") then some (pos (2 * minute)) else none;
  parse_bool = λ s. some (bytes_eq s (codes "true"));
  parse_prefix = λ s. some (first_byte s);
  must_parse_prefix = first_byte;
  masked = λ p. p;
  host_prefix = λ a. a;
  Float = ℤ;
  float64 = λ z. z;
  mul_float = mul_ℤ;
  div_float = div_ℤ;
  lt_float = ltb_ℤ;
}

abbrev pub variables : Bytes → Bytes
variables name =
    if bytes_eq name Env.rate_limit
    then codes "30/2m,10"
    else if bytes_eq name Env.max_note_size
    then codes "2kib"
    else if bytes_eq name Env.cleanup_interval
    then codes "2m"
    else if bytes_eq name Env.public_origin
    then codes "https://note.example"
    else if bytes_eq name Env.trusted_proxies
    then codes "p,q/8"
    else []

abbrev pub production : StartupOptions
production = record { development = false }

abbrev pub settings : Config net
settings = record {
  brand = record {
    display_name = codes "One Time Note";
    footer_text = [];
    git_hub_url = Env.default_git_hub_url;
    legal_links = [];
  };
  cleanup_interval = pos (2 * minute);
  db_path = codes "data.db";
  environment = codes "production";
  grace_period = pos (3 * second);
  health_check_sources = b'1' ∷ b':' ∷ b'p' ∷ b'q' ∷ [];
  host = codes "127.0.0.1";
  is_development = false;
  max_note_size = pos 2048;
  max_db_size = pos 1073741824;
  port = codes "8080";
  public_origin = codes "https://note.example";
  public_origin_host = codes "note.example";
  rate_limit = record { requests = pos 30; window = pos (2 * minute); burst = pos 10 };
  trusted_proxies = b'p' ∷ b'q' ∷ [];
}

pub settings_read : new_config_with_options net parsers (some variables) production ≡ some settings
unfolding new_config_with_options setting chosen_environment check_environment read_brand
    read_public_origin read_trusted_proxies read_health_check_sources parse_optional_bool
    parse_optional_duration parse_optional_byte_size_int parse_prefix_part parse_prefix_parts
    parse_optional_prefixes default_trusted_proxy_prefixes loopback_prefixes parse_rate_window
    per_minute validate_rate_spec two_parts parse_optional_rate parse_int parse_digits digits_from
    in_int64 has_suffix split_suffix amount_in parse_byte_size parse_optional_byte_size
    contains_space parse_legal_link_url links_from parse_legal_links parse_public_origin bytes_eq
    has_prefix cut split_on wrap64
settings_read = refl

new_config_with_options-IsValid_example : IsValid net parsers production settings
new_config_with_options-IsValid_example =
    new_config_with_options-IsValid net parsers (some variables) production settings settings_read
