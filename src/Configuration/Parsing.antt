-- ===== src/Configuration/Parsing.antt =====
-- config.go: the parsers of single settings, and what they call of Go's standard library besides Net:
-- `time.ParseDuration`, `strconv.ParseBool`, the prefixes of `net/netip`, and float64.
use one_time_note.Base.{
  ℕ, Bool, not, ◌||◌, Option, none, some, List, [], ◌∷◌, length, ◌==◌, if◌then◌else◌,
}
use one_time_note.Base.Text.{Bytes, codes, split_on, is_some, cut}
use one_time_note.Base.Int.{ℤ, pos, ltb_ℤ}
use one_time_note.Base.Partial.{◌>>=◌, ◌>>◌, refuse_if}
use one_time_note.Clock.{Duration, second, minute}
use one_time_note.Net.{Net}
use one_time_note.RateLimiter.{RateSpec}
use one_time_note.Configuration.{parse_int, parse_optional_byte_size}

pub record Parsers (N : Net) : Type 1 where
  pub parse_duration : Bytes → Option Duration
  pub parse_bool : Bytes → Option Bool
  pub parse_prefix : Bytes → Option N.Prefix
  -- `netip.MustParsePrefix`, of the literals in the program.
  pub must_parse_prefix : Bytes → N.Prefix
  pub masked : N.Prefix → N.Prefix
  -- `netip.PrefixFrom(addr, addr.BitLen())`
  pub host_prefix : N.Addr → N.Prefix
  pub Float : Type 0
  pub float64 : ℤ → Float
  pub mul_float : Float → Float → Float
  pub div_float : Float → Float → Float
  pub lt_float : Float → Float → Bool

module _ (N : Net) (L : Parsers N) where
  unfoldable pub parse_optional_bool : (raw : Bytes) (default_value : Bool) → Option Bool
  parse_optional_bool raw default_value =
      let trimmed = N.trim_space raw in
      if length trimmed == 0 then some default_value else L.parse_bool trimmed

  unfoldable pub parse_optional_duration :
      (getenv : Bytes → Bytes) (name : Bytes) (default_value min_value max_value : Duration)
      → Option Duration
  parse_optional_duration getenv name default_value min_value max_value =
      let tmp = N.trim_space (getenv name) in
      if length tmp == 0 then some default_value else (do
        duration ← L.parse_duration tmp
        refuse_if (ltb_ℤ duration min_value || ltb_ℤ max_value duration)
        some duration)

  -- The conversions to int64 and back lose nothing where `int` has 64 bits.
  unfoldable pub parse_optional_byte_size_int :
      (getenv : Bytes → Bytes) (name : Bytes) (default_value min_value max_value : ℤ) → Option ℤ
  parse_optional_byte_size_int getenv name default_value min_value max_value = do
    value ← parse_optional_byte_size N getenv name default_value min_value max_value
    some value

  unfoldable pub parse_prefix_part : Bytes → Option N.Prefix
  parse_prefix_part part =
      if is_some (cut part b'/')
      then (do prefix ← L.parse_prefix part; some (L.masked prefix))
      else (do addr ← N.parse_addr part; some (L.host_prefix addr))

  unfoldable pub parse_prefix_parts : List Bytes → Option (List N.Prefix)
  parse_prefix_parts [] = some []
  parse_prefix_parts (raw ∷ parts) =
      let part = N.trim_space raw in
      let later = parse_prefix_parts parts in
      if length part == 0
      then later
      else (do prefix ← parse_prefix_part part; prefixes ← later; some (prefix ∷ prefixes))

  unfoldable pub parse_optional_prefixes : Bytes → Option (List N.Prefix)
  parse_optional_prefixes text =
      let raw = N.trim_space text in
      if length raw == 0 then some [] else parse_prefix_parts (split_on b',' raw)

  unfoldable pub default_trusted_proxy_prefixes : List N.Prefix
  default_trusted_proxy_prefixes =
      L.must_parse_prefix (codes "127.0.0.0/8")
      ∷ L.must_parse_prefix (codes "::1/128")
      ∷ L.must_parse_prefix (codes "10.0.0.0/8")
      ∷ L.must_parse_prefix (codes "172.16.0.0/12")
      ∷ L.must_parse_prefix (codes "192.168.0.0/16")
      ∷ L.must_parse_prefix (codes "169.254.0.0/16")
      ∷ L.must_parse_prefix (codes "fe80::/10")
      ∷ L.must_parse_prefix (codes "fc00::/7")
      ∷ []

  unfoldable pub loopback_prefixes : List N.Prefix
  loopback_prefixes =
      L.must_parse_prefix (codes "127.0.0.0/8") ∷ L.must_parse_prefix (codes "::1/128") ∷ []

  unfoldable pub parse_rate_window : Bytes → Option Duration
  parse_rate_window value = do
    duration ← L.parse_duration value
    refuse_if (not (ltb_ℤ (pos 0) duration))
    some duration

  -- `float64(spec.Requests) * float64(time.Minute) / float64(spec.Window)`
  unfoldable pub per_minute : RateSpec → L.Float
  per_minute spec =
      L.div_float (L.mul_float (L.float64 spec.requests) (L.float64 (pos minute)))
        (L.float64 spec.window)

  unfoldable pub validate_rate_spec : RateSpec → Option (Unit {0})
  validate_rate_spec spec = do
    refuse_if (
        not (ltb_ℤ (pos 0) spec.requests)
        || not (ltb_ℤ (pos 0) spec.burst)
        || not (ltb_ℤ (pos 0) spec.window))
    refuse_if (
        L.lt_float (per_minute spec) (L.float64 (pos 1))
        || L.lt_float (L.float64 (pos 1000)) (per_minute spec))
    refuse_if (ltb_ℤ spec.burst (pos 1) || ltb_ℤ (pos 5000) spec.burst)
    some tt

  -- Two parts, or none.
  unfoldable pub two_parts : ℕ → Bytes → Option (Bytes × Bytes)
  two_parts sep raw = elim (split_on sep raw) [
    | first ∷ (second ∷ []) ↦ some (first, second)
    | _ ↦ none
  ]

  unfoldable pub parse_optional_rate : Bytes → RateSpec → Option RateSpec
  parse_optional_rate text default_value =
      let raw = N.trim_space text in
      if length raw == 0 then some default_value else (do
        (rate_part, burst_part) ← two_parts b',' raw
        (requests_text, window_text) ← two_parts b'/' (N.trim_space rate_part)
        requests ← parse_int (N.trim_space requests_text)
        window ← parse_rate_window (N.trim_space window_text)
        burst ← parse_int (N.trim_space burst_part)
        let spec : RateSpec = record { requests = requests; window = window; burst = burst }
        validate_rate_spec spec
        some spec)
