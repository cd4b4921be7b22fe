-- ===== src/Configuration.antt =====
-- config.go: the sizes and links that the environment sets. `none` is an error.
pub mod Sizes
pub mod Links
pub mod Parsing
pub mod Env
pub mod Startup
pub mod Settings
pub mod Valid
use one_time_note.Base.{
  ℕ, zero, suc, ◌+◌, ◌-◌, ◌*◌, ◌/◌, ◌^◌, Bool, true, false, not, ◌&&◌, ◌||◌, Option, none, some,
  List, [], ◌∷◌, ◌++◌, ltb, leb, ◌==◌, length, take, drop, if◌then◌else◌,
}
use one_time_note.Base.Text.{Bytes, codes, bytes_eq, has_prefix}
use one_time_note.Base.Int.{ℤ, pos, negsuc, ltb_ℤ, wrap64}
use one_time_note.Net.{Net, Url}

-- `strings.HasSuffix(s, p)`
unfoldable pub has_suffix : Bytes → Bytes → Bool
has_suffix s p = not (ltb (length s) (length p)) && bytes_eq (drop (length s - length p) s) p

-- The digits of a decimal number, behind those that were read.
unfoldable pub digits_from : ℕ → Bytes → Option ℕ
digits_from n [] = some n
digits_from n (c ∷ s) =
    let rest = digits_from (n * 10 + (c - 48)) s in if leb 48 c && leb c 57 then rest else none

unfoldable pub parse_digits : Bytes → Option ℕ
parse_digits [] = none
parse_digits (c ∷ s) = digits_from 0 (c ∷ s)

unfoldable pub in_int64 : Bool → ℕ → Option ℤ
in_int64 true n =
    if ltb (2 ^ 63) n then none else if n == 0 then some (pos 0) else some (negsuc (n - 1))
in_int64 false n = if ltb n (2 ^ 63) then some (pos n) else none

-- `strconv.ParseInt(s, 10, 64)`: an optional sign, digits, and a value in the range of int64.
unfoldable pub parse_int : Bytes → Option ℤ
parse_int [] = none
parse_int (c ∷ s) =
    if c == b'-'
    then elim (parse_digits s) [ none ↦ none | some n ↦ in_int64 true n ]
    else if c == b'+'
    then elim (parse_digits s) [ none ↦ none | some n ↦ in_int64 false n ]
    else elim (parse_digits (c ∷ s)) [ none ↦ none | some n ↦ in_int64 false n ]

abbrev pub suffixes : List (Bytes × ℕ)
suffixes =
    (codes "gib", 1024 * 1024 * 1024)
    ∷ (codes "gb", 1000 * 1000 * 1000)
    ∷ (codes "mib", 1024 * 1024)
    ∷ (codes "mb", 1000 * 1000)
    ∷ (codes "kib", 1024)
    ∷ (codes "kb", 1000)
    ∷ (codes "b", 1)
    ∷ []

unfoldable pub amount_in : Bytes → ℕ → Option ℤ
amount_in value multiplier = if length value == 0 then none else elim (parse_int value) [
  | none ↦ none
  | some amount ↦
      if ltb_ℤ amount (pos 0)
      then none
      else if ltb_ℤ (pos ((2 ^ 63 - 1) / multiplier)) amount
      then none
      else elim amount [ pos n ↦ some (wrap64 (pos (n * multiplier))) | negsuc n ↦ none ]
]

module _ (N : Net) where
  -- The loop over the suffixes: the number's text and the multiplier of the first that fits.
  unfoldable pub split_suffix : Bytes → List (Bytes × ℕ) → Bytes × ℕ
  split_suffix value [] = (value, 1)
  split_suffix value ((text, multiplier) ∷ rest) =
      let later = split_suffix value rest in
      if has_suffix (N.to_lower value) text
      then (N.trim_space (take (length value - length text) value), multiplier)
      else later

  unfoldable pub parse_byte_size : Bytes → Option ℤ
  parse_byte_size text =
      let value = N.trim_space text in
      if length value == 0
      then none
      else let (number, multiplier) = split_suffix value suffixes in amount_in number multiplier

  unfoldable pub parse_optional_byte_size :
      (getenv : Bytes → Bytes) (name : Bytes) (default_value min_value max_value : ℤ) → Option ℤ
  parse_optional_byte_size getenv name default_value min_value max_value =
      let tmp = N.trim_space (getenv name) in
      if length tmp == 0 then some default_value else elim (parse_byte_size tmp) [
        | none ↦ none
        | some value ↦ if ltb_ℤ value min_value || ltb_ℤ max_value value then none else some value
      ]

  -- `strings.ContainsAny(raw, " \t\r\n")`
  unfoldable pub contains_space : Bytes → Bool
  contains_space [] = false
  contains_space (c ∷ s) = (c == 32 || c == 9 || c == 13 || c == 10) || contains_space s

  unfoldable pub parse_legal_link_url : Bytes → Option Bytes
  parse_legal_link_url raw = if contains_space raw then none else elim (N.parse_url raw) [
    | none ↦ none
    | some u ↦
        if not (length u.scheme == 0)
        then (let scheme = N.to_lower u.scheme in
            if (bytes_eq scheme (codes "http") || bytes_eq scheme (codes "https"))
              && not (length u.host == 0)
            then some raw
            else none)
        else if has_prefix raw (codes "/") && not (has_prefix raw (codes "//"))
        then some raw
        else none
  ]

  pub record LegalLink : Type 0 where
    pub label : Bytes
    pub url : Bytes

  abbrev pub max_configured_links : ℕ
  max_configured_links = 5

  -- `NOTE_LINK_%d_TITLE` and `NOTE_LINK_%d_URL` for a number of one digit.
  abbrev pub link_title_env_name : ℕ → Bytes
  link_title_env_name index = codes "NOTE_LINK_" ++ ((48 + index) ∷ codes "_TITLE")

  abbrev pub link_url_env_name : ℕ → Bytes
  link_url_env_name index = codes "NOTE_LINK_" ++ ((48 + index) ∷ codes "_URL")

  -- The rounds of the loop from an index on, of which `rounds` are left, and what stands behind it.
  unfoldable pub links_from : (getenv : Bytes → Bytes) (rounds index : ℕ) → Option (List LegalLink)
  links_from getenv zero index =
      if not (length (N.trim_space (getenv (link_title_env_name (max_configured_links + 1)))) == 0)
        || not (length (N.trim_space (getenv (link_url_env_name (max_configured_links + 1)))) == 0)
      then none
      else some []
  links_from getenv (suc rounds) index =
      let title = N.trim_space (getenv (link_title_env_name index)) in
      let raw_url = N.trim_space (getenv (link_url_env_name index)) in
      let links = links_from getenv rounds (index + 1) in
      if length title == 0 && length raw_url == 0
      then some []
      else if length title == 0
      then none
      else if length raw_url == 0
      then none
      else elim (parse_legal_link_url raw_url) [
        | none ↦ none
        | some link_url ↦ elim links [
          | none ↦ none
          | some rest ↦ some (record { label = title; url = link_url } ∷ rest)
        ]
      ]

  unfoldable pub parse_legal_links : (getenv : Bytes → Bytes) → Option (List LegalLink)
  parse_legal_links getenv = links_from getenv max_configured_links 1
