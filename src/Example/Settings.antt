-- ===== src/Example/Settings.antt =====
-- Settings in the environment. The text functions keep their text, and every URL is a path.
use one_time_note.Base.{
  ℕ, ◌*◌, ◌^◌, ◌<◌, ◌≤◌, ◌≡◌, ◌↔◌, refl, true, false, none, some, List, [], ◌∷◌, ◌==◌, length, All,
  if◌then◌else◌, arith,
}
use one_time_note.Base.Text.{Bytes, codes, bytes_eq, has_prefix}
use one_time_note.Base.Int.{pos, wrap64}
use one_time_note.Net.{Net}
use one_time_note.Configuration.{
  LegalLink, parse_int, parse_digits, digits_from, in_int64, has_suffix, suffixes, split_suffix,
  amount_in, parse_byte_size, parse_optional_byte_size, contains_space, parse_legal_link_url,
  links_from, parse_legal_links,
}
use one_time_note.Configuration.Sizes.{parse_byte_size_iff}
use one_time_note.Configuration.Links.{IsSafe, parse_legal_links-IsSafe}

abbrev paths : Net
paths = record {
  Addr = ℕ;
  Prefix = ℕ;
  unmap = λ a. a;
  is_4 = λ a. true;
  address_text = λ a. a ∷ [];
  subnet_text = λ a. a ∷ [];
  contains = λ p a. p == a;
  parse_addr = λ s. none;
  split_host_port = λ s. none;
  is_number = λ s. false;
  trim_space = λ s. s;
  to_lower = λ s. s;
  equal_fold = bytes_eq;
  parse_url = λ s. some (record {
    scheme = [];
    host = [];
    has_user = false;
    raw_query = [];
    fragment = [];
    path = s;
  });
}

abbrev environment : Bytes → Bytes
environment name =
    if bytes_eq name (codes "NOTE_LINK_1_TITLE")
    then codes "Imprint"
    else if bytes_eq name (codes "NOTE_LINK_1_URL")
    then codes "/imprint"
    else if bytes_eq name (codes "NOTE_MAX_NOTE_SIZE")
    then codes "2kib"
    else []

parse_byte_size_iff_example : (parse_byte_size paths (codes "2kib") ≡ some (pos 2048)) ↔ (
    (n : ℕ) × (parse_int (split_suffix paths (codes "2kib") suffixes).0 ≡ some (pos n))
    × (n * (split_suffix paths (codes "2kib") suffixes).1 < 2 ^ 63)
    × (pos 2048 ≡ pos (n * (split_suffix paths (codes "2kib") suffixes).1)))
parse_byte_size_iff_example =
    parse_byte_size_iff paths (codes "2kib") (pos 2048) (λ p. omega (arith, p))

size_read :
    parse_optional_byte_size paths environment
      (codes "NOTE_MAX_NOTE_SIZE")
      (pos 1024)
      (pos 1)
      (pos 10485760)
    ≡ some (pos 2048)
unfolding parse_optional_byte_size parse_byte_size split_suffix amount_in parse_int parse_digits
    digits_from in_int64 has_suffix bytes_eq wrap64
size_read = refl

abbrev configured : List (LegalLink paths)
configured = record { label = codes "Imprint"; url = codes "/imprint" } ∷ []

links_read : parse_legal_links paths environment ≡ some configured
unfolding parse_legal_links links_from parse_legal_link_url contains_space bytes_eq has_prefix
links_read = refl

parse_legal_links-IsSafe_example : (length configured ≤ 5) × All (IsSafe paths) configured
parse_legal_links-IsSafe_example = parse_legal_links-IsSafe paths environment configured links_read
