-- ===== src/Codec/Alphabet.antt =====
-- The alphabet of `encoding/base64`'s URL encoding, `A-Z a-z 0-9 - _`.
use one_time_note.Base.{
  ℕ, ◌+◌, ◌-◌, ◌<◌, ◌≡◌, ◌≢◌, ◌&&◌, Option, none, some, arith, ltb, leb, ◌==◌, if◌then◌else◌,
}

unfoldable pub encode_char : ℕ → ℕ
encode_char n =
    if ltb n 26
    then b'A' + n
    else if ltb n 52
    then b'a' + (n - 26)
    else if ltb n 62
    then b'0' + (n - 52)
    else if n == 62
    then b'-'
    else b'_'

unfoldable pub decode_char : ℕ → Option ℕ
decode_char c =
    if leb b'A' c && leb c b'Z'
    then some (c - b'A')
    else if leb b'a' c && leb c b'z'
    then some (c - b'a' + 26)
    else if leb b'0' c && leb c b'9'
    then some (c - b'0' + 52)
    else if c == b'-'
    then some 62
    else if c == b'_'
    then some 63
    else none

pub decode_char-encode_char : (n : ℕ) → n < 64 → decode_char (encode_char n) ≡ some n
unfolding decode_char encode_char
decode_char-encode_char n h = ground arith

-- Neither a newline nor the dot that separates the parts of a ticket is in the alphabet.
pub encode_char-ne-newline : (n : ℕ) → (encode_char n ≢ b'\n') × (encode_char n ≢ b'\r')
unfolding encode_char
encode_char-ne-newline n = ground arith

pub encode_char-ne-dot : (n : ℕ) → encode_char n ≢ b'.'
unfolding encode_char
encode_char-ne-dot n = ground arith

pub encode_char-lt : (n : ℕ) → encode_char n < 128
unfolding encode_char
encode_char-lt n = ground arith
