-- ===== src/Codec.antt =====
-- common.go: base64url as the program reads and writes it (`encoding/base64`, RawURLEncoding), and
-- the strict decoder `b64Decode`.
pub mod Alphabet
pub mod RoundTrip
use one_time_note.Base.{
  ℕ, ◌+◌, ◌-◌, ◌*◌, ◌/◌, ◌%◌, Bool, not, ◌||◌, Option, none, some, List, [], ◌∷◌, ◌++◌, ◌==◌,
  length, if◌then◌else◌,
}
use one_time_note.Base.Text.{Bytes, bytes_eq}
use one_time_note.Codec.Alphabet.{encode_char, decode_char}

-- `EncodedLen` and `DecodedLen` without padding.
unfoldable pub encoded_len : ℕ → ℕ
encoded_len n = n / 3 * 4 + (n % 3 * 8 + 5) / 6

unfoldable pub decoded_len : ℕ → ℕ
decoded_len n = n / 4 * 3 + n % 4 * 6 / 8

-- `EncodeToString`: three bytes are four characters, and one or two left over are two or three.
unfoldable pub b64_encode : Bytes → Bytes
b64_encode [] = []
b64_encode (a ∷ []) = encode_char (a / 4) ∷ encode_char (a % 4 * 16) ∷ []
b64_encode (a ∷ b ∷ []) =
    encode_char (a / 4) ∷ encode_char (a % 4 * 16 + b / 16) ∷ encode_char (b % 16 * 4) ∷ []
b64_encode (a ∷ b ∷ c ∷ rest) =
    encode_char (a / 4)
    ∷ encode_char (a % 4 * 16 + b / 16)
    ∷ encode_char (b % 16 * 4 + c / 64)
    ∷ encode_char (c % 64)
    ∷ b64_encode rest

-- A `\r` or `\n` anywhere in the input is skipped.
unfoldable pub skip_newlines : Bytes → Bytes
skip_newlines [] = []
skip_newlines (c ∷ s) =
    let rest = skip_newlines s in if c == b'\n' || c == b'\r' then rest else c ∷ rest

infixl 5 ◌>>=◌
abbrev pub ◌>>=◌ {ℓ κ} : {A : Type ℓ} {B : Type κ} → Option A → (A → Option B) → Option B
none >>= f = none
some a >>= f = f a

-- `DecodeString` in its lenient mode: the bits of the last character that stand for no byte are
-- dropped unread.
unfoldable pub decode_quads : Bytes → Option Bytes
decode_quads [] = some []
decode_quads (p ∷ []) = none
decode_quads (p ∷ q ∷ []) = do x ← decode_char p; y ← decode_char q; some ((x * 4 + y / 16) ∷ [])
decode_quads (p ∷ q ∷ r ∷ []) = do
  x ← decode_char p
  y ← decode_char q
  z ← decode_char r
  some ((x * 4 + y / 16) ∷ (y % 16 * 16 + z / 4) ∷ [])
decode_quads (p ∷ q ∷ r ∷ s ∷ rest) = do
  x ← decode_char p
  y ← decode_char q
  z ← decode_char r
  w ← decode_char s
  tail ← decode_quads rest
  some ((x * 4 + y / 16) ∷ (y % 16 * 16 + z / 4) ∷ (z % 4 * 64 + w) ∷ tail)

unfoldable pub decode_string : Bytes → Option Bytes
unfolding decode_quads skip_newlines
decode_string s = decode_quads (skip_newlines s)

-- `b64Decode`; `none` is any of its errors.
unfoldable pub b64_decode : Bytes → Option Bytes
b64_decode [] = none
b64_decode (c ∷ s) =
    let value = c ∷ s in
    if not (encoded_len (decoded_len (length value)) == length value) then none else do
      decoded ← decode_string value
      if not (bytes_eq (b64_encode decoded) value) then none else some decoded
