-- ===== src/Codec/RoundTrip.antt =====
-- The strict decoder inverts the encoder, and accepts nothing else.
use one_time_note.Base.{
  ◌∙◌, ap, sym, ◌↔◌, ◌<◌, All, ℕ, ◌+◌, ◌*◌, ◌/◌, ◌%◌, ◌≡◌, ◌≢◌, refl, some, [], ◌∷◌, arith, length,
}
use one_time_note.Base.Text.{Bytes, IsBytes, Lacks, bytes_eq_refl, eq_of_bytes_eq}
use one_time_note.Codec.Alphabet.{
  encode_char-lt, decode_char-encode_char, encode_char-ne-newline, encode_char-ne-dot,
}
use one_time_note.Codec.{
  encoded_len, decoded_len, b64_encode, skip_newlines, decode_quads, decode_string, b64_decode,
}

pub skip_newlines-b64_encode : (d : Bytes) → skip_newlines (b64_encode d) ≡ b64_encode d
unfolding skip_newlines b64_encode
skip_newlines-b64_encode [] = refl
skip_newlines-b64_encode (a ∷ []) = grind (arith, encode_char-ne-newline)
skip_newlines-b64_encode (a ∷ b ∷ []) = grind (arith, encode_char-ne-newline)
skip_newlines-b64_encode (a ∷ b ∷ c ∷ rest) = ground (
  arith,
  encode_char-ne-newline (a / 4),
  encode_char-ne-newline (a % 4 * 16 + b / 16),
  encode_char-ne-newline (b % 16 * 4 + c / 64),
  encode_char-ne-newline (c % 64),
  skip_newlines-b64_encode rest,
)

decode_quads-b64_encode : (d : Bytes) → IsBytes d → decode_quads (b64_encode d) ≡ some d
unfolding decode_quads b64_encode
decode_quads-b64_encode [] h = refl
decode_quads-b64_encode (a ∷ []) h =
    rw
      (
        decode_char-encode_char (a / 4) (omega arith),
        decode_char-encode_char (a % 4 * 16) (omega arith),
      )
      (ground arith)
decode_quads-b64_encode (a ∷ b ∷ []) h =
    rw
      (
        decode_char-encode_char (a / 4) (omega arith),
        decode_char-encode_char (a % 4 * 16 + b / 16) (omega arith),
        decode_char-encode_char (b % 16 * 4) (omega arith),
      )
      (ground arith)
decode_quads-b64_encode (a ∷ b ∷ c ∷ rest) (ha, (hb, (hc, h))) =
    rw
      (
        decode_char-encode_char (a / 4) (omega arith),
        decode_char-encode_char (a % 4 * 16 + b / 16) (omega arith),
        decode_char-encode_char (b % 16 * 4 + c / 64) (omega arith),
        decode_char-encode_char (c % 64) (omega arith),
        decode_quads-b64_encode rest h,
      )
      (ground arith)

length-b64_encode : (d : Bytes) → length (b64_encode d) ≡ encoded_len (length d)
unfolding b64_encode encoded_len
length-b64_encode [] = refl
length-b64_encode (a ∷ []) = refl
length-b64_encode (a ∷ b ∷ []) = refl
length-b64_encode (a ∷ b ∷ c ∷ rest) = omega (arith, length-b64_encode rest)

decoded_len-encoded_len : (n : ℕ) → decoded_len (encoded_len n) ≡ n
unfolding decoded_len encoded_len
decoded_len-encoded_len n = omega arith

-- The encoding of one byte or more is not empty.
pub b64_encode-ne-nil : (d : Bytes) → d ≢ [] → b64_encode d ≢ []
unfolding b64_encode
b64_encode-ne-nil [] h = absurd (h refl)
b64_encode-ne-nil (a ∷ []) h = λ p. cc
b64_encode-ne-nil (a ∷ b ∷ []) h = λ p. cc
b64_encode-ne-nil (a ∷ b ∷ c ∷ rest) h = λ p. cc

-- The text of an encoding, spelled out as the decoder meets it.
accepts :
    (s d : Bytes)
    → s ≢ []
    → encoded_len (decoded_len (length s)) ≡ length s
    → decode_string s ≡ some d
    → b64_encode d ≡ s
    → b64_decode s ≡ some d
unfolding b64_decode
accepts [] d n l e r = absurd (n refl)
accepts (c ∷ s) d n l e r = ground (arith, l, e, r, bytes_eq_refl (c ∷ s))

-- Every non-empty byte string is read back from its encoding.
pub b64_decode-b64_encode : (d : Bytes) → d ≢ [] → IsBytes d → b64_decode (b64_encode d) ≡ some d
b64_decode-b64_encode d n h =
    accepts (b64_encode d) d (b64_encode-ne-nil d n)
      (rw (length-b64_encode d, decoded_len-encoded_len (length d)) refl)
      (unfold decode_string in rw skip_newlines-b64_encode (decode_quads-b64_encode d h)) refl

-- What the strict decoder accepts is the encoding of what it returns.
pub b64_encode_of_b64_decode : (s d : Bytes) → b64_decode s ≡ some d → b64_encode d ≡ s
unfolding b64_decode
b64_encode_of_b64_decode [] d h = cc
b64_encode_of_b64_decode (c ∷ s) d h = ground (arith, eq_of_bytes_eq (b64_encode d) (c ∷ s))

-- The strict decoder accepts, for the bytes of a non-empty `d`, the encoding of `d` and no other text.
pub b64_decode_iff :
    (s d : Bytes) → d ≢ [] → IsBytes d → (b64_decode s ≡ some d) ↔ (s ≡ b64_encode d)
b64_decode_iff s d n h =
    (λ e. sym (b64_encode_of_b64_decode s d e), λ e. ap b64_decode e ∙ b64_decode-b64_encode d n h)

pub b64_encode-Lacks : (d : Bytes) → Lacks b'.' (b64_encode d)
unfolding b64_encode
b64_encode-Lacks [] = tt
b64_encode-Lacks (a ∷ []) = (encode_char-ne-dot _, (encode_char-ne-dot _, tt))
b64_encode-Lacks (a ∷ b ∷ []) =
    (encode_char-ne-dot _, (encode_char-ne-dot _, (encode_char-ne-dot _, tt)))
b64_encode-Lacks (a ∷ b ∷ c ∷ rest) = (
  encode_char-ne-dot _,
  (encode_char-ne-dot _, (encode_char-ne-dot _, (encode_char-ne-dot _, b64_encode-Lacks rest))),
)

pub b64_encode-ascii : (d : Bytes) → All (λ c. c < 128) (b64_encode d)
unfolding b64_encode
b64_encode-ascii [] = tt
b64_encode-ascii (a ∷ []) = (encode_char-lt _, (encode_char-lt _, tt))
b64_encode-ascii (a ∷ b ∷ []) = (encode_char-lt _, (encode_char-lt _, (encode_char-lt _, tt)))
b64_encode-ascii (a ∷ b ∷ c ∷ rest) = (
  encode_char-lt _,
  (encode_char-lt _, (encode_char-lt _, (encode_char-lt _, b64_encode-ascii rest))),
)
