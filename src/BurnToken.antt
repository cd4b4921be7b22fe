-- ===== src/BurnToken.antt =====
-- burn_token.go and `deriveSubkey` of common.go: burn tokens, 32 random bytes written in base64url,
-- and the verifier that the server keeps of one. Each error of a token's text wraps
-- `errInvalidBurnToken`; `none` stands for it.
use one_time_note.Base.{
  ◌∙◌, ap, sym, ◌↔◌, ◌≢◌, ℕ, ◌≡◌, not, Option, none, some, [], arith, ◌==◌, length, if◌then◌else◌,
}
use one_time_note.Base.Text.{Bytes, IsBytes, codes}
use one_time_note.Codec
use one_time_note.Codec.RoundTrip.{b64_decode-b64_encode, b64_encode_of_b64_decode}
use one_time_note.Codec.{b64_encode, b64_decode}
use one_time_note.Errors.{Result, ok, derive_failed, ◌>>=◌, from_option}
use one_time_note.Platform.{Platform}

abbrev pub burn_token_len : ℕ
burn_token_len = 32

abbrev pub burn_verifier_len : ℕ
burn_verifier_len = 32

unfoldable pub to_string : Bytes → Bytes
to_string token = b64_encode token

unfoldable pub unmarshal_text : Bytes → Option Bytes
unmarshal_text text =
    Codec.◌>>=◌ (b64_decode text)
      λ decoded. if not (length decoded == burn_token_len) then none else some decoded

unfoldable pub parse : Bytes → Option Bytes
unfolding unmarshal_text
parse s = unmarshal_text s

abbrev pub IsToken : Bytes → Type 0
IsToken token = (length token ≡ burn_token_len) × IsBytes token

ne_nil_of_length : (token : Bytes) → length token ≡ 32 → token ≢ []
ne_nil_of_length token h = λ p. ground (arith, p)

parse-to_string : (token : Bytes) → IsToken token → parse (to_string token) ≡ some token
unfolding parse to_string
parse-to_string token h = ground (arith, b64_decode-b64_encode token (ne_nil_of_length token h.0))

to_string_of_parse : (s token : Bytes) → parse s ≡ some token → to_string token ≡ s
unfolding parse to_string
to_string_of_parse s token h = ground (arith, b64_encode_of_b64_decode s token)

-- A text is parsed to a burn token of 32 bytes exactly if it is the text of that token.
parse_token_iff : (s token : Bytes) → IsToken token → (parse s ≡ some token) ↔ (s ≡ to_string token)
parse_token_iff s token h =
    (λ e. sym (to_string_of_parse s token e), λ e. ap parse e ∙ parse-to_string token h)

module _ (P : Platform) where
  unfoldable pub derive_subkey : Bytes → Bytes → Result Bytes
  derive_subkey root_secret label = from_option (P.hkdf_key root_secret [] label 32) derive_failed

  -- The HMAC of the token under the key derived for burn verifiers.
  unfoldable pub burn_token_verifier : Bytes → Bytes → Result Bytes
  burn_token_verifier root_secret burn_token = do
    key ← derive_subkey root_secret (codes "burn verifier v1")
    ok (P.hmac key burn_token)

  pub length-burn_token_verifier :
      (root_secret burn_token v : Bytes)
      → burn_token_verifier root_secret burn_token ≡ ok v
      → (length v ≡ burn_verifier_len) × IsBytes v
  unfolding burn_token_verifier derive_subkey
  length-burn_token_verifier root_secret burn_token v h =
      grind (arith, P.length-hmac, P.hmac-IsBytes)
