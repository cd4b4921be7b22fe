-- ===== src/NoteId.antt =====
-- note_id.go: the ID of a note, an array of 32 bytes that is written in base64url. `ParseNoteID`
-- returns its variable as `UnmarshalText` leaves it; `none` is an error.
use one_time_note.Base.{
  ◌∙◌, ap, sym, ◌↔◌, ℕ, ◌≡◌, ◌≢◌, not, Option, none, some, [], arith, ◌==◌, length, if◌then◌else◌,
}
use one_time_note.Base.Text.{Bytes, IsBytes}
use one_time_note.Codec.{b64_encode, b64_decode, ◌>>=◌}
use one_time_note.Codec.RoundTrip.{b64_decode-b64_encode, b64_encode_of_b64_decode}

abbrev pub note_id_len : ℕ
note_id_len = 32

unfoldable pub to_string : Bytes → Bytes
to_string id = b64_encode id

-- The array that `UnmarshalText` fills.
unfoldable pub unmarshal_text : Bytes → Option Bytes
unmarshal_text text = do
  decoded ← b64_decode text
  if not (length decoded == note_id_len) then none else some decoded

unfoldable pub parse : Bytes → Option Bytes
unfolding unmarshal_text
parse s = unmarshal_text s

abbrev pub IsId : Bytes → Type 0
IsId id = (length id ≡ note_id_len) × IsBytes id

ne_nil_of_length : (id : Bytes) → length id ≡ 32 → id ≢ []
ne_nil_of_length id h = λ p. ground (arith, p)

parse-to_string : (id : Bytes) → IsId id → parse (to_string id) ≡ some id
unfolding parse to_string
parse-to_string id h = ground (arith, b64_decode-b64_encode id (ne_nil_of_length id h.0))

to_string_of_parse : (s id : Bytes) → parse s ≡ some id → to_string id ≡ s
unfolding parse to_string
to_string_of_parse s id h = ground (arith, b64_encode_of_b64_decode s id)

-- A text is parsed to an ID of 32 bytes exactly if it is the text of that ID.
pub parse_iff : (s id : Bytes) → IsId id → (parse s ≡ some id) ↔ (s ≡ to_string id)
parse_iff s id h = (λ e. sym (to_string_of_parse s id e), λ e. ap parse e ∙ parse-to_string id h)

-- Whatever text is parsed, the ID has 32 bytes.
pub length-parse : (s id : Bytes) → parse s ≡ some id → length id ≡ note_id_len
unfolding parse
length-parse s id h = ground arith
