-- ===== src/Http.antt =====
-- What the handlers read and write: the requests and responses of handlers.go, `decodeStrictJSON`, and
-- `requireJSONContentType` of http_helpers.go. A response is a status and a body.
use one_time_note.Base.{ℕ, Bool, false, Option, none, some, ◌==◌, length, if◌then◌else◌}
use one_time_note.Base.Text.{Bytes, codes, bytes_eq}
use one_time_note.Base.Int.{ℤ}
use one_time_note.Clock.{Time}

pub record CreateNoteRequest : Type 0 where
  pub ticket : Bytes
  pub burn_token : Option Bytes
  pub payload : Bytes
  pub expires_in_seconds : ℤ

pub record OpenNoteRequest : Type 0 where
  pub burn_token : Option Bytes

-- The body of a response: `errorResponse`, the responses of the three operations, and
-- `configResponse`.
pub data Body : Type 0 where
  error_response : Bytes → Body
  create_ticket_response : (id ticket burn_token : Bytes) → Time → Body
  create_note_response : (id : Bytes) → ℤ → Body
  open_note_response : (payload : Bytes) → Body
  config_response :
      (max_payload_bytes : ℤ) (expiration_min_seconds expiration_max_seconds : ℕ) → Body

pub record Response : Type 0 where
  pub status : ℕ
  pub body : Body

abbrev pub write_json : ℕ → Body → Response
write_json status body = record { status = status; body = body }

-- What `json.Decoder` reports of the first value and of what stands behind it.
pub data DecodeError : Type 0 where
  max_bytes invalid_burn_token malformed : DecodeError

pub data Trailing : Type 0 where
  at_end trailing_max_bytes trailing_data : Trailing

pub data Decoding (A : Type 0) : Type 0 where
  failed : DecodeError → Decoding A
  value : A → Trailing → Decoding A

-- The results of `decodeStrictJSON`.
pub data RequestError : Type 0 where
  request_too_large token_error other_error : RequestError

pub data Decoded (A : Type 0) : Type 0 where
  decoded : A → Decoded A
  rejected : RequestError → Decoded A

unfoldable pub decode_strict_json : {A : Type 0} → Decoding A → Decoded A
decode_strict_json (failed max_bytes) = rejected request_too_large
decode_strict_json (failed invalid_burn_token) = rejected token_error
decode_strict_json (failed malformed) = rejected other_error
decode_strict_json (value a at_end) = decoded a
decode_strict_json (value a trailing_max_bytes) = rejected request_too_large
decode_strict_json (value a trailing_data) = rejected other_error

-- Go's `mime.ParseMediaType`, of which the media type is used, and its `json.Decoder` with unknown fields
-- refused, on a body read up to a limit.
pub record Http : Type 0 where
  pub parse_media_type : Bytes → Option Bytes
  pub decode_create : (limit : ℕ) (body : Bytes) → Decoding CreateNoteRequest
  pub decode_open : (limit : ℕ) (body : Bytes) → Decoding OpenNoteRequest

module _ (H : Http) where
  unfoldable pub require_json_content_type : Bytes → Bool
  require_json_content_type content_type =
      if length content_type == 0 then false else elim (H.parse_media_type content_type) [
        | none ↦ false
        | some media_type ↦ bytes_eq media_type (codes "application/json")
      ]
