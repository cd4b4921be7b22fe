-- ===== src/Platform.antt =====
-- What the program calls and does not implement: bbolt's buckets (Buckets), the cryptography of Go's
-- `crypto` packages and `encoding/json` for the program's records (here). Each is a record of
-- operations with the documented behaviour that the program relies on.
pub mod Buckets
use one_time_note.Base.{ℕ, ◌<◌, ◌≡◌, Option, some, length, All}
use one_time_note.Base.Text.{Bytes, IsBytes}
use one_time_note.Records.{Metadata, UsedTicketMarker, TicketData, RootKeyRecord}
use one_time_note.Platform.Buckets.{Bolt}

-- `crypto/hkdf` and `crypto/hmac` with SHA-256.
pub record Crypto : Type 0 where
  pub hkdf_key : (secret salt info : Bytes) → ℕ → Option Bytes
  pub hmac : (key message : Bytes) → Bytes
  pub length-hmac : (key message : Bytes) → length (hmac key message) ≡ 32
  pub hmac-IsBytes : (key message : Bytes) → IsBytes (hmac key message)

-- A ticket whose parts JSON can hold: an ID of 32 bytes and a verifier in ASCII.
pub record IsEncodable (t : TicketData) : Type 0 where
  pub length_id : length t.id ≡ 32
  pub id_bytes : IsBytes t.id
  pub ascii : All (λ c. c < 128) t.burn_verifier

-- `json.Marshal` and `json.Unmarshal` at the program's records. What Marshal writes, Unmarshal reads.
pub record Json : Type 0 where
  pub marshal_metadata : Metadata → Option Bytes
  pub unmarshal_metadata : Bytes → Option Metadata
  pub marshal_marker : UsedTicketMarker → Option Bytes
  pub unmarshal_marker : Bytes → Option UsedTicketMarker
  pub marshal_ticket : TicketData → Option Bytes
  pub unmarshal_ticket : Bytes → Option TicketData
  pub marshal_root_key : RootKeyRecord → Option Bytes
  pub unmarshal_root_key : Bytes → Option RootKeyRecord
  pub metadata_read :
      (m : Metadata) (b : Bytes)
      → IsBytes m.burn_verifier
      → marshal_metadata m ≡ some b
      → unmarshal_metadata b ≡ some m
  pub marker_read :
      (m : UsedTicketMarker) (b : Bytes) → marshal_marker m ≡ some b → unmarshal_marker b ≡ some m
  pub ticket_read :
      (t : TicketData) (b : Bytes)
      → IsEncodable t
      → marshal_ticket t ≡ some b
      → unmarshal_ticket b ≡ some t
  -- The output is text, and at least `{}`.
  pub ticket_bytes :
      (t : TicketData) (b : Bytes)
      → IsEncodable t
      → marshal_ticket t ≡ some b
      → IsBytes b × (0 < length b)
  pub root_key_read :
      (r : RootKeyRecord) (b : Bytes)
      → IsBytes r.secret
      → marshal_root_key r ≡ some b
      → unmarshal_root_key b ≡ some r

pub record Platform : Type 1 where
  pub bolt : Bolt
  pub open bolt use *
  pub crypto : Crypto
  pub open crypto use *
  pub json : Json
  pub open json use *
