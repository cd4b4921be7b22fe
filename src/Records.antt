-- ===== src/Records.antt =====
-- The records that the database and a ticket hold: `Metadata`, `UsedTicketMarker` and `Note` of
-- note_service.go, `TicketData` and `Ticket` of ticket.go, `rootKeyRecord` of root_key.go.
use one_time_note.Base.Text.{Bytes}
use one_time_note.Base.Int.{ℤ}
use one_time_note.Clock.{Time}

pub record Metadata : Type 0 where
  pub burn_verifier : Bytes
  pub created_at : Time
  pub expires_at : Time

pub record Note : Type 0 where
  pub payload : Bytes
  pub metadata : Metadata

pub record UsedTicketMarker : Type 0 where
  pub expires_at : Time

pub record TicketData : Type 0 where
  pub v : ℤ
  pub id : Bytes
  pub issued_at : Time
  pub exp : Time
  pub burn_verifier : Bytes

pub record Ticket : Type 0 where
  pub value : Bytes
  pub ticket_data : TicketData
  pub burn_token : Bytes

pub record RootKeyRecord : Type 0 where
  pub created_at : Time
  pub secret : Bytes
