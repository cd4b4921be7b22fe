-- ===== src/Logging.antt =====
-- logging.go, and what the endpoints of handlers.go log. Of an error in a record, it is modelled that it is
-- there; the record's time is not.
pub mod Discreet
pub mod Reported
use one_time_note.Base.{
  ℕ, Bool, true, false, not, Option, none, some, List, [], ◌∷◌, length, if◌then◌else◌,
}
use one_time_note.Base.Text.{Bytes, codes}
use one_time_note.Base.Int.{ℤ, pos}
use one_time_note.Errors.{
  note_open_failed, payload_empty, payload_too_large, storage_full, lifetime_invalid,
  ticket_invalid, ticket_expired, ticket_unusable, Error, Result, ok, err,
}
use one_time_note.Clock.{Time, Duration}
use one_time_note.Net.{Net}
use one_time_note.Configuration.Startup.{Config}
use one_time_note.NoteId
use one_time_note.Platform.{Platform}
use one_time_note.Database.{Db, Faults}
use one_time_note.Ticket.{create_ticket}
use one_time_note.NoteService.{Limits}
use one_time_note.NoteService.Open.{open_note}
use one_time_note.NoteService.Create.{Circumstances, create_note}
use one_time_note.Http.{
  Http, CreateNoteRequest, OpenNoteRequest, Decoded, token_error, decoded, rejected,
  decode_strict_json, require_json_content_type,
}
use one_time_note.Handlers.{
  Attempt, ready, answered, ticket_error_status, max_open_note_body_size, read_create_request,
}

pub data Value : Type 0 where
  text_value : Bytes → Value
  number_value : ℤ → Value
  flag : Bool → Value
  failure : Value

abbrev pub Attributes : Type 0
Attributes = List (Bytes × Value)

pub record LogRecord : Type 0 where
  pub is_error : Bool
  pub message : Bytes
  pub attributes : Attributes

unfoldable pub log_security_event : (event : Bytes) → Attributes → LogRecord
log_security_event event attributes = record {
  is_error = false;
  message = codes "security_event";
  attributes = (codes "event", text_value event) ∷ attributes;
}

-- Of a request, whose route and client are known.
unfoldable pub log_request_error : (route client event : Bytes) → Attributes → LogRecord
log_request_error route client event attributes = record {
  is_error = true;
  message = codes "request_error";
  attributes =
      (codes "event", text_value event)
      ∷ (codes "error", failure)
      ∷ (codes "route", text_value route)
      ∷ (codes "client", text_value client)
      ∷ attributes;
}

unfoldable pub log_startup_summary : (N : Net) → Config N → (addr : Bytes) → LogRecord
log_startup_summary N cfg addr = record {
  is_error = false;
  message = codes "startup_summary";
  attributes =
      (codes "event", text_value (codes "startup_completed"))
      ∷ (codes "environment", text_value cfg.environment)
      ∷ (codes "addr", text_value addr)
      ∷ (codes "db_path", text_value cfg.db_path)
      ∷ (codes "public_origin_host", text_value cfg.public_origin_host)
      ∷ (codes "trusted_proxy_count", number_value (pos (length cfg.trusted_proxies)))
      ∷ (codes "max_note_size", number_value cfg.max_note_size)
      ∷ (codes "max_db_size", number_value cfg.max_db_size)
      ∷ (codes "rate_limits_enabled", flag true)
      ∷ [];
}

unfoldable pub ticket_error_reason : Error → Bytes
ticket_error_reason ticket_expired = codes "expired"
ticket_error_reason ticket_unusable = codes "unusable"
ticket_error_reason _ = codes "invalid"

-- What the endpoints log of a request with a route and a client.
module _ (route client : Bytes) where
  -- A security event that names a reason.
  abbrev pub reason_event : (event reason : Bytes) (status : ℕ) → LogRecord
  reason_event event reason status = log_security_event event (
      (codes "route", text_value route)
      ∷ (codes "reason", text_value reason)
      ∷ (codes "client", text_value client)
      ∷ (codes "status", number_value (pos status))
      ∷ [])

  abbrev pub invalid_ticket_log : Error → List LogRecord
  invalid_ticket_log e =
      reason_event (codes "invalid_ticket") (ticket_error_reason e) (ticket_error_status e) ∷ []

  unfoldable pub create_note_log : Result Bytes → List LogRecord
  create_note_log (ok id) = []
  create_note_log (err payload_too_large) = []
  create_note_log (err storage_full) = []
  create_note_log (err lifetime_invalid) = []
  create_note_log (err ticket_invalid) = invalid_ticket_log ticket_invalid
  create_note_log (err ticket_expired) = invalid_ticket_log ticket_expired
  create_note_log (err ticket_unusable) = invalid_ticket_log ticket_unusable
  create_note_log (err payload_empty) = []
  create_note_log (err _) = log_request_error route client (codes "note_save_failed") [] ∷ []

  -- What `recordFailedOpen` logs.
  abbrev pub failed_open_log : (reason : Bytes) → List LogRecord
  failed_open_log reason = reason_event (codes "open_failed") reason 404 ∷ []

  unfoldable pub open_note_log {ℓ} : {A : Type ℓ} → Result A → List LogRecord
  open_note_log (ok note) = []
  open_note_log (err note_open_failed) = failed_open_log (codes "open_failed")
  open_note_log (err _) = log_request_error route client (codes "note_open_failed_internal") [] ∷ []

  unfoldable pub create_ticket_log {ℓ} : {A : Type ℓ} → Result A → List LogRecord
  create_ticket_log (ok ticket) = []
  create_ticket_log (err e) = log_request_error route client (codes "ticket_create_failed") [] ∷ []

  module _ (P : Platform) where
    unfoldable pub handle_create_ticket_log :
        Faults → Time → (burn_token id : Bytes) → Db P.Bucket → List LogRecord
    handle_create_ticket_log faults now burn_token id db =
        create_ticket_log (create_ticket P faults now burn_token id db)

    module _ (s : Limits) where
      -- What is logged of a request that is read, or answered before.
      abbrev pub read_create_log :
          Circumstances
          → Db P.Bucket
          → Attempt (Bytes × CreateNoteRequest × Bytes × Duration)
          → List LogRecord
      read_create_log c db (answered response) = []
      read_create_log c db (ready (id, req, burn_token, lifetime)) =
          create_note_log (create_note P s c id req.ticket burn_token req.payload lifetime db).0

      abbrev pub burn_token_log :
          Faults → Time → (id : Bytes) → Db P.Bucket → Option Bytes → List LogRecord
      burn_token_log faults now id db none = failed_open_log (codes "invalid_token")
      burn_token_log faults now id db (some burn_token) =
          open_note_log (open_note P s faults now id burn_token db).0

      abbrev pub open_body_log :
          Faults → Time → (id : Bytes) → Db P.Bucket → Decoded OpenNoteRequest → List LogRecord
      open_body_log faults now id db (rejected token_error) =
          failed_open_log (codes "invalid_token")
      open_body_log faults now id db (rejected _) = []
      open_body_log faults now id db (decoded req) = burn_token_log faults now id db req.burn_token

      module _ (H : Http) where
        unfoldable pub handle_create_note_log :
            Circumstances → (content_type path body : Bytes) → Db P.Bucket → List LogRecord
        handle_create_note_log c content_type path body db =
            read_create_log c db (read_create_request H s.max_size content_type path body)

        abbrev pub open_id_log :
            Faults → Time → (body : Bytes) → Db P.Bucket → Option Bytes → List LogRecord
        open_id_log faults now body db none = []
        open_id_log faults now body db (some id) =
            open_body_log faults now id db
              (decode_strict_json (H.decode_open max_open_note_body_size body))

        unfoldable pub handle_open_note_log :
            Faults → Time → (content_type path body : Bytes) → Db P.Bucket → List LogRecord
        handle_open_note_log faults now content_type path body db =
            if not (require_json_content_type H content_type)
            then []
            else open_id_log faults now body db (NoteId.parse path)
