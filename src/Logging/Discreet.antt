-- ===== src/Logging/Discreet.antt =====
-- The texts in the records of the endpoints.
use one_time_note.Base.{
  ℕ, ◌≡◌, refl, Bool, true, false, not, ◌||◌, List, [], ◌∷◌, ◌++◌, Option, none, some,
  if◌then◌else◌,
}
use one_time_note.Base.Text.{Bytes, codes, bytes_eq}
use one_time_note.Base.Lists.{All}
use one_time_note.Clock.{Time, Duration}
use one_time_note.Errors.{
  note_open_failed, payload_empty, payload_too_large, storage_full, lifetime_invalid,
  ticket_invalid, ticket_expired, ticket_unusable, Error, Result, ok, err,
}
use one_time_note.Platform.{Platform}
use one_time_note.Database.{Db, Faults}
use one_time_note.Ticket.{create_ticket}
use one_time_note.NoteService.{Limits}
use one_time_note.NoteService.Open.{open_note}
use one_time_note.NoteService.Create.{Circumstances}
use one_time_note.Http.{
  Http, CreateNoteRequest, OpenNoteRequest, Decoded, token_error, decoded, rejected,
  require_json_content_type,
}
use one_time_note.Handlers.{Attempt, ready, answered}
use one_time_note.Logging.{
  Value, text_value, number_value, flag, failure, LogRecord, ticket_error_reason, reason_event,
  create_note_log, open_note_log, create_ticket_log, handle_create_ticket_log,
  handle_create_note_log, handle_open_note_log, read_create_log, burn_token_log, open_body_log,
  open_id_log, log_security_event, log_request_error,
}

-- The events, the reasons, and the routes with a pattern.
abbrev pub fixed_texts : List Bytes
fixed_texts =
    codes "request_completed"
    ∷ codes "invalid_ticket"
    ∷ codes "open_failed"
    ∷ codes "proxy_rejected"
    ∷ codes "rate_limited"
    ∷ codes "rate_limiter_saturated"
    ∷ codes "note_save_failed"
    ∷ codes "note_open_failed_internal"
    ∷ codes "ticket_create_failed"
    ∷ codes "expired"
    ∷ codes "unusable"
    ∷ codes "invalid"
    ∷ codes "invalid_token"
    ∷ codes "invalid_remote_addr"
    ∷ codes "untrusted_proxy_source"
    ∷ codes "invalid_forwarded_metadata"
    ∷ codes "forwarded_proto_not_https"
    ∷ codes "invalid_forwarded_origin"
    ∷ codes "forwarded_host_mismatch"
    ∷ codes "invalid_forwarded_chain"
    ∷ codes "/"
    ∷ codes "GET /{$}"
    ∷ codes "GET /note/{id}"
    ∷ codes "GET /api/config"
    ∷ codes "POST /api/notes/{id}"
    ∷ codes "POST /api/notes/{id}/open"
    ∷ codes "POST /api/tickets"
    ∷ codes "GET /static/{asset}"
    ∷ codes "GET /static/{version}/{asset...}"
    ∷ codes "GET /healthz"
    ∷ codes "GET /favicon.ico"
    ∷ codes "GET /.well-known/{asset...}"
    ∷ []

abbrev pub is_one_of : Bytes → List Bytes → Bool
is_one_of s [] = false
is_one_of s (t ∷ texts) = bytes_eq s t || is_one_of s texts

-- What a text in a record may be: a fixed text, the request's method, also as a route, and what else the
-- caller names.
pub data IsPublic (method : Bytes) (others : List Bytes) : Bytes → Type 0 where
  fixed : (s : Bytes) → is_one_of s fixed_texts ≡ true → IsPublic method others s
  its_method : IsPublic method others method
  other_route : IsPublic method others (method ++ codes " /{app...}")
  named : (s : Bytes) → is_one_of s others ≡ true → IsPublic method others s

module _ (method : Bytes) (others : List Bytes) where
  abbrev pub IsPublicValue : Value → Type 0
  IsPublicValue (text_value s) = IsPublic method others s
  IsPublicValue (number_value n) = Unit
  IsPublicValue (flag b) = Unit
  IsPublicValue failure = Unit

  -- Each value of the record is public.
  abbrev pub IsDiscreet : LogRecord → Type 0
  IsDiscreet record_ =
      All (λ (attribute : Bytes × Value). IsPublicValue attribute.1) record_.attributes

  abbrev pub AreDiscreet : List LogRecord → Type 0
  AreDiscreet = All IsDiscreet

  pub none_if-AreDiscreet :
      (test : Bool) (records : List LogRecord)
      → AreDiscreet records
      → AreDiscreet (if test then [] else records)
  none_if-AreDiscreet true records d = tt
  none_if-AreDiscreet false records d = d

  module _ (route client : Bytes) (route-IsPublic : IsPublic method others route)
      (client-IsPublic : IsPublic method others client) where
    reason_event-IsDiscreet :
        (event reason : Bytes) (status : ℕ)
        → IsPublic method others event
        → IsPublic method others reason
        → IsDiscreet (reason_event route client event reason status)
    unfolding log_security_event
    reason_event-IsDiscreet event reason status e r =
        (e, (route-IsPublic, (r, (client-IsPublic, (tt, tt)))))

    log_request_error-IsDiscreet :
        (event : Bytes)
        → IsPublic method others event
        → IsDiscreet (log_request_error route client event [])
    unfolding log_request_error
    log_request_error-IsDiscreet event e = (e, (tt, (route-IsPublic, (client-IsPublic, tt))))

    ticket_error_reason-IsPublic : (e : Error) → IsPublic method others (ticket_error_reason e)
    unfolding ticket_error_reason bytes_eq
    ticket_error_reason-IsPublic ticket_expired = fixed _ refl
    ticket_error_reason-IsPublic ticket_unusable = fixed _ refl
    ticket_error_reason-IsPublic _ = fixed _ refl

    create_note_log-AreDiscreet : (r : Result Bytes) → AreDiscreet (create_note_log route client r)
    unfolding create_note_log bytes_eq
    create_note_log-AreDiscreet (ok id) = tt
    create_note_log-AreDiscreet (err payload_too_large) = tt
    create_note_log-AreDiscreet (err storage_full) = tt
    create_note_log-AreDiscreet (err lifetime_invalid) = tt
    create_note_log-AreDiscreet (err ticket_invalid) = (
      reason_event-IsDiscreet _ _ _ (fixed _ refl) (ticket_error_reason-IsPublic ticket_invalid),
      tt,
    )
    create_note_log-AreDiscreet (err ticket_expired) = (
      reason_event-IsDiscreet _ _ _ (fixed _ refl) (ticket_error_reason-IsPublic ticket_expired),
      tt,
    )
    create_note_log-AreDiscreet (err ticket_unusable) = (
      reason_event-IsDiscreet _ _ _ (fixed _ refl) (ticket_error_reason-IsPublic ticket_unusable),
      tt,
    )
    create_note_log-AreDiscreet (err payload_empty) = tt
    create_note_log-AreDiscreet (err _) = (log_request_error-IsDiscreet _ (fixed _ refl), tt)

    failed_open_log-IsDiscreet :
        (reason : Bytes)
        → IsPublic method others reason
        → IsDiscreet (reason_event route client (codes "open_failed") reason 404)
    unfolding bytes_eq
    failed_open_log-IsDiscreet reason r = reason_event-IsDiscreet _ reason 404 (fixed _ refl) r

    open_note_log-AreDiscreet {ℓ} :
        {A : Type ℓ} (r : Result A) → AreDiscreet (open_note_log route client r)
    unfolding open_note_log bytes_eq
    open_note_log-AreDiscreet (ok note) = tt
    open_note_log-AreDiscreet (err note_open_failed) =
        (failed_open_log-IsDiscreet _ (fixed _ refl), tt)
    open_note_log-AreDiscreet (err _) = (log_request_error-IsDiscreet _ (fixed _ refl), tt)

    create_ticket_log-AreDiscreet {ℓ} :
        {A : Type ℓ} (r : Result A) → AreDiscreet (create_ticket_log route client r)
    unfolding create_ticket_log bytes_eq
    create_ticket_log-AreDiscreet (ok ticket) = tt
    create_ticket_log-AreDiscreet (err e) = (log_request_error-IsDiscreet _ (fixed _ refl), tt)

    module _ (P : Platform) where
      pub handle_create_ticket_log-AreDiscreet :
          (faults : Faults) (now : Time) (burn_token id : Bytes) (db : Db P.Bucket)
          → AreDiscreet (handle_create_ticket_log route client P faults now burn_token id db)
      unfolding handle_create_ticket_log
      handle_create_ticket_log-AreDiscreet faults now burn_token id db =
          create_ticket_log-AreDiscreet (create_ticket P faults now burn_token id db)

      module _ (s : Limits) where
        read_create_log-AreDiscreet :
            (c : Circumstances) (db : Db P.Bucket)
            (attempt : Attempt (Bytes × CreateNoteRequest × Bytes × Duration))
            → AreDiscreet (read_create_log route client P s c db attempt)
        read_create_log-AreDiscreet c db (answered response) = tt
        read_create_log-AreDiscreet c db (ready (id, req, burn_token, lifetime)) =
            create_note_log-AreDiscreet _

        burn_token_log-AreDiscreet :
            (faults : Faults) (now : Time) (id : Bytes) (db : Db P.Bucket) (o : Option Bytes)
            → AreDiscreet (burn_token_log route client P s faults now id db o)
        unfolding bytes_eq
        burn_token_log-AreDiscreet faults now id db none =
            (failed_open_log-IsDiscreet _ (fixed _ refl), tt)
        burn_token_log-AreDiscreet faults now id db (some burn_token) =
            open_note_log-AreDiscreet (open_note P s faults now id burn_token db).0

        open_body_log-AreDiscreet :
            (faults : Faults) (now : Time) (id : Bytes) (db : Db P.Bucket)
            (body : Decoded OpenNoteRequest)
            → AreDiscreet (open_body_log route client P s faults now id db body)
        unfolding bytes_eq
        open_body_log-AreDiscreet faults now id db (rejected token_error) =
            (failed_open_log-IsDiscreet _ (fixed _ refl), tt)
        open_body_log-AreDiscreet faults now id db (rejected _) = tt
        open_body_log-AreDiscreet faults now id db (decoded req) =
            burn_token_log-AreDiscreet faults now id db req.burn_token

        module _ (H : Http) where
          open_id_log-AreDiscreet :
              (faults : Faults) (now : Time) (body : Bytes) (db : Db P.Bucket) (o : Option Bytes)
              → AreDiscreet (open_id_log route client P s H faults now body db o)
          open_id_log-AreDiscreet faults now body db none = tt
          open_id_log-AreDiscreet faults now body db (some id) =
              open_body_log-AreDiscreet faults now id db _

          pub handle_create_note_log-AreDiscreet :
              (c : Circumstances) (content_type path body : Bytes) (db : Db P.Bucket)
              → AreDiscreet (handle_create_note_log route client P s H c content_type path body db)
          unfolding handle_create_note_log
          handle_create_note_log-AreDiscreet c content_type path body db =
              read_create_log-AreDiscreet c db _

          pub handle_open_note_log-AreDiscreet :
              (faults : Faults) (now : Time) (content_type path body : Bytes) (db : Db P.Bucket)
              → AreDiscreet
                  (handle_open_note_log route client P s H faults now content_type path body db)
          unfolding handle_open_note_log
          handle_open_note_log-AreDiscreet faults now content_type path body db =
              none_if-AreDiscreet (not (require_json_content_type H content_type)) _
                (open_id_log-AreDiscreet faults now body db _)
