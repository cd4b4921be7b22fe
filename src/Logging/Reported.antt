-- ===== src/Logging/Reported.antt =====
-- Which responses of the endpoints leave an error in the log.
use one_time_note.Base.{◌≡◌, refl, sym, inl, inr, Bool, false, ◌||◌, List, [], ◌∷◌, ◌==◌, arith}
use one_time_note.Base.Text.{Bytes}
use one_time_note.Clock.{Time, Duration}
use one_time_note.Errors.{
  note_open_failed, payload_empty, payload_too_large, storage_full, lifetime_invalid,
  ticket_invalid, ticket_expired, ticket_unusable, Result, ok, err,
}
use one_time_note.Records.{Note}
use one_time_note.Platform.{Platform}
use one_time_note.Database.{Db, Faults}
use one_time_note.NoteService.{Limits}
use one_time_note.NoteService.Create.{Circumstances, create_note}
use one_time_note.Http.{Http, RequestError, Response}
use one_time_note.Handlers.{
  answered, Attempt-cases, read_create_request, read_open_request, create_note_error,
  create_body_error, open_note_error, open_body_error, ticket_error_status, answer_create,
  answer_open, handle_create_ticket, handle_create_note, handle_open_note,
}
use one_time_note.Logging.{
  LogRecord, create_note_log, open_note_log, create_ticket_log, handle_create_ticket_log,
  handle_create_note_log, handle_open_note_log, log_security_event, log_request_error,
}

abbrev pub any_error : List LogRecord → Bool
any_error [] = false
any_error (entry ∷ entries) = entry.is_error || any_error entries

create_body_error-status : (e : RequestError) → ((create_body_error e).status == 500) ≡ false
unfolding create_body_error
create_body_error-status e = ground arith

module _ (route client : Bytes) (P : Platform) where
  create_note_log-any_error :
      (lifetime : Duration) (r : Result Bytes) (db : Db P.Bucket)
      → any_error (create_note_log route client r)
        ≡ ((answer_create P lifetime (r, db)).0.status == 500)
  unfolding create_note_log create_note_error ticket_error_status log_security_event
      log_request_error
  create_note_log-any_error lifetime (ok id) db = refl
  create_note_log-any_error lifetime (err payload_too_large) db = refl
  create_note_log-any_error lifetime (err storage_full) db = refl
  create_note_log-any_error lifetime (err lifetime_invalid) db = refl
  create_note_log-any_error lifetime (err ticket_invalid) db = refl
  create_note_log-any_error lifetime (err ticket_expired) db = refl
  create_note_log-any_error lifetime (err ticket_unusable) db = refl
  create_note_log-any_error lifetime (err payload_empty) db = refl
  create_note_log-any_error lifetime (err _) db = refl

  open_note_log-any_error :
      (r : Result Note) (db : Db P.Bucket)
      → any_error (open_note_log route client r) ≡ ((answer_open P (r, db)).0.status == 500)
  unfolding open_note_log open_note_error log_security_event log_request_error
  open_note_log-any_error (ok note) db = refl
  open_note_log-any_error (err note_open_failed) db = refl
  open_note_log-any_error (err _) db = refl

  handle_create_ticket_log-any_error :
      (faults : Faults) (now : Time) (burn_token id : Bytes) (db : Db P.Bucket)
      → any_error (handle_create_ticket_log route client P faults now burn_token id db)
        ≡ ((handle_create_ticket P faults now burn_token id db).status == 500)
  unfolding handle_create_ticket_log handle_create_ticket create_ticket_log log_request_error
  handle_create_ticket_log-any_error faults now burn_token id db = ground arith

  module _ (H : Http) (s : Limits) (content_type path body : Bytes) (db : Db P.Bucket) where
    read_create_request-status :
        (response : Response)
        → read_create_request H s.max_size content_type path body ≡ answered response
        → (response.status == 500) ≡ false
    unfolding read_create_request
    read_create_request-status response h = grind (arith, create_body_error-status)

    handle_create_note_log-any_error :
        (c : Circumstances)
        → any_error (handle_create_note_log route client P s H c content_type path body db)
          ≡ ((handle_create_note P H s c content_type path body db).0.status == 500)
    unfolding handle_create_note_log handle_create_note
    handle_create_note_log-any_error c =
        elim (Attempt-cases (read_create_request H s.max_size content_type path body)) [
          | inl ((id, req, token, lifetime), read) ↦
              rw (read, handle_create_note, handle_create_note_log)
                (create_note_log-any_error lifetime
                  (create_note P s c id req.ticket token req.payload lifetime db).0 _)
          | inr (r, read) ↦
              rw (read, handle_create_note, handle_create_note_log)
                (sym (read_create_request-status r read))
        ]

    handle_open_note_log-any_error :
        (faults : Faults) (now : Time)
        → any_error (handle_open_note_log route client P s H faults now content_type path body db)
          ≡ ((handle_open_note P H s faults now content_type path body db).0.status == 500)
    unfolding handle_open_note_log handle_open_note read_open_request open_body_error
        log_security_event
    handle_open_note_log-any_error faults now = grind (arith, open_note_log-any_error)

-- Each of the three endpoints of notes logs an error on a request if the status of its response is 500, and
-- only then.
pub any_error-handlers :
    (route client : Bytes) (P : Platform) (H : Http) (s : Limits) (content_type path body : Bytes)
    (db : Db P.Bucket) (faults : Faults) (now : Time) (burn_token id : Bytes) (c : Circumstances)
    → (any_error (handle_create_ticket_log route client P faults now burn_token id db)
        ≡ ((handle_create_ticket P faults now burn_token id db).status == 500))
      × (any_error (handle_create_note_log route client P s H c content_type path body db)
          ≡ ((handle_create_note P H s c content_type path body db).0.status == 500))
      × (any_error (handle_open_note_log route client P s H faults now content_type path body db)
          ≡ ((handle_open_note P H s faults now content_type path body db).0.status == 500))
any_error-handlers route client P H s content_type path body db faults now burn_token id c = (
  handle_create_ticket_log-any_error route client P faults now burn_token id db,
  handle_create_note_log-any_error route client P H s content_type path body db c,
  handle_open_note_log-any_error route client P H s content_type path body db faults now,
)
