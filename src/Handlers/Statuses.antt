-- ===== src/Handlers/Statuses.antt =====
-- Every response of the JSON API has a status.
use one_time_note.Base.{ℕ, ◌≡◌, ◌≢◌, arith, inl, inr}
use one_time_note.Base.Text.{Bytes}
use one_time_note.Clock.{Time, Duration}
use one_time_note.Errors.{Error, Result, ok, err}
use one_time_note.Platform.{Platform}
use one_time_note.Database.{Db, Faults}
use one_time_note.Records.{Note}
use one_time_note.NoteService.{Limits}
use one_time_note.NoteService.Create.{Circumstances}
use one_time_note.Http.{Http, RequestError, Response}
use one_time_note.Handlers.{
  create_note_error, create_body_error, open_note_error, open_body_error, ticket_error_status,
  answered, Attempt-cases, read_create_request, read_open_request, answer_create, answer_open,
  handle_create_ticket, handle_create_note, handle_open_note,
}

abbrev pub HasStatus : Response → Type 0
HasStatus response = response.status ≢ 0

create_note_error-HasStatus : (e : Error) → HasStatus (create_note_error e)
unfolding create_note_error ticket_error_status
create_note_error-HasStatus e h = ground arith

create_body_error-HasStatus : (e : RequestError) → HasStatus (create_body_error e)
unfolding create_body_error
create_body_error-HasStatus e h = ground arith

open_note_error-HasStatus : (e : Error) → HasStatus (open_note_error e)
unfolding open_note_error
open_note_error-HasStatus e h = ground arith

open_body_error-HasStatus : (e : RequestError) → HasStatus (open_body_error e)
unfolding open_body_error
open_body_error-HasStatus e h = ground arith

module _ (H : Http) (content_type path body : Bytes) (response : Response) where
  read_create_request-HasStatus :
      (max_size : ℕ)
      → read_create_request H max_size content_type path body ≡ answered response
      → HasStatus response
  unfolding read_create_request
  read_create_request-HasStatus max_size h =
      λ zero_status. grind (arith, create_body_error-HasStatus)

  read_open_request-HasStatus :
      read_open_request H content_type path body ≡ answered response → HasStatus response
  unfolding read_open_request
  read_open_request-HasStatus h = λ zero_status. grind (arith, open_body_error-HasStatus)

module _ (P : Platform) where
  answer_create-HasStatus :
      (lifetime : Duration) (r : Result Bytes × Db P.Bucket)
      → HasStatus (answer_create P lifetime r).0
  answer_create-HasStatus lifetime (err e, db) = create_note_error-HasStatus e
  answer_create-HasStatus lifetime (ok id, db) = λ h. omega (arith, h)

  answer_open-HasStatus : (r : Result Note × Db P.Bucket) → HasStatus (answer_open P r).0
  answer_open-HasStatus (err e, db) = open_note_error-HasStatus e
  answer_open-HasStatus (ok note, db) = λ h. omega (arith, h)

  pub handle_create_ticket-HasStatus :
      (faults : Faults) (now : Time) (burn_token id : Bytes) (db : Db P.Bucket)
      → HasStatus (handle_create_ticket P faults now burn_token id db)
  unfolding handle_create_ticket
  handle_create_ticket-HasStatus faults now burn_token id db h = ground arith

  module _ (H : Http) (s : Limits) (content_type path body : Bytes) (db : Db P.Bucket) where
    pub handle_create_note-HasStatus :
        (c : Circumstances) → HasStatus (handle_create_note P H s c content_type path body db).0
    unfolding handle_create_note
    handle_create_note-HasStatus c =
        elim (Attempt-cases (read_create_request H s.max_size content_type path body)) [
          | inl ((id, req, token, lifetime), read) ↦
              rw (read, handle_create_note) (answer_create-HasStatus lifetime _)
          | inr (r, read) ↦
              rw (read, handle_create_note)
                (read_create_request-HasStatus H content_type path body r s.max_size read)
        ]

    pub handle_open_note-HasStatus :
        (faults : Faults) (now : Time)
        → HasStatus (handle_open_note P H s faults now content_type path body db).0
    unfolding handle_open_note
    handle_open_note-HasStatus faults now =
        elim (Attempt-cases (read_open_request H content_type path body)) [
          | inl ((id, token), read) ↦ rw (read, handle_open_note) (answer_open-HasStatus _)
          | inr (r, read) ↦
              rw (read, handle_open_note)
                (read_open_request-HasStatus H content_type path body r read)
        ]
