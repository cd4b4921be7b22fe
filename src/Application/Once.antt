-- ===== src/Application/Once.antt =====
-- The server stores one note per ticket and opens it once, whatever it is asked in between.
use one_time_note.Base.{◌≤◌, ◌≡◌, ◌≢◌, refl, ap, ◌∙◌, subst, some, List, arith}
use one_time_note.Base.Text.{Bytes}
use one_time_note.Clock.{Time, Duration}
use one_time_note.Errors.{Error, Result, max_size_reached, ok, err}
use one_time_note.Platform.{Platform}
use one_time_note.Records.{Note}
use one_time_note.Database.{Db, Faults}
use one_time_note.Net.{Net}
use one_time_note.RateLimiter.{Rate}
use one_time_note.NoteService.{Limits}
use one_time_note.NoteService.Create.{Circumstances, create_note}
use one_time_note.Http.{Http, CreateNoteRequest, Response}
use one_time_note.Handlers.{
  Attempt, ready, open_note_error, read_create_request, read_open_request, handle_create_note,
  handle_open_note,
}
use one_time_note.NoteService.Open.{open_note}
use one_time_note.Handlers.Creating.{handle_create_note_created}
use one_time_note.History.{State}
use one_time_note.History.Once.{create_note_once}
use one_time_note.History.Burned.{open_note_once}
use one_time_note.History.Markers.{IsUsed}
use one_time_note.Views.{Engine}
use one_time_note.Application.{NetHttp, App, Shared}
use one_time_note.Application.Events.{Event, handle_all, IsTimely, last_time}
use one_time_note.Application.Reaching.{handle_all-Reach}

ticket_of_ready :
    {id id' token token' : Bytes} {req req' : CreateNoteRequest} {lifetime lifetime' : Duration}
    (attempt : Attempt (Bytes × CreateNoteRequest × Bytes × Duration))
    → attempt ≡ ready (id, req, token, lifetime)
    → attempt ≡ ready (id', req', token', lifetime')
    → req.ticket ≡ req'.ticket
ticket_of_ready attempt e e' = cc

module _ (P : Platform) (H : Http) (s : Limits) where
  -- An answer 201 to a request with a ticket comes from a call of `CreateNote` with that ticket.
  saved_with :
      (c : Circumstances) (content_type path body : Bytes) (db db' : Db P.Bucket)
      (response : Response) (id token : Bytes) (req : CreateNoteRequest) (lifetime : Duration)
      → read_create_request H s.max_size content_type path body ≡ ready (id, req, token, lifetime)
      → handle_create_note P H s c content_type path body db ≡ (response, db')
      → response.status ≡ 201
      → (path_id burn_token payload : Bytes) × (l : Duration) × (saved : Bytes) × (create_note P s c
            path_id req.ticket burn_token payload l db
          ≡ (ok saved, db'))
  saved_with c content_type path body db db' response id token req lifetime read handled created =
      let (i, r, b, l, read', saved, e, _) =
        handle_create_note_created P H s c content_type path body db db' response handled created in
      let same : r.ticket ≡ req.ticket =
        ticket_of_ready (read_create_request H s.max_size content_type path body) read' read in
      (
        i,
        b,
        r.payload,
        l,
        saved,
        subst (λ t. create_note P s c i t b r.payload l db ≡ (ok saved, db')) same e,
      )

open_note_error-status : (e : Error) → (open_note_error e).status ≢ 200
unfolding open_note_error
open_note_error-status e h = ground arith

-- An answer 200 to a request to open a note is a note that the service has returned.
module _ (P : Platform) (H : Http) (s : Limits) (faults : Faults) (now : Time)
    (content_type path body id token : Bytes) (db db' : Db P.Bucket) (response : Response)
    (read : read_open_request H content_type path body ≡ ready (id, token))
    (handled : handle_open_note P H s faults now content_type path body db ≡ (response, db'))
    (answered_200 : response.status ≡ 200) where
  opened_by :
      (r : Result Note) (after : Db P.Bucket)
      → open_note P s faults now id token db ≡ (r, after)
      → (note : Note) × (open_note P s faults now id token db ≡ (ok note, db'))
  unfolding handle_open_note
  opened_by (ok note) after e =
      let w = rw (read, e, handle_open_note) at handled in (note, cc (e, w))
  opened_by (err x) after e =
      let w = rw (read, e, handle_open_note) at handled in
      absurd (
        open_note_error-status x (ap (λ (y : Response × Db P.Bucket). y.0.status) w ∙ answered_200))

module _ (N : Net) (E : Engine N) (R : Rate) (P : Platform) (H : Http) (S : NetHttp N)
    (a : App N E R P H S) where
  -- Where the server handles requests one after the other, each to its end before the next request or
  -- background cleanup begins: after a request to store a note was answered 201, and whatever requests and
  -- background cleanups the server has handled since, no request with the same ticket is answered 201, whatever its path, burn
  -- token, payload and lifetime, given that each reading of the clock is made before its event is over,
  -- that the ticket is verified then or later, and that bbolt does not answer `ErrMaxSizeReached` at the
  -- begin of the first transaction.
  pub handle_create_note_once :
      (c c' : Circumstances) (content_type path body content_type' path' body' : Bytes)
      (db : Db P.Bucket) (response : Response) (s : Shared N E R P H S) (t : Time)
      (events : List (Event N E R P H S)) (id id' token token' : Bytes)
      (req req' : CreateNoteRequest) (lifetime lifetime' : Duration)
      → read_create_request H a.limits.max_size content_type path body
        ≡ ready (id, req, token, lifetime)
      → handle_create_note P H a.limits c content_type path body db ≡ (response, s.db)
      → response.status ≡ 201
      → IsTimely N E R P H S t events
      → read_create_request H a.limits.max_size content_type' path' body'
        ≡ ready (id', req', token', lifetime')
      → req'.ticket ≡ req.ticket
      → last_time N E R P H S t events ≤ c'.verified_at
      → c'.first_faults.at_begin ≢ some max_size_reached
      → (handle_create_note P H a.limits c' content_type' path' body'
          (handle_all N E R P H S a events s).db).0.status
        ≢ 201
  handle_create_note_once c c' content_type path body content_type' path' body' db response s t
        events id id' token token' req req' lifetime lifetime' read handled created timely read'
        same later room again =
      let z : State P = record {
        clock = last_time N E R P H S t events;
        db = (handle_all N E R P H S a events s).db;
      } in
      let (i, b, payload, l, saved, first) =
        saved_with P H a.limits c content_type path body db s.db response id token req lifetime read
          handled created in
      let (i', b', payload', l', saved', second) =
        saved_with P H a.limits c' content_type' path' body' z.db _ _ id' token' req' lifetime'
          read' refl again in
      let with_ticket : (create_note P a.limits c' i' req.ticket b' payload' l' z.db).0
          ≡ ok saved' =
        subst (λ x. (create_note P a.limits c' i' x b' payload' l' z.db).0 ≡ ok saved') same
          (ap (λ x. x.0) second) in
      create_note_once P a.limits c i req.ticket b payload l db (record { clock = t; db = s.db })
        saved first z c' i' b' payload' l' saved' (handle_all-Reach N E R P H S a t events s timely)
        later room with_ticket

  -- After a request to open a note was answered 200, and whatever requests and background cleanups the
  -- server has handled since, no request to open a note of its ID is answered 200, whatever its burn
  -- token, as long as the used-ticket marker of the ID has not expired, given that each reading of the
  -- clock is made before its event is over.
  pub handle_open_note_once :
      (faults faults' : Faults) (now now' : Time)
      (content_type path body content_type' path' body' : Bytes) (db : Db P.Bucket)
      (response : Response) (s : Shared N E R P H S) (t : Time) (events : List (Event N E R P H S))
      (id token token' marker_bytes : Bytes) (until : Time)
      → read_open_request H content_type path body ≡ ready (id, token)
      → handle_open_note P H a.limits faults now content_type path body db ≡ (response, s.db)
      → response.status ≡ 200
      → IsUsed P a.limits id marker_bytes until s.db
      → IsTimely N E R P H S t events
      → last_time N E R P H S t events ≤ until
      → read_open_request H content_type' path' body' ≡ ready (id, token')
      → (handle_open_note P H a.limits faults' now' content_type' path' body'
          (handle_all N E R P H S a events s).db).0.status
        ≢ 200
  handle_open_note_once faults faults' now now' content_type path body content_type' path' body' db
        response s t events id token token' marker_bytes until read handled opened used timely kept
        read' again =
      let z : State P = record {
        clock = last_time N E R P H S t events;
        db = (handle_all N E R P H S a events s).db;
      } in
      let (note, first) =
        opened_by P H a.limits faults now content_type path body id token db s.db response read
          handled opened _ _ refl in
      let (note', second) =
        opened_by P H a.limits faults' now' content_type' path' body' id token' z.db _ _ read' refl
          again _ _ refl in
      open_note_once P a.limits id faults faults' now now' token token' db
        (record { clock = t; db = s.db }) z note note' marker_bytes until first used
        (handle_all-Reach N E R P H S a t events s timely) kept (ap (λ x. x.0) second)
