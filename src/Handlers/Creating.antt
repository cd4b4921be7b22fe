-- ===== src/Handlers/Creating.antt =====
-- The endpoint that stores a note.
use one_time_note.Base.{ℕ, ◌*◌, ◌≡◌, ◌≢◌, ◌↔◌, refl, ap, ◌∙◌, arith, inl, inr}
use one_time_note.Base.Text.{Bytes}
use one_time_note.Base.Int.{ℤ, pos, negsuc, wrap64_small, scale}
use one_time_note.Clock.{Duration, second}
use one_time_note.Errors.{Error, Result, ok, err}
use one_time_note.Platform.{Platform}
use one_time_note.Database.{Db}
use one_time_note.Http.{Http, RequestError, Response, CreateNoteRequest, create_note_response}
use one_time_note.NoteService.{Limits, new_limits, normalize_lifetime}
use one_time_note.NoteService.Create.{Circumstances, create_note}
use one_time_note.Handlers.{
  requested_lifetime, create_note_error, create_body_error, ticket_error_status, ready, answered,
  Attempt-cases, read_create_request, handle_create_note, seconds_of,
}

-- The handler's test of a lifetime in seconds is the service's test of the lifetime: a number of seconds
-- is accepted exactly if the service accepts that many seconds unchanged.
requested_lifetime_iff :
    (max_size : ℕ) (z l : ℤ)
    → (requested_lifetime z ≡ ok l)
      ↔ ((l ≡ scale second z) × (normalize_lifetime (new_limits max_size) l ≡ ok l))
unfolding requested_lifetime normalize_lifetime new_limits
requested_lifetime_iff max_size (pos n) l = (
  λ h. (ground (arith, wrap64_small (second * n)), ground (arith, wrap64_small (second * n))),
  λ h. ground (arith, wrap64_small (second * n)),
)
requested_lifetime_iff max_size (negsuc n) l = (λ h. cc, λ h. ground arith)

create_note_error-status : (e : Error) → (create_note_error e).status ≢ 201
unfolding create_note_error ticket_error_status
create_note_error-status e h = ground arith

create_body_error-status : (e : RequestError) → (create_body_error e).status ≢ 201
unfolding create_body_error
create_body_error-status e h = ground arith

read_create_request-status :
    (H : Http) (max_size : ℕ) (content_type path body : Bytes) (response : Response)
    → read_create_request H max_size content_type path body ≡ answered response
    → response.status ≢ 201
unfolding read_create_request
read_create_request-status H max_size content_type path body response h =
    λ created. grind (arith, create_body_error-status)

module _ (P : Platform) (H : Http) (s : Limits) (c : Circumstances) (content_type path body : Bytes)
    (db db' : Db P.Bucket) (response : Response)
    (handled : handle_create_note P H s c content_type path body db ≡ (response, db')) where
  handle_create_note_saves :
      (id : Bytes) (req : CreateNoteRequest) (burn_token : Bytes) (lifetime : Duration)
      → read_create_request H s.max_size content_type path body
        ≡ ready (id, req, burn_token, lifetime)
      → (r : Result Bytes) (after : Db P.Bucket)
      → create_note P s c id req.ticket burn_token req.payload lifetime db ≡ (r, after)
      → response.status ≡ 201
      → (saved_id : Bytes) × (create_note P s c id req.ticket burn_token req.payload lifetime db
          ≡ (ok saved_id, db'))
        × (response.body ≡ create_note_response saved_id (seconds_of lifetime))
  unfolding handle_create_note
  handle_create_note_saves id req burn_token lifetime read (ok saved_id) after e created =
      let w = rw (read, e, handle_create_note) at handled in (saved_id, cc (e, w), cc w)
  handle_create_note_saves id req burn_token lifetime read (err x) after e created =
      let w = rw (read, e, handle_create_note) at handled in
      absurd
        (create_note_error-status x (ap (λ (y : Response × Db P.Bucket). y.0.status) w ∙ created))

  -- The endpoint answers 201 only if the service has stored a note, under the ID that it answers with.
  pub handle_create_note_created :
      response.status ≡ 201
      → (id : Bytes) × (req : CreateNoteRequest) × (burn_token : Bytes) × (lifetime : Duration)
        × (read_create_request H s.max_size content_type path body
            ≡ ready (id, req, burn_token, lifetime))
        × (saved_id : Bytes) × (create_note P s c id req.ticket burn_token req.payload lifetime db
            ≡ (ok saved_id, db'))
        × (response.body ≡ create_note_response saved_id (seconds_of lifetime))
  unfolding handle_create_note
  handle_create_note_created created =
      elim (Attempt-cases (read_create_request H s.max_size content_type path body)) [
        | inl ((id, req, burn_token, lifetime), read) ↦
            let (saved_id, saved, answer) =
              handle_create_note_saves id req burn_token lifetime read _ _ refl created in
            (id, req, burn_token, lifetime, read, saved_id, saved, answer)
        | inr (r, read) ↦ absurd (
            read_create_request-status H s.max_size content_type path body r read (
              ap (λ (y : Response × Db P.Bucket). y.0.status)
                (rw (read, handle_create_note) at handled)
              ∙ created))
      ]
