-- ===== src/Handlers.antt =====
-- handlers.go: the JSON endpoints over the service.
pub mod Creating
pub mod Statuses
pub mod Opening
use one_time_note.Base.{
  ℕ, ◌≡◌, refl, ◌⊎◌, inl, inr, suc, ◌+◌, ◌-◌, ◌*◌, ◌/◌, Bool, true, false, not, ◌||◌, Option, none,
  some, [], ◌==◌, length, replicate, if◌then◌else◌,
}
use one_time_note.Base.Text.{Bytes, codes, bytes_eq}
use one_time_note.Base.Int.{ℤ, pos, negsuc, ltb_ℤ, wrap64, scale}
use one_time_note.BurnToken
use one_time_note.Http.{
  CreateNoteRequest, OpenNoteRequest, Body, error_response, create_ticket_response,
  create_note_response, open_note_response, Response, write_json, RequestError, request_too_large,
  token_error, Decoded, decoded, rejected, decode_strict_json, Http, require_json_content_type,
}
use one_time_note.Clock.{Time, Duration, second}
use one_time_note.Errors.{
  Error, note_open_failed, payload_empty, payload_too_large, storage_full, ticket_expired,
  ticket_invalid, ticket_unusable, lifetime_invalid, max_size_reached, bolt, Result, ok, err,
}
use one_time_note.Records.{Ticket, TicketData, Note}
use one_time_note.Platform.{Platform}
use one_time_note.Database.{Db, Faults}
use one_time_note.NoteId
use one_time_note.Ticket.{create_ticket, max_ticket_len}
use one_time_note.NoteService.{Limits, min_note_lifetime, max_note_lifetime}
use one_time_note.NoteService.Create.{Circumstances, create_note}
use one_time_note.NoteService.Open.{open_note}

abbrev pub json_body_overhead : ℕ
json_body_overhead = 256

abbrev pub status_insufficient_storage : ℕ
status_insufficient_storage = 507

unfoldable pub max_create_note_body_size : ℕ → ℕ
max_create_note_body_size max_payload_bytes =
    max_payload_bytes
    + max_ticket_len
    + length (BurnToken.to_string (replicate 32 0))
    + json_body_overhead

unfoldable pub max_open_note_body_size : ℕ
max_open_note_body_size = length (BurnToken.to_string (replicate 32 0)) + json_body_overhead

-- `time.Duration(seconds) * time.Second` is a product of int64.
unfoldable pub requested_lifetime : ℤ → Result Duration
requested_lifetime seconds =
    if ltb_ℤ seconds (pos (min_note_lifetime / second))
      || ltb_ℤ (pos (max_note_lifetime / second)) seconds
    then err lifetime_invalid
    else ok (wrap64 (scale second seconds))

unfoldable pub ticket_error_status : Error → ℕ
ticket_error_status ticket_unusable = 409
ticket_error_status _ = 400

abbrev write_internal_json_error : Response
write_internal_json_error = write_json 500 (error_response (codes "internal_error"))

abbrev pub invalid_request : ℕ → Response
invalid_request status = write_json status (error_response (codes "invalid_request"))

-- The switch over the errors of `CreateNote`.
unfoldable pub create_note_error : Error → Response
create_note_error payload_too_large = write_json 413 (error_response (codes "note_too_large"))
create_note_error storage_full =
    write_json status_insufficient_storage (error_response (codes "storage_full"))
create_note_error lifetime_invalid = write_json 400 (error_response (codes "invalid_expiration"))
create_note_error ticket_invalid =
    write_json (ticket_error_status ticket_invalid) (error_response (codes "ticket_unusable"))
create_note_error ticket_expired =
    write_json (ticket_error_status ticket_expired) (error_response (codes "ticket_unusable"))
create_note_error ticket_unusable =
    write_json (ticket_error_status ticket_unusable) (error_response (codes "ticket_unusable"))
create_note_error payload_empty = invalid_request 400
create_note_error _ = write_internal_json_error

abbrev pub record_failed_open : Response
record_failed_open = write_json 404 (error_response (codes "note_open_failed"))

unfoldable pub open_note_error : Error → Response
open_note_error note_open_failed = record_failed_open
open_note_error _ = write_internal_json_error

-- What a handler has when it goes on, or the response it has written.
pub data Attempt (A : Type 0) : Type 0 where
  ready : A → Attempt A
  answered : Response → Attempt A

infixl 5 ◌>>=◌ ◌>>◌
abbrev pub ◌>>=◌ : {A B : Type 0} (first : Attempt A) (rest : A → Attempt B) → Attempt B
answered response >>= rest = answered response
ready a >>= rest = rest a

abbrev pub ◌>>◌ : {B : Type 0} (first : Attempt (Unit {0})) (rest : Attempt B) → Attempt B
first >> rest = first >>= λ nothing. rest

abbrev pub answer_if : Bool → Response → Attempt (Unit {0})
answer_if true response = answered response
answer_if false response = ready tt

abbrev pub or_answer : {A : Type 0} → Option A → Response → Attempt A
or_answer none response = answered response
or_answer (some a) response = ready a

-- `int(lifetime / time.Second)`
abbrev pub seconds_of : Duration → ℤ
seconds_of (pos n) = pos (n / second)
seconds_of (negsuc n) = if suc n / second == 0 then pos 0 else negsuc (suc n / second - 1)

unfoldable pub create_body_error : RequestError → Response
create_body_error request_too_large = invalid_request 413
create_body_error _ = invalid_request 400

unfoldable pub open_body_error : RequestError → Response
open_body_error token_error = record_failed_open
open_body_error _ = invalid_request 400

abbrev or_body_error : {A : Type 0} → Decoded A → (RequestError → Response) → Attempt A
or_body_error (decoded a) answer = ready a
or_body_error (rejected e) answer = answered (answer e)

abbrev or_lifetime_error : Result Duration → Attempt Duration
or_lifetime_error (ok lifetime) = ready lifetime
or_lifetime_error (err e) = answered (write_json 400 (error_response (codes "invalid_expiration")))

module _ (H : Http) where
  -- The arguments of `CreateNote`: the path's ID, the request, its burn token and the lifetime.
  unfoldable pub read_create_request :
      ℕ → (content_type path body : Bytes) → Attempt (Bytes × CreateNoteRequest × Bytes × Duration)
  read_create_request max_size content_type path body = do
    answer_if (not (require_json_content_type H content_type)) (invalid_request 415)
    id ← or_answer (NoteId.parse path) (invalid_request 400)
    req ←
        or_body_error
          (decode_strict_json (H.decode_create (max_create_note_body_size max_size) body))
          create_body_error
    burn_token ← or_answer req.burn_token (invalid_request 400)
    lifetime ← or_lifetime_error (requested_lifetime req.expires_in_seconds)
    ready (id, req, burn_token, lifetime)

  unfoldable pub read_open_request : (content_type path body : Bytes) → Attempt (Bytes × Bytes)
  read_open_request content_type path body = do
    answer_if (not (require_json_content_type H content_type)) (invalid_request 415)
    id ← or_answer (NoteId.parse path) record_failed_open
    req ←
        or_body_error (decode_strict_json (H.decode_open max_open_note_body_size body))
          open_body_error
    burn_token ← or_answer req.burn_token record_failed_open
    ready (id, burn_token)

module _ (P : Platform) where
  unfoldable pub handle_create_ticket : Faults → Time → Bytes → Bytes → Db P.Bucket → Response
  handle_create_ticket faults now burn_token id db =
      elim (create_ticket P faults now burn_token id db) [
        | err e ↦ write_internal_json_error
        | ok t ↦
            write_json 200
              (create_ticket_response t.ticket_data.id t.value t.burn_token t.ticket_data.exp)
      ]

  -- The response to what `CreateNote` returned.
  abbrev pub answer_create : Duration → Result Bytes × Db P.Bucket → Response × Db P.Bucket
  answer_create lifetime (err e, db) = (create_note_error e, db)
  answer_create lifetime (ok saved_id, db) =
      (write_json 201 (create_note_response saved_id (seconds_of lifetime)), db)

  unfoldable pub handle_create_note :
      Http
      → Limits
      → Circumstances
      → (content_type path body : Bytes) → Db P.Bucket
      → Response × Db P.Bucket
  handle_create_note H s c content_type path body db =
      elim (read_create_request H s.max_size content_type path body) [
        | answered response ↦ (response, db)
        | ready (id, req, burn_token, lifetime) ↦
            answer_create lifetime
              (create_note P s c id req.ticket burn_token req.payload lifetime db)
      ]

  -- The response to what `OpenNote` returned.
  abbrev pub answer_open : Result Note × Db P.Bucket → Response × Db P.Bucket
  answer_open (err e, db) = (open_note_error e, db)
  answer_open (ok note, db) = (write_json 200 (open_note_response note.payload), db)

  unfoldable pub handle_open_note :
      Http
      → Limits
      → Faults
      → Time
      → (content_type path body : Bytes) → Db P.Bucket
      → Response × Db P.Bucket
  handle_open_note H s faults now content_type path body db =
      elim (read_open_request H content_type path body) [
        | answered response ↦ (response, db)
        | ready (id, burn_token) ↦ answer_open (open_note P s faults now id burn_token db)
      ]

pub Attempt-cases :
    {A : Type 0} (attempt : Attempt A)
    → ((a : A) × (attempt ≡ ready a)) ⊎ ((r : Response) × (attempt ≡ answered r))
Attempt-cases (ready a) = inl (a, refl)
Attempt-cases (answered r) = inr (r, refl)
