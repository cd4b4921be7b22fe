-- ===== src/Example/Requests.antt =====
-- Requests to the endpoints: every body to store a note is one fixed request, and a body to open one is
-- the burn token.
use one_time_note.Base.{◌+◌, ◌*◌, ◌≡◌, ap, refl, arith, ltb, none, some, [], length, if◌then◌else◌}
use one_time_note.Base.Text.{Bytes, codes, bytes_eq}
use one_time_note.Base.Int.{pos, wrap64}
use one_time_note.BurnToken
use one_time_note.Clock.{minute, hour}
use one_time_note.Codec.{b64_encode}
use one_time_note.Database.{no_faults, no_faults-IsQuiet}
use one_time_note.Http.{
  CreateNoteRequest, failed, value, max_bytes, at_end, Http, write_json, create_note_response,
  open_note_response, decode_strict_json, require_json_content_type,
}
use one_time_note.NoteId
use one_time_note.Platform.Buckets.{lookup}
use one_time_note.Handlers.{
  requested_lifetime, ready, read_create_request, read_open_request, handle_create_note,
  handle_open_note, max_create_note_body_size, answer_create,
}
use one_time_note.Handlers.Opening.{handle_open_note_alike}
use one_time_note.Handlers.Opening.Whole.{handle_open_note-handle_create_note}
use one_time_note.Example.Concrete.{concrete}
use one_time_note.Example.Scenario.{
  limits, circumstances, token, other_token, note_id, ticket, payload, started_db, created_db,
  created, note, verifier,
}
use one_time_note.Example.Witnesses.{holds, verifiers_differ}

abbrev pub request : CreateNoteRequest
request = record {
  ticket = ticket.value;
  burn_token = some token;
  payload = payload;
  expires_in_seconds = pos 3600;
}

abbrev pub http : Http
http = record {
  parse_media_type = λ s. some s;
  decode_create =
      λ limit body. if ltb limit (length body) then failed max_bytes else value request at_end;
  decode_open = λ limit body. value (record { burn_token = some body }) at_end;
}

abbrev pub json_type : Bytes
json_type = codes "application/json"

path_parsed : NoteId.parse (NoteId.to_string note_id) ≡ some note_id
path_parsed = (NoteId.parse_iff (NoteId.to_string note_id) note_id (refl, omega arith)).1 refl

pub create_read :
    read_create_request http limits.max_size json_type (NoteId.to_string note_id) []
    ≡ ready (note_id, request, token, pos hour)
unfolding read_create_request require_json_content_type bytes_eq decode_strict_json
    requested_lifetime wrap64 max_create_note_body_size BurnToken.to_string b64_encode
create_read = rw path_parsed refl

pub open_read :
    (t : Bytes) → read_open_request http json_type (NoteId.to_string note_id) t ≡ ready (note_id, t)
unfolding read_open_request require_json_content_type bytes_eq decode_strict_json
open_read t = rw path_parsed refl

pub handled :
    handle_create_note concrete http limits circumstances json_type
      (NoteId.to_string note_id)
      []
      started_db
    ≡ (write_json 201 (create_note_response note_id (pos 3600)), created_db)
unfolding handle_create_note
handled = rw (create_read, handle_create_note) (ap (answer_create concrete (pos hour)) created)

no_note : concrete.get started_db.metadata note_id ≡ none
unfolding lookup
no_note = refl

handle_open_note_alike_example :
    ((handle_open_note concrete http limits no_faults
        (2 * hour + 2 * minute)
        json_type
        (NoteId.to_string note_id)
        other_token
        created_db).0
      ≡ (handle_open_note concrete http limits no_faults
          (2 * hour + 2 * minute)
          json_type
          (NoteId.to_string note_id)
          other_token
          started_db).0)
    × ((handle_open_note concrete http limits no_faults
          (2 * hour + 2 * minute)
          json_type
          (NoteId.to_string note_id)
          other_token
          created_db).1
        ≡ created_db)
    × ((handle_open_note concrete http limits no_faults
          (2 * hour + 2 * minute)
          json_type
          (NoteId.to_string note_id)
          other_token
          started_db).1
        ≡ started_db)
handle_open_note_alike_example =
    handle_open_note_alike concrete http limits no_faults (2 * hour + 2 * minute) json_type
      (NoteId.to_string note_id) other_token note_id other_token (open_read other_token) created_db
      started_db note (verifier other_token) no_faults-IsQuiet (holds other_token) verifiers_differ
      no_note

handle_open_note-handle_create_note_example :
    (handle_open_note concrete http limits no_faults
      (2 * hour + 2 * minute)
      json_type
      (NoteId.to_string note_id)
      token
      created_db).0
    ≡ write_json 200 (open_note_response payload)
handle_open_note-handle_create_note_example =
    handle_open_note-handle_create_note concrete limits circumstances http json_type
      (NoteId.to_string note_id) [] json_type (NoteId.to_string note_id) token started_db created_db
      (write_json 201 (create_note_response note_id (pos 3600))) note_id token request hour
      no_faults (2 * hour + 2 * minute) handled refl (omega arith) create_read (open_read token)
      no_faults-IsQuiet (omega arith)
