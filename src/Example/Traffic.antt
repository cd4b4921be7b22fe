-- ===== src/Example/Traffic.antt =====
-- The server after a note is stored: the note is opened, and a cleanup runs.
use one_time_note.Base.{◌+◌, ◌*◌, ◌≢◌, ◌≡◌, refl, ap, List, [], ◌∷◌, arith}
use one_time_note.Clock.{Time, minute, hour}
use one_time_note.Database.{no_faults}
use one_time_note.Handlers.{handle_create_note, handle_open_note, answer_open}
use one_time_note.Http.{write_json, create_note_response, open_note_response}
use one_time_note.History.{Reach}
use one_time_note.NoteId
use one_time_note.Base.Int.{pos}
use one_time_note.Application.{App, Shared}
use one_time_note.Application.Events.{Event, background_cleanup, request, handle_all, IsTimely}
use one_time_note.Application.Reaching.{handle_all-Reach}
use one_time_note.Application.Once.{handle_create_note_once, handle_open_note_once}
use one_time_note.Example.Concrete.{concrete}
use one_time_note.Example.Scenario.{
  limits, circumstances, token, note_id, other_token, payload, marker_bytes, started_db, created_db,
  opened_db, first_opened,
}
use one_time_note.Example.Witnesses.{late, used}
use one_time_note.Example.Forwarding.{net}
use one_time_note.Example.Limiting.{counters}
use one_time_note.Example.Requests.{http, json_type, create_read, handled, open_read}
use one_time_note.Example.Requests
use one_time_note.Example.Booting.{engine, net_http, app, shared}
use one_time_note.Example.Pages.{opening, moment}

abbrev small_app : App net engine counters concrete http net_http
small_app = record app { limits = limits }

abbrev stored : Shared net engine counters concrete http net_http
stored = record shared { db = created_db }

abbrev start : Time
start = 2 * hour + minute

abbrev traffic : List (Event net engine counters concrete http net_http)
traffic =
    request (2 * hour + 2 * minute)
      (record moment { circumstances = circumstances; opened_at = 2 * hour + 2 * minute }) opening
    ∷ background_cleanup (2 * hour + 3 * minute) no_faults (2 * hour + 3 * minute)
    ∷ []

timely : IsTimely net engine counters concrete http net_http start traffic
timely = (omega arith, (omega arith, omega arith), (omega arith, omega arith, tt))

handle_all-Reach_example :
    Reach concrete limits
      (record { clock = start; db = created_db })
      (record {
        clock = 2 * hour + 3 * minute;
        db = (handle_all net engine counters concrete http net_http small_app traffic stored).db;
      })
handle_all-Reach_example =
    handle_all-Reach net engine counters concrete http net_http small_app start traffic stored
      timely

handle_create_note_once_example :
    (handle_create_note concrete http limits late json_type
      (NoteId.to_string note_id)
      []
      (handle_all net engine counters concrete http net_http small_app traffic stored).db).0.status
    ≢ 201
handle_create_note_once_example =
    handle_create_note_once net engine counters concrete http net_http small_app circumstances late
      json_type (NoteId.to_string note_id) [] json_type (NoteId.to_string note_id) [] started_db
      (write_json 201 (create_note_response note_id (pos 3600))) stored start traffic note_id
      note_id token token Requests.request Requests.request (pos hour) (pos hour) create_read
      handled refl timely create_read refl (omega arith) (λ p. cc)

abbrev read_once : Shared net engine counters concrete http net_http
read_once = record shared { db = opened_db }

first_read :
    handle_open_note concrete http limits no_faults
      (2 * hour + 2 * minute)
      json_type
      (NoteId.to_string note_id)
      token
      created_db
    ≡ (write_json 200 (open_note_response payload), opened_db)
unfolding handle_open_note
first_read = rw (open_read token, handle_open_note) (ap (answer_open concrete) first_opened)

handle_open_note_once_example :
    (handle_open_note concrete http limits no_faults
      (2 * hour + 4 * minute)
      json_type
      (NoteId.to_string note_id)
      other_token
      (handle_all net engine counters concrete http net_http small_app traffic
        read_once).db).0.status
    ≢ 200
handle_open_note_once_example =
    handle_open_note_once net engine counters concrete http net_http small_app no_faults no_faults
      (2 * hour + 2 * minute) (2 * hour + 4 * minute) json_type (NoteId.to_string note_id) token
      json_type (NoteId.to_string note_id) other_token created_db
      (write_json 200 (open_note_response payload)) read_once start traffic note_id token
      other_token marker_bytes (2 * hour + 15 * minute) (open_read token) first_read refl used
      timely (omega arith) (open_read other_token)
