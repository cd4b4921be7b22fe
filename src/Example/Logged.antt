-- ===== src/Example/Logged.antt =====
-- What is logged at the start of a server, and of a request to open a note.
use one_time_note.Base.{◌≡◌, refl, true, some, [], ◌∷◌, ◌==◌}
use one_time_note.Base.Text.{Bytes, codes}
use one_time_note.Base.Int.{pos}
use one_time_note.NoteId
use one_time_note.Clock.{hour}
use one_time_note.Errors.{other}
use one_time_note.Database.{Faults, no_faults}
use one_time_note.Handlers.{handle_create_ticket, handle_create_note, handle_open_note}
use one_time_note.Proxy.{trusted_proxy_middleware}
use one_time_note.Web.{new_writer}
use one_time_note.Logging.{
  text_value, number_value, flag, log_startup_summary, handle_create_ticket_log,
  handle_create_note_log, handle_open_note_log,
}
use one_time_note.Logging.Reported.{any_error, any_error-handlers}
use one_time_note.Logging.Discreet.{AreDiscreet}
use one_time_note.Application.{proxy_config}
use one_time_note.Application.Logged.{serve_log}
use one_time_note.Application.Logged.Discreet.{named_client, serve_log-AreDiscreet}
use one_time_note.Example.Concrete.{concrete}
use one_time_note.Example.Forwarding.{net}
use one_time_note.Example.Configuring.{settings}
use one_time_note.Example.Limiting.{counters}
use one_time_note.Example.Requests.{http, json_type}
use one_time_note.Example.Scenario.{limits, circumstances, token, note_id, created_db}
use one_time_note.Example.Booting.{engine, net_http, app, shared}
use one_time_note.Example.Pages.{opening, moment}

serve_log-AreDiscreet_example :
    AreDiscreet opening.request.method
      (codes "/"
        ∷ named_client net engine counters concrete http net_http app moment opening
            (codes "/")
            (trusted_proxy_middleware net (proxy_config net settings) opening.request)
        ∷ [])
      (serve_log net engine counters concrete http net_http app moment opening
        (codes "/")
        new_writer
        shared)
serve_log-AreDiscreet_example =
    serve_log-AreDiscreet net engine counters concrete http net_http app moment opening (codes "/")
      new_writer shared

started_log :
    (log_startup_summary net settings (codes "127.0.0.1:8080")).attributes
    ≡ (codes "event", text_value (codes "startup_completed"))
      ∷ (codes "environment", text_value (codes "production"))
      ∷ (codes "addr", text_value (codes "127.0.0.1:8080"))
      ∷ (codes "db_path", text_value (codes "data.db"))
      ∷ (codes "public_origin_host", text_value (codes "note.example"))
      ∷ (codes "trusted_proxy_count", number_value (pos 2))
      ∷ (codes "max_note_size", number_value (pos 2048))
      ∷ (codes "max_db_size", number_value (pos 1073741824))
      ∷ (codes "rate_limits_enabled", flag true)
      ∷ []
unfolding log_startup_summary
started_log = refl

abbrev route : Bytes
route = codes "POST /api/notes/{id}/open"

abbrev client : Bytes
client = codes "192.0.2.1"

abbrev path : Bytes
path = NoteId.to_string note_id

-- The database begins no transaction.
abbrev refused : Faults
refused = record no_faults { at_begin = some (other 0) }

any_error-handlers_example :
    (any_error
        (handle_create_ticket_log route client concrete refused hour token note_id created_db)
      ≡ ((handle_create_ticket concrete refused hour token note_id created_db).status == 500))
    × (any_error (
          handle_create_note_log route client concrete limits http circumstances json_type path
            token created_db)
        ≡ ((handle_create_note concrete http limits circumstances json_type path token
              created_db).0.status
            == 500))
    × (any_error (
          handle_open_note_log route client concrete limits http refused hour json_type path token
            created_db)
        ≡ ((handle_open_note concrete http limits refused hour json_type path token
              created_db).0.status
            == 500))
any_error-handlers_example =
    any_error-handlers route client concrete http limits json_type path token created_db refused
      hour token note_id circumstances
