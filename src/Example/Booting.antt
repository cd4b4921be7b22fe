-- ===== src/Example/Booting.antt =====
-- The first start of a server, whose file has no bucket yet, and a request to the server.
use one_time_note.Base.{◌*◌, ◌≡◌, ◌⊎◌, refl, ap, ◌∙◌, true, false, none, some, [], ◌∷◌, ◌++◌, arith}
use one_time_note.Base.Text.{Bytes, codes}
use one_time_note.Clock.{hour}
use one_time_note.Database.{Db, no_faults}
use one_time_note.Errors.{Result, ok}
use one_time_note.Platform.Buckets.{lookup}
use one_time_note.RateLimiter.{new_rate_limiter}
use one_time_note.RootKey.{ensure_in_tx, ensure_root_keys, put_root_key}
use one_time_note.Schema.{
  schema_version, current_schema_version, ensure_schema_version, encode_uint64, decode_uint64,
}
use one_time_note.Ticket.{ticket_data}
use one_time_note.NoteService.{new_limits}
use one_time_note.NoteService.Cleanup.{
  startup_maintenance, cleanup, cleanup_in_tx, keys_where, delete_notes, delete_tickets,
}
use one_time_note.Handlers.{handle_create_ticket}
use one_time_note.Configuration.Valid.{IsValid}
use one_time_note.OpenDb.{
  Stored, OpenError, opened, not_opened, stored_of, validate_db_parent, validate_db_file,
  ensure_buckets, initialize_in_tx, open_stored, open_db,
}
use one_time_note.OpenDb.Accepting.{Initializes, open_db_cases}
use one_time_note.Assets.{regular, hash_input, hex, new_asset_version}
use one_time_note.Views.{Engine, Views, parse, parse_all, new_views, asset_path, trim_slashes}
use one_time_note.Application.{NetHttp, App, Shared}
use one_time_note.Run.{Start, ready, application_file_systems, assemble, maintain, run}
use one_time_note.Run.Serving.{run-ready}
use one_time_note.Example.Paths.{mux}
use one_time_note.Example.Concrete.{concrete, write_times}
use one_time_note.Example.Pairs.{Pairs, visible}
use one_time_note.Example.Scenario.{secret, token, note_id}
use one_time_note.Example.Forwarding.{net}
use one_time_note.Example.Configuring.{parsers, variables, production, settings, settings_read}
use one_time_note.Example.Limiting.{counters}
use one_time_note.Example.Requests.{http}

abbrev pub engine : Engine net
engine = record {
  FileSystem = Bytes;
  Template = Bytes;
  parse_fs = λ path files names. some (files ++ path (codes "/app.js"));
  execute = λ t model. some t;
}

abbrev pub net_http : NetHttp net
net_http = record {
  mux = mux;
  cross_origin = λ v. none;
  file_server = λ path w. w;
  format_seconds = λ d. codes "1";
}

abbrev new_file : Stored Pairs
new_file = record {
  payloads = none;
  config = none;
  metadata = none;
  root_keys = none;
  used_tickets = none;
}

abbrev first_start : Start net parsers engine counters concrete http net_http
first_start = record {
  getenv = some variables;
  options = production;
  fresh = [];
  disk = record {
    parent_is_dir = some true;
    stored = some new_file;
    file_is_there = true;
    at_create = λ name. none;
    faults = no_faults;
  };
  key_faults = no_faults;
  cleanup_faults = no_faults;
  key_at = hour;
  cleanup_at = hour;
  secret = secret;
  sum256 = λ s. s;
  static_files = λ dev. (codes "app.js", regular (some (codes "x"))) ∷ [];
  template_files = λ dev. codes "<html>";
}

abbrev first_db : Db Pairs
first_db = record {
  payloads = [];
  config = (codes "schema_version", encode_uint64 1) ∷ [];
  metadata = [];
  root_keys = (codes "root_key", encode_uint64 hour ++ (encode_uint64 0 ++ secret)) ∷ [];
  used_tickets = [];
}

abbrev pub views : Views net engine
views = record {
  fs = codes "<html>";
  asset_version = codes "6170702e6a730078";
  brand = settings.brand;
  templates =
      (codes "create", codes "<html>/static/6170702e6a730078/app.js")
      ∷ (codes "error", codes "<html>/static/6170702e6a730078/app.js")
      ∷ (codes "note", codes "<html>/static/6170702e6a730078/app.js")
      ∷ [];
  reload = false;
}

abbrev pub app : App net engine counters concrete http net_http
app = record {
  asset_version = codes "6170702e6a730078";
  cfg = settings;
  limits = new_limits 2048;
  views = views;
}

abbrev pub shared : Shared net engine counters concrete http net_http
shared = record { db = first_db; rate_limiter = new_rate_limiter counters settings.rate_limit }

assembled :
    assemble net parsers engine counters concrete http net_http first_start settings first_db
    ≡ ready app shared
unfolding assemble application_file_systems new_asset_version hash_input hex new_views parse_all
    parse asset_path trim_slashes
assembled = refl

abbrev new_db : Db Pairs
new_db = record first_db { root_keys = [] }

file_opened :
    open_db concrete [] settings.max_db_size first_start.disk
    ≡ (opened new_db, some (stored_of new_db))
unfolding open_db open_stored validate_db_parent validate_db_file initialize_in_tx ensure_buckets
    ensure_schema_version schema_version decode_uint64 lookup encode_uint64
file_opened = refl

maintained :
    startup_maintenance concrete (new_limits 2048) (no_faults, no_faults) (hour, hour) secret new_db
    ≡ (ok tt, first_db)
unfolding startup_maintenance ensure_root_keys ensure_in_tx put_root_key write_times cleanup
    cleanup_in_tx keys_where delete_notes delete_tickets lookup encode_uint64 visible
maintained = refl

started : run net parsers engine counters concrete http net_http first_start ≡ ready app shared
unfolding run maintain
started =
    rw (settings_read, file_opened, maintained, run, maintain)
      (ap
          (λ (x : Result (Unit {0}) × Db Pairs).
            assemble net parsers engine counters concrete http net_http first_start settings x.1)
          maintained
        ∙ assembled)

run-ready_example :
    IsValid net parsers production settings
    × (schema_version concrete first_db ≡ current_schema_version)
    × ((handle_create_ticket concrete no_faults (2 * hour) token note_id first_db).status ≡ 200)
unfolding ticket_data write_times
run-ready_example =
    run-ready net parsers engine counters concrete http net_http first_start app shared no_faults
      (2 * hour) token note_id (omega arith) started refl (λ secret info. (_, refl))
      (λ verifier. (_, refl))

open_db_cases_example :
    ((e : OpenError) × (open_db concrete [] settings.max_db_size first_start.disk
        ≡ (not_opened e, first_start.disk.stored)))
    ⊎ ((s : Stored Pairs) × (db : Db Pairs) × (first_start.disk.stored ≡ some s)
        × (open_db concrete [] settings.max_db_size first_start.disk
            ≡ (opened db, some (stored_of db)))
        × Initializes concrete [] s db)
open_db_cases_example = open_db_cases concrete [] settings.max_db_size first_start.disk
