-- ===== src/Example/Pages.antt =====
-- A request to the started server, and its pages in development and in production.
use one_time_note.Base.{ℕ, Option, none, some, ◌≡◌, ◌⊎◌, refl, true, false, [], ◌++◌, ◌*◌}
use one_time_note.Base.Text.{Bytes, codes}
use one_time_note.Clock.{hour}
use one_time_note.Database.{no_faults}
use one_time_note.NoteId
use one_time_note.Proxy.{HttpContext, found, trusted_proxy_middleware}
use one_time_note.Web.{Writer, new_writer, set_no_store}
use one_time_note.Views.{
  Engine, Views, view, find_template, internal_server_error, parse, parse_all, new_views,
  asset_path, trim_slashes, handle_create_note_view, handle_preview_note, not_found, error,
}
use one_time_note.Views.Reloading.{new_views_alike}
use one_time_note.Application.{Visit, Moment, proxy_config, serve_http}
use one_time_note.Application.Guarding.{HasPassed, serve_http_guarded}
use one_time_note.Example.Concrete.{concrete}
use one_time_note.Example.Scenario.{token, note_id, circumstances}
use one_time_note.Example.Forwarding.{net, visit}
use one_time_note.Example.Configuring.{settings}
use one_time_note.Example.Limiting.{counters}
use one_time_note.Example.Requests.{http}
use one_time_note.Example.Booting.{engine, net_http, views, app, shared}

abbrev pub opening : Visit net
opening = record {
  request = record visit {
    path = codes "/api/notes/" ++ (NoteId.to_string note_id ++ codes "/open");
  };
  accept = [];
  content_type = codes "application/json";
  content = token;
}

abbrev pub moment : Moment net engine counters concrete http net_http
moment = record {
  limited_at = 3 * hour;
  ticket_faults = no_faults;
  ticket_at = 3 * hour;
  burn_token = token;
  note_id = note_id;
  circumstances = circumstances;
  open_faults = no_faults;
  opened_at = 3 * hour;
}

serve_http_guarded_example :
    ((serve_http net engine counters concrete http net_http app moment opening new_writer
        shared).1.db
      ≡ shared.db)
    ⊎ ((ctx : HttpContext net) × (trusted_proxy_middleware net
            (proxy_config net settings)
            opening.request
          ≡ found ctx)
        × HasPassed net engine counters concrete http net_http app moment opening shared ctx
            (serve_http net engine counters concrete http net_http app moment opening new_writer
              shared).1.db)
serve_http_guarded_example =
    serve_http_guarded net engine counters concrete http net_http app moment opening new_writer
      shared

abbrev reloaded : Views net engine
reloaded = record views { templates = []; reload = true }

parsed_once :
    new_views net engine (codes "<html>") (codes "6170702e6a730078") false settings.brand
    ≡ some views
unfolding new_views parse_all parse asset_path trim_slashes
parsed_once = refl

parsed_later :
    new_views net engine (codes "<html>") (codes "6170702e6a730078") true settings.brand
    ≡ some reloaded
unfolding new_views
parsed_later = refl

new_views_alike_example :
    (handle_create_note_view net engine views settings [] new_writer
      ≡ handle_create_note_view net engine reloaded settings [] new_writer)
    × (handle_preview_note net engine views (codes "x") new_writer
        ≡ handle_preview_note net engine reloaded (codes "x") new_writer)
    × (not_found net engine views new_writer ≡ not_found net engine reloaded new_writer)
    × (error net engine views new_writer ≡ error net engine reloaded new_writer)
new_views_alike_example =
    new_views_alike net engine (codes "<html>") (codes "6170702e6a730078") settings.brand views
      reloaded parsed_once parsed_later settings [] (codes "x") new_writer

-- Templates that cannot be rendered.
abbrev broken : Engine net
broken = record {
  FileSystem = Bytes;
  Template = Bytes;
  parse_fs = λ path files names. none;
  execute = λ t model. none;
}

abbrev broken_views : Views net broken
broken_views = record {
  fs = [];
  asset_version = [];
  brand = settings.brand;
  templates = [];
  reload = true;
}

-- The status that is sent.
abbrev status_sent : Writer → Option ℕ
status_sent w = elim w.sent [ none ↦ none | some (code, header) ↦ some code ]

-- The page of a missing note is then sent with status 404, and 500 is recorded for the log.
abbrev missing_note : Writer
missing_note = not_found net broken broken_views new_writer

missing_note-status : (status_sent missing_note ≡ some 404) × (missing_note.status_code ≡ 500)
unfolding not_found view find_template parse internal_server_error set_no_store
missing_note-status = (refl, refl)
